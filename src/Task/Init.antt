-- ===== src/Task/Init.antt =====
-- kernel/src/task.c: `task_init` makes the kernel's own thread of control the first task.
use tuna_os.Base.{
  ℕ, ◌+◌, ◌≡◌, refl, ◌⊎◌, inl, inr, false, some, List, [], ◌==◌, ==_iff, ==_refl, arith, u64,
  update,
}
use tuna_os.Kheap.{Kheap, kmalloc}
use tuna_os.Kheap.Blocks.{Block}
use tuna_os.Kheap.Chain.{IsHeap}
use tuna_os.Kheap.Live.{kmalloc-IsLive}
use tuna_os.Task.{Tasks, node_size, task_running, task_init}
use tuna_os.Task.Turn.{IsSched}

abbrev booted : (boot : ℕ) → Kheap → Tasks → Tasks
booted boot heap s = record s {
  next_id = u64 (s.next_id + 1);
  current_task = boot;
  task_list = boot;
  nodes =
      update s.nodes boot
        (record { id = s.next_id; rsp = 0; state = task_running; stack = 0; next = boot });
  heap = heap;
}

task_init-booted :
    (s : Tasks) (boot : ℕ) (heap : Kheap)
    → kmalloc node_size s.heap ≡ some (boot, heap)
    → (boot == 0) ≡ false
    → task_init s ≡ some (booted boot heap s)
unfolding task_init
task_init-booted s boot heap e n = rw (e, task_init, n) refl

task_init-failed : (s : Tasks) → kmalloc node_size s.heap ≡ some (0, s.heap) → task_init s ≡ some s
unfolding task_init
task_init-failed s e = rw (e, task_init) refl

-- `task_init` on a well-formed heap leaves one task, which runs, alone in the circular list; or
-- there was no memory, and nothing changes.
pub task_init-cases :
    (s : Tasks) (bs : List Block)
    → IsHeap s.heap bs
    → ((boot : ℕ) × (s' : Tasks) × (task_init s ≡ some s')
        × IsSched s' boot []
        × (s'.task_list ≡ boot)
        × ((s'.nodes boot).id ≡ s.next_id))
      ⊎ (task_init s ≡ some s)
task_init-cases s bs well =
    elim (kmalloc-IsLive s.heap bs node_size well (omega arith) (omega arith)) [
      | inl e ↦ inr (task_init-failed s e)
      | inr (boot, heap, bs', e, well', nonzero, new, now) ↦ inl (
        boot,
        booted boot heap s,
        task_init-booted s boot heap e (ground (arith, nonzero)),
        record {
          current = refl;
          ring = record {
            cycle = ground (arith, ==_refl boot);
            distinct = rw (==_refl boot) (refl, tt);
            live =
                rw (==_refl boot)
                  (bs', well', λ p m. (now p).1 (inl (ground (arith, ==_iff boot p))));
            listed = ground (arith, ==_refl boot);
            room = omega arith;
          };
          runs = inl (ground (arith, ==_refl boot));
          waiting = tt;
        },
        refl,
        ground (arith, ==_refl boot),
      )
    ]
