-- ===== src/Task/Insert.antt =====
-- kernel/src/task.c: the steps of `task_create`.
use tuna_os.Base.{
  ℕ, ◌+◌, ◌≡◌, refl, true, false, some, List, [], ◌∷◌, ◌++◌, ◌==◌, ==_refl, arith, update, u64,
}
use tuna_os.Kheap.{Kheap, kmalloc, kfree}
use tuna_os.Task.{
  Task, Tasks, find_prev, set_next, walk_fuel, task_ready, node_size, task_stack_size,
  initial_stack, insert_task, add_task, task_create,
}
use tuna_os.Task.Lists.{member, IsDistinct, member-apart, last}
use tuna_os.Task.Ring.{IsCycle, Follows-append, Follows-agree, relink-last}

-- The state after the insertion of `t` in front of the head `h`.
abbrev pub inserted : (t : ℕ) (h : ℕ) (ts : List ℕ) → Tasks → Tasks
inserted t h ts s = record s { nodes = set_next t s.task_list (set_next (last h ts) t s.nodes) }

pub insert_task-inserted :
    (t h : ℕ) (ts : List ℕ) (s : Tasks)
    → (s.task_list == 0) ≡ false
    → find_prev walk_fuel s.task_list s.task_list s.nodes ≡ some (last h ts)
    → insert_task t s ≡ some (inserted t h ts s)
unfolding insert_task
insert_task-inserted t h ts s e f = rw (e, insert_task, f) refl

-- A circular list that is entered at `h` goes on to `t` before it returns.
pub inserted-IsCycle :
    (t h : ℕ) (ts : List ℕ) (nodes : ℕ → Task)
    → IsCycle nodes (h ∷ ts)
    → IsDistinct (h ∷ ts)
    → member t (h ∷ ts) ≡ false
    → IsCycle (set_next t h (set_next (last h ts) t nodes)) (h ∷ ts ++ t ∷ [])
inserted-IsCycle t h ts nodes cycle d out =
    Follows-append g t h (g h).next ts (t ∷ [])
      (rw (kept h (ground (arith, ==_refl h))) (
        Follows-agree f g t (f h).next ts (λ x m. kept x (ground arith))
          (relink-last nodes h t h ts d cycle)))
      (refl, ground (arith, ==_refl t))
  where
    f : ℕ → Task
    f = set_next (last h ts) t nodes

    g : ℕ → Task
    g = set_next t h f

    kept : (x : ℕ) → member x (h ∷ ts) ≡ true → (g x).next ≡ (f x).next
    kept x m = let apart = member-apart x t (h ∷ ts) m out in ground arith

-- What `add_task` puts at `t`, and the state before the insertion.
abbrev fresh : (t stack sp : ℕ) → Tasks → Task
fresh t stack sp s = record (s.nodes t) {
  id = s.next_id;
  rsp = sp;
  state = task_ready;
  stack = stack;
}

abbrev pub filled : (trampoline entry t stack : ℕ) → Tasks → Tasks
filled trampoline entry t stack s =
    let (sp, words) = initial_stack trampoline entry stack s.words in
    record s {
      next_id = u64 (s.next_id + 1);
      nodes = update s.nodes t (fresh t stack sp s);
      words = words;
    }

pub add_task-inserted :
    (trampoline entry t stack : ℕ) (s s' : Tasks)
    → insert_task t (filled trampoline entry t stack s) ≡ some s'
    → add_task trampoline entry t stack s ≡ some (t, s')
unfolding add_task
add_task-inserted trampoline entry t stack s s' e = rw (e, add_task) refl

pub task_create-added :
    (trampoline entry t stack : ℕ) (s : Tasks) (heap heap' : Kheap)
    → kmalloc node_size s.heap ≡ some (t, heap)
    → kmalloc task_stack_size heap ≡ some (stack, heap')
    → (t == 0) ≡ false
    → (stack == 0) ≡ false
    → task_create trampoline entry s ≡ add_task trampoline entry t stack (record s { heap = heap' })
unfolding task_create
task_create-added trampoline entry t stack s heap heap' a b t0 s0 =
    rw (a, t0, task_create, b, s0) refl

pub task_create-no_node :
    (trampoline entry : ℕ) (s : Tasks) (heap : Kheap)
    → kmalloc node_size s.heap ≡ some (0, heap)
    → task_create trampoline entry s ≡ some (0, record s { heap = heap })
unfolding task_create
task_create-no_node trampoline entry s heap a = rw (a, task_create) refl

pub task_create-no_stack :
    (trampoline entry t : ℕ) (s : Tasks) (heap heap' heap'' : Kheap)
    → kmalloc node_size s.heap ≡ some (t, heap)
    → (t == 0) ≡ false
    → kmalloc task_stack_size heap ≡ some (0, heap')
    → kfree t heap' ≡ some heap''
    → task_create trampoline entry s ≡ some (0, record s { heap = heap'' })
unfolding task_create
task_create-no_stack trampoline entry t s heap heap' heap'' a t0 b c =
    rw (a, t0, task_create, b, c) refl
