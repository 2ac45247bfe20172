-- ===== src/Task/Create.antt =====
-- kernel/src/task.c: `task_create` puts a task at the end of the circular list.
use tuna_os.Base.{
  ℕ, suc, ◌+◌, ◌<◌, ◌≡◌, ◌≢◌, refl, ◌⊎◌, ◌↔◌, inl, inr, Bool, true, false, Option, some, List, [],
  ◌∷◌, ◌++◌, ◌==◌, ==_iff, ==_refl, arith, Bool-cases, sym, ◌∙◌, ap, length, length-append, u64,
}
use tuna_os.Kheap.{Kheap, kmalloc}
use tuna_os.Kheap.Live.{IsLive, kmalloc-IsLive, kfree-IsLive}
use tuna_os.Kheap.Blocks.{Block}
use tuna_os.Kheap.Chain.{IsHeap, IsHeap_unique}
use tuna_os.Task.Freed.{Frees, Frees-refl}
use tuna_os.Task.{
  Task, Tasks, walk_fuel, task_ready, node_size, task_stack_size, initial_stack, add_task,
  task_create,
}
use tuna_os.Task.Lists.{member, member-append, member-apart, IsDistinct-snoc, IsDistinct-insert}
use tuna_os.Task.Ring.{
  IsCycle, Follows-agree, find_prev-last, owned, all_owned, all_owned-append, all_owned-agree,
  IsDistinct-tasks, AllLive, IsRing, nonzero, member-all_owned,
}
use tuna_os.Task.Insert.{
  inserted, insert_task-inserted, inserted-IsCycle, filled, add_task-inserted, task_create-added,
  task_create-no_node, task_create-no_stack,
}

-- The new task is the last of the list and ready; its stack holds the frame that `switch_to` pops.
pub record IsCreated (trampoline entry : ℕ) (s : Tasks) (old : List ℕ) (r : Option (ℕ × Tasks))
    : Type 0 where
  pub t : ℕ
  pub state : Tasks
  pub returns : r ≡ some (t, state)
  pub not_null : t ≢ 0
  pub new : member t old ≡ false
  pub ring : IsRing state (old ++ t ∷ [])
  pub ready : (state.nodes t).state ≡ task_ready
  pub numbered : ((state.nodes t).id ≡ s.next_id) × (state.next_id ≡ u64 (s.next_id + 1))
  pub same_list : (state.task_list ≡ s.task_list) × (state.current_task ≡ s.current_task)
  pub same_tasks :
      (x : ℕ)
      → member x old ≡ true
      → ((state.nodes x).id ≡ (s.nodes x).id)
        × ((state.nodes x).state ≡ (s.nodes x).state)
        × ((state.nodes x).rsp ≡ (s.nodes x).rsp)
        × ((state.nodes x).stack ≡ (s.nodes x).stack)
  pub frame :
      ((state.nodes t).rsp, state.words)
      ≡ initial_stack trampoline entry (state.nodes t).stack s.words

-- `kmalloc` gave NULL for the node, or a node and then NULL for the stack.
abbrev pub LacksMemory : Kheap → Type 0
LacksMemory h =
    (kmalloc node_size h ≡ some (0, h))
    ⊎ ((t : ℕ) × (h' : Kheap) × (kmalloc node_size h ≡ some (t, h'))
        × (t ≢ 0)
        × (kmalloc task_stack_size h' ≡ some (0, h')))

-- No memory: the list and its memory are as they were, and no pointer is live that was not.
pub record IsRefused (s : Tasks) (old : List ℕ) (r : Option (ℕ × Tasks)) : Type 0 where
  pub heap : Kheap
  pub returns : r ≡ some (0, record s { heap = heap })
  pub reason : LacksMemory s.heap
  pub freed : Frees s.heap heap []
  pub ring : IsRing (record s { heap = heap }) old

not-member :
    (old : List ℕ) (P : ℕ → Type 0) (t : ℕ)
    → ((p : ℕ) → member p old ≡ true → P p)
    → ¬ P t
    → member t old ≡ false
not-member old P t all not_it = elim (Bool-cases (member t old)) [
  | inl m ↦ absurd (not_it (all t m))
  | inr n ↦ n
]

module _ (trampoline entry : ℕ) (s : Tasks) (ts : List ℕ) (ring : IsRing s (s.task_list ∷ ts))
    (room : suc (suc (length ts)) < walk_fuel) where
  abbrev h : ℕ
  h = s.task_list

  abbrev old : List ℕ
  old = all_owned s.nodes (h ∷ ts)

  module _ (t stack : ℕ) (heap : Kheap) (t_new : member t old ≡ false)
      (stack_new : member stack old ≡ false) (apart : (stack == t) ≡ false)
      (t_there : (t == 0) ≡ false) (stack_there : (stack == 0) ≡ false)
      (live : AllLive heap (old ++ t ∷ stack ∷ [])) where
    abbrev s₁ : Tasks
    s₁ = filled trampoline entry t stack (record s { heap = heap })

    abbrev s₂ : Tasks
    s₂ = inserted t h ts s₁

    t_not_task : member t (h ∷ ts) ≡ false
    t_not_task =
        not-member (h ∷ ts) (λ p. member p old ≡ true) t
          (λ p m. member-all_owned s.nodes p (h ∷ ts) m)
          (λ m. let clash : ◌≡◌ {A = Bool} true false = sym m ∙ t_new in cc)

    old_task : (x : ℕ) → member x (h ∷ ts) ≡ true → s₁.nodes x ≡ s.nodes x
    old_task x m = let other = member-apart x t (h ∷ ts) m t_not_task in rw other refl

    old_fields :
        (x : ℕ)
        → member x (h ∷ ts) ≡ true
        → ((s₂.nodes x).id ≡ (s.nodes x).id)
          × ((s₂.nodes x).state ≡ (s.nodes x).state)
          × ((s₂.nodes x).rsp ≡ (s.nodes x).rsp)
          × ((s₂.nodes x).stack ≡ (s.nodes x).stack)
    old_fields x m = let other = member-apart x t (h ∷ ts) m t_not_task in ground arith

    new_fields :
        ((s₂.nodes t).id ≡ s.next_id)
        × ((s₂.nodes t).state ≡ task_ready)
        × ((s₂.nodes t).rsp ≡ (initial_stack trampoline entry stack s.words).0)
        × ((s₂.nodes t).stack ≡ stack)
    new_fields = ground (arith, ==_refl t)

    owned_after : all_owned s₂.nodes (h ∷ ts ++ t ∷ []) ≡ old ++ t ∷ stack ∷ []
    owned_after =
        let mine : owned (s₂.nodes t) t ++ [] ≡ t ∷ stack ∷ [] =
          rw (new_fields.3, stack_there) refl in
        all_owned-append s₂.nodes (h ∷ ts) (t ∷ [])
        ∙ rw (all_owned-agree s.nodes s₂.nodes (h ∷ ts) (λ x m. (old_fields x m).3), mine) refl

    cycle₁ : IsCycle s₁.nodes (h ∷ ts)
    cycle₁ = rw (old_task h (ground (arith, ==_refl h))) (
        Follows-agree s.nodes s₁.nodes h (s.nodes h).next ts
          (λ x m. ap (λ (k : Task). k.next) (old_task x (ground arith))) ring.cycle)

    added :
        IsCreated trampoline entry s
          (h ∷ ts)
          (add_task trampoline entry t stack (record s { heap = heap }))
    added = record {
      t = t;
      state = s₂;
      returns =
          add_task-inserted trampoline entry t stack (record s { heap = heap }) s₂
            (insert_task-inserted t h ts s₁ (nonzero s h (h ∷ ts) ring (ground (arith, ==_refl h)))
              (find_prev-last walk_fuel h h ts s₁.nodes (omega (arith, room)) cycle₁
                (IsDistinct-tasks s.nodes (h ∷ ts) ring.distinct).0));
      not_null = ground (arith, t_there);
      new = t_not_task;
      ring = record {
        cycle =
            inserted-IsCycle t h ts s₁.nodes cycle₁
              (IsDistinct-tasks s.nodes (h ∷ ts) ring.distinct) t_not_task;
        distinct = rw owned_after (
            IsDistinct-insert t old (stack ∷ []) (IsDistinct-snoc stack old ring.distinct stack_new)
              (ground (arith, member-append t old (stack ∷ []))));
        live = rw owned_after live;
        listed = ground (arith, ==_refl h);
        room = omega (arith, room, length-append ts (t ∷ []));
      };
      ready = new_fields.1;
      numbered = (new_fields.0, refl);
      same_list = (refl, refl);
      same_tasks = old_fields;
      frame = rw (new_fields.2, new_fields.3) refl;
    }

  -- No memory for the stack: the node is freed again.
  no_stack :
      (t : ℕ) (heap : Kheap) (bs bs' : List Block)
      → kmalloc node_size s.heap ≡ some (t, heap)
      → t ≢ 0
      → kmalloc task_stack_size heap ≡ some (0, heap)
      → IsHeap s.heap bs
      → IsHeap heap bs'
      → (¬ IsLive s.heap bs t)
      → member t old ≡ false
      → ((x : ℕ) → IsLive heap bs' x ↔ ((x ≡ t) ⊎ IsLive s.heap bs x))
      → ((p : ℕ) → member p old ≡ true → IsLive s.heap bs p)
      → IsRefused s (h ∷ ts) (task_create trampoline entry s)
  no_stack t heap bs bs' e t0 e' first well new out now live =
      let (heap', bs'', freed, well'', left) =
        kfree-IsLive heap bs' t well ((now t).1 (inl refl)) in
      record {
        heap = heap';
        returns =
            task_create-no_stack trampoline entry t s heap heap heap' e (ground (arith, t0)) e'
              freed;
        reason = inr (t, heap, e, t0, e');
        freed = λ cs u.
            let same : bs ≡ cs = IsHeap_unique s.heap bs cs first u in
            (
              bs'',
              well'',
              λ x. (
                λ l.
                    let (l', other) = (left x).0 l in
                    elim ((now x).0 l') [
                      | inl at ↦ absurd (other at)
                      | inr old' ↦ (rw same at old', refl)
                    ],
                λ (l, _).
                    let l' : IsLive s.heap bs x = rw (sym same) at l in
                    (left x).1 ((now x).1 (inr l'), λ at. new (rw at at l')),
              ),
            );
        ring = record {
          cycle = ring.cycle;
          distinct = ring.distinct;
          live = (
            bs'',
            well'',
            λ p m.
                let other = member-apart p t old m out in
                (left p).1 ((now p).1 (inr (live p m)), ground (arith, other)),
          );
          listed = ring.listed;
          room = ring.room;
        };
      }

  -- Memory for both.
  both :
      (t stack : ℕ) (heap heap' : Kheap) (bs bs' bs'' : List Block)
      → kmalloc node_size s.heap ≡ some (t, heap)
      → t ≢ 0
      → kmalloc task_stack_size heap ≡ some (stack, heap')
      → stack ≢ 0
      → IsHeap heap' bs''
      → member t old ≡ false
      → ((x : ℕ) → IsLive heap bs' x ↔ ((x ≡ t) ⊎ IsLive s.heap bs x))
      → ¬ IsLive heap bs' stack
      → ((x : ℕ) → IsLive heap' bs'' x ↔ ((x ≡ stack) ⊎ IsLive heap bs' x))
      → ((p : ℕ) → member p old ≡ true → IsLive s.heap bs p)
      → IsCreated trampoline entry s (h ∷ ts) (task_create trampoline entry s)
  both t stack heap heap' bs bs' bs'' e t0 e' k0 well out now new now' live =
      let t_there : (t == 0) ≡ false = ground (arith, t0) in
      let stack_there : (stack == 0) ≡ false = ground (arith, k0) in
      let other : stack ≢ t = λ at. new ((now stack).1 (inl at)) in
      rw (task_create-added trampoline entry t stack s heap heap' e e' t_there stack_there) (
        added t stack heap' out
          (not-member old (IsLive heap bs') stack (λ p m. (now p).1 (inr (live p m))) new)
          (ground (arith, other)) t_there stack_there (bs'', well, λ p m. still p m))
    where
      still : (p : ℕ) → member p (old ++ t ∷ stack ∷ []) ≡ true → IsLive heap' bs'' p
      still p m = elim (Bool-cases (member p old)) [
        | inl mine ↦ (now' p).1 (inr ((now p).1 (inr (live p mine))))
        | inr not_mine ↦ elim (Bool-cases (t == p)) [
          | inl at ↦ (now' p).1 (inr ((now p).1 (inl (ground (arith, ==_iff t p)))))
          | inr not_t ↦
              (now' p).1
                (inl (ground (arith, ==_iff stack p, member-append p old (t ∷ stack ∷ []))))
        ]
      ]

  -- `task_create` returns, in a well-formed list that starts at `task_list`: the new task is its
  -- last one, with its memory; or `kmalloc` had none for its node or for its stack, the result is
  -- NULL, and the list and the live pointers of the heap are as before.
  pub task_create-cases :
      IsCreated trampoline entry s (h ∷ ts) (task_create trampoline entry s)
      ⊎ IsRefused s (h ∷ ts) (task_create trampoline entry s)
  task_create-cases =
      let (bs, well, live) = ring.live in
      elim (kmalloc-IsLive s.heap bs node_size well (omega arith) (omega arith)) [
        | inl e ↦ inr (record {
          heap = s.heap;
          returns = task_create-no_node trampoline entry s s.heap e;
          reason = inl e;
          freed = Frees-refl s.heap;
          ring = ring;
        })
        | inr (t, heap, bs', e, well', t0, new, now) ↦
            let out = not-member old (IsLive s.heap bs) t live new in
            elim (kmalloc-IsLive heap bs' task_stack_size well' (omega arith) (omega arith)) [
              | inl e' ↦ inr (no_stack t heap bs bs' e t0 e' well well' new out now live)
              | inr (stack, heap', bs'', e', well'', k0, new', now') ↦
                  inl (both t stack heap heap' bs bs' bs'' e t0 e' k0 well'' out now new' now' live)
            ]
      ]
