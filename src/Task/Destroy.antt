-- ===== src/Task/Destroy.antt =====
-- kernel/src/task.c: `task_destroy` takes one task out of the circular list and frees its memory.
use tuna_os.Base.{
  ℕ, suc, ◌<◌, ◌≡◌, refl, inl, inr, true, false, Option, some, List, [], ◌∷◌, ◌++◌, ◌==◌, ==_iff,
  ==_refl, if◌then◌else◌, arith, Bool-cases, sym, ◌∙◌, ap, length, length-append,
}
use tuna_os.Kheap.{Kheap, kfree}
use tuna_os.Task.Freed.{Frees, Frees-trans, Frees-same, kfree-Frees}
use tuna_os.Task.{Task, Tasks, find_prev, set_next, walk_fuel, remove_task, free_task, task_destroy}
use tuna_os.Task.Lists.{
  member, IsDistinct, member-append, IsDistinct-append, last, last-append, member-split,
}
use tuna_os.Task.Ring.{
  Follows, IsCycle, Follows-split, find_prev-last, relink-last, owned, all_owned, all_owned-agree,
  IsDistinct-tasks, AllLive, IsRing, member-all_owned,
}

-- The walk from any node of the list finds the node in front of `t`.
find_prev-within :
    (nodes : ℕ → Task) (t h p : ℕ) (before after : List ℕ)
    → Follows nodes t (before ++ h ∷ after) p
    → member t (before ++ h ∷ after) ≡ false
    → length (before ++ h ∷ after) < walk_fuel
    → find_prev walk_fuel t h nodes ≡ some (last t (before ++ h ∷ after))
find_prev-within nodes t h p before after f out room =
    let (_, from) = Follows-split nodes t p h before after f in
    rw (last-append t h before after) (
      find_prev-last walk_fuel t h after nodes
        (omega (arith, room, length-append before (h ∷ after))) from
        (ground (arith, member-append t before (h ∷ after))))

pub find_prev-ring :
    (nodes : ℕ → Task) (t h : ℕ) (r : List ℕ)
    → IsCycle nodes (t ∷ r)
    → IsDistinct (t ∷ r)
    → member h (t ∷ r) ≡ true
    → suc (length r) < walk_fuel
    → find_prev walk_fuel t h nodes ≡ some (last t r)
find_prev-ring nodes t h r c d listed room = elim (Bool-cases (t == h)) [
  | inl e ↦
      let at : h ≡ t = ground (arith, ==_iff t h) in
      rw at (find_prev-last walk_fuel t t r nodes (omega (arith, room)) c d.0)
  | inr n ↦
      let (before, after, e) = member-split h r (ground arith) in
      rw e (
        find_prev-within nodes t h (nodes t).next before after (rw e at c) (rw e at d.0)
          (omega (arith, rw e at room)))
]

-- `kfree` of one live pointer of many.
kfree-AllLive :
    (h : Kheap) (p : ℕ) (ps qs : List ℕ)
    → AllLive h ps
    → member p ps ≡ true
    → member p qs ≡ false
    → ((x : ℕ) → member x qs ≡ true → member x ps ≡ true)
    → (h' : Kheap) × (kfree p h ≡ some h') × AllLive h' qs × Frees h h' (p ∷ [])
kfree-AllLive h p ps qs (bs, well, live) m out sub =
    let (h', e, frees) = kfree-Frees h bs p well (live p m) in
    let (bs', well', still) = frees bs well in
    (
      h',
      e,
      (bs', well', λ x m'. (still x).1 (live x (sub x m'), ground (arith, ==_iff p x))),
      frees,
    )

free_task-only :
    (s : Tasks) (t : ℕ) (h : Kheap)
    → ((s.nodes t).stack == 0) ≡ true
    → kfree t s.heap ≡ some h
    → free_task t s ≡ some (record s { heap = h })
unfolding free_task
free_task-only s t h e r = rw (e, free_task, r) refl

free_task-both :
    (s : Tasks) (t : ℕ) (g h : Kheap)
    → ((s.nodes t).stack == 0) ≡ false
    → kfree (s.nodes t).stack s.heap ≡ some g
    → kfree t g ≡ some h
    → free_task t s ≡ some (record s { heap = h })
unfolding free_task
free_task-both s t g h e r r' = rw (e, free_task, r, r') refl

free_task-AllLive :
    (s : Tasks) (t : ℕ) (rest : List ℕ)
    → AllLive s.heap (owned (s.nodes t) t ++ rest)
    → IsDistinct (owned (s.nodes t) t ++ rest)
    → (h : Kheap) × (free_task t s ≡ some (record s { heap = h }))
      × AllLive h rest
      × Frees s.heap h (owned (s.nodes t) t)
free_task-AllLive s t rest live d = elim (Bool-cases ((s.nodes t).stack == 0)) [
  | inl e ↦
      let (h, r, l, f) =
        kfree-AllLive s.heap t (t ∷ rest) rest (rw e at live) (ground (arith, ==_refl t))
          (rw e at d).0 (λ x m. ground arith) in
      (h, free_task-only s t h e r, l, rw e f)
  | inr n ↦
      let (out, (out', rest')) = rw n at d in
      let (h, r, l, f) =
        kfree-AllLive s.heap (s.nodes t).stack (t ∷ (s.nodes t).stack ∷ rest) (t ∷ rest)
          (rw n at live) (ground (arith, ==_refl (s.nodes t).stack))
          (ground (arith, ==_iff t (s.nodes t).stack, ==_iff (s.nodes t).stack t))
          (λ x m. ground arith) in
      let (h', r', l', f') =
        kfree-AllLive h t (t ∷ rest) rest l (ground (arith, ==_refl t)) (ground arith)
          (λ x m. ground arith) in
      (
        h',
        free_task-both s t h h' n r r',
        l',
        rw n (
            Frees-same s.heap h' ((s.nodes t).stack ∷ t ∷ []) (t ∷ (s.nodes t).stack ∷ [])
              (λ x. ground arith) (Frees-trans s.heap h h' ((s.nodes t).stack ∷ []) (t ∷ []) f f')),
      )
]

-- The list without `t`, its head moved on where it was `t`.
abbrev pub unlinked : (t : ℕ) → List ℕ → Tasks → Tasks
unlinked t r s = record s {
  nodes = set_next (last t r) (s.nodes t).next s.nodes;
  task_list = if s.task_list == t then (s.nodes t).next else s.task_list;
}

remove_task-unlinked :
    (s : Tasks) (t : ℕ) (r : List ℕ)
    → ((s.nodes t).next == t) ≡ false
    → find_prev walk_fuel t s.task_list s.nodes ≡ some (last t r)
    → remove_task t s ≡ some (unlinked t r s)
unfolding remove_task
remove_task-unlinked s t r e f = rw (e, remove_task, f) refl

task_destroy-freed :
    (s s' : Tasks) (t : ℕ) (h : Kheap)
    → (t == 0) ≡ false
    → remove_task t s ≡ some s'
    → free_task t s' ≡ some (record s' { heap = h })
    → task_destroy t s ≡ some (record s' { heap = h })
unfolding task_destroy
task_destroy-freed s s' t h e r f = rw (e, task_destroy, r, f) refl

listed-next :
    (h t n y : ℕ) (ys : List ℕ)
    → n ≡ y
    → member h (t ∷ y ∷ ys) ≡ true
    → member (if h == t then n else h) (y ∷ ys) ≡ true
listed-next h t n y ys e m = elim (Bool-cases (h == t)) [
  | inl at ↦
      let moved : (if h == t then n else h) ≡ y = rw at e in
      ap (λ (k : ℕ). member k (y ∷ ys)) moved ∙ ground (arith, ==_refl y)
  | inr apart ↦
      let stays : (if h == t then n else h) ≡ h = rw apart refl in
      ap (λ (k : ℕ). member k (y ∷ ys)) stays ∙ ground (arith, ==_iff h t, ==_iff t h)
]

-- The state after `t` was taken out.
pub record IsDestroyed (s : Tasks) (t : ℕ) (r : List ℕ) (result : Option Tasks) : Type 0 where
  pub state : Tasks
  pub returns : result ≡ some state
  pub ring : IsRing state r
  pub freed : Frees s.heap state.heap (owned (s.nodes t) t)
  pub same_current : state.current_task ≡ s.current_task
  pub same_ids : state.next_id ≡ s.next_id
  pub same_words : state.words ≡ s.words
  pub same_tasks :
      (x : ℕ)
      → ((state.nodes x).id ≡ (s.nodes x).id)
        × ((state.nodes x).state ≡ (s.nodes x).state)
        × ((state.nodes x).rsp ≡ (s.nodes x).rsp)
        × ((state.nodes x).stack ≡ (s.nodes x).stack)

-- `task_destroy` of a task of a circular list with at least one other task returns. The other
-- tasks form the list, in their order, and are as they were; the live pointers of the heap are
-- those before without the task's node and, where it has one, its stack.
pub task_destroy-IsDestroyed :
    (s : Tasks) (t y : ℕ) (ys : List ℕ)
    → IsRing s (t ∷ y ∷ ys)
    → IsDestroyed s t (y ∷ ys) (task_destroy t s)
task_destroy-IsDestroyed s t y ys ring = record {
  state = record s' { heap = freed.0 };
  returns =
      task_destroy-freed s s' t freed.0 nonzero (remove_task-unlinked s t (y ∷ ys) other walk)
        freed.1;
  ring = record {
    cycle = rw next (relink-last s.nodes t y y ys d.1 ring.cycle.1);
    distinct =
        (IsDistinct-append (owned (s'.nodes t) t) (all_owned s'.nodes (y ∷ ys))
          (rw kept ring.distinct)).0;
    live = freed.2;
    listed = listed-next s.task_list t (s.nodes t).next y ys next ring.listed;
    room = omega (arith, ring.room);
  };
  freed = rw (sym (unchanged t).3) freed.3;
  same_current = refl;
  same_ids = refl;
  same_words = refl;
  same_tasks = λ x. unchanged x;
}
  where
    s' : Tasks
    s' = unlinked t (y ∷ ys) s

    d : IsDistinct (t ∷ y ∷ ys)
    d = IsDistinct-tasks s.nodes (t ∷ y ∷ ys) ring.distinct

    next : (s.nodes t).next ≡ y
    next = ring.cycle.0

    other : ((s.nodes t).next == t) ≡ false
    other = rw next (ground (arith, d.0))

    walk : find_prev walk_fuel t s.task_list s.nodes ≡ some (last y ys)
    walk =
        find_prev-ring s.nodes t s.task_list (y ∷ ys) ring.cycle d ring.listed
          (omega (arith, ring.room))

    unchanged :
        (x : ℕ)
        → ((s'.nodes x).id ≡ (s.nodes x).id)
          × ((s'.nodes x).state ≡ (s.nodes x).state)
          × ((s'.nodes x).rsp ≡ (s.nodes x).rsp)
          × ((s'.nodes x).stack ≡ (s.nodes x).stack)
    unchanged x = ground arith

    kept : all_owned s'.nodes (t ∷ y ∷ ys) ≡ all_owned s.nodes (t ∷ y ∷ ys)
    kept = all_owned-agree s.nodes s'.nodes (t ∷ y ∷ ys) (λ x m. (unchanged x).3)

    freed :
        (h : Kheap) × (free_task t s' ≡ some (record s' { heap = h }))
        × AllLive h (all_owned s'.nodes (y ∷ ys))
        × Frees s'.heap h (owned (s'.nodes t) t)
    freed =
        free_task-AllLive s' t (all_owned s'.nodes (y ∷ ys)) (rw kept ring.live)
          (rw kept ring.distinct)

    nonzero : (t == 0) ≡ false
    nonzero =
        let (bs, heap, live) = ring.live in
        let (q, m, e, o) =
          live t (member-all_owned s.nodes t (t ∷ y ∷ ys) (ground (arith, ==_refl t))) in
        ground (arith, e)
