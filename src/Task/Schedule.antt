-- ===== src/Task/Schedule.antt =====
-- kernel/src/task.c: `schedule` runs the tasks in turn.
use tuna_os.Base.{
  ℕ, ◌≡◌, ◌≢◌, refl, ◌⊎◌, inl, inr, true, false, Option, some, List, [], ◌∷◌, ◌++◌, ◌==◌, ==_iff,
  ==_refl, if◌then◌else◌, arith, Bool-cases, sym, ◌∙◌, ap,
}
use tuna_os.Task.{
  Task, Tasks, walk_fuel, task_dead, task_ready, task_running, find_ready, switch_task, Switch,
  schedule, set_state,
}
use tuna_os.Task.Lists.{member, IsDistinct}
use tuna_os.Task.Ring.{IsDistinct-tasks, IsRing, IsRing-rotate, IsRing-agree}
use tuna_os.Task.Reap.{alive}
use tuna_os.Task.Turn.{
  AreWaiting, AreReady, IsSched, alive-AreReady, AreReady-agree, IsIdle, IsSwitched,
  find_ready-first, find_ready-alone, not_ready, Reaped, reaped, chosen, switch_task-same,
}

idle :
    (s : Tasks) (c : ℕ) (rest : List ℕ) (v : IsSched s c rest)
    → alive s.nodes rest ≡ []
    → IsIdle s c rest (schedule s)
idle s c rest v e =
    let r = reaped s c rest v in
    let ring : IsRing r.state (c ∷ []) = rw e at r.ring in
    let cur = r.same_current ∙ v.current in
    let alone : (r.state.nodes c).next ≡ c = ring.cycle in
    let runs : ((r.state.nodes c).state ≡ task_running) ⊎ ((r.state.nodes c).state ≡ task_dead) =
      rw (r.same_tasks c).1 v.runs in
    record {
      state = r.state;
      returns =
          chosen s c rest c v r (
            ap (λ (k : ℕ). find_ready walk_fuel k k r.state.nodes) alone
            ∙ find_ready-alone _ c r.state.nodes (not_ready _ runs) alone)
          ∙ ap (λ (x : Option Switch × Tasks). some x) (switch_task-same r.state c cur);
      sched = record { current = cur; ring = ring; runs = runs; waiting = tt };
      freed = r.freed;
      same_ids = r.same_ids;
      same_tasks = r.same_tasks;
    }

-- The nodes and the state after a switch to `n`.
abbrev switched_nodes : (n : ℕ) → Tasks → ℕ → Task
switched_nodes n s = set_state n task_running (
    if (s.nodes s.current_task).state == task_running
    then set_state s.current_task task_ready s.nodes
    else s.nodes)

abbrev switched_state : (n : ℕ) → Tasks → Tasks
switched_state n s = record s { current_task = n; nodes = switched_nodes n s }

switch_task-other :
    (s : Tasks) (n : ℕ)
    → (n == s.current_task) ≡ false
    → ((s.nodes n).state == task_ready) ≡ true
    → switch_task n s
      ≡ (some (record { from = s.current_task; new_rsp = (s.nodes n).rsp }), switched_state n s)
unfolding switch_task
switch_task-other s n other ready =
    elim (Bool-cases ((s.nodes s.current_task).state == task_running)) [
      | inl runs ↦
          let kept : (set_state s.current_task task_ready s.nodes n).rsp ≡ (s.nodes n).rsp =
            ground arith in
          rw (other, ready, runs)
            (ap
              (λ (k : ℕ). (
                some (record { from = s.current_task; new_rsp = k }),
                record s {
                  current_task = n;
                  nodes = set_state n task_running (set_state s.current_task task_ready s.nodes);
                },
              ))
              kept)
      | inr not_running ↦ rw (other, ready, not_running) refl
    ]

switched-fields :
    (n : ℕ) (s : Tasks) (x : ℕ)
    → ((switched_nodes n s x).id ≡ (s.nodes x).id)
      × ((switched_nodes n s x).rsp ≡ (s.nodes x).rsp)
      × ((switched_nodes n s x).stack ≡ (s.nodes x).stack)
      × ((switched_nodes n s x).next ≡ (s.nodes x).next)
switched-fields n s x = ground arith

switched-states :
    (n : ℕ) (s : Tasks) (x : ℕ)
    → s.current_task ≢ x
    → n ≢ x
    → (switched_nodes n s x).state ≡ (s.nodes x).state
switched-states n s x a b = ground arith

switched-left :
    (n c : ℕ) (s : Tasks)
    → s.current_task ≡ c
    → n ≢ c
    → ((s.nodes c).state ≡ task_running) ⊎ ((s.nodes c).state ≡ task_dead)
    → (((switched_nodes n s c).state ≡ task_ready) ⊎ ((switched_nodes n s c).state ≡ task_dead))
      × (((switched_nodes n s c).state == task_dead) ≡ ((s.nodes c).state == task_dead))
switched-left n c s cur other (inl e) =
    let ready : (switched_nodes n s c).state ≡ task_ready = ground arith in
    (inl ready, rw (ready, e) refl)
switched-left n c s cur other (inr e) =
    let dead : (switched_nodes n s c).state ≡ task_dead = ground arith in
    (inr dead, rw (dead, e) refl)

AreWaiting-behind :
    (f g : ℕ → Task) (c : ℕ) (ts : List ℕ)
    → ((x : ℕ) → member x ts ≡ true → (g x).state ≡ (f x).state)
    → AreReady f ts
    → ((g c).state ≡ task_ready) ⊎ ((g c).state ≡ task_dead)
    → AreWaiting g (ts ++ c ∷ [])
AreWaiting-behind f g c [] same r w = (w, tt)
AreWaiting-behind f g c (t ∷ ts) same r w = (
  inl (same t (ground (arith, ==_refl t)) ∙ r.0),
  AreWaiting-behind f g c ts (λ x m. same x (ground arith)) r.1 w,
)

pub switched :
    (s : Tasks) (c n : ℕ) (rest more : List ℕ) (v : IsSched s c rest)
    → alive s.nodes rest ≡ n ∷ more
    → IsSwitched s c rest n more (schedule s)
switched s c n rest more v e = record {
  state = u;
  returns =
      chosen s c rest n v r (
        ap (λ (k : ℕ). find_ready walk_fuel k k t.nodes) ring.cycle.0
        ∙ find_ready-first _ n t.nodes ready.0)
      ∙ ap (λ (x : Option Switch × Tasks). some x)
          (switch_task-other t n other (rw ready.0 refl) ∙ rw (cur, (r.same_tasks n).2) refl);
  sched = record {
    current = refl;
    ring =
        IsRing-agree t u (n ∷ more ++ c ∷ []) (λ x. (switched-fields n t x).3)
          (λ x. (switched-fields n t x).2) refl refl (IsRing-rotate t (c ∷ []) (n ∷ more) ring);
    runs = inl runs;
    waiting =
        AreWaiting-behind t.nodes u.nodes c more
          (λ x m.
            switched-states n t x (ground (arith, cur, d.0, ==_iff n x)) (ground (arith, d.1.0)))
          ready.1 left.0;
  };
  freed = r.freed;
  runs = runs;
  left = left.1 ∙ rw (r.same_tasks c).1 refl;
  same_ids = r.same_ids;
  same_tasks = λ x.
      let (i, p, k, _) = switched-fields n t x in
      let (i', _, p', k') = r.same_tasks x in (i ∙ i', p ∙ p', k ∙ k');
  same_states = λ x a b. switched-states n t x (λ at. a (sym cur ∙ at)) b ∙ (r.same_tasks x).1;
}
  where
    r : Reaped s c rest
    r = reaped s c rest v

    t : Tasks
    t = r.state

    u : Tasks
    u = switched_state n t

    ring : IsRing t (c ∷ n ∷ more)
    ring = rw e at r.ring

    d : IsDistinct (c ∷ n ∷ more)
    d = IsDistinct-tasks t.nodes (c ∷ n ∷ more) ring.distinct

    cur : t.current_task ≡ c
    cur = r.same_current ∙ v.current

    ready : AreReady t.nodes (n ∷ more)
    ready =
        AreReady-agree s.nodes t.nodes (λ x. (r.same_tasks x).1) (n ∷ more)
          (rw e at (alive-AreReady s.nodes rest v.waiting))

    apart : n ≢ c
    apart = ground (arith, d.0)

    other : (n == t.current_task) ≡ false
    other = ground (arith, cur, apart)

    runs : (u.nodes n).state ≡ task_running
    runs = ground arith

    left :
        (((u.nodes c).state ≡ task_ready) ⊎ ((u.nodes c).state ≡ task_dead))
        × (((u.nodes c).state == task_dead) ≡ ((t.nodes c).state == task_dead))
    left = switched-left n c t cur apart (rw (r.same_tasks c).1 v.runs)

-- `schedule` returns. The dead tasks other than the current one are gone from the list, and the
-- live pointers of the heap are those before without their nodes and stacks; the first task alive
-- behind the current one is switched to, or none is alive and nothing is switched.
pub schedule-cases :
    (s : Tasks) (c : ℕ) (rest : List ℕ)
    → IsSched s c rest
    → ((alive s.nodes rest ≡ []) × IsIdle s c rest (schedule s))
      ⊎ ((n : ℕ) × (more : List ℕ) × (alive s.nodes rest ≡ n ∷ more)
          × IsSwitched s c rest n more (schedule s))
schedule-cases s c rest v = elim (list_cases (alive s.nodes rest)) [
  | inl e ↦ inl (e, idle s c rest v e)
  | inr (n, more, e) ↦ inr (n, more, e, switched s c n rest more v e)
]
  where
    list_cases : (xs : List ℕ) → (xs ≡ []) ⊎ ((n : ℕ) × (more : List ℕ) × (xs ≡ n ∷ more))
    list_cases [] = inl refl
    list_cases (n ∷ more) = inr (n, more, refl)
