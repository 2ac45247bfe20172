-- ===== src/Task/Fair.antt =====
-- kernel/src/task.c: what repeated calls of `schedule` and a call of `task_exit` lead to.
use tuna_os.Base.{
  ℕ, zero, suc, ◌≡◌, refl, ◌⊎◌, inl, inr, true, false, Option, none, some, List, [], ◌∷◌, ◌++◌,
  ◌==◌, ==_iff, ==_refl, arith, Bool-cases, sym, ◌∙◌, ap, length,
}
use tuna_os.Task.{Task, Tasks, task_dead, task_running, Switch, schedule, task_exit, set_state}
use tuna_os.Task.Lists.{append_assoc, member}
use tuna_os.Task.Ring.{IsRing-agree, IsDistinct-tasks}
use tuna_os.Task.Reap.{alive, alive-kept}
use tuna_os.Task.Turn.{IsSched, IsIdle, IsSwitched, AreWaiting}
use tuna_os.Task.Schedule.{switched, schedule-cases}

-- So many calls of `schedule`, one after the other.
unfoldable pub repeat_schedule : ℕ → Tasks → Option Tasks
repeat_schedule zero s = some s
repeat_schedule (suc k) s = elim (schedule s) [ none ↦ none | some (_, s') ↦ repeat_schedule k s' ]

abbrev pub NoneDead : (ℕ → Task) → List ℕ → Type 0
NoneDead nodes [] = Unit {0}
NoneDead nodes (t ∷ ts) = (((nodes t).state == task_dead) ≡ false) × NoneDead nodes ts

alive-all : (nodes : ℕ → Task) (ts : List ℕ) → NoneDead nodes ts → alive nodes ts ≡ ts
alive-all nodes [] h = unfold alive in refl
alive-all nodes (t ∷ ts) h =
    alive-kept nodes t ts h.0 ∙ ap (λ (l : List ℕ). t ∷ l) (alive-all nodes ts h.1)

NoneDead-agree :
    (f g : ℕ → Task) (ts : List ℕ)
    → ((x : ℕ) → ((f x).state == task_dead) ≡ false → ((g x).state == task_dead) ≡ false)
    → NoneDead f ts
    → NoneDead g ts
NoneDead-agree f g [] same h = tt
NoneDead-agree f g (t ∷ ts) same h = (same t h.0, NoneDead-agree f g ts same h.1)

NoneDead-snoc :
    (nodes : ℕ → Task) (c : ℕ) (ts : List ℕ)
    → NoneDead nodes ts
    → ((nodes c).state == task_dead) ≡ false
    → NoneDead nodes (ts ++ c ∷ [])
NoneDead-snoc nodes c [] h k = (k, tt)
NoneDead-snoc nodes c (t ∷ ts) h k = (h.0, NoneDead-snoc nodes c ts h.1 k)

-- A switch kills nobody.
switched-alive :
    {s : Tasks} {c n : ℕ} {rest more : List ℕ} {r : Option (Option Switch × Tasks)}
    (w : IsSwitched s c rest n more r) (x : ℕ)
    → ((s.nodes x).state == task_dead) ≡ false
    → ((w.state.nodes x).state == task_dead) ≡ false
switched-alive {s} {c} {n} w x h = elim (Bool-cases (n == x)) [
  | inl e ↦ let at : n ≡ x = ground (arith, ==_iff n x) in rw (← at) (rw w.runs refl)
  | inr e ↦ elim (Bool-cases (c == x)) [
    | inl e' ↦ let at : c ≡ x = ground (arith, ==_iff c x) in rw (← at) (w.left ∙ rw at h)
    | inr e' ↦ rw (w.same_states x (ground (arith, ==_refl x)) (ground (arith, ==_refl x))) h
  ]
]

repeat_schedule-step :
    (k : ℕ) (s s' : Tasks) (w : Option Switch)
    → schedule s ≡ some (w, s')
    → repeat_schedule (suc k) s ≡ repeat_schedule k s'
unfolding repeat_schedule
repeat_schedule-step k s s' w e = rw (e, repeat_schedule) refl

-- A task that stands behind `n` others in the circular list, none of which is dead, runs after
-- `n + 1` calls of `schedule`.
pub schedule_fair :
    (before after : List ℕ) (s : Tasks) (c t : ℕ)
    → IsSched s c (before ++ t ∷ after)
    → NoneDead s.nodes (c ∷ before ++ t ∷ after)
    → (s' : Tasks) × (repeat_schedule (suc (length before)) s ≡ some s')
      × (s'.current_task ≡ t)
      × ((s'.nodes t).state ≡ task_running)
schedule_fair [] after s c t v living =
    let w = switched s c t (t ∷ after) after v (alive-all s.nodes (t ∷ after) living.1) in
    (
      w.state,
      repeat_schedule-step 0 s w.state _ w.returns ∙ (unfold repeat_schedule in refl),
      w.sched.current,
      w.runs,
    )
schedule_fair (n ∷ before) after s c t v living =
    let w =
      switched s c n (n ∷ before ++ t ∷ after) (before ++ t ∷ after) v
        (alive-all s.nodes (n ∷ before ++ t ∷ after) living.1) in
    let living' =
      NoneDead-agree s.nodes w.state.nodes (c ∷ n ∷ before ++ t ∷ after) (switched-alive w)
        living in
    let (s', r, at, runs) =
      schedule_fair before (after ++ c ∷ []) w.state n t
        (rw (append_assoc before (t ∷ after) (c ∷ [])) at w.sched)
        (
          living'.1.0,
          rw (append_assoc before (t ∷ after) (c ∷ [])) at
              (NoneDead-snoc w.state.nodes c (before ++ t ∷ after) living'.1.1 living'.0),
        ) in
    (s', repeat_schedule-step (suc (length before)) s w.state _ w.returns ∙ r, at, runs)

-- The state that `task_exit` hands to `schedule`.
abbrev pub exiting : Tasks → Tasks
exiting s = record s { nodes = set_state s.current_task task_dead s.nodes }

AreWaiting-other :
    (c : ℕ) (nodes : ℕ → Task) (ts : List ℕ)
    → member c ts ≡ false
    → AreWaiting nodes ts
    → AreWaiting (set_state c task_dead nodes) ts
AreWaiting-other c nodes [] out w = tt
AreWaiting-other c nodes (t ∷ ts) out w =
    let same : (set_state c task_dead nodes t).state ≡ (nodes t).state =
      ground (arith, ==_iff c t, ==_iff t c) in
    (rw same w.0, AreWaiting-other c nodes ts (ground arith) w.1)

exiting-IsSched :
    (s : Tasks) (c : ℕ) (rest : List ℕ) → IsSched s c rest → IsSched (exiting s) c rest
exiting-IsSched s c rest v = record {
  current = v.current;
  ring =
      IsRing-agree s (exiting s) (c ∷ rest) (λ x. ground arith) (λ x. ground arith) refl refl
        v.ring;
  runs = inr (let e = v.current in ground arith);
  waiting =
      let d = IsDistinct-tasks s.nodes (c ∷ rest) v.ring.distinct in
      AreWaiting-other s.current_task s.nodes rest (ap (λ (k : ℕ). member k rest) v.current ∙ d.0)
        v.waiting;
}

alive-exiting :
    (c : ℕ) (nodes : ℕ → Task) (ts : List ℕ)
    → member c ts ≡ false
    → alive (set_state c task_dead nodes) ts ≡ alive nodes ts
unfolding alive
alive-exiting c nodes [] out = refl
alive-exiting c nodes (t ∷ ts) out =
    let same : (set_state c task_dead nodes t).state ≡ (nodes t).state =
      ground (arith, ==_iff c t, ==_iff t c) in
    rw (same, alive-exiting c nodes ts (ground arith)) refl

alive-NoneDead : (nodes : ℕ → Task) (ts : List ℕ) → NoneDead nodes (alive nodes ts)
unfolding alive
alive-NoneDead nodes [] = tt
alive-NoneDead nodes (t ∷ ts) = elim (Bool-cases ((nodes t).state == task_dead)) [
  | inl e ↦ rw e (alive-NoneDead nodes ts)
  | inr e ↦ rw e (e, alive-NoneDead nodes ts)
]

alive-snoc_dead :
    (nodes : ℕ → Task) (c : ℕ) (ts : List ℕ)
    → NoneDead nodes ts
    → ((nodes c).state == task_dead) ≡ true
    → alive nodes (ts ++ c ∷ []) ≡ ts
unfolding alive
alive-snoc_dead nodes c [] h k = rw k refl
alive-snoc_dead nodes c (t ∷ ts) h k = rw (h.0, alive-snoc_dead nodes c ts h.1 k) refl

-- `task_exit` switches to the first task alive behind the current one and leaves the current one
-- dead, so that it is not among those that the next call of `schedule` keeps; it returns to the
-- caller only where no other task is alive.
pub task_exit-cases :
    (s : Tasks) (c : ℕ) (rest : List ℕ)
    → IsSched s c rest
    → ((alive s.nodes rest ≡ []) × IsIdle (exiting s) c rest (task_exit s))
      ⊎ ((n : ℕ) × (more : List ℕ) × (alive s.nodes rest ≡ n ∷ more)
          × (w : IsSwitched (exiting s) c rest n more (task_exit s)) × (alive w.state.nodes
                (more ++ c ∷ [])
              ≡ more))
unfolding task_exit
task_exit-cases s c rest v = elim (schedule-cases (exiting s) c rest (exiting-IsSched s c rest v)) [
  | inl (e, idle) ↦ inl (sym same ∙ e, idle)
  | inr (n, more, e, w) ↦
      let living : NoneDead (exiting s).nodes (n ∷ more) =
        rw e at (alive-NoneDead (exiting s).nodes rest) in
      let living' =
        NoneDead-agree (exiting s).nodes w.state.nodes (n ∷ more) (switched-alive w) living in
      let cur = v.current in
      let dead : (((exiting s).nodes c).state == task_dead) ≡ true = ground arith in
      inr (n, more, sym same ∙ e, w, alive-snoc_dead w.state.nodes c more living'.1 (w.left ∙ dead))
]
  where
    same : alive (exiting s).nodes rest ≡ alive s.nodes rest
    same =
        let d = IsDistinct-tasks s.nodes (c ∷ rest) v.ring.distinct in
        alive-exiting s.current_task s.nodes rest (ap (λ (k : ℕ). member k rest) v.current ∙ d.0)
