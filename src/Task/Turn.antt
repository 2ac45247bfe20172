-- ===== src/Task/Turn.antt =====
-- kernel/src/task.c: the tasks between two calls of `schedule`, and the steps of a call.
use tuna_os.Base.{
  ℕ, suc, ◌≡◌, ◌≢◌, refl, ◌⊎◌, inl, inr, true, false, Option, none, some, List, [], ◌∷◌, ◌++◌, ◌==◌,
  ==_refl, arith, ◌∙◌, ap,
}
use tuna_os.Task.{
  Task, Tasks, walk_fuel, task_dead, task_ready, task_running, reap, find_ready, switch_task,
  Switch, schedule,
}
use tuna_os.Task.Lists.{member}
use tuna_os.Task.Freed.{Frees}
use tuna_os.Task.Ring.{all_owned, IsCycle, IsRing, nonzero}
use tuna_os.Task.Reap.{alive, dead, SameTasks, first, IsReaped, reap-IsReaped}

-- Each listed task is ready or dead.
abbrev pub AreWaiting : (ℕ → Task) → List ℕ → Type 0
AreWaiting nodes [] = Unit {0}
AreWaiting nodes (t ∷ ts) =
    (((nodes t).state ≡ task_ready) ⊎ ((nodes t).state ≡ task_dead)) × AreWaiting nodes ts

abbrev pub AreReady : (ℕ → Task) → List ℕ → Type 0
AreReady nodes [] = Unit {0}
AreReady nodes (t ∷ ts) = ((nodes t).state ≡ task_ready) × AreReady nodes ts

-- `c` is the current task, running or about to be left for good; the others follow it in the
-- circular list, ready or dead.
pub record IsSched (s : Tasks) (c : ℕ) (rest : List ℕ) : Type 0 where
  pub current : s.current_task ≡ c
  pub ring : IsRing s (c ∷ rest)
  pub runs : ((s.nodes c).state ≡ task_running) ⊎ ((s.nodes c).state ≡ task_dead)
  pub waiting : AreWaiting s.nodes rest

pub alive-AreReady :
    (nodes : ℕ → Task) (ts : List ℕ) → AreWaiting nodes ts → AreReady nodes (alive nodes ts)
unfolding alive
alive-AreReady nodes [] w = tt
alive-AreReady nodes (t ∷ ts) (inl ready, w) =
    let kept : ((nodes t).state == task_dead) ≡ false = rw ready refl in
    rw kept (ready, alive-AreReady nodes ts w)
alive-AreReady nodes (t ∷ ts) (inr dead, w) =
    let gone : ((nodes t).state == task_dead) ≡ true = rw dead refl in
    rw gone (alive-AreReady nodes ts w)

pub AreReady-agree :
    (f g : ℕ → Task)
    → ((x : ℕ) → (g x).state ≡ (f x).state)
    → (ts : List ℕ) → AreReady f ts
    → AreReady g ts
AreReady-agree f g same [] w = tt
AreReady-agree f g same (t ∷ ts) w = (same t ∙ w.0, AreReady-agree f g same ts w.1)

-- No other task is alive: nothing is switched. The memory of the dead ones is freed.
pub record IsIdle (s : Tasks) (c : ℕ) (rest : List ℕ) (r : Option (Option Switch × Tasks))
    : Type 0 where
  pub state : Tasks
  pub returns : r ≡ some (none, state)
  pub sched : IsSched state c []
  pub freed : Frees s.heap state.heap (all_owned s.nodes (dead s.nodes rest))
  pub same_ids : state.next_id ≡ s.next_id
  pub same_tasks : SameTasks s state

-- The processor goes from `c` to `n`, which runs; `c` goes behind the others, ready unless it is
-- dead. The memory of the dead ones of the others is freed.
pub record IsSwitched (s : Tasks) (c : ℕ) (rest : List ℕ) (n : ℕ) (more : List ℕ)
    (r : Option (Option Switch × Tasks)) : Type 0 where
  pub state : Tasks
  pub returns : r ≡ some (some (record { from = c; new_rsp = (s.nodes n).rsp }), state)
  pub sched : IsSched state n (more ++ c ∷ [])
  pub freed : Frees s.heap state.heap (all_owned s.nodes (dead s.nodes rest))
  pub runs : (state.nodes n).state ≡ task_running
  pub left : ((state.nodes c).state == task_dead) ≡ ((s.nodes c).state == task_dead)
  pub same_ids : state.next_id ≡ s.next_id
  pub same_tasks :
      (x : ℕ)
      → ((state.nodes x).id ≡ (s.nodes x).id)
        × ((state.nodes x).rsp ≡ (s.nodes x).rsp)
        × ((state.nodes x).stack ≡ (s.nodes x).stack)
  pub same_states : (x : ℕ) → c ≢ x → n ≢ x → (state.nodes x).state ≡ (s.nodes x).state

schedule-chosen :
    (s s' : Tasks) (next : ℕ)
    → (s.current_task == 0) ≡ false
    → ((s.nodes s.current_task).next == 0) ≡ false
    → reap walk_fuel (s.nodes s.current_task).next s ≡ some s'
    → find_ready walk_fuel (s'.nodes s'.current_task).next (s'.nodes s'.current_task).next s'.nodes
      ≡ some next
    → schedule s ≡ some (switch_task next s')
unfolding schedule
schedule-chosen s s' next c0 n0 r f = rw (c0, n0, schedule, r, f) refl

pub find_ready-first :
    (fuel n : ℕ) (nodes : ℕ → Task)
    → (nodes n).state ≡ task_ready
    → find_ready (suc fuel) n n nodes ≡ some n
unfolding find_ready
find_ready-first fuel n nodes e =
    let ready : ((nodes n).state == task_ready) ≡ true = rw e refl in rw ready refl

pub find_ready-alone :
    (fuel c : ℕ) (nodes : ℕ → Task)
    → ((nodes c).state == task_ready) ≡ false
    → (nodes c).next ≡ c
    → find_ready (suc fuel) c c nodes ≡ some c
unfolding find_ready
find_ready-alone fuel c nodes e n =
    let same : ((nodes c).next == c) ≡ true = rw n (==_refl c) in rw (e, same, n) refl

pub not_ready : (k : ℕ) → (k ≡ task_running) ⊎ (k ≡ task_dead) → (k == task_ready) ≡ false
not_ready k (inl e) = rw e refl
not_ready k (inr e) = rw e refl

first-member : (c : ℕ) (rest : List ℕ) → member (first c rest) (c ∷ rest) ≡ true
first-member c [] = ground (arith, ==_refl c)
first-member c (x ∷ xs) = ground (arith, ==_refl x)

cycle-first :
    (nodes : ℕ → Task) (c : ℕ) (rest : List ℕ)
    → IsCycle nodes (c ∷ rest)
    → (nodes c).next ≡ first c rest
cycle-first nodes c [] cycle = cycle
cycle-first nodes c (x ∷ xs) cycle = cycle.0

abbrev pub Reaped : (s : Tasks) (c : ℕ) (rest : List ℕ) → Type 0
Reaped s c rest =
    IsReaped s (c ∷ alive s.nodes rest) (dead s.nodes rest)
      (reap walk_fuel (s.nodes s.current_task).next s)

pub reaped : (s : Tasks) (c : ℕ) (rest : List ℕ) → IsSched s c rest → Reaped s c rest
reaped s c rest v =
    let start : (s.nodes s.current_task).next ≡ first c rest =
      ap (λ (k : ℕ). (s.nodes k).next) v.current ∙ cycle-first s.nodes c rest v.ring.cycle in
    rw start (reap-IsReaped walk_fuel c rest [] s v.current v.ring (omega (arith, v.ring.room)))

-- `schedule` after the dead tasks are gone, for the choice that its second loop makes.
pub chosen :
    (s : Tasks) (c : ℕ) (rest : List ℕ) (next : ℕ) (v : IsSched s c rest) (r : Reaped s c rest)
    → find_ready walk_fuel (r.state.nodes c).next (r.state.nodes c).next r.state.nodes ≡ some next
    → schedule s ≡ some (switch_task next r.state)
chosen s c rest next v r f =
    let cur : r.state.current_task ≡ c = r.same_current ∙ v.current in
    let live = nonzero s c (c ∷ rest) v.ring (ground (arith, ==_refl c)) in
    let start : (s.nodes s.current_task).next ≡ first c rest =
      ap (λ (k : ℕ). (s.nodes k).next) v.current ∙ cycle-first s.nodes c rest v.ring.cycle in
    schedule-chosen s r.state next (ap (λ (k : ℕ). k == 0) v.current ∙ live)
      (ap (λ (k : ℕ). k == 0) start
        ∙ nonzero s (first c rest) (c ∷ rest) v.ring (first-member c rest))
      r.returns
      (ap
          (λ (k : ℕ).
            find_ready walk_fuel (r.state.nodes k).next (r.state.nodes k).next r.state.nodes)
          cur
        ∙ f)

pub switch_task-same : (s : Tasks) (c : ℕ) → s.current_task ≡ c → switch_task c s ≡ (none, s)
unfolding switch_task
switch_task-same s c e = let same : (c == s.current_task) ≡ true = rw e (==_refl c) in rw same refl
