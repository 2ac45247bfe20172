-- ===== src/Task/Reap.antt =====
-- kernel/src/task.c: the first loop of `schedule` destroys the dead tasks.
use tuna_os.Base.{
  ℕ, zero, suc, ◌<◌, ◌≡◌, refl, inl, inr, true, false, Option, some, List, [], ◌∷◌, ◌++◌, ◌==◌,
  ==_iff, ==_refl, if◌then◌else◌, arith, Bool-cases, ◌∙◌, length,
}
use tuna_os.Task.{Task, Tasks, task_dead, task_destroy, reap}
use tuna_os.Task.Lists.{member-append, append_assoc}
use tuna_os.Task.Freed.{Frees, Frees-refl, Frees-trans}
use tuna_os.Task.Ring.{
  owned, all_owned, all_owned-agree, IsCycle, IsDistinct-tasks, IsRing, IsRing-rotate,
  IsCycle-rotate,
}
use tuna_os.Task.Destroy.{IsDestroyed, task_destroy-IsDestroyed}

-- The tasks that are not dead.
unfoldable pub alive : (ℕ → Task) → List ℕ → List ℕ
alive nodes [] = []
alive nodes (t ∷ ts) =
    let rest = alive nodes ts in if (nodes t).state == task_dead then rest else t ∷ rest

-- The others.
unfoldable pub dead : (ℕ → Task) → List ℕ → List ℕ
dead nodes [] = []
dead nodes (t ∷ ts) =
    let rest = dead nodes ts in if (nodes t).state == task_dead then t ∷ rest else rest

dead-agree :
    (f g : ℕ → Task) → ((x : ℕ) → (g x).state ≡ (f x).state) → (ts : List ℕ) → dead g ts ≡ dead f ts
unfolding dead
dead-agree f g same [] = refl
dead-agree f g same (t ∷ ts) = rw (same t, dead-agree f g same ts) refl

dead-dead :
    (nodes : ℕ → Task) (t : ℕ) (ts : List ℕ)
    → ((nodes t).state == task_dead) ≡ true
    → dead nodes (t ∷ ts) ≡ t ∷ dead nodes ts
unfolding dead
dead-dead nodes t ts e = rw e refl

dead-kept :
    (nodes : ℕ → Task) (t : ℕ) (ts : List ℕ)
    → ((nodes t).state == task_dead) ≡ false
    → dead nodes (t ∷ ts) ≡ dead nodes ts
unfolding dead
dead-kept nodes t ts e = rw e refl

pub alive-agree :
    (f g : ℕ → Task)
    → ((x : ℕ) → (g x).state ≡ (f x).state)
    → (ts : List ℕ) → alive g ts ≡ alive f ts
unfolding alive
alive-agree f g same [] = refl
alive-agree f g same (t ∷ ts) = rw (same t, alive-agree f g same ts) refl

pub alive-dead :
    (nodes : ℕ → Task) (t : ℕ) (ts : List ℕ)
    → ((nodes t).state == task_dead) ≡ true
    → alive nodes (t ∷ ts) ≡ alive nodes ts
unfolding alive
alive-dead nodes t ts e = rw e refl

pub alive-kept :
    (nodes : ℕ → Task) (t : ℕ) (ts : List ℕ)
    → ((nodes t).state == task_dead) ≡ false
    → alive nodes (t ∷ ts) ≡ t ∷ alive nodes ts
unfolding alive
alive-kept nodes t ts e = rw e refl

-- Two states whose tasks are the same but for their links.
abbrev pub SameTasks : Tasks → Tasks → Type 0
SameTasks s s' =
    (x : ℕ)
    → ((s'.nodes x).id ≡ (s.nodes x).id)
      × ((s'.nodes x).state ≡ (s.nodes x).state)
      × ((s'.nodes x).rsp ≡ (s.nodes x).rsp)
      × ((s'.nodes x).stack ≡ (s.nodes x).stack)

abbrev pub first : ℕ → List ℕ → ℕ
first d [] = d
first d (x ∷ xs) = x

task_destroy-among :
    (s : Tasks) (t c : ℕ) (xs ys : List ℕ)
    → IsRing s (t ∷ xs ++ c ∷ ys)
    → IsDestroyed s t (xs ++ c ∷ ys) (task_destroy t s)
task_destroy-among s t c [] ys ring = task_destroy-IsDestroyed s t c ys ring
task_destroy-among s t c (x ∷ xs) ys ring = task_destroy-IsDestroyed s t x (xs ++ c ∷ ys) ring

next-first :
    (nodes : ℕ → Task) (c t : ℕ) (done todo : List ℕ)
    → IsCycle nodes (c ∷ done ++ t ∷ todo)
    → (nodes t).next ≡ first c todo
next-first nodes c t done [] cycle = (IsCycle-rotate nodes (c ∷ done) (t ∷ []) cycle).0
next-first nodes c t done (u ∷ us) cycle = (IsCycle-rotate nodes (c ∷ done) (t ∷ u ∷ us) cycle).0

-- The state after the loop: the tasks of `gone` are gone, and the memory that they own is freed.
pub record IsReaped (s : Tasks) (left gone : List ℕ) (result : Option Tasks) : Type 0 where
  pub state : Tasks
  pub returns : result ≡ some state
  pub ring : IsRing state left
  pub freed : Frees s.heap state.heap (all_owned s.nodes gone)
  pub same_current : state.current_task ≡ s.current_task
  pub same_ids : state.next_id ≡ s.next_id
  pub same_tasks : SameTasks s state

reap-end : (fuel c : ℕ) (s : Tasks) → s.current_task ≡ c → reap (suc fuel) c s ≡ some s
unfolding reap
reap-end fuel c s e =
    let hit : (c == s.current_task) ≡ true = rw e (==_refl c) in rw (hit, reap) refl

reap-keeps :
    (fuel t : ℕ) (s : Tasks)
    → (t == s.current_task) ≡ false
    → ((s.nodes t).state == task_dead) ≡ false
    → reap (suc fuel) t s ≡ reap fuel (s.nodes t).next s
unfolding reap
reap-keeps fuel t s e k = rw (e, k, reap) refl

reap-drops :
    (fuel t : ℕ) (s s' : Tasks)
    → (t == s.current_task) ≡ false
    → ((s.nodes t).state == task_dead) ≡ true
    → task_destroy t s ≡ some s'
    → reap (suc fuel) t s ≡ reap fuel (s.nodes t).next s'
unfolding reap
reap-drops fuel t s s' e k r = rw (e, k, reap, r) refl

pub reap-IsReaped :
    (fuel c : ℕ) (todo done : List ℕ) (s : Tasks)
    → s.current_task ≡ c
    → IsRing s (c ∷ done ++ todo)
    → length todo < fuel
    → IsReaped s (c ∷ done ++ alive s.nodes todo) (dead s.nodes todo) (reap fuel (first c todo) s)
reap-IsReaped zero c todo done s cur ring enough = absurd (omega arith)
reap-IsReaped (suc fuel) c [] done s cur ring enough = record {
  state = s;
  returns = reap-end fuel c s cur;
  ring = unfold alive in ring;
  freed = unfold dead in Frees-refl s.heap;
  same_current = refl;
  same_ids = refl;
  same_tasks = λ x. (refl, refl, refl, refl);
}
reap-IsReaped (suc fuel) c (t ∷ todo) done s cur ring enough =
    elim (Bool-cases ((s.nodes t).state == task_dead)) [
      | inl is_dead ↦
          let gone =
            task_destroy-among s t c todo done (IsRing-rotate s (c ∷ done) (t ∷ todo) ring) in
          let rest =
            reap-IsReaped fuel c todo done gone.state (gone.same_current ∙ cur)
              (IsRing-rotate gone.state todo (c ∷ done) gone.ring) (omega arith) in
          record {
            state = rest.state;
            returns =
                reap-drops fuel t s gone.state other is_dead gone.returns ∙ rw after rest.returns;
            ring =
                rw
                  (
                    alive-dead s.nodes t todo is_dead,
                    ← alive-agree s.nodes gone.state.nodes (λ x. (gone.same_tasks x).1) todo,
                  )
                  rest.ring;
            freed =
                rw
                  (
                    dead-dead s.nodes t todo is_dead,
                    ← all_owned-agree s.nodes gone.state.nodes (dead s.nodes todo)
                        (λ x _. (gone.same_tasks x).3),
                    ← dead-agree s.nodes gone.state.nodes (λ x. (gone.same_tasks x).1) todo,
                  )
                  (Frees-trans s.heap gone.state.heap rest.state.heap (owned (s.nodes t) t)
                    (all_owned gone.state.nodes (dead gone.state.nodes todo)) gone.freed
                    rest.freed);
            same_current = rest.same_current ∙ gone.same_current;
            same_ids = rest.same_ids ∙ gone.same_ids;
            same_tasks = λ x.
                let (a, b, c', d) = rest.same_tasks x in
                let (a', b', c'', d') = gone.same_tasks x in (a ∙ a', b ∙ b', c' ∙ c'', d ∙ d');
          }
      | inr kept ↦
          let rest =
            reap-IsReaped fuel c todo (done ++ t ∷ []) s cur
              (rw (append_assoc done (t ∷ []) todo) ring) (omega arith) in
          record {
            state = rest.state;
            returns = reap-keeps fuel t s other kept ∙ rw after rest.returns;
            ring =
                rw
                  (
                    alive-kept s.nodes t todo kept,
                    ← append_assoc done (t ∷ []) (alive s.nodes todo),
                  )
                  rest.ring;
            freed = rw (dead-kept s.nodes t todo kept) rest.freed;
            same_current = rest.same_current;
            same_ids = rest.same_ids;
            same_tasks = rest.same_tasks;
          }
    ]
  where
    after : (s.nodes t).next ≡ first c todo
    after = next-first s.nodes c t done todo ring.cycle

    other : (t == s.current_task) ≡ false
    other =
        let d = IsDistinct-tasks s.nodes (c ∷ done ++ t ∷ todo) ring.distinct in
        rw cur
          (ground (arith, d.0, member-append c done (t ∷ todo), ==_iff t c, ==_iff c t, ==_refl c))
