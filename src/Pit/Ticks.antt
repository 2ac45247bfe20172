-- ===== src/Pit/Ticks.antt =====
-- kernel/src/pit.c over task.c: the tasks under the interrupts of the timer.
use tuna_os.Base.{
  ℕ, zero, suc, ◌+◌, ◌*◌, ◌%◌, ◌^◌, ◌<◌, ◌≡◌, ◌≢◌, refl, true, false, Option, none, some, List, [],
  ◌∷◌, ◌++◌, ◌==◌, arith, ap, ◌∙◌, length, u64,
}
use tuna_os.Pic.{pic_eoi}
use tuna_os.Task.{Tasks, Switch, schedule, task_running}
use tuna_os.Task.Turn.{IsSched}
use tuna_os.Task.Fair.{NoneDead, repeat_schedule, schedule_fair}
use tuna_os.Pit.{Pit, Tick, pit_irq_handler}

-- So many interrupts of the timer, one after the other.
unfoldable pub ticks : ℕ → Pit → Tasks → Option (Pit × Tasks)
ticks zero s tasks = some (s, tasks)
ticks (suc n) s tasks = elim (pit_irq_handler s tasks) [
  | none ↦ none
  | some tick ↦ ticks n tick.pit tick.tasks
]

abbrev pub after : ℕ → Pit → Pit
after n s = record s { tick_count = s.tick_count + n }

ticks-step :
    (n : ℕ) (s : Pit) (tasks : Tasks) (tick : Tick)
    → pit_irq_handler s tasks ≡ some tick
    → ticks (suc n) s tasks ≡ ticks n tick.pit tick.tasks
unfolding ticks
ticks-step n s tasks tick e = rw (e, ticks) refl

handler-quiet :
    (s : Pit) (tasks : Tasks)
    → s.configured_frequency ≢ 0
    → s.tick_count + 1 < 2 ^ 64
    → (s.tick_count + 1) % 10 ≢ 0
    → pit_irq_handler s tasks
      ≡ some (record { pit = after 1 s; commands = []; switch = none; tasks = tasks })
unfolding pit_irq_handler
handler-quiet s tasks f small h =
    let e : (s.configured_frequency == 0) ≡ false = ground (arith, f) in
    let e' : u64 (s.tick_count + 1) ≡ s.tick_count + 1 = omega arith in
    let e'' : ((s.tick_count + 1) % 10 == 0) ≡ false = ground (arith, h) in rw (e, e', e'') refl

handler-scheduled :
    (s : Pit) (tasks tasks' : Tasks) (w : Option Switch)
    → s.configured_frequency ≢ 0
    → s.tick_count + 1 < 2 ^ 64
    → (s.tick_count + 1) % 10 ≡ 0
    → schedule tasks ≡ some (w, tasks')
    → pit_irq_handler s tasks
      ≡ some (record { pit = after 1 s; commands = pic_eoi 0; switch = w; tasks = tasks' })
unfolding pit_irq_handler
handler-scheduled s tasks tasks' w f small h r =
    let e : (s.configured_frequency == 0) ≡ false = ground (arith, f) in
    let small' : u64 (s.tick_count + 1) ≡ s.tick_count + 1 = omega arith in
    let e' : (u64 (s.tick_count + 1) % 10 == 0) ≡ true =
      ap (λ (k : ℕ). k % 10 == 0) small' ∙ ap (λ (k : ℕ). k == 0) h in
    rw (e, e', r, pit_irq_handler)
      (ap
        (λ (k : ℕ). some (record {
          pit = record s { tick_count = k };
          commands = pic_eoi 0;
          switch = w;
          tasks = tasks';
        }))
        small')

-- Up to the next call of the scheduler, with `r` quiet interrupts before it.
round :
    (r n : ℕ) (s : Pit) (tasks tasks' : Tasks) (w : Option Switch)
    → s.configured_frequency ≢ 0
    → s.tick_count + suc r < 2 ^ 64
    → r < 10
    → (s.tick_count + suc r) % 10 ≡ 0
    → schedule tasks ≡ some (w, tasks')
    → ticks (suc r + n) s tasks ≡ ticks n (after (suc r) s) tasks'
round zero n s tasks tasks' w f small lt at e =
    ap (λ (k : ℕ). ticks k s tasks) (omega arith)
    ∙ ticks-step n s tasks _
        (handler-scheduled s tasks tasks' w f (omega arith) (omega (arith, at)) e)
round (suc r) n s tasks tasks' w f small lt at e =
    ap (λ (k : ℕ). ticks k s tasks) (omega arith)
    ∙ ticks-step (suc r + n) s tasks _ (handler-quiet s tasks f (omega arith) (omega arith))
    ∙ round r n (after 1 s) tasks tasks' w f (omega arith) (omega arith) (omega arith) e
    ∙ ap (λ (k : ℕ). ticks n (record s { tick_count = k }) tasks') (omega arith)

repeat_split :
    (k : ℕ) (tasks final : Tasks)
    → repeat_schedule (suc k) tasks ≡ some final
    → (w : Option Switch) × (next : Tasks) × (schedule tasks ≡ some (w, next))
      × (repeat_schedule k next ≡ some final)
unfolding repeat_schedule
repeat_split k tasks final e = by_result (schedule tasks) refl e
  where
    by_result :
        (r : Option (Option Switch × Tasks))
        → schedule tasks ≡ r
        → elim r [ none ↦ none | some (_, next) ↦ repeat_schedule k next ] ≡ some final
        → (w : Option Switch) × (next : Tasks) × (schedule tasks ≡ some (w, next))
          × (repeat_schedule k next ≡ some final)
    by_result none at e = let clash : ◌≡◌ {A = Option Tasks} none (some final) = e in cc
    by_result (some (w, next)) at e = (w, next, at, e)

-- Each tenth interrupt calls the scheduler.
ticks-repeat_schedule :
    (k : ℕ) (s : Pit) (tasks final : Tasks)
    → s.configured_frequency ≢ 0
    → s.tick_count + 10 * k < 2 ^ 64
    → s.tick_count % 10 ≡ 0
    → repeat_schedule k tasks ≡ some final
    → ticks (10 * k) s tasks ≡ some (after (10 * k) s, final)
unfolding ticks repeat_schedule
ticks-repeat_schedule zero s tasks final f small at e =
    let same : tasks ≡ final = cc in
    ap (λ (u : Tasks). some (s, u)) same
    ∙ ap (λ (n : ℕ). some (record s { tick_count = n }, final)) (omega arith)
ticks-repeat_schedule (suc k) s tasks final f small at e =
    let (w, next, now, later) = repeat_split k tasks final e in
    ap (λ (n : ℕ). ticks n s tasks) (omega arith)
    ∙ round 9 (10 * k) s tasks next w f (omega arith) (omega arith) (omega arith) now
    ∙ ticks-repeat_schedule k (after 10 s) next final f (omega arith) (omega arith) later
    ∙ ap (λ (n : ℕ). some (record s { tick_count = n }, final)) (omega arith)

-- A ready task that stands behind `n` others in the circular list, none of which is dead, runs
-- after `10 (n + 1)` interrupts of the timer, from a count of ticks that is a multiple of ten, with
-- a frequency that is not zero.
pub ticks_fair :
    (before later : List ℕ) (s : Pit) (tasks : Tasks) (c t : ℕ)
    → s.configured_frequency ≢ 0
    → s.tick_count + 10 * suc (length before) < 2 ^ 64
    → s.tick_count % 10 ≡ 0
    → IsSched tasks c (before ++ t ∷ later)
    → NoneDead tasks.nodes (c ∷ before ++ t ∷ later)
    → (tasks' : Tasks) × (ticks (10 * suc (length before)) s tasks
        ≡ some (after (10 * suc (length before)) s, tasks'))
      × (tasks'.current_task ≡ t)
      × ((tasks'.nodes t).state ≡ task_running)
ticks_fair before later s tasks c t f small at sched living =
    let (final, e, current, runs) = schedule_fair before later tasks c t sched living in
    (final, ticks-repeat_schedule (suc (length before)) s tasks final f small at e, current, runs)
