-- ===== src/Pit/Tests.antt =====
-- The timer over three tasks.
use tuna_os.Base.{◌*◌, ◌≡◌, refl, some, [], ◌∷◌, arith}
use tuna_os.Task.{Tasks, task_ready, task_running}
use tuna_os.Task.Tests.{three, first, second, third, ready-IsSched}
use tuna_os.Pit.{Pit}
use tuna_os.Pit.Ticks.{ticks, after, ticks_fair}

abbrev timer : Pit
timer = record { tick_count = 40; configured_frequency = 100 }

ticks_fair_example :
    (tasks' : Tasks) × (ticks (10 * 2) timer (three task_ready)
      ≡ some (after (10 * 2) timer, tasks'))
    × (tasks'.current_task ≡ third)
    × ((tasks'.nodes third).state ≡ task_running)
ticks_fair_example =
    ticks_fair (second ∷ []) [] timer (three task_ready) first third (omega arith) (omega arith)
      refl ready-IsSched (refl, (refl, (refl, tt)))
