-- ===== src/Tasks/Tests.antt =====
-- Runs of three tasks: a sleeping one runs, and the spin task is the last.
use pinyon.Prelude.{ℕ, ◌<◌, ◌≡◌, refl, ◌⊎◌, arith, true, false, leb, Option, none, some, [], ◌∷◌}
use pinyon.Tasks.{
  new, runnable, waiting, Task, TaskManager, Switch, next_index, can_run, update_state,
  pick_next_task, schedule, exit_running_task, remove_at, start,
}
use pinyon.Tasks.Picks.{ahead, Picked, pick_next_task-Picked, pick_next_task-nearer}
use pinyon.Tasks.Time.{Scheduled, schedule-Scheduled}

-- A World is the jiffies since boot.
abbrev now : ℕ → ℕ
now w = w

abbrev shell : Task ℕ
shell = record {
  state = runnable;
  is_kernel = false;
  jiffies_when_scheduled = 10;
  cpu_jiffies = 3;
  waiting_for = none;
}

abbrev sleeper : Task ℕ
sleeper = record {
  state = waiting;
  is_kernel = false;
  jiffies_when_scheduled = 4;
  cpu_jiffies = 2;
  waiting_for = some (λ w. leb 90 w);
}

abbrev spin : Task ℕ
spin = record {
  state = new;
  is_kernel = true;
  jiffies_when_scheduled = 0;
  cpu_jiffies = 0;
  waiting_for = none;
}

abbrev three : TaskManager ℕ
three = record { tasks = shell ∷ sleeper ∷ spin ∷ []; running_task_index = 0 }

pick_run : pick_next_task 3 20 three ≡ some (spin, record three { running_task_index = 2 })
unfolding pick_next_task next_index can_run update_state
pick_run = refl

-- The task behind the one that exits is passed over: `m_running_task_index` names it already when
-- `pick_next_task` steps on.
exit_run :
    exit_running_task now 3 true 20
      (record { tasks = shell ∷ shell ∷ spin ∷ []; running_task_index = 0 })
    ≡ some (
      record { saved = none; resumed = 1 },
      record { tasks = shell ∷ start now 20 spin ∷ []; running_task_index = 1 },
    )
unfolding exit_running_task remove_at pick_next_task next_index can_run update_state start
exit_run = refl

spin-can_run : can_run (update_state 20 spin) ≡ true
unfolding can_run update_state
spin-can_run = refl

pick_next_task-Picked_example :
    (t : Task ℕ) × (m' : TaskManager ℕ) × (pick_next_task 3 20 three ≡ some (t, m'))
    × Picked 20 three t m'
pick_next_task-Picked_example =
    pick_next_task-Picked 20 three 2 spin (omega arith) refl spin-can_run

woken :
    pick_next_task 3 100 three
    ≡ some (
      record sleeper { state = runnable },
      record {
        tasks = shell ∷ record sleeper { state = runnable } ∷ spin ∷ [];
        running_task_index = 1;
      },
    )
unfolding pick_next_task next_index can_run update_state
woken = refl

late-can_run : can_run (update_state 100 spin) ≡ true
unfolding can_run update_state
late-can_run = refl

pick_next_task-nearer_example : (◌≡◌ {A = ℕ} 1 2) ⊎ (ahead 3 1 2 < ahead 3 0 2)
pick_next_task-nearer_example =
    pick_next_task-nearer 100 three
      (record {
        tasks = shell ∷ record sleeper { state = runnable } ∷ spin ∷ [];
        running_task_index = 1;
      })
      (record sleeper { state = runnable }) 2 spin (omega arith) refl late-can_run woken

schedule-Scheduled_example :
    (switch : Option Switch) × (m' : TaskManager ℕ) × (schedule now 3 20 three ≡ some (switch, m'))
    × Scheduled now 20 three switch m'
schedule-Scheduled_example =
    schedule-Scheduled now 20 three 2 spin (omega arith)
      ((omega arith, omega arith), ((omega arith, omega arith), ((omega arith, omega arith), tt)))
      (omega arith) refl spin-can_run
