-- ===== src/Tasks.antt =====
-- The scheduler of kernel/tasks.cpp and kernel/tasks.hpp. A World is what a `Waitable` can look at
-- and what `jiffies` reads; interrupts are off while the scheduler runs, so one World is one run. The
-- registers, stacks, heap and files of a task are left out: `task_switch` is an assembly routine, and
-- a call of it is shown by the two tasks that it saves and resumes.
pub mod Picks
pub mod Time
mod Tests
use pinyon.Prelude.{
  ℕ, zero, suc, ◌+◌, ◌-◌, ◌*◌, ◌%◌, ◌^◌, Bool, true, false, leb, ◌==◌, if◌then◌else◌, Option, none,
  some, ◌>>=◌, List, [], ◌∷◌, ◌++◌, length, get_elem?, set,
}

-- Task::State
pub data State : Type 0 where
  new : State
  runnable : State
  waiting : State

pub record Task (World : Type 0) : Type 0 where
  pub state : State
  -- Task::is_kernel_task
  pub is_kernel : Bool
  pub jiffies_when_scheduled : ℕ
  pub cpu_jiffies : ℕ
  -- `m_waiting_for`, by its `is_finished`
  pub waiting_for : Option (World → Bool)

pub record TaskManager (World : Type 0) : Type 0 where
  pub tasks : List (Task World)
  pub running_task_index : ℕ

-- A call of `task_switch`: the index of the task whose registers are saved, if any, and of the one
-- that runs from here on.
pub record Switch : Type 0 where
  pub saved : Option ℕ
  pub resumed : ℕ

abbrev pub word : ℕ
word = 2 ^ 32

abbrev pub sys_hz : ℕ
sys_hz = 8

-- `++m_running_task_index`, back to 0 at the end
unfoldable pub next_index : ℕ → ℕ → ℕ
next_index len i = if leb len (i + 1) then 0 else i + 1

-- Vector::remove, which moves the later items to a new allocation. `none` is a vector that could not
-- allocate, and holds a destroyed item.
unfoldable pub remove_at {ℓ} : {A : Type ℓ} → (allocates : Bool) → ℕ → List A → Option (List A)
remove_at allocates i [] = some []
remove_at allocates zero (x ∷ []) = some []
remove_at allocates zero (x ∷ y ∷ xs) = if allocates then some (y ∷ xs) else none
remove_at allocates (suc i) (x ∷ xs) = do ys ← remove_at allocates i xs; some (x ∷ ys)

module _ {World : Type 0} where
  unfoldable pub can_run : Task World → Bool
  can_run t = elim t.state [ new ↦ true | runnable ↦ true | waiting ↦ false ]

  unfoldable pub update_state : World → Task World → Task World
  update_state w t = elim t.state [
    | new ↦ t
    | runnable ↦ t
    | waiting ↦ elim t.waiting_for [
      | none ↦ t
      | some is_finished ↦ if is_finished w then record t { state = runnable } else t
    ]
  ]

  -- The loop of `pick_next_task`; `none` is a loop that runs on after the given number of rounds.
  unfoldable pub pick_next_task :
      ℕ → World → TaskManager World → Option (Task World × TaskManager World)
  pick_next_task zero w m = none
  pick_next_task (suc fuel) w m = do
    let i = next_index (length m.tasks) m.running_task_index
    task ← get_elem? m.tasks i
    let t = update_state w task
    let m' : TaskManager World = record { tasks = set m.tasks i t; running_task_index = i }
    let rest = pick_next_task fuel w m'
    if can_run t then some (t, m') else rest

module _ {World : Type 0} (jiffies : World → ℕ) where
  -- Task::start, without the call of `task_switch`
  unfoldable pub start : World → Task World → Task World
  start w t = record t { state = runnable; jiffies_when_scheduled = jiffies w }

  -- The first line of Task::switch_to
  unfoldable pub charge : World → Task World → Task World
  charge w t = record t {
    cpu_jiffies = (t.cpu_jiffies + (jiffies w + word - t.jiffies_when_scheduled)) % word;
  }

  -- Task::switch_to from the task at `i` to that at `j`
  unfoldable pub switch_to : World → (i j : ℕ) → List (Task World) → Option (List (Task World))
  switch_to w i j tasks = do
    from ← get_elem? tasks i
    let tasks' = set tasks i (charge w from)
    to_run ← get_elem? tasks' j
    some (set tasks' j (start w to_run))

  unfoldable pub schedule :
      ℕ → World → TaskManager World → Option (Option Switch × TaskManager World)
  schedule fuel w m = do
    let curr = m.running_task_index
    (_, m') ← pick_next_task fuel w m
    let to_run = m'.running_task_index
    let switched : Option (Option Switch × TaskManager World) = do
      tasks ← switch_to w curr to_run m'.tasks
      some (some (record { saved = some curr; resumed = to_run }), record m' { tasks = tasks })
    if to_run == curr then some (none, m') else switched

  -- Task::reschedule_while_waiting_for on the running task
  unfoldable pub reschedule_while_waiting_for :
      ℕ → (World → Bool) → World → TaskManager World → Option (Option Switch × TaskManager World)
  reschedule_while_waiting_for fuel wait_for w m = do
    task ← get_elem? m.tasks m.running_task_index
    let waiting_task = record task { state = waiting; waiting_for = some wait_for }
    schedule fuel w (record m { tasks = set m.tasks m.running_task_index waiting_task })

  -- Task::SleepWaitable, made in the World of its constructor
  unfoldable pub sleep_waitable : World → ℕ → World → Bool
  sleep_waitable w secs later = leb ((jiffies w + secs * sys_hz) % word) (jiffies later)

  unfoldable pub sleep :
      ℕ → ℕ → World → TaskManager World → Option (Option Switch × TaskManager World)
  sleep fuel secs w m = reschedule_while_waiting_for fuel (sleep_waitable w secs) w m

  -- `task_manager().start_scheduler`
  unfoldable pub start_scheduler : World → TaskManager World → Option (Switch × TaskManager World)
  start_scheduler w m = do
    first ← get_elem? m.tasks 0
    some (record { saved = none; resumed = 0 }, record m { tasks = set m.tasks 0 (start w first) })

  unfoldable pub exit_running_task :
      ℕ → (allocates : Bool) → World → TaskManager World → Option (Switch × TaskManager World)
  exit_running_task fuel allocates w m = do
    left ← remove_at allocates m.running_task_index m.tasks
    (t, m') ← pick_next_task fuel w (record m { tasks = left })
    some (
      record { saved = none; resumed = m'.running_task_index },
      record m' { tasks = set m'.tasks m'.running_task_index (start w t) },
    )

  -- Task::cputime of the task at `i`
  unfoldable pub cputime : World → TaskManager World → ℕ → Option ℕ
  cputime w m i = do
    t ← get_elem? m.tasks i
    some (
        if i == m.running_task_index
        then (t.cpu_jiffies + (jiffies w + word - t.jiffies_when_scheduled)) % word
        else t.cpu_jiffies)
