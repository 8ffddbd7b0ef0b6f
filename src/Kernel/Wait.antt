-- ===== src/Kernel/Wait.antt =====
-- kernel/sched.c: `sleep_on`, `interruptible_sleep_on` and `wake_up`. A wait queue is a variable
-- that holds a task; the rest of the queue is in the local variables `tmp` of the sleepers. A
-- function that calls `schedule` is cut there in two: what runs before, and what runs when the
-- task is switched to again.
pub mod Chain
use mathlib.Core.Option
use linux_rpg.Prelude.{
  ℕ, Option, none, some, Bool, true, false, ◌&&◌, not, ◌==◌, if◌then◌else◌, set,
}
use linux_rpg.Kernel.Task.{State, Task, Table, slot}

abbrev pub with_state : State → Task → Task
with_state s t = record t { state = s }

abbrev pub set_state : State → ℕ → Table → Table
set_state s i ts = set ts i (Option.map (with_state s) (slot ts i))

-- if (tmp) tmp->state = 0;
abbrev pub run_if : Option ℕ → Table → Table
run_if none ts = ts
run_if (some i) ts = set_state State.running i ts

-- The table, and the variable `*p` of a wait queue.
pub record Waits : Type 0 where
  pub task : Table
  pub queue : Option ℕ

-- `sleep_on` before its `schedule`, with the `tmp` that the task keeps; `none` is the panic of
-- task 0.
pub sleep_on : ℕ → Waits → Option (Option ℕ × Waits)
sleep_on current w =
    if current == 0
    then none
    else some (
      w.queue,
      record { task = set_state State.uninterruptible current w.task; queue = some current },
    )

-- `sleep_on` after its `schedule`.
pub sleep_on_end : Option ℕ → Waits → Waits
sleep_on_end tmp w = record w { task = run_if tmp w.task }

pub interruptible_sleep_on : ℕ → Waits → Option (Option ℕ × Waits)
interruptible_sleep_on current w =
    if current == 0
    then none
    else some (
      w.queue,
      record { task = set_state State.interruptible current w.task; queue = some current },
    )

abbrev pub is_other : ℕ → Option ℕ → Bool
is_other current none = false
is_other current (some i) = not (i == current)

-- `interruptible_sleep_on` after its `schedule`: true if it goes back to sleep (`goto repeat`),
-- behind the task that now heads the queue.
pub interruptible_sleep_on_end : ℕ → Option ℕ → Waits → Bool × Waits
interruptible_sleep_on_end current tmp w =
    if is_other current w.queue
    then (true, record w { task = set_state State.interruptible current (run_if w.queue w.task) })
    else (false, record { task = run_if tmp w.task; queue = none })

pub wake_up : Waits → Waits
wake_up w = record { task = run_if w.queue w.task; queue = none }
