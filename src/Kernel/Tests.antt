-- ===== src/Kernel/Tests.antt =====
-- Test data for kernel/, and the theorems at concrete inputs.
mod Scheduling
mod Signals
mod Clock
mod Processes
mod Terminal
use linux_rpg.Prelude.{ℕ, List, [], ◌∷◌, none, some, false, true, replicate}
use linux_rpg.Prelude.Int.{ℤ, pos, negsuc}
use linux_rpg.Prelude.Mask.{empty}
use linux_rpg.Kernel.Task.{State, Task, Table}
use linux_rpg.Kernel.Signal.{no_action}

-- Task `pid`, runnable with `ticks` of its time slice left.
abbrev pub a_task : ℕ → ℕ → Task
a_task pid ticks = record {
  state = State.running;
  counter = ticks;
  priority = 15;
  signal = empty;
  sigaction = replicate 32 no_action;
  blocked = empty;
  exit_code = 0;
  layout = record { end_code = 0; end_data = 0; brk = 0; start_stack = 0 };
  ids = record { pid = pos pid; father = pos 1; pgrp = pos pid; session = pos 1; leader = false };
  cred = record { uid = 500; euid = 500; suid = 500; gid = 50; egid = 50; sgid = 50 };
  alarm = 0;
  times = record { utime = 0; stime = 0; cutime = 0; cstime = 0 };
  tty = pos 0;
  umask = 18;
}

abbrev pub asleep : Task → Task
asleep t = record t { state = State.interruptible }

-- Task 0, a runnable task with no ticks, an empty slot, a runnable task with 3 ticks.
abbrev pub table : Table
table = some (a_task 0 15) ∷ some (a_task 1 0) ∷ none ∷ some (a_task 3 3) ∷ []
