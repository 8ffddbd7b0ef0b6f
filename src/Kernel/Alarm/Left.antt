-- ===== src/Kernel/Alarm/Left.antt =====
-- kernel/sched.c: the seconds that `alarm` reports, the signal that it ends in, and priorities.
use linux_rpg.Prelude.{◌<◌, ◌≡◌, arith}
use linux_rpg.Prelude.Int.{ℤ}
use linux_rpg.Kernel.Task.{Task}
use linux_rpg.Kernel.Alarm.{sys_nice}

-- `nice` keeps a positive priority positive, as `schedule` needs it, and changes nothing else.
sys_nice-positive :
    (increment : ℤ) (t : Task)
    → 0 < t.priority
    → (0 < (sys_nice increment t).1.priority)
      × ((sys_nice increment t).1 ≡ record t { priority = (sys_nice increment t).1.priority })
unfolding sys_nice
sys_nice-positive increment t h = (ground arith, ground arith)
