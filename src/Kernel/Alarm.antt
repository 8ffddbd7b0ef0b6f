-- ===== src/Kernel/Alarm.antt =====
-- kernel/sched.c: `sys_alarm` and `sys_nice`.
pub mod Left
use linux_rpg.Prelude.{
  ℕ, zero, suc, ◌+◌, ◌-◌, ◌*◌, ◌/◌, ◌%◌, ◌^◌, Bool, leb, ltb, ◌==◌, if◌then◌else◌, [], ◌∷◌, List,
}
use linux_rpg.Prelude.Int.{ℤ, pos, negsuc, pos_part, neg_part, sub_ℕ}
use linux_rpg.Kernel.Task.{Task, hz}

-- (old - jiffies) / HZ, which rounds towards zero. The difference is a long, and wraps.
abbrev pub seconds_left : ℕ → ℕ → ℤ
seconds_left old jiffies =
    let d = (old + 2 ^ 32 - jiffies) % 2 ^ 32 in
    if ltb d (2 ^ 31) then pos (d / hz) else sub_ℕ 0 ((2 ^ 32 - d) / hz)

-- (seconds>0)?(jiffies+HZ*seconds):0, as the 32-bit pattern of a long.
abbrev pub alarm_at : ℤ → ℕ → ℕ
alarm_at (negsuc n) jiffies = 0
alarm_at (pos zero) jiffies = 0
alarm_at (pos (suc n)) jiffies = (jiffies + hz * suc n) % 2 ^ 32

unfoldable pub sys_alarm : ℤ → ℕ → Task → ℤ × Task
sys_alarm seconds jiffies t = (
  if t.alarm == 0 then pos 0 else seconds_left t.alarm jiffies,
  record t { alarm = alarm_at seconds jiffies },
)

-- current->priority-increment>0
unfoldable pub sys_nice : ℤ → Task → ℤ × Task
sys_nice increment t =
    if ltb (pos_part increment) (t.priority + neg_part increment)
    then (pos 0, record t { priority = t.priority + neg_part increment - pos_part increment })
    else (pos 0, t)
