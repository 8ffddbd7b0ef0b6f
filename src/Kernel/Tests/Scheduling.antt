-- ===== src/Kernel/Tests/Scheduling.antt =====
-- kernel/sched.c at concrete inputs.
use linux_rpg.Kernel.Task.{sig_bit}
use linux_rpg.Prelude.Mask.{nonzero}
use linux_rpg.Prelude.{◌⊎◌}
use linux_rpg.Prelude.{
  ℕ, zero, suc, ◌+◌, ◌-◌, ◌<◌, ◌≡◌, refl, List, [], ◌∷◌, ◌++◌, Option, none, some, arith,
}
use linux_rpg.Kernel.Task.{State, Task, slot}
use linux_rpg.Kernel.Sched.{
  Cpu, schedule, wake_signalled, check_alarm, scan, pick_loop, check_signals,
}
use linux_rpg.Kernel.Sched.Pick.{Positive, Picked, schedule-Picked, schedule-slot}
use linux_rpg.Kernel.Sched.Signals.{IsCalled, check_signals-running}
use linux_rpg.Kernel.Wait.{Waits, wake_up}
use linux_rpg.Kernel.Wait.Chain.{sleep_all, names, Resumes, wake_up-Resumes}
use linux_rpg.Kernel.Timer.{Chain, insert}
use linux_rpg.Kernel.Timer.Due.{
  due, total, NotBefore, ticks, expired, pending, ticks-expired, insert-due,
}
use linux_rpg.Kernel.Tests.{a_task, asleep, table}

abbrev cpu : Cpu
cpu = record { task = table; current = 1; jiffies = 7 }

table-Positive : Positive table
table-Positive zero t e = ground arith
table-Positive (suc zero) t e = ground arith
table-Positive (suc (suc zero)) t e = ground arith
table-Positive (suc (suc (suc zero))) t e = ground arith
table-Positive (suc (suc (suc (suc j)))) t e = ground arith

-- Slot 3 is the only task with ticks.
schedule-slot_3 : schedule 2 cpu ≡ some (record cpu { current = 3 })
unfolding schedule pick_loop check_signals wake_signalled check_alarm scan nonzero
schedule-slot_3 = refl

schedule-Picked_example : (k' : Cpu) × (schedule 2 cpu ≡ some k') × Picked k'.task k'.current
schedule-Picked_example = schedule-Picked 0 cpu table-Positive

schedule-slot_example :
    (n : ℕ) × (slot table 3
      ≡ some (record (wake_signalled (check_alarm 7 (a_task 3 3))) { counter = n }))
schedule-slot_example =
    schedule-slot 2 cpu (record cpu { current = 3 }) 2 (a_task 3 3) schedule-slot_3 refl

-- SIGKILL, blocked, wakes the task.
abbrev killed : Task
killed = record (asleep (a_task 3 3)) { signal = sig_bit 9; blocked = sig_bit 9 }

check_signals-running_example :
    (u : Task) × (slot (check_signals 7 (none ∷ some killed ∷ [])) 1 ≡ some u)
    × ((IsCalled 7 killed × (u.state ≡ State.running))
        ⊎ (¬ IsCalled 7 killed × (u.state ≡ State.interruptible)))
check_signals-running_example = check_signals-running 7 (none ∷ some killed ∷ []) 0 killed refl refl

abbrev nobody_waits : Waits
nobody_waits = record { task = table; queue = none }

wake_up-Resumes_example :
    (kept : List (ℕ × Option ℕ)) × (w' : Waits) × (sleep_all (3 ∷ 1 ∷ []) nobody_waits
      ≡ some (kept, w'))
    × (names kept ≡ 3 ∷ 1 ∷ [])
    × Resumes kept (wake_up w')
wake_up-Resumes_example =
    wake_up-Resumes (3 ∷ 1 ∷ []) nobody_waits
      (omega arith, (a_task 3 3, refl), (omega arith, (a_task 1 0, refl), tt))

-- Timers due in 2 and 5 ticks.
abbrev chain : Chain
chain = (2, 7) ∷ (3, 8) ∷ []

ticks-expired_example : ticks 4 chain ≡ (expired 4 0 chain, pending 4 0 chain)
ticks-expired_example = ticks-expired 4 chain (omega arith, (omega arith, tt))

-- A new timer in 4 ticks makes the one that was due in 5 ticks wait for 7.
insert-late : due 0 (insert 4 9 chain) ≡ (2, 7) ∷ (4, 9) ∷ (7, 8) ∷ []
unfolding insert
insert-late = refl

insert-due_example :
    (before : Chain) × (after : Chain) × (chain ≡ before ++ after)
    × (insert 4 9 chain ≡ before ++ (4 - total before, 9) ∷ after)
    × (0 < 4 → total before < 4)
    × NotBefore 4 (total before) after
    × ((b : ℕ) → due b (insert 4 9 chain) ≡ due b before ++ (b + 4, 9) ∷ due (b + 4) after)
    × ((b : ℕ) → due b chain ≡ due b before ++ due (b + total before) after)
insert-due_example = insert-due 4 9 chain
