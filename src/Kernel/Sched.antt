-- ===== src/Kernel/Sched.antt =====
-- kernel/sched.c, `schedule`: signals and alarms, the choice of the next task, time slices.
pub mod Scan
pub mod Pick
pub mod Signals
use linux_rpg.Prelude.{
  ℕ, Bool, ◌%◌, ◌^◌, zero, suc, ◌+◌, ◌/◌, List, [], ◌∷◌, map, Option, none, some, ◌&&◌, ◌||◌, not,
  ltb, ◌==◌, if◌then◌else◌,
}
use linux_rpg.Prelude.Int.{ℤ, pos, negsuc, ltb_ℤ, ◌==ℤ◌}
use linux_rpg.Prelude.Mask.{Mask, mask_or, mask_and, mask_not, nonzero}
use linux_rpg.Kernel.Task.{
  State, Task, Table, is_running, is_interruptible, sig_bit, sigkill, sigstop, sigalrm,
}

-- _BLOCKABLE
abbrev pub blockable : Mask
blockable = mask_not (mask_or (sig_bit sigkill) (sig_bit sigstop))

-- alarm < jiffies. Both are longs, as their 32-bit patterns.
abbrev pub alarm_over : ℕ → ℕ → Bool
alarm_over alarm jiffies = ltb ((alarm + 2 ^ 31) % 2 ^ 32) ((jiffies + 2 ^ 31) % 2 ^ 32)

unfoldable pub check_alarm : ℕ → Task → Task
check_alarm jiffies t =
    if not (t.alarm == 0) && alarm_over t.alarm jiffies
    then record t { signal = mask_or t.signal (sig_bit sigalrm); alarm = 0 }
    else t

-- The signals that `schedule` counts: all but the blocked ones that may be blocked.
abbrev pub deliverable : Task → Mask
deliverable t = mask_and t.signal (mask_not (mask_and blockable t.blocked))

unfoldable pub wake_signalled : Task → Task
wake_signalled t =
    if nonzero (deliverable t) && is_interruptible t.state
    then record t { state = State.running }
    else t

-- A loop `for (p = &LAST_TASK ; p > &FIRST_TASK ; --p) if (*p) ...` whose body changes one task.
abbrev pub each_task : (Task → Task) → Table → Table
each_task f [] = []
each_task f (t0 ∷ ts) = t0 ∷ map (λ p. elim p [ none ↦ none | some t ↦ some (f t) ]) ts

unfoldable pub check_signals : ℕ → Table → Table
check_signals jiffies = each_task (λ t. wake_signalled (check_alarm jiffies t))

-- The test and the assignments to `c` and `next` in the scan's body.
abbrev pub larger : ℕ → Task → ℤ × ℕ → ℤ × ℕ
larger i t (c, next) =
    if is_running t.state && ltb_ℤ c (pos t.counter) then (pos t.counter, i) else (c, next)

-- The scan for the largest counter, over the slots from `i` on. The source goes down from the last
-- slot, so the later slots come first.
unfoldable pub scan : ℕ → Table → ℤ × ℕ
scan i [] = (negsuc 0, 0)
scan i (none ∷ ts) = scan (i + 1) ts
scan i (some t ∷ ts) = larger i t (scan (i + 1) ts)

-- The scan leaves out task 0.
abbrev pub scan_all : Table → ℤ × ℕ
scan_all [] = (negsuc 0, 0)
scan_all (_ ∷ ts) = scan 1 ts

unfoldable pub recharge : Table → Table
recharge = each_task (λ t. record t { counter = t.counter / 2 + t.priority })

-- `while (1)` with fuel; `none` means that the fuel ran out.
unfoldable pub pick_loop : ℕ → Table → Option (ℕ × Table)
pick_loop zero ts = none
pick_loop (suc fuel) ts =
    let again = pick_loop fuel (recharge ts) in
    let (c, next) = scan_all ts in if c ==ℤ pos 0 then again else some (next, ts)

-- What the scheduler reads and writes. `switch_to(next)` makes `next` the current task.
pub record Cpu : Type 0 where
  pub task : Table
  pub current : ℕ
  pub jiffies : ℕ

unfoldable pub schedule : ℕ → Cpu → Option Cpu
schedule fuel k = elim (pick_loop fuel (check_signals k.jiffies k.task)) [
  | none ↦ none
  | some (next, ts) ↦ some (record k { task = ts; current = next })
]
