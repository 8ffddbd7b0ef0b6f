-- ===== src/Kernel/Exit/Reap.antt =====
-- kernel/exit.c: how a round of `waitpid` ends, and that a zombie is reaped.
use linux_rpg.Prelude.{ℕ, suc, ◌≡◌, ◌≢◌, none, some, Bool, true, false, if◌then◌else◌}
use linux_rpg.Prelude.Int.{ℤ, pos}
use linux_rpg.Kernel.Task.{State, Task, Table, slot}
use linux_rpg.Kernel.Errno.{echild}
use linux_rpg.Kernel.Exit.{add_times, Waited, returned, waiting, change}
use linux_rpg.Kernel.Exit.Wait.{Child, stopped, zombie}

-- The table after the caller has taken the zombie of slot `i`.
pub record Reaped (self i : ℕ) (current t : Task) (ts us : Table) : Type 0 where
  pub gone : slot us i ≡ none
  pub charged : slot us self ≡ some (add_times t current)
  pub others : (k : ℕ) → k ≢ i → k ≢ self → slot us k ≡ slot ts k

-- The ends of a round, over the slots other than 0.
pub data Ends (pid : ℤ) (untraced nohang : Bool) (self : ℕ) (current : Task) (ts : Table)
    (w : Waited) : Type 0 where
  childless :
      ((j : ℕ) (t : Task)
        → Child pid self current 0 ts (suc j) t
        → (t.state ≡ State.stopped) × (untraced ≡ false))
      → w ≡ returned echild none ts
      → Ends pid untraced nohang self current ts w
  unfinished :
      (i : ℕ) (living : Task)
      → Child pid self current 0 ts (suc i) living
      → living.state ≢ State.stopped
      → ((j : ℕ) (t : Task) → Child pid self current 0 ts (suc j) t → t.state ≢ State.zombie)
      → w ≡ (
          if nohang
          then returned (pos 0) none ts
          else waiting (change self (λ t. record t { state = State.interruptible }) ts))
      → Ends pid untraced nohang self current ts w
  reports :
      (j : ℕ) (t : Task)
      → Child pid self current 0 ts (suc j) t
      → t.state ≡ State.stopped
      → untraced ≡ true
      → w ≡ returned t.ids.pid (some 127) ts
      → Ends pid untraced nohang self current ts w
  reaps :
      (j : ℕ) (t : Task) (us : Table)
      → Child pid self current 0 ts (suc j) t
      → t.state ≡ State.zombie
      → w ≡ returned t.ids.pid (some t.exit_code) us
      → Reaped self (suc j) current t ts us
      → Ends pid untraced nohang self current ts w
