-- ===== src/Kernel/Kill/Sent.antt =====
-- kernel/exit.c: whom `kill` signals, and what it returns.
use linux_rpg.Prelude.{◌<◌, ◌≤◌, ◌⊎◌, Bool, ◌∙◌, ap, length}
use mathlib.Core.Option
use linux_rpg.Prelude.{
  ℕ, zero, suc, ◌≡◌, refl, [], ◌∷◌, none, some, true, false, ◌&&◌, not, arith, inl, inr,
  if◌then◌else◌, Bool-cases,
}
use linux_rpg.Prelude.Int.{ℤ, pos, negsuc}
use linux_rpg.Kernel.Task.{Task, Table, slot}
use linux_rpg.Kernel.Errno.{einval}
use linux_rpg.Kernel.Kill.{
  raise, bad_signal, may_signal, send_sig, targets, is_zero, kill_from, sys_kill,
}

-- What a call of `kill` does to a task.
abbrev pub signalled : ℤ → ℕ → Task → Task → Task
signalled pid sig current t =
    if targets pid current.ids.pid (some t)
      && (not (bad_signal sig) && may_signal (is_zero pid) current.cred t)
    then raise sig t
    else t

kill_from-slot :
    (pid : ℤ) (sig : ℕ) (current : Task) (ts : Table) (j : ℕ)
    → slot (kill_from pid sig current ts).1 j ≡ Option.map (signalled pid sig current) (slot ts j)
unfolding kill_from send_sig
kill_from-slot pid sig current [] j = refl
kill_from-slot pid sig current (none ∷ ts) zero =
    elim (Bool-cases (targets pid current.ids.pid none)) [ inl e ↦ rw e | inr e ↦ rw e ]
kill_from-slot pid sig current (some t ∷ ts) zero =
    elim (Bool-cases (targets pid current.ids.pid (some t))) [
      | inr e ↦ rw e
      | inl e ↦ elim (Bool-cases (bad_signal sig)) [
        | inl bad ↦ rw (e, bad)
        | inr good ↦ elim (Bool-cases (may_signal (is_zero pid) current.cred t)) [
          | inl may ↦ rw (e, good, may)
          | inr not_may ↦ rw (e, good, not_may)
        ]
      ]
    ]
kill_from-slot pid sig current (p ∷ ts) (suc j) =
    elim (Bool-cases (targets pid current.ids.pid p)) [
      | inl e ↦ rw e (kill_from-slot pid sig current ts j)
      | inr e ↦ rw e (kill_from-slot pid sig current ts j)
    ]

-- The task that a target names: the caller's group for 0, a task by its number, any task for -1,
-- and the tasks of a group for a number below.
abbrev pub Names : ℤ → Task → Task → Type 0
Names (pos zero) current t = t.ids.pgrp ≡ current.ids.pid
Names (pos (suc n)) current t = t.ids.pid ≡ pos (suc n)
Names (negsuc zero) current t = Unit
Names (negsuc (suc n)) current t = t.ids.pgrp ≡ pos (suc (suc n))

-- What a call of kill has to reach a task.
pub record Reaches (pid : ℤ) (sig : ℕ) (current t : Task) : Type 0 where
  pub low : 1 ≤ sig
  pub high : sig ≤ 32
  pub named : Names pid current t
  pub allowed : (pid ≡ pos 0) ⊎ ((current.cred.euid ≡ t.cred.euid) ⊎ (current.cred.euid ≡ 0))

-- The test of kill_from and send_sig on a task of the table.
abbrev reach : ℤ → ℕ → Task → Task → Bool
reach pid sig current t =
    targets pid current.ids.pid (some t)
    && (not (bad_signal sig) && may_signal (is_zero pid) current.cred t)

-- No task of the slots is one that the sender may not signal.
abbrev pub AllMay : Task → Table → Type 0
AllMay current ts = (j : ℕ) (t : Task) → slot ts j ≡ some t → may_signal false current.cred t ≡ true

kill_from_empty :
    (sig : ℕ) (current : Task) (ts : Table) (j : ℕ)
    → bad_signal sig ≡ false
    → AllMay current ts
    → j < length ts
    → slot ts j ≡ none
    → (kill_from (negsuc 0) sig current ts).0 ≡ einval
unfolding kill_from send_sig
kill_from_empty sig current [] j good may h e = absurd (omega arith)
kill_from_empty sig current (none ∷ ts) j good may h e = refl
kill_from_empty sig current (some t ∷ ts) zero good may h e = absurd (Option.some-ne-none t e)
kill_from_empty sig current (some t ∷ ts) (suc j) good may h e =
    let here : may_signal false current.cred t ≡ true = may zero t refl in
    rw (good, here)
      (kill_from_empty sig current ts j good (λ i t' e'. may (suc i) t' e') (omega arith) e)

-- `kill(-1, sig)` with a good signal number returns -EINVAL whenever the table has an empty slot,
-- also if the sender may signal every task, and has signalled it.
sys_kill_all-einval :
    (sig : ℕ) (current : Task) (ts : Table) (j : ℕ)
    → bad_signal sig ≡ false
    → AllMay current ts
    → suc j < length ts
    → slot ts (suc j) ≡ none
    → ((sys_kill (negsuc 0) sig current ts).0 ≡ einval)
      × ((i : ℕ) (t : Task)
          → slot ts (suc i) ≡ some t
          → slot (sys_kill (negsuc 0) sig current ts).1 (suc i) ≡ some (raise sig t))
unfolding sys_kill
sys_kill_all-einval sig current [] j good may h e = absurd (omega arith)
sys_kill_all-einval sig current (t0 ∷ ts) j good may h e = (
  kill_from_empty sig current ts j good (λ i t e'. may (suc i) t e') (omega arith) e,
  λ i t at. kill_from-slot (negsuc 0) sig current ts i ∙ ap (Option.map _) at ∙ sent i t at,
)
  where
    sent :
        (i : ℕ) (t : Task)
        → slot ts i ≡ some t
        → some (signalled (negsuc 0) sig current t) ≡ some (raise sig t)
    sent i t at = rw (good, may (suc i) t at)
