-- ===== src/Kernel/Kill.antt =====
-- kernel/exit.c: `send_sig`, `kill_session` and `sys_kill`. A negative signal number is refused as
-- 0 is.
pub mod Sent
use linux_rpg.Prelude.{
  ℕ, zero, suc, ◌+◌, List, [], ◌∷◌, map, Option, none, some, Bool, true, false, ◌||◌, ltb, ◌==◌,
  if◌then◌else◌,
}
use linux_rpg.Prelude.Int.{ℤ, pos, negsuc, ◌==ℤ◌}
use linux_rpg.Prelude.Mask.{mask_or}
use linux_rpg.Kernel.Task.{Cred, Task, Table, sig_bit, sighup}
use linux_rpg.Kernel.Errno.{eperm, einval}
use linux_rpg.Kernel.Cred.{suser}
use linux_rpg.Kernel.Sched.{each_task}

abbrev pub raise : ℕ → Task → Task
raise sig t = record t { signal = mask_or t.signal (sig_bit sig) }

abbrev pub bad_signal : ℕ → Bool
bad_signal sig = ltb sig 1 || ltb 32 sig

-- priv || (current->euid==p->euid) || suser()
abbrev pub may_signal : Bool → Cred → Task → Bool
may_signal priv c t = priv || (c.euid == t.cred.euid || suser c)

-- The error number, and what `p` points at afterwards.
pub send_sig : ℕ → Option Task → Bool → Cred → ℤ × Option Task
send_sig sig none priv c = (einval, none)
send_sig sig (some t) priv c =
    if bad_signal sig
    then (einval, some t)
    else if may_signal priv c t
    then (pos 0, some (raise sig t))
    else (eperm, some t)

-- The tests of the four loops of `sys_kill`, by the sign of `pid`. The one for -1 takes an empty
-- slot too.
abbrev pub targets : ℤ → ℤ → Option Task → Bool
targets (negsuc zero) self p = true
targets (pos zero) self none = false
targets (pos zero) self (some t) = t.ids.pgrp ==ℤ self
targets (pos (suc n)) self none = false
targets (pos (suc n)) self (some t) = t.ids.pid ==ℤ pos (suc n)
targets (negsuc (suc n)) self none = false
targets (negsuc (suc n)) self (some t) = t.ids.pgrp ==ℤ pos (suc (suc n))

abbrev pub is_zero : ℤ → Bool
is_zero pid = pid ==ℤ pos 0

-- if ((err=send_sig(...))) retval = err;
abbrev pub keep_error : ℤ → ℤ → ℤ
keep_error err ret = if err ==ℤ pos 0 then ret else err

-- The slots from some slot on. The source goes down from the last slot, so the later ones are first.
pub kill_from : ℤ → ℕ → Task → Table → ℤ × Table
kill_from pid sig current [] = (pos 0, [])
kill_from pid sig current (p ∷ ts) =
    let (ret, ts') = kill_from pid sig current ts in
    let (err, p') = send_sig sig p (is_zero pid) current.cred in
    if targets pid current.ids.pid p then (keep_error err ret, p' ∷ ts') else (ret, p ∷ ts')

-- The loops leave out task 0.
pub sys_kill : ℤ → ℕ → Task → Table → ℤ × Table
sys_kill pid sig current [] = (pos 0, [])
sys_kill pid sig current (t0 ∷ ts) =
    let (ret, ts') = kill_from pid sig current ts in (ret, t0 ∷ ts')

pub kill_session : Task → Table → Table
kill_session current =
    each_task (λ t. if t.ids.session ==ℤ current.ids.session then raise sighup t else t)
