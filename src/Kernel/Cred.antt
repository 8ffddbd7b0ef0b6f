-- ===== src/Kernel/Cred.antt =====
-- kernel/sys.c: the calls that change the user and group of the current task. The fields are
-- unsigned shorts, so a number that is stored is cut to 16 bits.
pub mod Privilege
use linux_rpg.Prelude.{ℕ, suc, zero, ◌%◌, ◌^◌, Option, none, some, Bool, ◌||◌, ◌==◌, if◌then◌else◌}
use linux_rpg.Prelude.Int.{ℤ, pos, negsuc}
use linux_rpg.Kernel.Task.{Cred}
use linux_rpg.Kernel.Errno.{eperm}

abbrev pub short : ℕ → ℕ
short n = n % 2 ^ 16

abbrev pub suser : Cred → Bool
suser c = c.euid == 0

-- The part of `sys_setreuid` on `ruid`; `none` is its -EPERM.
abbrev pub set_ruid : ℤ → Cred → Option Cred
set_ruid (negsuc n) c = some c
set_ruid (pos zero) c = some c
set_ruid (pos (suc n)) c =
    if c.euid == suc n || (c.uid == suc n || suser c)
    then some (record c { uid = short (suc n) })
    else none

-- The part on `euid`, given the real user from before the call.
abbrev pub set_euid : ℕ → ℤ → Cred → ℤ × Cred
set_euid old_ruid (negsuc n) c = (pos 0, c)
set_euid old_ruid (pos zero) c = (pos 0, c)
set_euid old_ruid (pos (suc n)) c =
    if old_ruid == suc n || (c.euid == suc n || suser c)
    then (pos 0, record c { euid = short (suc n) })
    else (eperm, record c { uid = old_ruid })

unfoldable pub sys_setreuid : ℤ → ℤ → Cred → ℤ × Cred
sys_setreuid ruid euid c = elim (set_ruid ruid c) [
  | none ↦ (eperm, c)
  | some c' ↦ set_euid c.uid euid c'
]

pub sys_setuid : ℤ → Cred → ℤ × Cred
unfolding sys_setreuid
sys_setuid uid c = sys_setreuid uid uid c

abbrev pub set_rgid : ℤ → Cred → Option Cred
set_rgid (negsuc n) c = some c
set_rgid (pos zero) c = some c
set_rgid (pos (suc n)) c =
    if c.gid == suc n || suser c then some (record c { gid = short (suc n) }) else none

abbrev pub set_egid : ℤ → Cred → ℤ × Cred
set_egid (negsuc n) c = (pos 0, c)
set_egid (pos zero) c = (pos 0, c)
set_egid (pos (suc n)) c =
    if c.gid == suc n || (c.egid == suc n || (c.sgid == suc n || suser c))
    then (pos 0, record c { egid = short (suc n) })
    else (eperm, c)

pub sys_setregid : ℤ → ℤ → Cred → ℤ × Cred
sys_setregid rgid egid c = elim (set_rgid rgid c) [ none ↦ (eperm, c) | some c' ↦ set_egid egid c' ]

pub sys_setgid : ℤ → Cred → ℤ × Cred
unfolding sys_setregid
sys_setgid gid c = sys_setregid gid gid c
