-- ===== src/Kernel/Cred/Privilege.antt =====
-- kernel/sys.c: an unprivileged task gains no user by `setreuid` and `setuid`.
use linux_rpg.Prelude.{ℕ, ◌^◌, ◌<◌, ◌≡◌, ◌≢◌, ◌⊎◌, List, [], ◌∷◌, arith}
use linux_rpg.Prelude.Int.{ℤ}
use linux_rpg.Kernel.Task.{Cred}
use linux_rpg.Kernel.Errno.{eperm}
use linux_rpg.Kernel.Cred.{sys_setreuid, sys_setregid}

-- The users of a task fit in their fields.
pub record IsShort (c : Cred) : Type 0 where
  pub uid : c.uid < 2 ^ 16
  pub euid : c.euid < 2 ^ 16

abbrev pub OneOf : ℕ → Cred → Type 0
OneOf u c = (u ≡ c.uid) ⊎ (u ≡ c.euid)

-- For a task that is not the superuser, `setreuid` leaves the real and the effective user among
-- the two that the task had, and so do not wrap either.
pub setreuid-OneOf :
    (ruid euid : ℤ) (c : Cred)
    → IsShort c
    → c.euid ≢ 0
    → OneOf (sys_setreuid ruid euid c).1.uid c × OneOf (sys_setreuid ruid euid c).1.euid c
unfolding sys_setreuid
setreuid-OneOf ruid euid c s h = ground arith

-- `setreuid` changes nothing when it reports an error.
setreuid-eperm :
    (ruid euid : ℤ) (c : Cred)
    → (sys_setreuid ruid euid c).0 ≡ eperm
    → (sys_setreuid ruid euid c).1 ≡ c
unfolding sys_setreuid
setreuid-eperm ruid euid c h = ground arith

-- Any sequence of `setreuid` calls.
pub setreuid_all : List (ℤ × ℤ) → Cred → Cred
setreuid_all [] c = c
setreuid_all ((r, e) ∷ calls) c = setreuid_all calls (sys_setreuid r e c).1

-- A task with neither user 0 does not get it by any sequence of `setreuid` calls.
pub setreuid_all-unprivileged :
    (calls : List (ℤ × ℤ)) (c : Cred)
    → IsShort c
    → c.uid ≢ 0
    → c.euid ≢ 0
    → ((setreuid_all calls c).uid ≢ 0) × ((setreuid_all calls c).euid ≢ 0)
unfolding setreuid_all
setreuid_all-unprivileged [] c s u e = (u, e)
setreuid_all-unprivileged ((r, e') ∷ calls) c s u e =
    let o = setreuid-OneOf r e' c s e in
    setreuid_all-unprivileged calls (sys_setreuid r e' c).1
      (record { uid = ground arith; euid = ground arith }) (ground arith) (ground arith)

-- For a task that is not the superuser and whose group fits in its field, `setregid` keeps the
-- real group and leaves the effective group among the three groups that the task had; on an error
-- it changes nothing.
setregid-unprivileged :
    (rgid egid : ℤ) (c : Cred)
    → c.gid < 2 ^ 16
    → c.egid < 2 ^ 16
    → c.sgid < 2 ^ 16
    → c.euid ≢ 0
    → let (ret, c') = sys_setregid rgid egid c in
      (c'.gid ≡ c.gid)
      × ((c'.egid ≡ c.egid) ⊎ ((c'.egid ≡ c.gid) ⊎ (c'.egid ≡ c.sgid)))
      × (ret ≡ eperm → c' ≡ c)
unfolding sys_setregid
setregid-unprivileged rgid egid c hg he hs h = ground arith
