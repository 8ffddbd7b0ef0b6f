-- ===== src/Kernel/Session/Groups.antt =====
-- kernel/sys.c: what `setpgid` does to the table, and session leaders.
use linux_rpg.Prelude.{
  ℕ, zero, suc, ◌<◌, ◌≡◌, refl, List, [], ◌∷◌, none, some, true, ◌≢◌, ◌⊎◌, false, arith, inl, inr,
  Bool-cases, set, length, get_or-set_self, get_or-set_ne,
}
use linux_rpg.Prelude.Int.{ℤ, pos, ◌==ℤ◌}
use linux_rpg.Kernel.Task.{Task, Table, slot}
use linux_rpg.Kernel.Errno.{eperm, esrch}
use linux_rpg.Kernel.Cred.{suser}
use linux_rpg.Kernel.Session.{with_pgrp, is_fixed, or_own, setpgid_from, sys_setpgid, sys_setsid}

-- How a `setpgid` on the process `pid` ends: the first task of that number moves to the group; or it
-- is a leader or of another session; or there is none.
pub data Moved (pid pgid : ℤ) (current : Task) (ts : Table) (r : ℤ × Table) : Type 0 where
  moved :
      (j : ℕ) (t : Task)
      → slot ts j ≡ some t
      → (t.ids.pid ==ℤ pid) ≡ true
      → is_fixed current t ≡ false
      → r ≡ (pos 0, set ts j (some (with_pgrp pgid t)))
      → Moved pid pgid current ts r
  refused :
      (j : ℕ) (t : Task)
      → slot ts j ≡ some t
      → (t.ids.pid ==ℤ pid) ≡ true
      → is_fixed current t ≡ true
      → r ≡ (eperm, ts)
      → Moved pid pgid current ts r
  missing :
      ((j : ℕ) (t : Task) → slot ts j ≡ some t → (t.ids.pid ==ℤ pid) ≡ false)
      → r ≡ (esrch, ts)
      → Moved pid pgid current ts r

setpgid_from-Moved :
    (pid pgid : ℤ) (current : Task) (ts : Table)
    → Moved pid pgid current ts (setpgid_from pid pgid current ts)
unfolding setpgid_from
setpgid_from-Moved pid pgid current [] = missing (λ j t e. cc) refl
setpgid_from-Moved pid pgid current (none ∷ ts) =
    go (setpgid_from pid pgid current ts) (setpgid_from-Moved pid pgid current ts)
  where
    go :
        (r : ℤ × Table)
        → Moved pid pgid current ts r
        → Moved pid pgid current (none ∷ ts) (r.0, none ∷ r.1)
    go r (moved j t at is free e) = moved (suc j) t at is free (rw e refl)
    go r (refused j t at is fixed e) = refused (suc j) t at is fixed (rw e refl)
    go r (missing other e) = missing (λ j t at. ahead j t at) (rw e refl)
      where
        ahead : (j : ℕ) (t : Task) → slot (none ∷ ts) j ≡ some t → (t.ids.pid ==ℤ pid) ≡ false
        ahead zero t at = cc
        ahead (suc j) t at = other j t at
setpgid_from-Moved pid pgid current (some t ∷ ts) = elim (Bool-cases (t.ids.pid ==ℤ pid)) [
  | inl same ↦ elim (Bool-cases (is_fixed current t)) [
    | inl fixed ↦ rw (same, fixed) (refused 0 t refl same fixed refl)
    | inr free ↦ rw (same, free) (moved 0 t refl same free refl)
  ]
  | inr differ ↦
      rw differ
        (go differ (setpgid_from pid pgid current ts) (setpgid_from-Moved pid pgid current ts))
]
  where
    go :
        (t.ids.pid ==ℤ pid) ≡ false
        → (r : ℤ × Table) → Moved pid pgid current ts r
        → Moved pid pgid current (some t ∷ ts) (r.0, some t ∷ r.1)
    go differ r (moved j u at is free e) = moved (suc j) u at is free (rw e refl)
    go differ r (refused j u at is fixed e) = refused (suc j) u at is fixed (rw e refl)
    go differ r (missing other e) = missing (λ j u at. ahead j u at) (rw e refl)
      where
        ahead : (j : ℕ) (u : Task) → slot (some t ∷ ts) j ≡ some u → (u.ids.pid ==ℤ pid) ≡ false
        ahead zero u at = cc
        ahead (suc j) u at = other j u at

-- `setpgid` moves one task of the given number (or the caller's, for 0) to the group, if it is no
-- leader and of the caller's session, and changes nothing else; it reports -EPERM, the table
-- unchanged, if there is a task of the number that is a leader or of another session, and -ESRCH if
-- no task has the number.
sys_setpgid-Moved :
    (pid pgid : ℤ) (current : Task) (ts : Table)
    → Moved (or_own pid current) (or_own pgid current) current ts (sys_setpgid pid pgid current ts)
unfolding sys_setpgid
sys_setpgid-Moved pid pgid current ts =
    setpgid_from-Moved (or_own pid current) (or_own pgid current) current ts

-- Any sequence of `setpgid` calls, by any callers.
pub setpgid_all : List (ℤ × ℤ × Task) → Table → Table
setpgid_all [] ts = ts
setpgid_all ((pid, pgid, current) ∷ calls) ts =
    setpgid_all calls (sys_setpgid pid pgid current ts).1

setpgid-leader :
    (pid pgid : ℤ) (current t : Task) (ts : Table) (j : ℕ)
    → slot ts j ≡ some t
    → t.ids.leader ≡ true
    → slot (sys_setpgid pid pgid current ts).1 j ≡ some t
setpgid-leader pid pgid current t ts j at lead =
    go (sys_setpgid pid pgid current ts) (sys_setpgid-Moved pid pgid current ts)
  where
    go :
        (r : ℤ × Table)
        → Moved (or_own pid current) (or_own pgid current) current ts r
        → slot r.1 j ≡ some t
    go r (refused i u is same fixed e) = rw e at
    go r (missing other e) = rw e at
    go r (moved i u is same free e) =
        let apart : i ≢ j = λ same_slot. absurd (ground arith) in
        rw (e, get_or-set_ne ts i j (some (with_pgrp (or_own pgid current) u)) none apart) at

-- The task that `setsid` makes a leader, in the table with that change, keeps its process group, its
-- own number, through any sequence of `setpgid` calls of any tasks.
pub sys_setsid-setpgid_all :
    (calls : List (ℤ × ℤ × Task)) (t : Task) (ts : Table) (j : ℕ)
    → suser t.cred ≡ true ⊎ t.ids.leader ≡ false
    → j < length ts
    → (u : Task) × (slot (setpgid_all calls (set ts j (some (sys_setsid t).1))) j ≡ some u)
      × (u.ids.pgrp ≡ t.ids.pid)
      × (u.ids.session ≡ t.ids.pid)
unfolding sys_setsid setpgid_all
sys_setsid-setpgid_all calls t ts j may lt = (
  (sys_setsid t).1,
  keep calls (set ts j (some (sys_setsid t).1)) (get_or-set_self ts j _ none lt),
  ground arith,
  ground arith,
)
  where
    keep :
        (cs : List (ℤ × ℤ × Task)) (us : Table)
        → slot us j ≡ some (sys_setsid t).1
        → slot (setpgid_all cs us) j ≡ some (sys_setsid t).1
    keep [] us at = at
    keep ((pid, pgid, current) ∷ cs) us at =
        keep cs (sys_setpgid pid pgid current us).1
          (setpgid-leader pid pgid current (sys_setsid t).1 us j at (ground arith))
