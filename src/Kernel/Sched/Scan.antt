-- ===== src/Kernel/Sched/Scan.antt =====
-- kernel/sched.c: what the scan of `schedule` for the largest counter finds.
use linux_rpg.Prelude.{
  ℕ, zero, suc, ◌+◌, ◌≤◌, ◌≡◌, refl, inl, inr, [], ◌∷◌, Option, none, some, true, false, ◌&&◌,
  arith, Bool-cases,
}
use linux_rpg.Prelude.Int.{ℤ, pos, negsuc, ltb_ℤ}
use linux_rpg.Kernel.Task.{Task, Table, slot, is_running}
use linux_rpg.Kernel.Sched.{scan}

-- Slot `j` holds the runnable task `t`.
pub record Ready (ts : Table) (j : ℕ) (t : Task) : Type 0 where
  pub holds : slot ts j ≡ some t
  pub runnable : is_running t.state ≡ true

-- What a scan of `ts` finds, with the slots numbered from `i` on.
pub data Scanned (i : ℕ) (ts : Table) (r : ℤ × ℕ) : Type 0 where
  idle : ((j : ℕ) (t : Task) → Ready ts j t → ⊥) → r ≡ (negsuc 0, 0) → Scanned i ts r
  found :
      (j : ℕ) (t : Task)
      → Ready ts j t
      → r ≡ (pos t.counter, i + j)
      → ((j' : ℕ) (t' : Task) → Ready ts j' t' → t'.counter ≤ t.counter)
      → Scanned i ts r

pub Ready-tail :
    {o : Option Task} {ts : Table} {j : ℕ} {t : Task} → Ready (o ∷ ts) (suc j) t → Ready ts j t
Ready-tail r = record { holds = r.holds; runnable = r.runnable }

pub Ready-cons :
    {o : Option Task} {ts : Table} {j : ℕ} {t : Task} → Ready ts j t → Ready (o ∷ ts) (suc j) t
Ready-cons r = record { holds = r.holds; runnable = r.runnable }

not-Ready-none : (ts : Table) (t : Task) → Ready (none ∷ ts) zero t → ⊥
not-Ready-none ts t r = cc (r.holds)

eq_of_Ready-head : {t t' : Task} {ts : Table} → Ready (some t ∷ ts) zero t' → t ≡ t'
eq_of_Ready-head r = cc (r.holds)

Scanned-none : (i : ℕ) {ts : Table} {r : ℤ × ℕ} → Scanned (i + 1) ts r → Scanned i (none ∷ ts) r
Scanned-none i {ts} (idle quiet e) = idle go e
  where
    go : (j : ℕ) (t : Task) → Ready (none ∷ ts) j t → ⊥
    go zero t r = not-Ready-none ts t r
    go (suc j) t r = quiet j t (Ready-tail r)
Scanned-none i {ts} (found j t r e best) = found (suc j) t (Ready-cons r) (ground arith) go
  where
    go : (j' : ℕ) (t' : Task) → Ready (none ∷ ts) j' t' → t'.counter ≤ t.counter
    go zero t' r' = absurd (not-Ready-none ts t' r')
    go (suc j') t' r' = best j' t' (Ready-tail r')

-- A task that the scan passes over: not runnable, or with no more ticks than the best one.
Scanned-keep :
    (i : ℕ) (t : Task) {ts : Table} {r : ℤ × ℕ}
    → Scanned (i + 1) ts r
    → (is_running t.state && ltb_ℤ r.0 (pos t.counter)) ≡ false
    → Scanned i (some t ∷ ts) r
Scanned-keep i t {ts} (idle quiet e) h = idle go e
  where
    go : (j : ℕ) (t' : Task) → Ready (some t ∷ ts) j t' → ⊥
    go zero t' r = let same = eq_of_Ready-head r in let run = r.runnable in ground arith
    go (suc j) t' r = quiet j t' (Ready-tail r)
Scanned-keep i t {ts} (found j u r e best) h = found (suc j) u (Ready-cons r) (ground arith) go
  where
    go : (j' : ℕ) (t' : Task) → Ready (some t ∷ ts) j' t' → t'.counter ≤ u.counter
    go zero t' r' = let same = eq_of_Ready-head r' in let run = r'.runnable in ground arith
    go (suc j') t' r' = best j' t' (Ready-tail r')

-- A task that the scan takes.
Scanned-take :
    (i : ℕ) (t : Task) {ts : Table} {r : ℤ × ℕ}
    → Scanned (i + 1) ts r
    → (is_running t.state && ltb_ℤ r.0 (pos t.counter)) ≡ true
    → Scanned i (some t ∷ ts) (pos t.counter, i)
Scanned-take i t {ts} (idle quiet e) h =
    found zero t (record { holds = refl; runnable = ground arith }) (ground arith) go
  where
    go : (j' : ℕ) (t' : Task) → Ready (some t ∷ ts) j' t' → t'.counter ≤ t.counter
    go zero t' r' = let same = eq_of_Ready-head r' in ground arith
    go (suc j') t' r' = absurd (quiet j' t' (Ready-tail r'))
Scanned-take i t {ts} (found j u r e best) h =
    found zero t (record { holds = refl; runnable = ground arith }) (ground arith) go
  where
    go : (j' : ℕ) (t' : Task) → Ready (some t ∷ ts) j' t' → t'.counter ≤ t.counter
    go zero t' r' = let same = eq_of_Ready-head r' in ground arith
    go (suc j') t' r' = let b = best j' t' (Ready-tail r') in ground arith

pub scan-Scanned : (i : ℕ) (ts : Table) → Scanned i ts (scan i ts)
unfolding scan
scan-Scanned i [] = idle (λ j t r. cc (r.holds)) refl
scan-Scanned i (none ∷ ts) = Scanned-none i (scan-Scanned (i + 1) ts)
scan-Scanned i (some t ∷ ts) =
    let rest = scan-Scanned (i + 1) ts in
    elim (Bool-cases (is_running t.state && ltb_ℤ (scan (i + 1) ts).0 (pos t.counter))) [
      | inl take ↦ rw take (Scanned-take i t rest take)
      | inr keep ↦ rw keep (Scanned-keep i t rest keep)
    ]
