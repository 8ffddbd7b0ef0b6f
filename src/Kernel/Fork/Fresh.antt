-- ===== src/Kernel/Fork/Fresh.antt =====
-- kernel/fork.c: the process number and the slot that `find_empty_process` finds.
use linux_rpg.Prelude.{
  ℕ, zero, suc, ◌+◌, ◌-◌, ◌^◌, ◌≤◌, ◌<◌, ◌≡◌, ◌≢◌, ◌⊎◌, refl, ap, ◌∙◌, [], ◌∷◌, Option, none, some,
  Bool, false, arith, inl, inr, ltb, ◌==◌, if◌then◌else◌, length, drop, Bool-cases, Option-cases,
}
use linux_rpg.Prelude.Int.{ℤ, pos, negsuc, ◌==ℤ◌}
use linux_rpg.Kernel.Errno.{eagain}
use linux_rpg.Kernel.Task.{Task, Table, slot}
use linux_rpg.Kernel.Fork.{next_pid, is_used, new_pid, empty_slot, find_empty_process}

abbrev count : Bool → ℕ
count b = if b then 1 else 0

-- How often a number, and the numbers of a table's tasks, come up among the next `n`.
unfoldable hits : ℕ → ℕ → ℤ → ℕ
hits zero q x = 0
hits (suc n) q x = count (x ==ℤ pos (next_pid q)) + hits n (next_pid q) x

unfoldable used_hits : ℕ → ℕ → Table → ℕ
used_hits zero q ts = 0
used_hits (suc n) q ts = count (is_used (next_pid q) ts) + used_hits n (next_pid q) ts

-- How many steps lead from `q` to `y`.
abbrev gap : ℕ → ℕ → ℕ
gap q y = if ltb q y then y - q else y + 2147483647 - q

hits-gap : (n q y : ℕ) → q < 2147483648 → y < 2147483648 → n < gap q y → hits n q (pos y) ≡ 0
unfolding hits next_pid
hits-gap zero q y hq hy h = refl
hits-gap (suc n) q y hq hy h =
    let far : n < gap (next_pid q) y = ground arith in
    let rest = hits-gap n (next_pid q) y (ground arith) hy far in ground arith

hits_once : (n q : ℕ) (x : ℤ) → q < 2147483648 → n ≤ 2147483647 → hits n q x ≤ 1
unfolding hits next_pid
hits_once zero q x hq h = omega arith
hits_once (suc n) q (negsuc y) hq h =
    let rest = hits_once n (next_pid q) (negsuc y) (ground arith) (omega arith) in ground arith
hits_once (suc n) q (pos y) hq h =
    let rest = hits_once n (next_pid q) (pos y) (ground arith) (omega arith) in
    elim (Bool-cases (y == next_pid q)) [
      | inl e ↦
          let at : y ≡ next_pid q = ground arith in
          let none_left : hits n (next_pid q) (pos y) ≡ 0 =
            hits-gap n (next_pid q) y (ground arith) (ground arith) (ground arith) in
          ground arith
      | inr e ↦ ground arith
    ]

used_hits-cons :
    (n q : ℕ) (u : Task) (ts : Table)
    → used_hits n q (some u ∷ ts) ≤ hits n q u.ids.pid + used_hits n q ts
unfolding used_hits hits is_used
used_hits-cons zero q u ts = omega arith
used_hits-cons (suc n) q u ts =
    let rest = used_hits-cons n (next_pid q) u ts in
    elim (Bool-cases (u.ids.pid ==ℤ pos (next_pid q))) [
      | inl e ↦ rw e (omega (arith, rest))
      | inr e ↦ rw e (omega (arith, rest))
    ]

used_hits-none : (n q : ℕ) (ts : Table) → used_hits n q (none ∷ ts) ≡ used_hits n q ts
unfolding used_hits is_used
used_hits-none zero q ts = refl
used_hits-none (suc n) q ts =
    ap (λ k. count (is_used (next_pid q) ts) + k) (used_hits-none n (next_pid q) ts)

used_hits-nil : (n q : ℕ) → used_hits n q [] ≡ 0
unfolding used_hits is_used
used_hits-nil zero q = refl
used_hits-nil (suc n) q = omega (arith, used_hits-nil n (next_pid q))

-- Each task takes one of the next numbers at most.
used_hits-length :
    (n q : ℕ) (ts : Table) → q < 2147483648 → n ≤ 2147483647 → used_hits n q ts ≤ length ts
used_hits-length n q [] hq h = rw used_hits-nil (omega arith)
used_hits-length n q (none ∷ ts) hq h =
    omega (arith, used_hits-none n q ts, used_hits-length n q ts hq h)
used_hits-length n q (some u ∷ ts) hq h =
    omega
      (arith, used_hits-cons n q u ts, hits_once n q u.ids.pid hq h, used_hits-length n q ts hq h)

-- The search for a number ends: with more tries than tasks one of them is not taken.
new_pid-used_hits : (n q : ℕ) (ts : Table) → new_pid n q ts ≡ none → used_hits n q ts ≡ n
unfolding new_pid used_hits
new_pid-used_hits zero q ts e = refl
new_pid-used_hits (suc n) q ts e = elim (Bool-cases (is_used (next_pid q) ts)) [
  | inl used ↦ rw used (omega (arith, new_pid-used_hits n (next_pid q) ts (rw used at e)))
  | inr free ↦ absurd (ground (arith, e))
]

new_pid_total :
    (n q : ℕ) (ts : Table)
    → q < 2147483648
    → length ts < n
    → n ≤ 2147483647
    → (pid : ℕ) × (new_pid n q ts ≡ some pid)
new_pid_total n q ts hq more h = elim (Option-cases (new_pid n q ts)) [
  | inl e ↦ absurd (omega (arith, new_pid-used_hits n q ts e, used_hits-length n q ts hq h))
  | inr found ↦ found
]

next_pid-lt : (q : ℕ) → (1 ≤ next_pid q) × (next_pid q < 2147483648)
unfolding next_pid
next_pid-lt q = (ground arith, ground arith)

new_pid-is_used :
    (n q pid : ℕ) (ts : Table)
    → q < 2147483648
    → new_pid n q ts ≡ some pid
    → (is_used pid ts ≡ false) × (1 ≤ pid) × (pid < 2147483648)
unfolding new_pid
new_pid-is_used zero q pid ts hq e = absurd (ground (arith, e))
new_pid-is_used (suc n) q pid ts hq e = elim (Bool-cases (is_used (next_pid q) ts)) [
  | inl used ↦ new_pid-is_used n (next_pid q) pid ts (next_pid-lt q).1 (rw used at e)
  | inr free ↦
      let same : next_pid q ≡ pid = ground (arith, e, free) in
      let (low, high) = next_pid-lt q in rw (← same) (free, low, high)
]

is_used-slot :
    (pid : ℕ) (ts : Table) (i : ℕ) (u : Task)
    → is_used pid ts ≡ false
    → slot ts i ≡ some u
    → u.ids.pid ≢ pos pid
unfolding is_used
is_used-slot pid [] i u free e = absurd (ground (arith, e))
is_used-slot pid (none ∷ ts) zero u free e = absurd (ground (arith, e))
is_used-slot pid (none ∷ ts) (suc i) u free e = is_used-slot pid ts i u free e
is_used-slot pid (some v ∷ ts) zero u free e = λ p. absurd (ground (arith, e, free, p))
is_used-slot pid (some v ∷ ts) (suc i) u free e = is_used-slot pid ts i u (ground arith) e

-- The second loop: the first empty slot from `k` on, or none.
pub data Slot (ts : Table) : ℤ → Type 0 where
  first_empty :
      (i : ℕ)
      → 1 ≤ i
      → i < length ts
      → slot ts i ≡ none
      → ((j : ℕ) → 1 ≤ j → j < i → slot ts j ≢ none)
      → Slot ts (pos i)
  no_empty : ((j : ℕ) → 1 ≤ j → j < length ts → slot ts j ≢ none) → Slot ts eagain

empty_slot-cases :
    (k : ℕ) (ts : Table)
    → ((d : ℕ) × (empty_slot k ts ≡ some (k + d))
        × (d < length ts)
        × (slot ts d ≡ none)
        × ((j : ℕ) → j < d → slot ts j ≢ none))
      ⊎ ((empty_slot k ts ≡ none) × ((j : ℕ) → j < length ts → slot ts j ≢ none))
unfolding empty_slot
empty_slot-cases k [] = inr (refl, λ j lt. absurd (omega arith))
empty_slot-cases k (none ∷ ts) =
    inl (0, ap some (omega arith), omega arith, refl, λ j lt. absurd (omega arith))
empty_slot-cases k (some u ∷ ts) = elim (empty_slot-cases (suc k) ts) [
  | inl (d, e, lt, here, before) ↦
      inl (suc d, e ∙ ap some (omega arith), omega arith, here, λ j. nonempty u ts j d before)
  | inr (e, all) ↦ inr (e, λ j. nonempty u ts j (length ts) all)
]
  where
    nonempty :
        (u : Task) (ts : Table) (j d : ℕ)
        → ((i : ℕ) → i < d → slot ts i ≢ none)
        → j < suc d
        → slot (some u ∷ ts) j ≢ none
    nonempty u ts zero d all lt = λ e. absurd (ground (arith, e))
    nonempty u ts (suc j) d all lt = all j (omega arith)

empty_slot-Slot :
    (ts : Table) → Slot ts (elim (empty_slot 1 (drop 1 ts)) [ none ↦ eagain | some i ↦ pos i ])
unfolding empty_slot
empty_slot-Slot [] = no_empty (λ j low lt. absurd (omega arith))
empty_slot-Slot (t ∷ ts) = elim (empty_slot-cases 1 ts) [
  | inl (d, e, lt, here, before) ↦
      let e' : empty_slot 1 ts ≡ some (suc d) = e ∙ ap some (omega arith) in
      rw e' (first_empty (suc d) (omega arith) (omega arith) here (λ j. behind t ts j d before))
  | inr (e, all) ↦ rw e (no_empty (λ j. behind t ts j (length ts) all))
]
  where
    behind :
        (t : Option Task) (ts : Table) (j d : ℕ)
        → ((i : ℕ) → i < d → slot ts i ≢ none)
        → 1 ≤ j
        → j < suc d
        → slot (t ∷ ts) j ≢ none
    behind t ts zero d all low lt = absurd (omega arith)
    behind t ts (suc j) d all low lt = all j (omega arith)

-- `find_empty_process` comes to an end on every table of 64 tasks: the search for a number takes
-- one try more than there are tasks at most. The number is positive, fits in a `long` and is no
-- task's; the value is the first empty slot but slot 0, or -EAGAIN if there is none.
pub find_empty_process-Slot :
    (last_pid : ℕ) (ts : Table)
    → last_pid < 2 ^ 31
    → length ts ≤ 64
    → (pid : ℕ) × (r : ℤ) × (find_empty_process last_pid ts ≡ some (pid, r))
      × (1 ≤ pid)
      × (pid < 2 ^ 31)
      × ((i : ℕ) (u : Task) → slot ts i ≡ some u → u.ids.pid ≢ pos pid)
      × Slot ts r
unfolding find_empty_process
find_empty_process-Slot last_pid ts h n =
    let (pid, e) = new_pid_total (suc (length ts)) last_pid ts h (omega arith) (omega arith) in
    let (free, low, high) = new_pid-is_used (suc (length ts)) last_pid pid ts h e in
    (
      pid,
      _,
      rw (find_empty_process, e) refl,
      low,
      high,
      λ i u. is_used-slot pid ts i u free,
      empty_slot-Slot ts,
    )
