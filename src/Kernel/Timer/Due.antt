-- ===== src/Kernel/Timer/Due.antt =====
-- kernel/sched.c: when the timers of a chain run, and what a new timer does to the others.
use linux_rpg.Prelude.{
  ℕ, zero, suc, ◌+◌, ◌-◌, ◌≤◌, ◌<◌, ◌≡◌, refl, ap, List, [], ◌∷◌, ◌++◌, inl, inr, arith, ltb, leb,
  if◌then◌else◌, Bool-cases,
}
use linux_rpg.Kernel.Timer.{Chain, insert, run_due, tick}

-- The time of each entry, counted from `b`.
abbrev pub due : ℕ → Chain → Chain
due b [] = []
due b ((j, f) ∷ c) = (b + j, f) ∷ due (b + j) c

abbrev pub total : Chain → ℕ
total [] = 0
total ((j, f) ∷ c) = j + total c

-- No entry waits for zero ticks.
abbrev pub Positive : Chain → Type 0
Positive [] = Unit
Positive ((j, f) ∷ c) = (0 < j) × Positive c

-- `n` ticks: the functions that run, in order, and the chain that is left.
pub ticks : ℕ → Chain → List ℕ × Chain
ticks zero c = ([], c)
ticks (suc n) c = let (now, c') = tick c in let (later, c'') = ticks n c' in (now ++ later, c'')

-- The functions of the entries whose time, counted from `b`, is at most `n`.
pub expired : ℕ → ℕ → Chain → List ℕ
expired n b [] = []
expired n b ((j, f) ∷ c) = if leb (b + j) n then f ∷ expired n (b + j) c else []

-- The entries whose time is later than `n`, with what is left of their time.
pub pending : ℕ → ℕ → Chain → Chain
pending n b [] = []
pending n b ((j, f) ∷ c) = if leb (b + j) n then pending n (b + j) c else (b + j - n, f) ∷ c

expired-suc : (n b : ℕ) (c : Chain) → expired (suc n) (suc b) c ≡ expired n b c
unfolding expired
expired-suc n b [] = refl
expired-suc n b ((j, f) ∷ c) =
    let e : suc b + j ≡ suc (b + j) = omega arith in rw e (ground (arith, expired-suc n (b + j) c))

pending-suc : (n b : ℕ) (c : Chain) → pending (suc n) (suc b) c ≡ pending n b c
unfolding pending
pending-suc n b [] = refl
pending-suc n b ((j, f) ∷ c) =
    let e : suc b + j ≡ suc (b + j) = omega arith in rw e (ground (arith, pending-suc n (b + j) c))

run_due-Positive : (c : Chain) → Positive c → run_due c ≡ ([], c)
unfolding run_due
run_due-Positive [] h = refl
run_due-Positive ((j, f) ∷ c) h = ground arith

ticks-nil : (n : ℕ) → ticks n [] ≡ ([], [])
unfolding ticks tick
ticks-nil zero = refl
ticks-nil (suc n) = rw (ticks-nil n)

-- A tick of a chain whose first entry waits for one tick, or for more.
tick-one : (f : ℕ) (c : Chain) → Positive c → tick ((1, f) ∷ c) ≡ (f ∷ [], c)
unfolding tick run_due
tick-one f c h = rw (run_due-Positive c h)

tick-more : (j f : ℕ) (c : Chain) → tick ((suc (suc j), f) ∷ c) ≡ ([], (suc j, f) ∷ c)
unfolding tick run_due
tick-more j f c = ground arith

-- On a chain with no entry of zero ticks, `n` ticks run the functions of exactly the entries whose
-- time is at most `n`, in the order of the chain, and the entries left keep their times.
pub ticks-expired : (n : ℕ) (c : Chain) → Positive c → ticks n c ≡ (expired n 0 c, pending n 0 c)
unfolding ticks expired pending
ticks-expired zero [] h = refl
ticks-expired zero ((j, f) ∷ c) h = ground arith
ticks-expired (suc n) [] h = ticks-nil (suc n)
ticks-expired (suc n) ((zero, f) ∷ c) h = absurd (omega arith)
ticks-expired (suc n) ((suc zero, f) ∷ c) h =
    rw (tick-one f c h.1, ticks-expired n c h.1)
      (ground (arith, expired-suc n 0 c, pending-suc n 0 c))
ticks-expired (suc n) ((suc (suc j), f) ∷ c) h =
    rw (tick-more j f c, ticks-expired n ((suc j, f) ∷ c) (omega arith, h.1))
      (ground (arith, expired-suc n (suc j) c, pending-suc n (suc j) c))

-- The first entry of a chain that begins at `b` is not due before `j`.
abbrev pub NotBefore : ℕ → ℕ → Chain → Type 0
NotBefore j b [] = Unit
NotBefore j b ((k, g) ∷ c) = j ≤ b + k

NotBefore-later : (j k b : ℕ) (c : Chain) → k < j → NotBefore (j - k) b c → NotBefore j (k + b) c
NotBefore-later j k b [] lt h = tt
NotBefore-later j k b ((i, g) ∷ c) lt h = omega (arith, lt, h)

-- `insert` puts the new entry at its own time behind the entries that are due before it, and before
-- all others. It keeps
-- the times of those, and it delays every entry behind it by the ticks of the new entry, since it
-- does not take them off the next entry.
pub insert-due :
    (j f : ℕ) (c : Chain)
    → (before : Chain) × (after : Chain) × (c ≡ before ++ after)
      × (insert j f c ≡ before ++ (j - total before, f) ∷ after)
      × (0 < j → total before < j)
      × NotBefore j (total before) after
      × ((b : ℕ) → due b (insert j f c) ≡ due b before ++ (b + j, f) ∷ due (b + j) after)
      × ((b : ℕ) → due b c ≡ due b before ++ due (b + total before) after)
unfolding insert
insert-due j f [] = ([], [], refl, ground arith, λ p. p, tt, λ b. refl, λ b. refl)
insert-due j f ((k, g) ∷ c) = elim (Bool-cases (ltb k j)) [
  | inl later ↦
      let (before, after, split, put, early, late, new, old) = insert-due (j - k) f c in
      let time : (b : ℕ) → b + k + (j - k) ≡ b + j = λ b. ground arith in
      let rest : j - k - total before ≡ j - (k + total before) = omega arith in
      (
        (k, g) ∷ before,
        after,
        ap (λ l. (k, g) ∷ l) split,
        rw (later, put, rest),
        λ p. ground (arith, early),
        NotBefore-later j k (total before) after (ground arith) late,
        λ b. rw (later, new (b + k), time b),
        λ b.
            rw (old (b + k))
              (ap (λ t. (b + k, g) ∷ due (b + k) before ++ due t after) (omega arith)),
      )
  | inr first ↦ (
    [],
    (k, g) ∷ c,
    refl,
    rw first (ground arith),
    λ p. p,
    ground arith,
    λ b. rw first,
    λ b. ground arith,
  )
]
