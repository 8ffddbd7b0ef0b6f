-- ===== src/Fs/Bitmap/First.antt =====
-- fs/bitmap.c: the block that new_block finds.
use linux_rpg.Prelude.{
  ℕ, zero, suc, ◌+◌, ◌*◌, ◌≤◌, ◌<◌, ◌≡◌, ◌⊎◌, refl, none, some, Bool, true, false, ◌&&◌, arith, inl,
  inr, ltb, ◌==◌, Bool-cases,
}
use linux_rpg.Fs.Bitmap.{low_zero, zero_from, find_first_zero, find_bit}

low_zero-first :
    (n p : ℕ) (bits : ℕ → Bool)
    → ((q : ℕ) × (low_zero n p bits ≡ some q)
        × (p ≤ q)
        × (q < p + n)
        × (bits q ≡ false)
        × ((k : ℕ) → p ≤ k → k < q → bits k ≡ true))
      ⊎ ((low_zero n p bits ≡ none) × ((k : ℕ) → p ≤ k → k < p + n → bits k ≡ true))
unfolding low_zero
low_zero-first zero p bits = inr (refl, λ k a b. absurd (omega arith))
low_zero-first (suc n) p bits = elim (Bool-cases (bits p)) [
  | inr free ↦
      rw free (inl (p, refl, omega arith, omega arith, free, λ k a b. absurd (omega arith)))
  | inl taken ↦ elim (low_zero-first n (p + 1) bits) [
    | inl (q, e, a, b, free, below) ↦
        rw taken (
          inl
            (q, e, omega arith, omega arith, free, λ k l h. from p k taken (λ l'. below k l' h) l))
    | inr (e, all) ↦ rw taken (inr (e, λ k l h. from p k taken (λ l'. all k l' (omega arith)) l))
  ]
]
  where
    from : (p k : ℕ) → bits p ≡ true → (p + 1 ≤ k → bits k ≡ true) → p ≤ k → bits k ≡ true
    from p k here above le = elim (Bool-cases (k == p)) [
      | inl e ↦ let at : k ≡ p = ground arith in rw at here
      | inr e ↦ above (ground arith)
    ]

-- The first 0 of a row of bits before `n`, or `n`.
abbrev FirstZero : ℕ → (ℕ → Bool) → ℕ → Type 0
FirstZero n bits r = ((k : ℕ) → k < r → bits k ≡ true) × (((r < n) × (bits r ≡ false)) ⊎ (r ≡ n))

all_below :
    (p q : ℕ) (bits : ℕ → Bool)
    → ((k : ℕ) → k < p → bits k ≡ true)
    → ((k : ℕ) → p ≤ k → k < q → bits k ≡ true)
    → (k : ℕ) → k < q
    → bits k ≡ true
all_below p q bits low high k h = elim (Bool-cases (ltb k p)) [
  | inl e ↦ low k (ground arith)
  | inr e ↦ high k (ground arith) h
]

zero_from-FirstZero :
    (n p : ℕ) (bits : ℕ → Bool)
    → ((k : ℕ) → k < p → bits k ≡ true)
    → FirstZero (p + n * 32) bits (zero_from n p bits)
unfolding zero_from
zero_from-FirstZero zero p bits below = (below, inr (omega arith))
zero_from-FirstZero (suc n) p bits below = elim (low_zero-first 32 p bits) [
  | inl (q, e, a, b, free, between) ↦
      rw (e, zero_from) (all_below p q bits below between, inl (omega arith, free))
  | inr (e, all) ↦
      let further = zero_from-FirstZero n (p + 32) bits (all_below p (p + 32) bits below all) in
      let n_eq : p + suc n * 32 ≡ p + 32 + n * 32 = omega arith in rw (e, zero_from, n_eq) further
]

find_first_zero-FirstZero : (bits : ℕ → Bool) → FirstZero 8192 bits (find_first_zero bits)
unfolding find_first_zero
find_first_zero-FirstZero bits = zero_from-FirstZero 256 0 bits (λ k h. absurd (omega arith))

-- The maps from `i` to before `a` have no 0.
abbrev pub Full : ℕ → ℕ → (ℕ → Bool) → (ℕ → Bool) → Type 0
Full i a zmap used =
    (m k : ℕ) → i ≤ m → m < a → k < 8192 → zmap m ≡ true → used (m * 8192 + k) ≡ true

Full-cons :
    (i a : ℕ) (zmap used : ℕ → Bool)
    → (zmap i ≡ true → (k : ℕ) → k < 8192 → used (i * 8192 + k) ≡ true)
    → Full (i + 1) a zmap used
    → Full i a zmap used
Full-cons i a zmap used here above m k le lt h map = elim (Bool-cases (m == i)) [
  | inl e ↦ let at : m ≡ i = ground arith in rw at (here (rw at at map) k h)
  | inr e ↦ above m k (ground arith) lt h map
]

pub find_bit-first :
    (n i : ℕ) (zmap used : ℕ → Bool)
    → ((a : ℕ) × (j : ℕ) × (find_bit n i zmap used ≡ some (a, j))
        × (a < i + n)
        × (zmap a ≡ true)
        × (j < 8192)
        × (used (a * 8192 + j) ≡ false)
        × ((k : ℕ) → k < j → used (a * 8192 + k) ≡ true)
        × Full i a zmap used)
      ⊎ ((find_bit n i zmap used ≡ none) × Full i (i + n) zmap used)
unfolding find_bit
find_bit-first zero i zmap used = inr (refl, λ m k le lt h map. absurd (omega arith))
find_bit-first (suc n) i zmap used =
    let bits : ℕ → Bool = λ k. used (i * 8192 + k) in
    let (below, end) = find_first_zero-FirstZero bits in
    elim (Bool-cases (zmap i && ltb (find_first_zero bits) 8192)) [
      | inl stop ↦
          let free : used (i * 8192 + find_first_zero bits) ≡ false = elim end [
            | inl (_, f) ↦ f
            | inr e ↦ absurd (ground (arith, e))
          ] in
          rw stop (
            inl (
              i,
              find_first_zero bits,
              refl,
              omega arith,
              ground arith,
              ground arith,
              free,
              below,
              λ m k le lt h map. absurd (omega arith),
            ))
      | inr go ↦
          let full_here : zmap i ≡ true → (k : ℕ) → k < 8192 → bits k ≡ true = λ map k h.
            let all : find_first_zero bits ≡ 8192 = elim end [
              | inl (lt, _) ↦ absurd (ground arith)
              | inr e ↦ e
            ] in
            below k (omega arith) in
          elim (find_bit-first n (i + 1) zmap used) [
            | inl (a, j, e, lt, map, h, free, first, full) ↦ rw go (
                inl (
                  a,
                  j,
                  e,
                  omega arith,
                  map,
                  h,
                  free,
                  first,
                  Full-cons i a zmap used full_here full,
                ))
            | inr (e, full) ↦
                let n_eq : i + suc n ≡ i + 1 + n = omega arith in
                rw go (inr (e, rw n_eq (Full-cons i (i + 1 + n) zmap used full_here full)))
          ]
    ]
