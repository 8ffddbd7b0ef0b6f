-- ===== src/Prelude/Mask.antt =====
-- A C bitmap of 32 bits (`long signal`, `long blocked`, `unsigned long close_on_exec`), as the
-- function from a bit's position to the bit. Shifts, `|`, `&` and `~` are bit by bit.
use linux_rpg.Prelude.{
  ℕ, zero, suc, inl, inr, Bool-cases, ◌<◌, ◌≡◌, Bool, true, false, ◌&&◌, ◌||◌, not, arith, ◌==◌,
  every_bit, every_bit-at,
}

abbrev pub Mask : Type 0
Mask = ℕ → Bool

abbrev pub empty : Mask
empty _ = false

-- 1 << n
abbrev pub bit : ℕ → Mask
bit n i = i == n

abbrev pub mask_or : Mask → Mask → Mask
mask_or a b i = a i || b i

abbrev pub mask_and : Mask → Mask → Mask
mask_and a b i = a i && b i

abbrev pub mask_not : Mask → Mask
mask_not a i = not (a i)

-- The test of a mask as a C condition: some bit is set.
unfoldable pub nonzero : Mask → Bool
unfolding every_bit
nonzero m = not (every_bit (λ i. not (m i)) 32)

-- A mask with a set bit is not zero.
pub nonzero_of_bit : (m : Mask) (i : ℕ) → i < 32 → m i ≡ true → nonzero m ≡ true
unfolding nonzero
nonzero_of_bit m i h e = ground (arith, every_bit-at (λ i. not (m i)) 32 i)

clear_bit_of : (f : ℕ → Bool) (n : ℕ) → every_bit f n ≡ false → (i : ℕ) × (i < n) × (f i ≡ false)
unfolding every_bit
clear_bit_of f zero h = absurd (cc)
clear_bit_of f (suc n) h = elim (Bool-cases (f n)) [
  | inr e ↦ (n, omega arith, e)
  | inl e ↦
      let lower : every_bit f n ≡ false = ground arith in
      let (i, lt, clear) = clear_bit_of f n lower in (i, omega (arith, lt), clear)
]

not_flip : (b c : Bool) → not b ≡ c → b ≡ not c
not_flip true c h = ground arith
not_flip false c h = ground arith

-- A mask that is not zero has a set bit.
pub bit_of_nonzero : (m : Mask) → nonzero m ≡ true → (i : ℕ) × (i < 32) × (m i ≡ true)
unfolding nonzero
bit_of_nonzero m h =
    let (i, lt, clear) = clear_bit_of (λ i. not (m i)) 32 (not_flip _ true h) in
    (i, lt, not_flip (m i) false clear)
