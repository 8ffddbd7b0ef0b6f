-- ===== src/Kernel/Vsprintf/Digits.antt =====
-- kernel/vsprintf.c: what `number` prints is read back by `skip_atoi`, and how long it is.
use mathlib.Core.List.{reverse, reverse-cons, append_assoc, append-nil}
use native.Mathlib.Nat.{pow-suc}
use linux_rpg.Prelude.{
  ℕ, zero, suc, ◌+◌, ◌-◌, ◌*◌, ◌/◌, ◌%◌, ◌^◌, ◌≤◌, ◌<◌, ◌≡◌, refl, ◌∙◌, List, [], ◌∷◌, ◌++◌, some,
  Bool, true, false, not, ◌&&◌, ◌||◌, arith, inl, inr, ltb, ◌==◌, if◌then◌else◌, Bool-cases, length,
  replicate, length-append, length-replicate, length-reverse,
}
use linux_rpg.Kernel.Vsprintf.{no_flags}
use linux_rpg.Kernel.Vsprintf.Number.{
  Flags, is_digit, atoi_from, skip_atoi, digit, digits_from, digits, number, sign_of, prefix,
  magnitude, max,
}

-- A text that does not go on with a digit.
abbrev pub Stops : List ℕ → Type 0
Stops [] = Unit
Stops (c ∷ s) = is_digit c ≡ false

atoi_from-Stops : (i : ℕ) (s : List ℕ) → Stops s → atoi_from i s ≡ (i, s)
unfolding atoi_from
atoi_from-Stops i [] h = refl
atoi_from-Stops i (c ∷ s) h = rw h refl

atoi_from-digit :
    (num : ℕ) (small : Bool) (rest : List ℕ)
    → num < 2 ^ 32
    → atoi_from (num / 10) (digit small (num % 10) ∷ rest) ≡ atoi_from num rest
unfolding atoi_from
atoi_from-digit num small rest h =
    let low : digit small (num % 10) ≡ b'0' + num % 10 = ground arith in
    let is : is_digit (b'0' + num % 10) ≡ true = ground arith in
    let back : (num / 10 * 10 + (b'0' + num % 10) - b'0') % 2 ^ 32 ≡ num = omega arith in
    rw (low, is, back) refl

atoi_from-digits :
    (n num : ℕ) (small : Bool) (rest : List ℕ)
    → num < 2 ^ n
    → num < 2 ^ 32
    → atoi_from 0 (reverse (digits_from n small 10 num) ++ rest) ≡ atoi_from num rest
unfolding digits_from
atoi_from-digits zero num small rest h k = let e : num ≡ 0 = omega arith in rw e refl
atoi_from-digits (suc n) num small rest h k = elim (Bool-cases (num == 0)) [
  | inl z ↦ let e : num ≡ 0 = ground arith in rw (z, e) refl
  | inr more ↦
      let smaller : num / 10 < 2 ^ n = omega (arith, pow-suc 2 n) in
      let ds = digits_from n small 10 (num / 10) in
      rw
        (
          more,
          reverse-cons (digit small (num % 10)) ds,
          append_assoc (reverse ds) (digit small (num % 10) ∷ []) rest,
        )
        (atoi_from-digits n (num / 10) small (digit small (num % 10) ∷ rest) smaller (omega arith)
          ∙ atoi_from-digit num small rest k)
]

atoi_from-zeros :
    (n : ℕ) (rest : List ℕ) → atoi_from 0 (replicate n b'0' ++ rest) ≡ atoi_from 0 rest
unfolding atoi_from
atoi_from-zeros zero rest = refl
atoi_from-zeros (suc n) rest = atoi_from-zeros n rest

atoi_from-all_digits :
    (num : ℕ) (small : Bool) (rest : List ℕ)
    → num < 2 ^ 32
    → atoi_from 0 (reverse (digits small 10 num) ++ rest) ≡ atoi_from num rest
unfolding digits
atoi_from-all_digits num small rest h = elim (Bool-cases (num == 0)) [
  | inl z ↦ let e : num ≡ 0 = ground arith in rw (z, e) (atoi_from-zeros 1 rest)
  | inr more ↦ rw more (atoi_from-digits 32 num small rest h h)
]

atoi_from-padded :
    (y z : ℕ) (t rest : List ℕ)
    → atoi_from 0 ((replicate y b'0' ++ (replicate z b'0' ++ (t ++ []))) ++ rest)
      ≡ atoi_from 0 (t ++ rest)
atoi_from-padded y z t rest =
    simp (append-nil, append_assoc)
      (atoi_from-zeros y (replicate z b'0' ++ (t ++ rest)) ∙ atoi_from-zeros z (t ++ rest))

-- A 32-bit number that `number` prints in base 10 with leading zeros, to any width and precision, is
-- what `skip_atoi` reads from the text and what follows it, up to the first character behind it that
-- is no digit.
pub skip_atoi-number :
    (num size precision : ℕ) (small : Bool) (rest : List ℕ)
    → num < 2 ^ 32
    → Stops rest
    → (s : List ℕ) × (number num 10 size precision
          (record no_flags { zeropad = true; small = small })
        ≡ some s)
      × (skip_atoi (s ++ rest) ≡ (num, rest))
unfolding number skip_atoi
skip_atoi-number num size precision small rest h stop = (_, refl, read)
  where
    tmp : List ℕ
    tmp = digits small 10 num

    places : ℕ
    places = max precision (length tmp)

    read :
        atoi_from 0 (
          (replicate (size - 0 - 0 - places - 0) b'0'
            ++ (replicate (places - length tmp) b'0'
                ++ (reverse tmp
                    ++ replicate (size - 0 - 0 - places - 0 - (size - 0 - 0 - places - 0)) 32)))
          ++ rest)
        ≡ (num, rest)
    read =
        let none_behind : size - 0 - 0 - places - 0 - (size - 0 - 0 - places - 0) ≡ 0 =
          omega arith in
        rw none_behind (
          atoi_from-padded (size - 0 - 0 - places - 0) (places - length tmp) (reverse tmp) rest
          ∙ (atoi_from-all_digits num small rest h ∙ atoi_from-Stops num rest stop))

pads :
    (zeropad left : Bool) (size sg pf precision n : ℕ)
    → (let p = max precision n in
        let w = size - sg - pf - p in
        let lead = if zeropad && not left || left then 0 else w in
        let middle = if left then 0 else w - lead in
        lead + (sg + (pf + (middle + (p - n + (n + (w - lead - middle)))))))
      ≡ max size (sg + pf + max precision n)
pads true true size sg pf precision n = ground arith
pads true false size sg pf precision n = ground arith
pads false true size sg pf precision n = ground arith
pads false false size sg pf precision n = ground arith

length-parts :
    (l m z t c : ℕ) (sg pf ds : List ℕ)
    → length (
        replicate l 32
        ++ (sg ++ (pf ++ (replicate m c ++ (replicate z b'0' ++ (reverse ds ++ replicate t 32))))))
      ≡ l + (length sg + (length pf + (m + (z + (length ds + t)))))
length-parts l m z t c sg pf ds = simp (length-append, length-replicate, length-reverse)

-- In a base from 2 to 36 the text has as many characters as the field is wide, and more only as far
-- as the sign, the prefix and the digits need them.
length-number :
    (num base size precision : ℕ) (f : Flags)
    → 2 ≤ base
    → base ≤ 36
    → (s : List ℕ) × (number num base size precision f ≡ some s)
      × (length s
          ≡ max size (
              length (sign_of f num)
              + length (prefix f base)
              + max precision (length (digits f.small base (magnitude f num)))))
unfolding number
length-number num base size precision f low high =
    let in_range : (ltb base 2 || ltb 36 base) ≡ false = ground arith in
    rw in_range (_, refl, length-parts _ _ _ _ _ (sign_of f num) (prefix f base) _ ∙ widths)
  where
    digit_count : ℕ
    digit_count = length (digits f.small base (magnitude f num))

    widths :
        (let p = max precision digit_count in
          let w = size - length (sign_of f num) - length (prefix f base) - p in
          let lead = if f.zeropad && not f.left || f.left then 0 else w in
          let middle = if f.left then 0 else w - lead in
          lead
          + (length (sign_of f num)
              + (length (prefix f base)
                  + (middle + (p - digit_count + (digit_count + (w - lead - middle)))))))
        ≡ max size (length (sign_of f num) + length (prefix f base) + max precision digit_count)
    widths =
        pads f.zeropad f.left size (length (sign_of f num)) (length (prefix f base)) precision
          digit_count
