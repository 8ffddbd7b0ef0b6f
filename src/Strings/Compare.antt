-- ===== src/Strings/Compare.antt =====
-- lib/string.c: strcmp on the strings that memory holds.
use linux_rpg.Prelude.{
  ℕ, ltb, leb, ◌%◌, ◌-◌, zero, suc, ◌+◌, ◌<◌, ◌≡◌, ◌≢◌, ◌↔◌, refl, sym, ap, ◌∙◌, List, [], ◌∷◌,
  some, true, false, inl, inr, arith, ◌==◌, Bool-cases, length, if◌then◌else◌,
}
use linux_rpg.Prelude.Int.{ℤ, pos, negsuc}
use linux_rpg.Strings.{Bytes, difference, strcmp}
use linux_rpg.Strings.Texts.{IsText}

-- A byte as a signed number, moved up by 128.
unfoldable pub raised : ℕ → ℕ
raised c = if ltb (c % 256) 128 then c % 256 + 128 else c % 256 - 128

-- 1 when the first byte is the greater one, and -1 when it is not.
unfoldable pub greater : ℕ → ℕ → ℤ
greater x y = if leb (raised x) (raised y) then negsuc 0 else pos 1

difference-greater : (x y : ℕ) → difference x y ≡ greater x y
unfolding greater raised
difference-greater x y = ground arith

-- The lexicographic order of two strings, by the first bytes that differ, as signed numbers; the
-- end of a string is a zero.
unfoldable pub order : List ℕ → List ℕ → ℤ
order [] [] = pos 0
order [] (y ∷ ys) = greater 0 y
order (x ∷ xs) [] = greater x 0
order (x ∷ xs) (y ∷ ys) = let rest = order xs ys in if x == y then rest else greater x y

strcmp-order :
    (xs ys : List ℕ) (cs ct n : ℕ) (m : Bytes)
    → IsText m cs xs
    → IsText m ct ys
    → length ys < n
    → strcmp n cs ct m ≡ some (order xs ys)
unfolding strcmp order IsText
strcmp-order xs ys cs ct zero m t u lt = absurd (omega (arith, lt))
strcmp-order [] [] cs ct (suc n) m t u lt =
    let same : (m ct == m cs) ≡ true = ground arith in
    let ended : (m ct == 0) ≡ true = ground arith in rw (same, ended) refl
strcmp-order [] (y ∷ ys) cs ct (suc n) m t (nz, e, u) lt =
    let apart : (m ct == m cs) ≡ false = ground arith in
    rw (apart, t, e) (ap some (difference-greater 0 y))
strcmp-order (x ∷ xs) [] cs ct (suc n) m (nz, e, t) u lt =
    let apart : (m ct == m cs) ≡ false = ground arith in
    rw (apart, e, u) (ap some (difference-greater x 0))
strcmp-order (x ∷ xs) (y ∷ ys) cs ct (suc n) m (nz, e, t) (nz', e', u) lt =
    elim (Bool-cases (x == y)) [
      | inl o ↦
          let same : (m ct == m cs) ≡ true = ground arith in
          let more : (m ct == 0) ≡ false = ground arith in
          rw (same, more, o) (strcmp-order xs ys (cs + 1) (ct + 1) n m t u (omega (arith, lt)))
      | inr o ↦
          let apart : (m ct == m cs) ≡ false = ground arith in
          rw (apart, e, e', o) (ap some (difference-greater x y))
    ]

greater_ne : (a b : ℕ) → greater a b ≢ pos 0
unfolding greater
greater_ne a b h = elim (Bool-cases (leb (raised a) (raised b))) [
  | inl e ↦ cc (rw e at h)
  | inr e ↦ cc (rw e at h)
]

order_self : (xs : List ℕ) → order xs xs ≡ pos 0
unfolding order
order_self [] = refl
order_self (x ∷ xs) = let same : (x == x) ≡ true = ground arith in rw same (order_self xs)

order-equal : (xs ys : List ℕ) → order xs ys ≡ pos 0 → xs ≡ ys
unfolding order
order-equal [] [] h = refl
order-equal [] (y ∷ ys) h = absurd (greater_ne 0 y h)
order-equal (x ∷ xs) [] h = absurd (greater_ne x 0 h)
order-equal (x ∷ xs) (y ∷ ys) h = elim (Bool-cases (x == y)) [
  | inl e ↦ let same : x ≡ y = ground arith in let rest = order-equal xs ys (rw e at h) in cc
  | inr e ↦ absurd (greater_ne x y (rw e at h))
]

-- Memory holds one string at `cs` and one at `ct`, and fuel for the second one is given. strcmp ends
-- with their lexicographic order, by the first bytes that differ, as signed numbers. It is 0 exactly
-- if the strings are the same.
pub strcmp-equal :
    (xs ys : List ℕ) (cs ct : ℕ) (m : Bytes)
    → IsText m cs xs
    → IsText m ct ys
    → (strcmp (suc (length ys)) cs ct m ≡ some (order xs ys)) × (order xs ys ≡ pos 0 ↔ xs ≡ ys)
strcmp-equal xs ys cs ct m t u = (
  strcmp-order xs ys cs ct _ m t u (omega arith),
  (order-equal xs ys, λ e. ap (order xs) (sym e) ∙ order_self xs),
)
