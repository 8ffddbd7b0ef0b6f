-- ===== src/Strings/Span.antt =====
-- lib/string.c: strspn, strcspn and strpbrk on the strings that memory holds.
use linux_rpg.Prelude.{
  ℕ, zero, suc, ◌+◌, ◌≤◌, ◌<◌, ◌≡◌, refl, ap, ◌∙◌, List, [], ◌∷◌, none, some, Bool, true, false,
  not, ◌||◌, inl, inr, arith, ◌==◌, Bool-cases, length, if◌then◌else◌,
}
use linux_rpg.Strings.{Bytes, repne_scasb, all_ones, is_among, span_from, strspn, strcspn, strpbrk}
use linux_rpg.Strings.Texts.{IsText, strlen-IsText}

unfoldable pub elem : ℕ → List ℕ → Bool
elem c [] = false
elem c (y ∷ ys) = y == c || elem c ys

-- How many bytes a string starts with that are all in a set, or, for `false`, all outside it.
unfoldable pub prefix_length : Bool → List ℕ → List ℕ → ℕ
prefix_length inside [] ys = 0
prefix_length inside (x ∷ xs) ys =
    let rest = prefix_length inside xs ys in
    if (if inside then elem x ys else not (elem x ys)) then suc rest else 0

is_among-elem :
    (ys : List ℕ) (ct al : ℕ) (m : Bytes)
    → IsText m ct ys
    → is_among (length ys) ct al m ≡ elem al ys
unfolding repne_scasb elem IsText
is_among-elem [] ct al m t = refl
is_among-elem (y ∷ ys) ct al m (nz, e, t) = elim (Bool-cases (y == al)) [
  | inl o ↦ rw (is_among, repne_scasb, e, o) refl
  | inr o ↦ rw (is_among, repne_scasb, e, o) (is_among-elem ys (ct + 1) al m t)
]

-- Where the zero is.
pub zero_at_end :
    (m : Bytes) (xs : List ℕ) (cs k : ℕ)
    → IsText m cs xs
    → k ≤ length xs
    → (m (cs + k) == 0) ≡ (k == length xs)
unfolding IsText
zero_at_end m [] cs k t le =
    let here : cs + k ≡ cs = omega (arith, le) in rw (here, t) (ground arith)
zero_at_end m (c ∷ cs') cs zero (nz, e, t) le =
    let here : cs + 0 ≡ cs = omega arith in rw (here, e) (ground arith)
zero_at_end m (c ∷ cs') cs (suc k) (nz, e, t) le =
    let next : cs + suc k ≡ cs + 1 + k = omega arith in
    rw next (zero_at_end m cs' (cs + 1) k t (omega (arith, le)) ∙ ground arith)

pub prefix_le : (inside : Bool) (xs ys : List ℕ) → prefix_length inside xs ys ≤ length xs
unfolding prefix_length
prefix_le inside [] ys = omega arith
prefix_le inside (x ∷ xs) ys =
    let le = prefix_le inside xs ys in
    elim (Bool-cases (if inside then elem x ys else not (elem x ys))) [
      | inl o ↦ rw o (omega (arith, le))
      | inr o ↦ rw o (omega arith)
    ]

module _ (ys : List ℕ) (ct : ℕ) (m : Bytes) (set : IsText m ct ys) where
  pub span_from-prefix_length :
      (inside : Bool) (xs : List ℕ) (cs n : ℕ)
      → IsText m cs xs
      → length xs < n
      → span_from n inside (length ys) cs ct m ≡ some (cs + prefix_length inside xs ys)
  unfolding span_from prefix_length IsText
  span_from-prefix_length inside xs cs zero t lt = absurd (omega (arith, lt))
  span_from-prefix_length inside [] cs (suc n) t lt =
      let ended : (m cs == 0) ≡ true = ground arith in rw ended (ap some (omega arith))
  span_from-prefix_length inside (x ∷ xs) cs (suc n) (nz, e, t) lt =
      let more : (m cs == 0) ≡ false = ground arith in
      let here : is_among (length ys) ct (m cs) m ≡ elem x ys =
        is_among-elem ys ct (m cs) m set ∙ ap (λ c. elem c ys) e in
      elim (Bool-cases (if inside then elem x ys else not (elem x ys))) [
        | inl o ↦
            rw (more, here, o)
              (span_from-prefix_length inside xs (cs + 1) n t (omega (arith, lt))
                ∙ ap some (omega arith))
        | inr o ↦ rw (more, here, o) (ap some (omega arith))
      ]

  -- Memory holds a string at `cs` and the set of bytes, a string shorter than 2 ^ 32 - 1, at `ct`;
  -- fuel for the first one is given. strspn and strcspn end with the number of bytes that the string
  -- starts with in the set, and outside it. strpbrk ends with the address of its first byte in the
  -- set, or NULL if all are outside.
  pub strspn-prefix_length :
      (xs : List ℕ) (cs : ℕ)
      → length ys < all_ones
      → IsText m cs xs
      → (strspn (suc (length xs)) cs ct m ≡ some (prefix_length true xs ys))
        × (strcspn (suc (length xs)) cs ct m ≡ some (prefix_length false xs ys))
        × (strpbrk (suc (length xs)) cs ct m
            ≡ some (
                if prefix_length false xs ys == length xs
                then none
                else some (cs + prefix_length false xs ys)))
  unfolding strspn strcspn strpbrk
  strspn-prefix_length xs cs lt t =
      let size = strlen-IsText ct m ys set lt in
      let spans = span_from-prefix_length true xs cs (suc (length xs)) t (omega arith) in
      let breaks = span_from-prefix_length false xs cs (suc (length xs)) t (omega arith) in
      let stopped = zero_at_end m xs cs (prefix_length false xs ys) t (prefix_le false xs ys) in
      (
        rw (strspn, size, spans) (ap some (omega arith)),
        rw (strcspn, size, breaks) (ap some (omega arith)),
        rw (strpbrk, size, breaks, stopped) refl,
      )
