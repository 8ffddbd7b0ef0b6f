-- ===== src/Strings/Token.antt =====
-- lib/string.c: strtok, with what it keeps in ___strtok explicit. `none` inside is NULL.
use linux_rpg.Prelude.{
  ℕ, zero, suc, ◌+◌, ◌≤◌, ◌<◌, ◌≡◌, ◌≢◌, refl, ap, ◌∙◌, List, [], ◌∷◌, Option, none, some, true,
  false, inl, inr, arith, ◌==◌, Bool-cases, length, take, drop, if◌then◌else◌, length-drop,
}
use linux_rpg.Strings.{Bytes, set_byte, all_ones, strlen, span_from}
use linux_rpg.Strings.Moves.{set_byte_at, set_byte_other}
use linux_rpg.Strings.Texts.{IsText, strlen-IsText}
use linux_rpg.Strings.Span.{elem, prefix_length, prefix_le, zero_at_end, span_from-prefix_length}

-- From label 3 on: the token, what is kept, and the memory.
unfoldable pub cut_token : ℕ → ℕ → Bytes → Option ℕ × Option ℕ × Bytes
cut_token start end m =
    let (kept, m') : Option ℕ × Bytes =
      if m end == 0 then (none, m) else (some (end + 1), set_byte end 0 m) in
    if m' start == 0 then (none, none, m') else (some start, kept, m')

unfoldable pub strtok_at : ℕ → ℕ → ℕ → Bytes → Option (Option ℕ × Option ℕ × Bytes)
strtok_at fuel s ct m =
    let edx = strlen ct m in
    let found : Option (Option ℕ × Option ℕ × Bytes) = elim (span_from fuel true edx s ct m) [
      | none ↦ none
      | some start ↦
          let cut : Option (Option ℕ × Option ℕ × Bytes) =
            elim (span_from fuel false edx start ct m) [
              | none ↦ none
              | some end ↦ some (cut_token start end m)
            ] in
          if m start == 0 then some (none, none, m) else cut
    ] in
    if edx == 0 then some (none, none, m) else found

unfoldable pub strtok : ℕ → Option ℕ → Option ℕ → ℕ → Bytes → Option (Option ℕ × Option ℕ × Bytes)
strtok fuel (some s) kept ct m = strtok_at fuel s ct m
strtok fuel none none ct m = some (none, none, m)
strtok fuel none (some s) ct m = strtok_at fuel s ct m

IsText-drop :
    (m : Bytes) (s : ℕ) (xs : List ℕ) (k : ℕ)
    → k ≤ length xs
    → IsText m s xs
    → IsText m (s + k) (drop k xs)
unfolding IsText
IsText-drop m s xs zero le t = let here : s + 0 ≡ s = omega arith in rw here t
IsText-drop m s [] (suc k) le t = absurd (omega (arith, le))
IsText-drop m s (c ∷ cs) (suc k) le (nz, e, t) =
    let next : s + suc k ≡ s + 1 + k = omega arith in
    rw next (IsText-drop m (s + 1) cs k (omega (arith, le)) t)

IsText-take :
    (m : Bytes) (s : ℕ) (xs : List ℕ) (k end : ℕ)
    → end ≡ s + k
    → k ≤ length xs
    → IsText m s xs
    → IsText (set_byte end 0 m) s (take k xs)
unfolding IsText
IsText-take m s xs zero end at_k le t = set_byte_at end s 0 m (omega (arith, at_k))
IsText-take m s [] (suc k) end at_k le t = absurd (omega (arith, le))
IsText-take m s (c ∷ cs) (suc k) end at_k le (nz, e, t) = (
  nz,
  set_byte_other end s 0 m (omega (arith, at_k)) ∙ e,
  IsText-take m (s + 1) cs k end (omega (arith, at_k)) (omega (arith, le)) t,
)

take_all : (xs : List ℕ) → take (length xs) xs ≡ xs
take_all [] = refl
take_all (x ∷ xs) = ap (λ l. x ∷ l) (take_all xs)

-- What cut_token leaves of the string at `start`, whose token has `k` bytes.
pub record Cut (m : Bytes) (start k : ℕ) (xs : List ℕ) (out : Option ℕ × Option ℕ × Bytes)
    : Type 0 where
  token : out.0 ≡ some start
  text : IsText out.2 start (take k xs)
  kept : out.1 ≡ (if k == length xs then none else some (start + k + 1))
  others : (a : ℕ) → a ≢ start + k → out.2 a ≡ m a

cut_token-Cut :
    (m : Bytes) (start k : ℕ) (xs : List ℕ)
    → 0 < k
    → k ≤ length xs
    → IsText m start xs
    → Cut m start k xs (cut_token start (start + k) m)
unfolding cut_token
cut_token-Cut m start k xs some_byte le t =
    let ended = zero_at_end m xs start k t le in
    let first = zero_at_end m xs start 0 t (omega arith) in
    let here : start + 0 ≡ start = omega arith in
    let filled : (m start == 0) ≡ false = (rw here at first) ∙ ground arith in
    elim (Bool-cases (k == length xs)) [
      | inl o ↦
          let same : length xs ≡ k = ground arith in
          rw (ended, o, filled)
            record {
              token = refl;
              text = rw (← same) (rw (take_all xs) t);
              kept = rw o refl;
              others = λ a ne. refl;
            }
      | inr o ↦
          let kept_byte : set_byte (start + k) 0 m start ≡ m start =
            set_byte_other (start + k) start 0 m (omega (arith, some_byte)) in
          rw (ended, o, kept_byte, filled)
            record {
              token = refl;
              text = IsText-take m start xs k (start + k) refl le t;
              kept = rw o refl;
              others = λ a ne. set_byte_other (start + k) a 0 m ne;
            }
    ]

prefix_lt :
    (xs ys : List ℕ)
    → prefix_length true xs ys < length xs
    → 0 < prefix_length false (drop (prefix_length true xs ys) xs) ys
unfolding prefix_length
prefix_lt [] ys lt = absurd (omega (arith, lt))
prefix_lt (x ∷ xs) ys lt = elim (Bool-cases (elem x ys)) [
  | inl o ↦
      let lt' : suc (prefix_length true xs ys) < suc (length xs) = rw o at lt in
      rw o (prefix_lt xs ys (omega (arith, lt')))
  | inr o ↦ rw (o, o) (omega arith)
]

-- Memory holds a string at `s` and the set of bytes that end tokens, not empty and shorter than
-- 2 ^ 32 - 1, at `ct`. Some byte of the string is outside the set, and fuel for the string is given.
-- strtok of `s` ends with the address of the first byte that is outside the set. There is then, as a
-- string of its own, what follows of the string up to the next byte in the set. What strtok keeps is
-- the address behind that byte, or NULL when the string has ended. Only that byte has changed.
pub strtok-Cut :
    (s ct : ℕ) (xs ys : List ℕ) (m : Bytes) (kept : Option ℕ)
    → IsText m s xs
    → IsText m ct ys
    → 0 < length ys
    → length ys < all_ones
    → prefix_length true xs ys < length xs
    → (out : Option ℕ × Option ℕ × Bytes) × (strtok (suc (length xs)) (some s) kept ct m ≡ some out)
      × Cut m
          (s + prefix_length true xs ys)
          (prefix_length false (drop (prefix_length true xs ys) xs) ys)
          (drop (prefix_length true xs ys) xs)
          out
unfolding strtok strtok_at
strtok-Cut s ct xs ys m kept t u filled lt inside =
    let p = prefix_length true xs ys in
    let rest = drop p xs in
    let k = prefix_length false rest ys in
    let le = prefix_le true xs ys in
    let size = strlen-IsText ct m ys u lt in
    let nonempty : (length ys == 0) ≡ false = ground arith in
    let t' = IsText-drop m s xs p le t in
    let skipped = span_from-prefix_length ys ct m u true xs s (suc (length xs)) t (omega arith) in
    let shorter : length rest < suc (length xs) = omega (arith, length-drop p xs) in
    let spanned =
      span_from-prefix_length ys ct m u false rest (s + p) (suc (length xs)) t' shorter in
    let more : (m (s + p) == 0) ≡ false = zero_at_end m xs s p t le ∙ ground arith in
    (
      cut_token (s + p) (s + p + k) m,
      rw (size, nonempty, skipped, more, size, spanned) refl,
      cut_token-Cut m (s + p) k rest (prefix_lt xs ys inside) (prefix_le false rest ys) t',
    )
