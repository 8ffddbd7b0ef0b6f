-- ===== src/Strings/Search.antt =====
-- lib/string.c: strstr on the strings that memory holds.
use linux_rpg.Prelude.{
  ℕ, zero, suc, ◌+◌, ◌-◌, ◌≤◌, ◌<◌, ◌≡◌, refl, sym, ap, ◌∙◌, List, [], ◌∷◌, Option, none, some,
  Bool, true, false, ◌&&◌, inl, inr, arith, ◌==◌, Bool-cases, length, if◌then◌else◌,
}
use linux_rpg.Strings.{Bytes, repe_cmpsb, all_ones, strstr_from, strstr}
use linux_rpg.Strings.Texts.{IsText, strlen-IsText}

unfoldable pub starts_with : List ℕ → List ℕ → Bool
starts_with xs [] = true
starts_with [] (y ∷ ys) = false
starts_with (x ∷ xs) (y ∷ ys) = let rest = starts_with xs ys in x == y && rest

-- The first place of a string, which is at `cs`, from which on it has the other one.
unfoldable pub occurrence : ℕ → List ℕ → List ℕ → Option ℕ
occurrence cs [] ys = if starts_with [] ys then some cs else none
occurrence cs (x ∷ xs) ys =
    let rest = occurrence (cs + 1) xs ys in if starts_with (x ∷ xs) ys then some cs else rest

starts_with-length : (xs ys : List ℕ) → starts_with xs ys ≡ true → length ys ≤ length xs
unfolding starts_with
starts_with-length xs [] h = omega arith
starts_with-length [] (y ∷ ys) h = absurd (cc)
starts_with-length (x ∷ xs) (y ∷ ys) h =
    let rest : starts_with xs ys ≡ true = ground arith in
    let le = starts_with-length xs ys rest in omega (arith, le)

too_long : (xs ys : List ℕ) → length xs < length ys → starts_with xs ys ≡ false
too_long xs ys lt = elim (Bool-cases (starts_with xs ys)) [
  | inl e ↦ absurd (omega (arith, starts_with-length xs ys e, lt))
  | inr e ↦ e
]

occurrence-none : (cs : ℕ) (xs ys : List ℕ) → length xs < length ys → occurrence cs xs ys ≡ none
unfolding occurrence
occurrence-none cs [] ys lt = rw (too_long [] ys lt) refl
occurrence-none cs (x ∷ xs) ys lt =
    rw (too_long (x ∷ xs) ys lt) (occurrence-none (cs + 1) xs ys (omega (arith, lt)))

repe_cmpsb-starts_with :
    (xs ys : List ℕ) (cs ct : ℕ) (m : Bytes)
    → IsText m cs xs
    → IsText m ct ys
    → (repe_cmpsb (length ys) cs ct m).1 ≡ starts_with xs ys
unfolding repe_cmpsb starts_with IsText
repe_cmpsb-starts_with xs [] cs ct m t u = refl
repe_cmpsb-starts_with [] (y ∷ ys) cs ct m t (nz, e, u) =
    let apart : (m cs == m ct) ≡ false = ground arith in rw apart refl
repe_cmpsb-starts_with (x ∷ xs) (y ∷ ys) cs ct m (nz, e, t) (nz', e', u) =
    let ih = repe_cmpsb-starts_with xs ys (cs + 1) (ct + 1) m t u in
    elim (Bool-cases (x == y)) [ inl o ↦ rw (e, e', o) ih | inr o ↦ rw (e, e', o) refl ]

-- A comparison that stops at the end of the first string: the second one is longer.
repe_cmpsb_end :
    (xs ys : List ℕ) (cs ct : ℕ) (m : Bytes)
    → IsText m cs xs
    → IsText m ct ys
    → starts_with xs ys ≡ false
    → m ((repe_cmpsb (length ys) cs ct m).0 - 1) ≡ 0
    → length xs < length ys
unfolding repe_cmpsb starts_with IsText
repe_cmpsb_end xs [] cs ct m t u differ stop = absurd cc
repe_cmpsb_end [] (y ∷ ys) cs ct m t u differ stop = omega arith
repe_cmpsb_end (x ∷ xs) (y ∷ ys) cs ct m (nz, e, t) (nz', e', u) differ stop =
    elim (Bool-cases (x == y)) [
      | inl o ↦
          let lt =
            repe_cmpsb_end xs ys (cs + 1) (ct + 1) m t u (rw o at differ) (rw (e, e', o) at stop) in
          omega (arith, lt)
      | inr o ↦
          let stop' : m (cs + 1 - 1) ≡ 0 = rw (e, e', o) at stop in
          let here : m (cs + 1 - 1) ≡ m cs = ap m (omega arith) in
          absurd (nz (sym e ∙ sym here ∙ stop'))
    ]

repe_cmpsb-empty :
    (ys : List ℕ) (cs ct : ℕ) (m : Bytes)
    → IsText m cs []
    → IsText m ct ys
    → starts_with [] ys ≡ false
    → m ((repe_cmpsb (length ys) cs ct m).0 - 1) ≡ 0
unfolding repe_cmpsb starts_with IsText
repe_cmpsb-empty [] cs ct m t u differ = absurd cc
repe_cmpsb-empty (y ∷ ys) cs ct m t (nz, e, u) differ =
    let apart : (m cs == m ct) ≡ false = ground arith in rw apart (ap m (omega arith) ∙ t)

module _ (ys : List ℕ) (ct : ℕ) (m : Bytes) (u : IsText m ct ys) where
  strstr_from-occurrence :
      (xs : List ℕ) (cs n : ℕ)
      → IsText m cs xs
      → length xs < n
      → strstr_from n (length ys) cs ct m ≡ some (occurrence cs xs ys)
  unfolding strstr_from occurrence
  strstr_from-occurrence xs cs zero t lt = absurd (omega (arith, lt))
  strstr_from-occurrence [] cs (suc n) t lt =
      let compared = repe_cmpsb-starts_with [] ys cs ct m t u in
      elim (Bool-cases (starts_with [] ys)) [
        | inl o ↦ rw (compared, o) refl
        | inr o ↦ let stop = repe_cmpsb-empty ys cs ct m t u o in rw (compared, o, stop) refl
      ]
  strstr_from-occurrence (x ∷ xs) cs (suc n) t lt =
      let compared = repe_cmpsb-starts_with (x ∷ xs) ys cs ct m t u in
      let eax = (repe_cmpsb (length ys) cs ct m).0 in
      elim (Bool-cases (starts_with (x ∷ xs) ys)) [
        | inl o ↦ rw (compared, o) refl
        | inr o ↦ elim (Bool-cases (m (eax - 1) == 0)) [
          | inr more ↦
              rw (compared, o, more)
                (strstr_from-occurrence xs (cs + 1) n ((unfold IsText in t.2)) (omega (arith, lt)))
          | inl stop ↦
              let ended : m (eax - 1) ≡ 0 = ground arith in
              let longer = repe_cmpsb_end (x ∷ xs) ys cs ct m t u o ended in
              let nothing = occurrence-none (cs + 1) xs ys (omega (arith, longer)) in
              rw (compared, o, stop, nothing) refl
        ]
      ]

  -- Memory holds a string at `cs` and another one, shorter than 2 ^ 32 - 1, at `ct`; fuel for the
  -- first one is given. strstr ends with the first place from which on the first string has the
  -- second one, or NULL when there is none. It may stop at the end of the first string, since the
  -- second one is then too long for all that follows.
  pub strstr-occurrence :
      (xs : List ℕ) (cs : ℕ)
      → length ys < all_ones
      → IsText m cs xs
      → strstr (suc (length xs)) cs ct m ≡ some (occurrence cs xs ys)
  strstr-occurrence xs cs lt t =
      ap (λ edx. strstr_from (suc (length xs)) edx cs ct m) (strlen-IsText ct m ys u lt)
      ∙ strstr_from-occurrence xs cs (suc (length xs)) t (omega arith)
