-- ===== src/Fs/Namei/Match.antt =====
-- fs/namei.c: match against the name that an entry holds.
use linux_rpg.Prelude.{
  ℕ, zero, suc, ◌+◌, ◌≤◌, ◌<◌, ◌≡◌, ◌≢◌, refl, ap, ◌∙◌, List, [], ◌∷◌, true, false, inl, inr, arith,
  ◌==◌, Bool-cases, length, if◌then◌else◌,
}
use linux_rpg.Fs.Namei.{name_len, Entry, same_name, match}

-- The bytes of a field of `n` bytes, from `i` on, before the first zero.
unfoldable pub text : ℕ → (ℕ → ℕ) → ℕ → List ℕ
text zero f i = []
text (suc n) f i = let rest = text n f (i + 1) in if f i == 0 then [] else f i ∷ rest

unfoldable pub entry_name : Entry → List ℕ
entry_name de = text name_len de.name 0

unfoldable pub HasNoZero : List ℕ → Type 0
HasNoZero [] = Unit
HasNoZero (c ∷ cs) = (c ≢ 0) × HasNoZero cs

same_name-text : (n : ℕ) (f : ℕ → ℕ) (i : ℕ) → same_name (text n f i) f i ≡ true
unfolding same_name text
same_name-text zero f i = refl
same_name-text (suc n) f i = elim (Bool-cases (f i == 0)) [
  | inl e ↦ rw e refl
  | inr e ↦
      let same : (f i == f i) ≡ true = ground arith in rw (e, same) (same_name-text n f (i + 1))
]

text_end : (n : ℕ) (f : ℕ → ℕ) (i : ℕ) → length (text n f i) < n → f (i + length (text n f i)) ≡ 0
unfolding text
text_end zero f i h = absurd (omega (arith, h))
text_end (suc n) f i h = elim (Bool-cases (f i == 0)) [
  | inl e ↦ rw e (ground arith)
  | inr e ↦
      let shorter : length (text n f (i + 1)) < n = omega (arith, rw e at h) in
      rw e (ap f (omega arith) ∙ text_end n f (i + 1) shorter)
]

text-same_name :
    (name : List ℕ) (n : ℕ) (f : ℕ → ℕ) (i : ℕ)
    → HasNoZero name
    → length name ≤ n
    → same_name name f i ≡ true
    → (length name < n → f (i + length name) ≡ 0)
    → text n f i ≡ name
unfolding same_name text HasNoZero
text-same_name [] zero f i z le s e = refl
text-same_name [] (suc n) f i z le s e =
    let ends : (f i == 0) ≡ true = ground (arith, e (omega arith)) in rw ends refl
text-same_name (c ∷ cs) zero f i z le s e = absurd (omega (arith, le))
text-same_name (c ∷ cs) (suc n) f i (nz, z) le s e = elim (Bool-cases (c == f i)) [
  | inr o ↦ absurd (cc (rw o at s))
  | inl o ↦
      let same : c ≡ f i = ground arith in
      let more : (f i == 0) ≡ false = ground arith in
      let rest =
        text-same_name cs n f (i + 1) z (omega (arith, le)) (rw o at s)
          (λ lt. ap f (omega arith) ∙ e (omega (arith, lt))) in
      rw (more, rest, same) refl
]

-- An entry that is in use and holds the name.
unfoldable pub IsNamed : List ℕ → Entry → Type 0
IsNamed name de = (de.inode ≢ 0) × (entry_name de ≡ name)

pub match-IsNamed :
    (name : List ℕ) (de : Entry) → match name de ≡ true → HasNoZero name → IsNamed name de
unfolding match IsNamed entry_name
match-IsNamed name de h z =
    let used : de.inode ≢ 0 = ground arith in
    let le : length name ≤ 14 = ground arith in
    let same : same_name name de.name 0 ≡ true = ground arith in
    let ends : (length name < 14 → de.name (length name) ≡ 0) = ground arith in
    (used, text-same_name name 14 de.name 0 z le same (λ lt. ap de.name (omega arith) ∙ ends lt))

pub IsNamed-match :
    (name : List ℕ) (de : Entry) → IsNamed name de → length name ≤ 14 → match name de ≡ true
unfolding match IsNamed entry_name
IsNamed-match name de (used, e) le =
    let same : same_name name de.name 0 ≡ true = rw e at (same_name-text 14 de.name 0) in
    let ends : (length name < 14 → de.name (length name) ≡ 0) =
      λ lt. ap de.name (omega arith) ∙ (rw e at (text_end 14 de.name 0)) lt in
    ground (arith, same, ends)
