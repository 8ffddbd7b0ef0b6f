-- ===== src/Strings/Texts.antt =====
-- lib/string.c: strlen, strcpy and strcat on the strings that memory holds.
use linux_rpg.Prelude.{
  ℕ, zero, suc, ◌+◌, ◌-◌, ◌≤◌, ◌<◌, ◌≡◌, ◌≢◌, ◌⊎◌, refl, ap, ◌∙◌, List, [], ◌∷◌, ◌++◌, some, Bool,
  true, false, inl, arith, ◌==◌, length,
}
use linux_rpg.Strings.{Bytes, set_byte, repne_scasb, all_ones, strlen, copy_text, strcat}
use linux_rpg.Strings.Moves.{set_byte_at, set_byte_other}

-- The string at `s`: bytes that are not zero, and then a zero.
unfoldable pub IsText : Bytes → ℕ → List ℕ → Type 0
IsText m s [] = m s ≡ 0
IsText m s (c ∷ cs) = (c ≢ 0) × (m s ≡ c) × IsText m (s + 1) cs

-- Two memories that agree on a string and its end.
pub IsText-agree :
    (m m' : Bytes) (s : ℕ) (xs : List ℕ)
    → ((a : ℕ) → s ≤ a → a < s + length xs + 1 → m' a ≡ m a)
    → IsText m s xs
    → IsText m' s xs
unfolding IsText
IsText-agree m m' s [] same t = same s (omega arith) (omega arith) ∙ t
IsText-agree m m' s (c ∷ cs) same (nz, e, t) = (
  nz,
  same s (omega arith) (omega arith) ∙ e,
  IsText-agree m m' (s + 1) cs (λ a le lt. same a (omega (arith, le)) (omega (arith, lt))) t,
)

-- repne scasb for the zero of a string that the count reaches.
pub repne_scasb-IsText :
    (n : ℕ) (z : Bool) (s : ℕ) (m : Bytes) (xs : List ℕ)
    → IsText m s xs
    → length xs < n
    → repne_scasb n z 0 s m ≡ (n - length xs - 1, s + length xs + 1, true)
unfolding repne_scasb IsText
repne_scasb-IsText zero z s m xs t lt = absurd (omega (arith, lt))
repne_scasb-IsText (suc n) z s m [] t lt =
    let e : (m s == 0) ≡ true = ground arith in
    let left : n ≡ suc n - 0 - 1 = omega arith in
    let next : s + 1 ≡ s + 0 + 1 = omega arith in rw (repne_scasb, e, ← left, ← next) refl
repne_scasb-IsText (suc n) z s m (c ∷ cs) (nz, e, t) lt =
    let e' : (m s == 0) ≡ false = ground arith in
    let left : n - length cs - 1 ≡ suc n - suc (length cs) - 1 = omega arith in
    let next : s + 1 + length cs + 1 ≡ s + suc (length cs) + 1 = omega arith in
    rw (repne_scasb, e', ← left, ← next)
      (repne_scasb-IsText n false (s + 1) m cs t (omega (arith, lt)))

pub strlen-IsText :
    (s : ℕ) (m : Bytes) (xs : List ℕ)
    → IsText m s xs
    → length xs < all_ones
    → strlen s m ≡ length xs
unfolding strlen
strlen-IsText s m xs t lt =
    ap (λ q. all_ones - q.0 - 1) (repne_scasb-IsText all_ones false s m xs t lt) ∙ omega (arith, lt)

-- Strings that a copy forwards does not spoil while it reads them.
abbrev pub Apart : ℕ → ℕ → ℕ → Type 0
Apart src dest n = (dest ≤ src) ⊎ (src + n < dest)

-- What a copy of a string leaves.
pub record Copied (dest : ℕ) (xs : List ℕ) (m m' : Bytes) : Type 0 where
  pub text : IsText m' dest xs
  pub others : (a : ℕ) → (a < dest) ⊎ (dest + length xs < a) → m' a ≡ m a

copy_text-Copied :
    (n src dest : ℕ) (m : Bytes) (xs : List ℕ)
    → length xs < n
    → IsText m src xs
    → Apart src dest (length xs)
    → (m' : Bytes) × (copy_text n src dest m ≡ some m') × Copied dest xs m m'
unfolding copy_text IsText
copy_text-Copied zero src dest m xs lt t apart = absurd (omega (arith, lt))
copy_text-Copied (suc n) src dest m [] lt t apart =
    let e : (m src == 0) ≡ true = ground arith in
    rw e (
      _,
      refl,
      record {
        text = set_byte_at dest dest (m src) m refl ∙ t;
        others = λ a out. set_byte_other dest a (m src) m (ground arith);
      },
    )
copy_text-Copied (suc n) src dest m (c ∷ cs) lt (nz, e, t) apart =
    let e' : (m src == 0) ≡ false = ground arith in
    let m1 = set_byte dest (m src) m in
    let t1 =
      IsText-agree m m1 (src + 1) cs (λ a le lt'. set_byte_other dest a (m src) m (ground arith))
        t in
    let apart' : Apart (src + 1) (dest + 1) (length cs) = ground arith in
    let (m', ran, c) =
      copy_text-Copied n (src + 1) (dest + 1) m1 cs (omega (arith, lt)) t1 apart' in
    rw e' (
      m',
      ran,
      record {
        text = (
          nz,
          c.others dest (inl (omega arith)) ∙ set_byte_at dest dest (m src) m refl ∙ e,
          c.text,
        );
        others =
            λ a out. c.others a (ground arith) ∙ set_byte_other dest a (m src) m (ground arith);
      },
    )

-- A string whose zero is the first byte of another one.
pub IsText-append :
    (m m' : Bytes) (s : ℕ) (xs ys : List ℕ)
    → IsText m s xs
    → ((a : ℕ) → a < s + length xs → m' a ≡ m a)
    → IsText m' (s + length xs) ys
    → IsText m' s (xs ++ ys)
unfolding IsText
IsText-append m m' s [] ys t same u = let here : s + 0 ≡ s = omega arith in rw here at u
IsText-append m m' s (c ∷ cs) ys (nz, e, t) same u =
    let next : s + suc (length cs) ≡ s + 1 + length cs = omega arith in
    (
      nz,
      same s (omega arith) ∙ e,
      IsText-append m m' (s + 1) cs ys t (λ a lt. same a (omega (arith, lt))) (rw next at u),
    )

-- The strings are at `dest` and `src`, and the bytes that strcat writes, from the end of the first
-- on, are not behind the start of the second one, or start behind its end. Fuel for the second one
-- is given. strcat ends with the first string, followed by the second, at `dest`, and changes no
-- byte outside this.
pub strcat-IsText :
    (dest src : ℕ) (xs ys : List ℕ) (m : Bytes)
    → IsText m dest xs
    → IsText m src ys
    → length xs < all_ones
    → Apart src (dest + length xs) (length ys)
    → (m' : Bytes) × (strcat (suc (length ys)) dest src m ≡ some m')
      × IsText m' dest (xs ++ ys)
      × ((a : ℕ) → (a < dest + length xs) ⊎ (dest + length xs + length ys < a) → m' a ≡ m a)
unfolding strcat
strcat-IsText dest src xs ys m t u lt apart =
    let (m', ran, c) =
      copy_text-Copied (suc (length ys)) src (dest + length xs) m ys (omega arith) u apart in
    let found = repne_scasb-IsText all_ones false dest m xs t lt in
    let at_end : dest + length xs + 1 - 1 ≡ dest + length xs = omega arith in
    (
      m',
      rw (found, at_end) ran,
      IsText-append m m' dest xs ys t (λ a before. c.others a (inl before)) c.text,
      c.others,
    )
