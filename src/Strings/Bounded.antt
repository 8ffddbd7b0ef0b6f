-- ===== src/Strings/Bounded.antt =====
-- lib/string.c: strncat, which stops at a count.
use linux_rpg.Prelude.{
  ℕ, zero, suc, ◌+◌, ◌-◌, ◌≤◌, ◌<◌, ◌≡◌, ◌⊎◌, refl, sym, ◌∙◌, List, [], ◌∷◌, ◌++◌, true, false, inl,
  arith, ltb, ◌==◌, length, take, if◌then◌else◌,
}
use linux_rpg.Strings.{Bytes, set_byte, all_ones, copy_some, strncat}
use linux_rpg.Strings.Moves.{set_byte_at, set_byte_other}
use linux_rpg.Strings.Texts.{IsText, IsText-agree, IsText-append, repne_scasb-IsText, Apart}

-- One byte more, when the string ends before the count does.
unfoldable pub beyond : ℕ → List ℕ → ℕ
beyond n ys = if ltb (length ys) n then 1 else 0

record Ended (n dest : ℕ) (ys : List ℕ) (m m' : Bytes) (end : ℕ) : Type 0 where
  text : IsText (set_byte end 0 m') dest (take n ys)
  others : (a : ℕ) → (a < dest) ⊎ (end ≤ a) → m' a ≡ m a
  at_end : end ≡ dest + length (take n ys) + beyond n ys

copy_some-Ended :
    (n src dest : ℕ) (m : Bytes) (ys : List ℕ)
    → IsText m src ys
    → Apart src dest (length ys)
    → Ended n dest ys m (copy_some n src dest m).0 (copy_some n src dest m).1
unfolding copy_some IsText beyond
copy_some-Ended zero src dest m ys t apart = record {
  text = set_byte_at dest dest 0 m refl;
  others = λ a out. refl;
  at_end = ground arith;
}
copy_some-Ended (suc n) src dest m [] t apart =
    let e : (m src == 0) ≡ true = ground arith in
    rw e record {
      text =
          set_byte_other (dest + 1) dest 0 (set_byte dest (m src) m) (omega arith)
          ∙ set_byte_at dest dest (m src) m refl
          ∙ t;
      others = λ a out. set_byte_other dest a (m src) m (ground arith);
      at_end = ground arith;
    }
copy_some-Ended (suc n) src dest m (c ∷ cs) (nz, e, t) apart =
    let e' : (m src == 0) ≡ false = ground arith in
    let m1 = set_byte dest (m src) m in
    let t1 =
      IsText-agree m m1 (src + 1) cs (λ a le lt. set_byte_other dest a (m src) m (ground arith))
        t in
    let apart' : Apart (src + 1) (dest + 1) (length cs) = ground arith in
    let c' = copy_some-Ended n (src + 1) (dest + 1) m1 cs t1 apart' in
    let end = (copy_some n (src + 1) (dest + 1) m1).1 in
    let m' = (copy_some n (src + 1) (dest + 1) m1).0 in
    let at_end : end ≡ dest + 1 + length (take n cs) + beyond n cs = c'.at_end in
    rw e' record {
      text = (
        nz,
        set_byte_other end dest 0 m' (omega (arith, at_end))
            ∙ c'.others dest (inl (omega arith))
            ∙ set_byte_at dest dest (m src) m refl
            ∙ e,
        c'.text,
      );
      others = λ a out.
          c'.others a (ground arith) ∙ set_byte_other dest a (m src) m (ground (arith, at_end));
      at_end = ground (arith, at_end);
    }

-- The strings are at `dest` and `src`, and the bytes from the end of the first on are not behind the
-- start of the second one, or start behind its end. After strncat the first string, followed by the
-- first `count` bytes of the second, is at `dest`. When the second string is shorter than `count`,
-- the byte behind the zero is written too: it is 0. No other byte outside changes.
pub strncat-IsText :
    (dest src count : ℕ) (xs ys : List ℕ) (m : Bytes)
    → IsText m dest xs
    → IsText m src ys
    → length xs < all_ones
    → Apart src (dest + length xs) (length ys)
    → IsText (strncat dest src count m) dest (xs ++ take count ys)
      × (strncat dest src count m (dest + length xs + length (take count ys) + beyond count ys) ≡ 0)
      × ((a : ℕ)
          → (a < dest + length xs)
            ⊎ (dest + length xs + length (take count ys) + beyond count ys < a)
          → strncat dest src count m a ≡ m a)
unfolding strncat
strncat-IsText dest src count xs ys m t u lt apart =
    let c = copy_some-Ended count src (dest + length xs) m ys u apart in
    let m1 = (copy_some count src (dest + length xs) m).0 in
    let end = (copy_some count src (dest + length xs) m).1 in
    let found = repne_scasb-IsText all_ones false dest m xs t lt in
    let here : dest + length xs + 1 - 1 ≡ dest + length xs = omega arith in
    let at_end : end ≡ dest + length xs + length (take count ys) + beyond count ys = c.at_end in
    rw (found, here)
      (
        IsText-append m (set_byte end 0 m1) dest xs (take count ys) t
            (λ a before.
              set_byte_other end a 0 m1 (omega (arith, at_end, before)) ∙ c.others a (inl before))
            c.text,
        set_byte_at end _ 0 m1 (sym at_end),
        λ a out.
            set_byte_other end a 0 m1 (ground (arith, at_end))
            ∙ c.others a (ground (arith, at_end)),
      )
