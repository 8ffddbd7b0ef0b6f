-- ===== src/Fs/Bmap/Tree.antt =====
-- fs/inode.c: the blocks of a file as a tree, and what it is for them to be the file's own.
use mathlib.Core.Path.{ap₂}
use linux_rpg.Prelude.{
  ℕ, ◌+◌, ◌-◌, ◌*◌, ◌≡◌, ◌≢◌, ◌⊎◌, refl, sym, ap, ◌∙◌, Bool, true, false, ◌&&◌, arith, inl, inr,
  ◌==◌, if◌then◌else◌, Bool-cases,
}
use linux_rpg.Fs.Bitmap.{Device}

-- The places that hold block numbers: the zones, the words of the indirect block, those of the
-- double indirect block, and those of the blocks that it leads to.
pub data Place : Type 0 where
  zone ind dind : ℕ → Place
  leaf : ℕ → ℕ → Place

-- The block number at a place, 0 for none.
unfoldable pub value : (ℕ → ℕ) → (ℕ → ℕ → ℕ) → Place → ℕ
value z w (zone k) = z k
value z w (ind i) = if z 7 == 0 then 0 else w (z 7) i
value z w (dind i) = if z 8 == 0 then 0 else w (z 8) i
value z w (leaf i j) =
    if (if z 8 == 0 then 0 else w (z 8) i) == 0 then 0 else w (if z 8 == 0 then 0 else w (z 8) i) j

-- The bit of a block in the maps.
abbrev pub bit_of : Device → ℕ → ℕ
bit_of v block = block - (v.firstdatazone - 1)

-- No block is at two places, and those that are at one are in use.
pub record IsTree (v : Device) (z : ℕ → ℕ) (w : ℕ → ℕ → ℕ) (used : ℕ → Bool) : Type 0 where
  pub alone : (p q : Place) → value z w p ≢ 0 → value z w p ≡ value z w q → p ≡ q
  pub marked : (p : Place) → value z w p ≢ 0 → used (bit_of v (value z w p)) ≡ true

-- After a new block `n` has been cleared and its number stored at `p`, the other places are as
-- they were.
unfoldable pub Stored : (ℕ → ℕ) → (ℕ → ℕ → ℕ) → (ℕ → ℕ) → (ℕ → ℕ → ℕ) → Place → ℕ → Type 0
Stored z w z' w' p n = (q : Place) → ((q ≡ p) × (value z' w' q ≡ n)) ⊎ (value z' w' q ≡ value z w q)

unfoldable pub key : Place → ℕ
key (zone k) = 4 * k
key (ind i) = 4 * i + 1
key (dind i) = 4 * i + 2
key (leaf i j) = 4 * i + 3

pub leaf-value :
    (z : ℕ → ℕ) (w : ℕ → ℕ → ℕ) (i j : ℕ)
    → value z w (leaf i j) ≡ (if value z w (dind i) == 0 then 0 else w (value z w (dind i)) j)
unfolding value
leaf-value z w i j = refl

module _ (v : Device) (z : ℕ → ℕ) (w : ℕ → ℕ → ℕ) (used : ℕ → Bool) (t : IsTree v z w used) (n : ℕ)
    (some_block : n ≢ 0) (fresh : used (bit_of v n) ≡ false) where
  new : (p : Place) → value z w p ≢ n
  new p e = absurd (ground (arith, fresh, rw e at (t.marked p (λ e'. some_block (sym e ∙ e')))))

  apart : (p q : Place) → value z w p ≢ 0 → key p ≢ key q → value z w p ≢ value z w q
  apart p q some_value other e = other (ap key (t.alone p q some_value e))

  pub Stored-zone :
      (k : ℕ)
      → z k ≡ 0
      → Stored z w (λ j. if j == k then n else z j) (λ a i. if a == n then 0 else w a i) (zone k) n
  unfolding value Stored
  Stored-zone k free (zone j) = elim (Bool-cases (j == k)) [
    | inl e ↦ let at : j ≡ k = ground arith in inl (ap zone at, rw e refl)
    | inr e ↦ inr (rw e refl)
  ]
  Stored-zone k free (ind i) =
      let other : z 7 ≢ n = new (zone 7) in
      inr (elim (Bool-cases (7 == k)) [
        | inl e ↦
            let at : 7 ≡ k = ground arith in
            let none_there : z 7 ≡ 0 = rw at free in rw (e, none_there) (ground arith)
        | inr e ↦ rw e (ground arith)
      ])
  Stored-zone k free (dind i) =
      let other : z 8 ≢ n = new (zone 8) in
      inr (elim (Bool-cases (8 == k)) [
        | inl e ↦
            let at : 8 ≡ k = ground arith in
            let none_there : z 8 ≡ 0 = rw at free in rw (e, none_there) (ground arith)
        | inr e ↦ rw e (ground arith)
      ])
  Stored-zone k free (leaf i j) =
      let other : z 8 ≢ n = new (zone 8) in
      let other' : (if z 8 == 0 then 0 else w (z 8) i) ≢ n = new (dind i) in
      inr (elim (Bool-cases (8 == k)) [
        | inl e ↦
            let at : 8 ≡ k = ground arith in
            let none_there : z 8 ≡ 0 = rw at free in rw (e, none_there) (ground arith)
        | inr e ↦ rw e (ground arith)
      ])

  -- Word `i` of block `b` is `n`, which has been cleared.
  abbrev stored_words : ℕ → ℕ → ℕ → ℕ → ℕ
  stored_words b i a j = if a == b && j == i then n else if a == n then 0 else w a j

  pub Stored-ind : (i : ℕ) → z 7 ≢ 0 → Stored z w z (stored_words (z 7) i) (ind i) n
  unfolding value Stored key
  Stored-ind i some_block (zone j) = inr refl
  Stored-ind i some_block (ind j) =
      let other : z 7 ≢ n = new (zone 7) in
      elim (Bool-cases (j == i)) [
        | inl e ↦ let at : j ≡ i = ground arith in inl (ap ind at, ground arith)
        | inr e ↦ inr (ground arith)
      ]
  Stored-ind i some_block (dind j) =
      let other : z 8 ≢ n = new (zone 8) in
      let other' : z 7 ≢ z 8 = apart (zone 7) (zone 8) some_block (omega arith) in
      inr (ground arith)
  Stored-ind i some_block (leaf j k) =
      let other : z 8 ≢ n = new (zone 8) in
      let other' : z 7 ≢ z 8 = apart (zone 7) (zone 8) some_block (omega arith) in
      let m : (if z 8 == 0 then 0 else w (z 8) j) ≢ n = new (dind j) in
      let m' : z 7 ≢ (if z 8 == 0 then 0 else w (z 8) j) =
        apart (zone 7) (dind j) some_block (omega arith) in
      inr (ground arith)

  pub Stored-dind :
      (i : ℕ) → z 8 ≢ 0 → w (z 8) i ≡ 0 → Stored z w z (stored_words (z 8) i) (dind i) n
  unfolding value Stored key
  Stored-dind i some_block free (zone j) = inr refl
  Stored-dind i some_block free (ind j) =
      let other : z 7 ≢ n = new (zone 7) in
      let other' : z 8 ≢ z 7 = apart (zone 8) (zone 7) some_block (omega arith) in
      inr (ground arith)
  Stored-dind i some_block free (dind j) =
      let other : z 8 ≢ n = new (zone 8) in
      elim (Bool-cases (j == i)) [
        | inl e ↦ let at : j ≡ i = ground arith in inl (ap dind at, ground arith)
        | inr e ↦ inr (ground arith)
      ]
  Stored-dind i some_block free (leaf j k) =
      let other : z 8 ≢ n = new (zone 8) in
      let m : (if z 8 == 0 then 0 else w (z 8) j) ≢ n = new (dind j) in
      let m' : z 8 ≢ (if z 8 == 0 then 0 else w (z 8) j) =
        apart (zone 8) (dind j) some_block (omega arith) in
      inr (elim (Bool-cases (j == i)) [
        | inl e ↦ let at : j ≡ i = ground arith in rw at (ground arith)
        | inr e ↦ ground arith
      ])

  -- A leaf's block leaves the double indirect block as it is.
  pub dind-stored_words :
      (i j k : ℕ)
      → value z w (dind i) ≢ 0
      → value z (stored_words (value z w (dind i)) j) (dind k) ≡ value z w (dind k)
  unfolding value key
  dind-stored_words i j k some_block =
      let other : z 8 ≢ n = new (zone 8) in
      let other' : (if z 8 == 0 then 0 else w (z 8) i) ≢ z 8 =
        apart (dind i) (zone 8) some_block (omega arith) in
      ground arith

  Stored-leaf-zones :
      (i j k : ℕ)
      → value z w (dind i) ≢ 0
      → value z (stored_words (value z w (dind i)) j) (ind k) ≡ value z w (ind k)
  unfolding value key
  Stored-leaf-zones i j k some_block =
      let other : z 7 ≢ n = new (zone 7) in
      let other' : (if z 8 == 0 then 0 else w (z 8) i) ≢ z 7 =
        apart (dind i) (zone 7) some_block (omega arith) in
      ground arith

  pub Stored-leaf :
      (i j : ℕ)
      → value z w (dind i) ≢ 0
      → Stored z w z (stored_words (value z w (dind i)) j) (leaf i j) n
  unfolding Stored key
  Stored-leaf i j some_block (zone k) = inr (unfold value in refl)
  Stored-leaf i j some_block (ind k) = inr (Stored-leaf-zones i j k some_block)
  Stored-leaf i j some_block (dind k) = inr (dind-stored_words i j k some_block)
  Stored-leaf i j some_block (leaf k l) =
      let m = value z w (dind i) in
      let w' = stored_words m j in
      let other : value z w (dind k) ≢ n = new (dind k) in
      let moved : value z w' (leaf k l)
          ≡ (if value z w (dind k) == 0 then 0 else w' (value z w (dind k)) l) =
        leaf-value z w' k l
        ∙ ap (λ a. if a == 0 then 0 else w' a l) (dind-stored_words i j k some_block) in
      elim (Bool-cases (value z w (dind k) == m && l == j)) [
        | inl e ↦
            let same : value z w (dind k) ≡ m = ground arith in
            let p : k ≡ i =
              omega (arith, ap key (t.alone (dind i) (dind k) some_block (sym same))) in
            let q : l ≡ j = ground arith in inl (ap₂ leaf p q, moved ∙ ground arith)
        | inr e ↦ inr (moved ∙ rw e (ground arith) ∙ sym (leaf-value z w k l))
      ]
