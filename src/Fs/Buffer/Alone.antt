-- ===== src/Fs/Buffer/Alone.antt =====
-- fs/buffer.c: the cache holds every block once, and its queues find it.
use linux_rpg.Prelude.{
  ℕ, ◌≡◌, ◌≢◌, refl, sym, ◌∙◌, List, [], ◌∷◌, Option, none, some, Bool, true, false, not, ◌||◌,
  arith, inl, inr, ◌==◌, if◌then◌else◌, Bool-cases,
}
use linux_rpg.Fs.Buffer.{
  Head, Cache, holds, add_count, without, find_in, badness, is_better, pick, hashfn, find_buffer,
}

unfoldable pub has : ℕ → List ℕ → Bool
has b [] = false
has b (x ∷ xs) = let rest = has b xs in if x == b then true else rest

-- A buffer with a block is in its block's queue, and no two have the same block.
pub record IsCache (c : Cache) : Type 0 where
  pub queued :
      (b : ℕ)
      → (c.head b).b_dev ≢ 0
      → has b (c.hash_table (hashfn (c.head b).b_dev (c.head b).b_blocknr)) ≡ true
  pub alone :
      (a b : ℕ)
      → (c.head a).b_dev ≢ 0
      → (c.head a).b_dev ≡ (c.head b).b_dev
      → (c.head a).b_blocknr ≡ (c.head b).b_blocknr
      → a ≡ b

-- Only the devices and the blocks count.
IsCache-ext :
    (c : Cache) (f : ℕ → Head)
    → ((j : ℕ) → (f j).b_dev ≡ (c.head j).b_dev)
    → ((j : ℕ) → (f j).b_blocknr ≡ (c.head j).b_blocknr)
    → IsCache c
    → IsCache (record c { head = f })
IsCache-ext c f dev blocknr v = record {
  queued = λ j some_dev. rw (dev j, blocknr j) (v.queued j (rw (dev j) at some_dev));
  alone = λ i j some_dev e e'.
      v.alone i j (rw (dev i) at some_dev) (sym (dev i) ∙ e ∙ dev j)
        (sym (blocknr i) ∙ e' ∙ blocknr j);
}

pub add_count-IsCache : (n b : ℕ) (c : Cache) → IsCache c → IsCache (add_count n b c)
add_count-IsCache n b c =
    IsCache-ext c (add_count n b c).head (λ j. ground arith) (λ j. ground arith)

find_in-holds :
    (head : ℕ → Head) (dev block b : ℕ) (l : List ℕ)
    → find_in head dev block l ≡ some b
    → holds (head b) dev block ≡ true
unfolding find_in
find_in-holds head dev block b [] e = absurd (ground (arith, e))
find_in-holds head dev block b (x ∷ xs) e = elim (Bool-cases (holds (head x) dev block)) [
  | inl h ↦ let same : x ≡ b = ground (arith, e, h) in rw (← same) h
  | inr h ↦ find_in-holds head dev block b xs (rw h at e)
]

pub find_buffer-holds :
    (dev block b : ℕ) (c : Cache)
    → find_buffer dev block c ≡ some b
    → holds (c.head b) dev block ≡ true
unfolding find_buffer
find_buffer-holds dev block b c e = find_in-holds c.head dev block b _ e

pub find_in-none :
    (head : ℕ → Head) (dev block b : ℕ) (l : List ℕ)
    → find_in head dev block l ≡ none
    → has b l ≡ true
    → holds (head b) dev block ≡ false
unfolding find_in has
find_in-none head dev block b [] e h = absurd (ground (arith, h))
find_in-none head dev block b (x ∷ xs) e h = elim (Bool-cases (holds (head x) dev block)) [
  | inl k ↦ absurd (ground (arith, e, k))
  | inr k ↦ elim (Bool-cases (x == b)) [
    | inl same ↦ let at : x ≡ b = ground arith in rw (← at) k
    | inr other ↦ find_in-none head dev block b xs (rw k at e) (rw other at h)
  ]
]

pub pick-unused :
    (head : ℕ → Head) (bh : Option ℕ) (ts : List ℕ) (b : ℕ)
    → ((t : ℕ) → bh ≡ some t → (head t).b_count ≡ 0)
    → pick head bh ts ≡ some b
    → (head b).b_count ≡ 0
unfolding pick
pick-unused head bh [] b h e = h b e
pick-unused head bh (t ∷ ts) b h e =
    elim (Bool-cases (not ((head t).b_count == 0) || not (is_better head bh t))) [
      | inl skip ↦ pick-unused head bh ts b h (rw skip at e)
      | inr chosen ↦
          let unused : (head t).b_count ≡ 0 = ground arith in
          elim (Bool-cases (badness (head t) == 0)) [
            | inl best ↦ let same : t ≡ b = ground (arith, e) in rw (← same) unused
            | inr good ↦
                pick-unused head (some t) ts b
                  (λ u q. let same : t ≡ u = ground (arith, q) in rw (← same) unused)
                  (rw (chosen, good) at e)
          ]
    ]

pub has-without : (b j : ℕ) (l : List ℕ) → j ≢ b → has j l ≡ true → has j (without b l) ≡ true
unfolding has without
has-without b j [] ne h = h
has-without b j (x ∷ xs) ne h =
    let rest = has-without b j xs ne in
    elim (Bool-cases (x == b)) [
      | inl same ↦ rw same (rest (ground (arith, h)))
      | inr other ↦ rw other (elim (Bool-cases (x == j)) [
        | inl here ↦ rw here refl
        | inr there ↦ rw there (rest (rw there at h))
      ])
    ]
