-- ===== src/Fs/Buffer/Take.antt =====
-- fs/buffer.c: the end of getblk, where a buffer is taken for a block.
use linux_rpg.Prelude.{
  ℕ, ◌≡◌, ◌≢◌, refl, sym, ap, ◌∙◌, none, true, false, arith, inl, inr, ◌==◌, Bool-cases,
}
use linux_rpg.Fs.Buffer.{
  Head, Cache, with_head, holds, hashfn, find_buffer, remove_from_queues, insert_into_queues,
  take_buffer,
}
use linux_rpg.Fs.Buffer.Alone.{has, IsCache, find_in-none, has-without}

remove_from_queues-has :
    (b j i : ℕ) (c : Cache)
    → j ≢ b
    → has j (c.hash_table i) ≡ true
    → has j ((remove_from_queues b c).hash_table i) ≡ true
unfolding remove_from_queues
remove_from_queues-has b j i c ne h =
    elim (Bool-cases (i == hashfn (c.head b).b_dev (c.head b).b_blocknr)) [
      | inl e ↦ rw e (has-without b j (c.hash_table i) ne h)
      | inr e ↦ rw e h
    ]

module _ (b : ℕ) (c : Cache) where
  insert_into_queues-head : (insert_into_queues b c).head ≡ c.head
  unfolding insert_into_queues
  insert_into_queues-head = elim (Bool-cases ((c.head b).b_dev == 0)) [
    | inl e ↦ rw e refl
    | inr e ↦ rw e refl
  ]

  insert_into_queues-has :
      (j i : ℕ)
      → has j (c.hash_table i) ≡ true
      → has j ((insert_into_queues b c).hash_table i) ≡ true
  unfolding insert_into_queues has
  insert_into_queues-has j i h = elim (Bool-cases ((c.head b).b_dev == 0)) [
    | inl e ↦ rw e h
    | inr e ↦ rw e (elim (Bool-cases (i == hashfn (c.head b).b_dev (c.head b).b_blocknr)) [
      | inl at ↦ rw at (elim (Bool-cases (b == j)) [ inl q ↦ rw q refl | inr q ↦ rw q h ])
      | inr at ↦ rw at h
    ])
  ]

  insert_into_queues_self :
      (c.head b).b_dev ≢ 0
      → has b ((insert_into_queues b c).hash_table (hashfn (c.head b).b_dev (c.head b).b_blocknr))
        ≡ true
  unfolding insert_into_queues has
  insert_into_queues_self some_dev =
      let e : ((c.head b).b_dev == 0) ≡ false = ground arith in
      let at : (hashfn (c.head b).b_dev (c.head b).b_blocknr
            == hashfn (c.head b).b_dev (c.head b).b_blocknr)
          ≡ true =
        ground arith in
      let self : (b == b) ≡ true = ground arith in rw (e, at, self) refl

  insert_into_queues-find :
      (dev block : ℕ)
      → (c.head b).b_dev ≡ dev
      → (c.head b).b_blocknr ≡ block
      → dev ≢ 0
      → has b ((insert_into_queues b c).hash_table (hashfn dev block)) ≡ true
  insert_into_queues-find dev block p q some_dev =
      rw (← p, ← q) (insert_into_queues_self (rw p some_dev))

-- What take_buffer does to the heads and the queues.
record Taken (dev block b : ℕ) (c d : Cache) : Type 0 where
  others : (j : ℕ) → j ≢ b → d.head j ≡ c.head j
  own_dev : (d.head b).b_dev ≡ dev
  own_block : (d.head b).b_blocknr ≡ block
  kept : (j i : ℕ) → j ≢ b → has j (c.hash_table i) ≡ true → has j (d.hash_table i) ≡ true
  found : dev ≢ 0 → has b (d.hash_table (hashfn dev block)) ≡ true

take_buffer-Taken : (dev block b : ℕ) (c : Cache) → Taken dev block b c (take_buffer dev block b c)
unfolding take_buffer remove_from_queues
take_buffer-Taken dev block b c =
    let h = record (c.head b) { b_count = 1; b_dirt = false; b_uptodate = false } in
    let h' = record h { b_dev = dev; b_blocknr = block } in
    let r = with_head b h c in
    let k = with_head b h' (remove_from_queues b r) in
    let self : (b == b) ≡ true = ground arith in
    let own : k.head b ≡ h' = rw self refl in
    let heads : (take_buffer dev block b c).head ≡ k.head = insert_into_queues-head b k in
    record {
      others = λ j ne.
          let other : (j == b) ≡ false = ground arith in ap (λ f. f j) heads ∙ rw other refl;
      own_dev = ap (λ f. (f b).b_dev) heads ∙ ap Head.b_dev own;
      own_block = ap (λ f. (f b).b_blocknr) heads ∙ ap Head.b_blocknr own;
      kept = λ j i ne q. insert_into_queues-has b k j i (remove_from_queues-has b j i r ne q);
      found = λ some_dev.
          insert_into_queues-find b k dev block (ap Head.b_dev own) (ap Head.b_blocknr own)
            some_dev;
    }

-- No other buffer has the block.
Taken-alone :
    {dev block b : ℕ} {c d : Cache} (t : Taken dev block b c d) (v : IsCache c)
    (e : find_buffer dev block c ≡ none) (j : ℕ)
    → j ≢ b
    → (d.head j).b_dev ≢ 0
    → (d.head j).b_dev ≡ (d.head b).b_dev
    → (d.head j).b_blocknr ≢ (d.head b).b_blocknr
unfolding find_buffer
Taken-alone {dev} {block} {c = c} t v e j ne some_dev same_dev same_block =
    let o = t.others j ne in
    let p : (c.head j).b_dev ≡ dev = ap Head.b_dev (sym o) ∙ same_dev ∙ t.own_dev in
    let q : (c.head j).b_blocknr ≡ block = ap Head.b_blocknr (sym o) ∙ same_block ∙ t.own_block in
    let there : has j (c.hash_table (hashfn dev block)) ≡ true =
      rw (p, q) at (v.queued j (rw o at some_dev)) in
    let no = find_in-none c.head dev block j _ e there in ground (arith, no, p, q)

Taken-IsCache :
    {dev block b : ℕ} {c d : Cache}
    → Taken dev block b c d
    → IsCache c
    → find_buffer dev block c ≡ none
    → IsCache d
Taken-IsCache {b = b} {c = c} {d = d} t v e = record { queued = queued; alone = alone }
  where
    kept_dev : (j : ℕ) → j ≢ b → (d.head j).b_dev ≢ 0 → (c.head j).b_dev ≢ 0
    kept_dev j ne some_dev = rw (t.others j ne) at some_dev

    queued :
        (j : ℕ)
        → (d.head j).b_dev ≢ 0
        → has j (d.hash_table (hashfn (d.head j).b_dev (d.head j).b_blocknr)) ≡ true
    queued j some_dev = elim (Bool-cases (j == b)) [
      | inl same ↦
          let at : j ≡ b = ground arith in
          rw (at, t.own_dev, t.own_block) (t.found (rw (at, t.own_dev) at some_dev))
      | inr other ↦
          let ne : j ≢ b = ground arith in
          rw (t.others j ne) (t.kept j _ ne (v.queued j (kept_dev j ne some_dev)))
    ]

    alone :
        (i j : ℕ)
        → (d.head i).b_dev ≢ 0
        → (d.head i).b_dev ≡ (d.head j).b_dev
        → (d.head i).b_blocknr ≡ (d.head j).b_blocknr
        → i ≡ j
    alone i j some_dev dev block = elim (Bool-cases (i == b)) [
      | inl at ↦ elim (Bool-cases (j == b)) [
        | inl at' ↦ ground arith
        | inr other ↦
            let i_is : i ≡ b = ground arith in
            let ne : j ≢ b = ground arith in
            absurd (
              Taken-alone t v e j ne (λ z. some_dev (dev ∙ z))
                (sym dev ∙ ap (λ k. (d.head k).b_dev) i_is)
                (sym block ∙ ap (λ k. (d.head k).b_blocknr) i_is))
      ]
      | inr at ↦
          let ne : i ≢ b = ground arith in
          elim (Bool-cases (j == b)) [
            | inl at' ↦
                let j_is : j ≡ b = ground arith in
                absurd (
                  Taken-alone t v e i ne some_dev (dev ∙ ap (λ k. (d.head k).b_dev) j_is)
                    (block ∙ ap (λ k. (d.head k).b_blocknr) j_is))
            | inr other ↦
                let ne' : j ≢ b = ground arith in
                let o = t.others i ne in
                let o' = t.others j ne' in
                v.alone i j (kept_dev i ne some_dev)
                  (ap Head.b_dev (sym o) ∙ dev ∙ ap Head.b_dev o')
                  (ap Head.b_blocknr (sym o) ∙ block ∙ ap Head.b_blocknr o')
          ]
    ]

-- The buffer that is taken has the block, and no other has it.
pub take_buffer-IsCache :
    (dev block b : ℕ) (c : Cache)
    → IsCache c
    → find_buffer dev block c ≡ none
    → IsCache (take_buffer dev block b c)
      × (holds ((take_buffer dev block b c).head b) dev block ≡ true)
take_buffer-IsCache dev block b c v e =
    let t = take_buffer-Taken dev block b c in
    let p = t.own_dev in let q = t.own_block in (Taken-IsCache t v e, ground (arith, p, q))
