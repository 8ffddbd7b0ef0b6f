-- ===== src/Fs/Bmap/Grow.antt =====
-- fs/inode.c: one block more in a file's tree.
use linux_rpg.Prelude.{
  ℕ, none, some, ◌+◌, ◌-◌, ◌*◌, ◌^◌, ◌≤◌, ◌<◌, ◌≡◌, ◌≢◌, ◌⊎◌, refl, sym, ap, ◌∙◌, Bool, true, false,
  arith, inl, inr, ◌==◌, if◌then◌else◌,
}
use linux_rpg.Fs.Bitmap.{Device, Disk, new_block}
use linux_rpg.Fs.Bitmap.New.{all_used, allocated, panics, lost, new_block-Allocated}
use linux_rpg.Fs.Bmap.Tree.{Place, value, bit_of, IsTree, Stored}

-- Every block of the device that the maps have is in use.
pub NoSpace : Device → (ℕ → Bool) → Type 0
NoSpace v used =
    (m k : ℕ)
    → m < 8
    → k < 8192
    → v.zmap m ≡ true
    → m * 8192 + k + v.firstdatazone - 1 < v.nzones
    → used (m * 8192 + k) ≡ true

-- The device: data zones begin behind the boot block, a block number fits in a word, blocks can be
-- read, and nobody else holds a buffer of a block that is free.
pub record IsDevice (v : Device) : Type 0 where
  pub first : 1 ≤ v.firstdatazone
  pub small : v.nzones ≤ 2 ^ 16
  pub readable : (b : ℕ) → v.readable b ≡ true
  pub idle : (b : ℕ) → v.busy b ≡ false

-- What new_block means to the trees: nothing, for want of space, or a cleared block that was free.
pub data Fresh (v : Device) (d : Disk) : ℕ → Disk → Type 0 where
  nothing :
      (used' : ℕ → Bool)
      → ((k : ℕ) → d.used k ≡ true → used' k ≡ true)
      → NoSpace v used'
      → Fresh v d 0 (record d { used = used' })
  one :
      (n : ℕ) (used' : ℕ → Bool)
      → n ≢ 0
      → n < 2 ^ 16
      → d.used (bit_of v n) ≡ false
      → used' (bit_of v n) ≡ true
      → ((k : ℕ) → d.used k ≡ true → used' k ≡ true)
      → Fresh v d n (record { used = used'; word = λ a i. if a == n then 0 else d.word a i })

-- The result of new_block without its panic.
unfoldable pub given : Device → Disk → ℕ × Disk
given v d = elim (new_block v d) [ none ↦ (0, d) | some r ↦ r ]

-- new_block does not panic, and what it gives.
new_block-Fresh_run :
    (v : Device) (d : Disk)
    → IsDevice v
    → d.used 0 ≡ true
    → (n : ℕ) × (d' : Disk) × (new_block v d ≡ some (n, d')) × Fresh v d n d'
unfolding NoSpace
new_block-Fresh_run v d dev reserved = elim (new_block-Allocated v d) [
  | all_used full e ↦
      (0, d, e, nothing d.used (λ k z. z) (λ m k h h' map lt. full m k (omega arith) h h' map))
  | lost bit out at_first e ↦ (
    0,
    _,
    e,
    nothing (λ j. if j == bit then true else d.used j) (more bit)
        (λ m k h h' map lt. more bit (m * 8192 + k) (at_first.lowest m k h' (omega arith) map)),
  )
  | panics block bit is in_range at_first held e ↦ absurd (ground (arith, dev.idle block, held))
  | allocated block bit is in_range at_first idle e ↦
      let small = dev.small in
      let first = dev.first in
      let free = at_first.free in
      let some_bit : bit ≢ 0 = λ z. absurd (ground (arith, reserved, rw z at free)) in
      let back : block - (v.firstdatazone - 1) ≡ bit = omega (arith, is) in
      let self : (bit == bit) ≡ true = ground arith in
      (
        block,
        _,
        e,
        one block (λ j. if j == bit then true else d.used j)
            (λ z. absurd (omega (arith, is, some_bit, z))) (omega arith) (rw back free)
            (rw (back, self) refl) (more bit),
      )
]
  where
    more : (bit k : ℕ) → d.used k ≡ true → (if k == bit then true else d.used k) ≡ true
    more bit k e = ground arith

given_of : (v : Device) (d : Disk) (r : ℕ × Disk) → new_block v d ≡ some r → given v d ≡ r
unfolding given
given_of v d r e = rw (given, e) refl

pub new_block-given : (v : Device) (d : Disk) → IsDevice v → new_block v d ≡ some (given v d)
new_block-given v d dev =
    let ran : (r : ℕ × Disk) → new_block v d ≡ some r → new_block v d ≡ some (given v d) =
      λ r e. e ∙ ap some (sym (given_of v d r e)) in
    elim (new_block-Allocated v d) [
      | all_used full e ↦ ran _ e
      | lost bit out at_first e ↦ ran _ e
      | panics block bit is in_range at_first held e ↦ absurd (ground (arith, dev.idle block, held))
      | allocated block bit is in_range at_first idle e ↦ ran _ e
    ]

pub new_block-Fresh :
    (v : Device) (d : Disk) → IsDevice v → d.used 0 ≡ true → Fresh v d (given v d).0 (given v d).1
new_block-Fresh v d dev reserved =
    let (n, d', ran, fresh) = new_block-Fresh_run v d dev reserved in
    rw (given_of v d (n, d') ran) fresh

-- A tree with at most one block more, at `p`: the other places are as they were, and so is `p` if
-- there was a block.
pub record Grown (v : Device) (p : Place) (z : ℕ → ℕ) (d : Disk) (z' : ℕ → ℕ) (d' : Disk)
    : Type 0 where
  pub tree : IsTree v z' d'.word d'.used
  pub reserved : d'.used 0 ≡ true
  pub others : (q : Place) → q ≢ p → value z' d'.word q ≡ value z d.word q
  pub kept : value z d.word p ≢ 0 → value z' d'.word p ≡ value z d.word p
  pub space : value z' d'.word p ≡ 0 → NoSpace v d'.used
  pub more : (k : ℕ) → d.used k ≡ true → d'.used k ≡ true

module _ (v : Device) (p : Place) (z : ℕ → ℕ) (d : Disk) (t : IsTree v z d.word d.used)
    (res : d.used 0 ≡ true) where
  pub Grown-same : value z d.word p ≢ 0 → Grown v p z d z d
  Grown-same there = record {
    tree = t;
    reserved = res;
    others = λ q ne. refl;
    kept = λ e. refl;
    space = λ e. absurd (there e);
    more = λ k e. e;
  }

  pub Grown-nothing :
      (used' : ℕ → Bool)
      → ((k : ℕ) → d.used k ≡ true → used' k ≡ true)
      → NoSpace v used'
      → Grown v p z d z (record d { used = used' })
  Grown-nothing used' more none_left = record {
    tree = record { alone = t.alone; marked = λ q e. more _ (t.marked q e) };
    reserved = more 0 res;
    others = λ q ne. refl;
    kept = λ e. refl;
    space = λ e. none_left;
    more = more;
  }

  pub Grown-Stored :
      (n : ℕ) (used' : ℕ → Bool) (z' : ℕ → ℕ) (w' : ℕ → ℕ → ℕ)
      → value z d.word p ≡ 0
      → n ≢ 0
      → d.used (bit_of v n) ≡ false
      → used' (bit_of v n) ≡ true
      → ((k : ℕ) → d.used k ≡ true → used' k ≡ true)
      → Stored z d.word z' w' p n
      → value z' w' p ≡ n
      → Grown v p z d z' (record { used = used'; word = w' })
  unfolding Stored
  Grown-Stored n used' z' w' free some_block fresh marked more st here = record {
    tree = record { alone = alone; marked = λ q. marked_at q (st q) };
    reserved = more 0 res;
    others = λ q ne. other q ne (st q);
    kept = λ e. absurd (e free);
    space = λ e. absurd (some_block (sym here ∙ e));
    more = more;
  }
    where
      new : (q : Place) → value z d.word q ≢ n
      new q e = absurd (ground (arith, fresh, rw e at (t.marked q (λ e'. some_block (sym e ∙ e')))))

      marked_at :
          (q : Place)
          → ((q ≡ p) × (value z' w' q ≡ n)) ⊎ (value z' w' q ≡ value z d.word q)
          → value z' w' q ≢ 0
          → used' (bit_of v (value z' w' q)) ≡ true
      marked_at q (inl (_, e)) there = rw e marked
      marked_at q (inr e) there = rw e (more _ (t.marked q (rw e at there)))

      other :
          (q : Place)
          → q ≢ p
          → ((q ≡ p) × (value z' w' q ≡ n)) ⊎ (value z' w' q ≡ value z d.word q)
          → value z' w' q ≡ value z d.word q
      other q ne (inl (e, _)) = absurd (ne e)
      other q ne (inr e) = e

      alone : (q r : Place) → value z' w' q ≢ 0 → value z' w' q ≡ value z' w' r → q ≡ r
      alone q r there same = alone_at q r (st q) (st r) there same
        where
          alone_at :
              (q r : Place)
              → ((q ≡ p) × (value z' w' q ≡ n)) ⊎ (value z' w' q ≡ value z d.word q)
              → ((r ≡ p) × (value z' w' r ≡ n)) ⊎ (value z' w' r ≡ value z d.word r)
              → value z' w' q ≢ 0
              → value z' w' q ≡ value z' w' r
              → q ≡ r
          alone_at q r (inl (e, _)) (inl (e', _)) there same = e ∙ sym e'
          alone_at q r (inl (_, e)) (inr e') there same = absurd (new r (sym e' ∙ sym same ∙ e))
          alone_at q r (inr e) (inl (_, e')) there same = absurd (new q (sym e ∙ same ∙ e'))
          alone_at q r (inr e) (inr e') there same = t.alone q r (rw e at there) (sym e ∙ same ∙ e')
