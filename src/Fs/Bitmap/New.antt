-- ===== src/Fs/Bitmap/New.antt =====
-- fs/bitmap.c: new_block and free_block.
use mathlib.Core.Option.{some-injective, some-ne-none}
use linux_rpg.Prelude.{
  ℕ, ◌+◌, ◌-◌, ◌*◌, ◌≤◌, ◌<◌, ◌≡◌, ◌≢◌, refl, sym, ap, ◌∙◌, Option, none, some, true, false, arith,
  inl, inr, ltb, leb, ◌==◌, Bool-cases,
}
use linux_rpg.Fs.Bitmap.{Device, Disk, set_used, clear_block, new_block, free_block}
use linux_rpg.Fs.Bitmap.First.{Full, find_bit-first}

-- The bits of the maps before one are all set, and it is not.
pub record First (v : Device) (d : Disk) (bit : ℕ) : Type 0 where
  pub free : d.used bit ≡ false
  pub lowest :
      (m k : ℕ) → k < 8192 → m * 8192 + k < bit → v.zmap m ≡ true → d.used (m * 8192 + k) ≡ true

-- The ways in which new_block ends: there is no free bit; the first free bit has become a block's,
-- and the block is cleared; it stands for a block whose buffer somebody else holds, which is a panic;
-- or it is behind the zones of the device, and stays set.
pub data Allocated (v : Device) (d : Disk) (r : Option (ℕ × Disk)) : Type 0 where
  all_used : Full 0 8 v.zmap d.used → r ≡ some (0, d) → Allocated v d r
  allocated :
      (block bit : ℕ)
      → block ≡ bit + v.firstdatazone - 1
      → block < v.nzones
      → First v d bit
      → v.busy block ≡ false
      → r ≡ some (block, clear_block block (set_used bit true d))
      → Allocated v d r
  panics :
      (block bit : ℕ)
      → block ≡ bit + v.firstdatazone - 1
      → block < v.nzones
      → First v d bit
      → v.busy block ≡ true
      → r ≡ none
      → Allocated v d r
  lost :
      (bit : ℕ)
      → v.nzones ≤ bit + v.firstdatazone - 1
      → First v d bit
      → r ≡ some (0, set_used bit true d)
      → Allocated v d r

-- Every way in which new_block ends. The block that it gives is cleared, its bit was free and is set
-- now, and there was no free bit before it in the maps. It panics when somebody holds a buffer of
-- that block. It fails when the maps are full, or when the first free bit stands for a block behind
-- the device's last, and that bit is set all the same.
pub new_block-Allocated : (v : Device) (d : Disk) → Allocated v d (new_block v d)
unfolding new_block
new_block-Allocated v d = elim (find_bit-first 8 0 v.zmap d.used) [
  | inr (e, full) ↦ rw (e, new_block) (all_used full refl)
  | inl (i, j, e, lt, map, h, free, first, full) ↦
      let q = i * 8192 + j in
      let block = j + i * 8192 + v.firstdatazone - 1 in
      let at_first : First v d q = record { free = free; lowest = lower i j h first full } in
      elim (Bool-cases (leb v.nzones block)) [
        | inl out ↦ rw (e, new_block, out) (lost q (ground arith) at_first refl)
        | inr in_range ↦ elim (Bool-cases (v.busy block)) [
          | inl held ↦
              rw (e, new_block, in_range, held)
                (panics block q (omega arith) (ground arith) at_first held refl)
          | inr idle ↦
              rw (e, new_block, in_range, idle)
                (allocated block q (omega arith) (ground arith) at_first idle refl)
        ]
      ]
]
  where
    lower :
        (i j : ℕ)
        → j < 8192
        → ((k : ℕ) → k < j → d.used (i * 8192 + k) ≡ true)
        → Full 0 i v.zmap d.used
        → (m k : ℕ) → k < 8192
        → m * 8192 + k < i * 8192 + j
        → v.zmap m ≡ true
        → d.used (m * 8192 + k) ≡ true
    lower i j small first full m k h lt map = elim (Bool-cases (m == i)) [
      | inl e ↦ let at : m ≡ i = ground arith in rw at (first k (omega arith))
      | inr e ↦ let ne : m ≢ i = ground arith in full m k (omega arith) (omega (arith, ne)) h map
    ]

-- With bit 0 reserved, as mounting leaves it: a block from new_block can be given back to free_block,
-- which does not panic, and the bitmap is then as it was.
pub free_block-new_block :
    (v : Device) (d : Disk) (b : ℕ) (d' : Disk)
    → 1 ≤ v.firstdatazone
    → d.used 0 ≡ true
    → new_block v d ≡ some (b, d')
    → b ≢ 0
    → (e : Disk) × (free_block v b d' ≡ some e) × ((k : ℕ) → e.used k ≡ d.used k)
unfolding free_block
free_block-new_block v d b d' first reserved ran ne = elim (new_block-Allocated v d) [
  | all_used full e ↦ absurd (ne (ap (λ q. q.0) (some-injective _ _ (sym ran ∙ e))))
  | lost bit out at_first e ↦ absurd (ne (ap (λ q. q.0) (some-injective _ _ (sym ran ∙ e))))
  | panics block bit is in_range at_first held e ↦ absurd (some-ne-none _ (sym ran ∙ e))
  | allocated block bit is in_range at_first idle e ↦
      let free = at_first.free in
      let same = some-injective _ _ (sym ran ∙ e) in
      let some_bit : bit ≢ 0 = λ z. absurd (ground (arith, reserved, rw z at free)) in
      let low : ltb block v.firstdatazone ≡ false = ground arith in
      let high : leb v.nzones block ≡ false = ground arith in
      let back : block - (v.firstdatazone - 1) ≡ bit = omega (arith, is) in
      let self : (bit == bit) ≡ true = ground arith in
      let got : b ≡ block = ap (λ q. q.0) same in
      let left : d' ≡ clear_block block (set_used bit true d) = ap (λ q. q.1) same in
      (
        set_used bit false (clear_block block (set_used bit true d)),
        rw (got, left, low, high, idle, back, self) refl,
        λ k. elim (Bool-cases (k == bit)) [
          | inl z ↦ let at : k ≡ bit = ground arith in rw (at, self) (sym free)
          | inr z ↦ rw z refl
        ],
      )
]
