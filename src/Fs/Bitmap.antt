-- ===== src/Fs/Bitmap.antt =====
-- fs/bitmap.c: the block bitmap of a device. A block is its 512 words of 16 bits, whether they are
-- in a buffer or on the disk; of the buffer cache the model keeps what the code asks: which blocks
-- can be read, and which buffers others hold (b_count is not 1 then).
pub mod First
pub mod New
use linux_rpg.Prelude.{
  ℕ, zero, suc, ◌+◌, ◌-◌, ◌*◌, Option, none, some, Bool, true, false, not, ◌&&◌, ◌||◌, ltb, leb,
  ◌==◌, if◌then◌else◌,
}

-- s_firstdatazone and s_nzones of the super block, the entries of s_zmap that are not NULL, and the
-- two facts about the buffers.
pub record Device : Type 0 where
  pub firstdatazone : ℕ
  pub nzones : ℕ
  pub zmap : ℕ → Bool
  pub readable : ℕ → Bool
  pub busy : ℕ → Bool

-- The bits of all the maps in one row, 8192 for each map, and the words of the blocks.
pub record Disk : Type 0 where
  pub used : ℕ → Bool
  pub word : ℕ → ℕ → ℕ

abbrev pub set_used : ℕ → Bool → Disk → Disk
set_used k v d = record d { used = λ j. if j == k then v else d.used j }

abbrev pub clear_block : ℕ → Disk → Disk
clear_block b d = record d { word = λ a i. if a == b then 0 else d.word a i }

-- bsfl of the complement: the first 0 among the `n` bits from `p` on.
unfoldable pub low_zero : ℕ → ℕ → (ℕ → Bool) → Option ℕ
low_zero zero p bits = none
low_zero (suc n) p bits =
    let further = low_zero n (p + 1) bits in if bits p then further else some p

-- The loop over the map's words, with `ecx` bits behind it.
unfoldable pub zero_from : ℕ → ℕ → (ℕ → Bool) → ℕ
zero_from zero ecx bits = ecx
zero_from (suc n) ecx bits = elim (low_zero 32 ecx bits) [
  | none ↦ zero_from n (ecx + 32) bits
  | some p ↦ p
]

unfoldable pub find_first_zero : (ℕ → Bool) → ℕ
find_first_zero bits = zero_from 256 0 bits

-- The loop over the maps from `i` on: the map and the bit at which it breaks.
unfoldable pub find_bit : ℕ → ℕ → (ℕ → Bool) → (ℕ → Bool) → Option (ℕ × ℕ)
find_bit zero i zmap used = none
find_bit (suc n) i zmap used =
    let further = find_bit n (i + 1) zmap used in
    let j = find_first_zero (λ k. used (i * 8192 + k)) in
    if zmap i && ltb j 8192 then some (i, j) else further

-- 0 if there is none.
unfoldable pub new_block : Device → Disk → Option (ℕ × Disk)
new_block v d = elim (find_bit 8 0 v.zmap d.used) [
  | none ↦ some (0, d)
  | some (i, j) ↦
      let d' = set_used (i * 8192 + j) true d in
      let block = j + i * 8192 + v.firstdatazone - 1 in
      if leb v.nzones block
      then some (0, d')
      else if v.busy block
      then none
      else some (block, clear_block block d')
]

-- `none` is a panic.
unfoldable pub free_block : Device → ℕ → Disk → Option Disk
free_block v block d =
    let bit = block - (v.firstdatazone - 1) in
    if ltb block v.firstdatazone || leb v.nzones block
    then none
    else if v.busy block
    then some d
    else if d.used bit
    then some (set_used bit false d)
    else none
