-- ===== src/Fs/Bmap.antt =====
-- fs/inode.c: `_bmap`, the blocks of a file by their place in it: seven direct zones, an indirect
-- block in zone 7 and a double indirect one in zone 8.
pub mod Tree
pub mod Grow
pub mod Idle
pub mod Alloc
pub mod Offset
pub mod Create
use linux_rpg.Prelude.{
  ℕ, ◌+◌, ◌-◌, ◌*◌, ◌/◌, ◌%◌, ◌^◌, Option, none, some, Bool, true, false, not, ◌&&◌, ◌||◌, ltb, leb,
  ◌==◌, if◌then◌else◌,
}
use linux_rpg.Fs.Bitmap.{Device, Disk, new_block}

-- The part of an inode that these routines use.
pub record Inode : Type 0 where
  pub i_zone : ℕ → ℕ
  pub i_dirt : Bool
  pub i_ctime : ℕ

abbrev pub set_word : ℕ → ℕ → ℕ → Disk → Disk
set_word b i n d = record d { word = λ a j. if a == b && j == i then n % 2 ^ 16 else d.word a j }

abbrev pub with_zone : ℕ → ℕ → Inode → ℕ → Disk → Inode × Disk
with_zone now k ino n d = if n == 0 then (ino, d) else (
  record {
    i_zone = λ j. if j == k then n % 2 ^ 16 else ino.i_zone j;
    i_dirt = true;
    i_ctime = now;
  },
  d,
)

-- A zone, which is allocated if it is missing and `create` is set. `none` is new_block's panic.
unfoldable pub zone_at : Device → ℕ → Bool → ℕ → Inode → Disk → Option (Inode × Disk)
zone_at v now create k ino d =
    let fresh : Option (Inode × Disk) = elim (new_block v d) [
      | none ↦ none
      | some (n, d') ↦ some (with_zone now k ino n d')
    ] in
    if create && ino.i_zone k == 0 then fresh else some (ino, d)

-- A word of an indirect block, which is allocated likewise.
unfoldable pub word_at : Device → Bool → ℕ → ℕ → Disk → Option (ℕ × Disk)
word_at v create b i d =
    let fresh : Option (ℕ × Disk) = elim (new_block v d) [
      | none ↦ none
      | some (n, d') ↦ some (if n == 0 then (0, d') else (n, set_word b i n d'))
    ] in
    if create && d.word b i == 0 then fresh else some (d.word b i, d)

-- The word of a block, if the block is there and can be read, with the inode.
unfoldable pub read_word : Device → Bool → ℕ → ℕ → Inode → Disk → Option (ℕ × Inode × Disk)
read_word v create b i ino d =
    let read : Option (ℕ × Inode × Disk) = elim (word_at v create b i d) [
      | none ↦ none
      | some (n, d') ↦ some (n, ino, d')
    ] in
    if b == 0 || not (v.readable b) then some (0, ino, d) else read

-- `none` is a panic. `create` is the source's third argument, and `now` is CURRENT_TIME.
unfoldable pub bmap_at : Device → ℕ → Bool → ℕ → Inode → Disk → Option (ℕ × Inode × Disk)
bmap_at v now create block ino d =
    let direct : Option (ℕ × Inode × Disk) = elim (zone_at v now create block ino d) [
      | none ↦ none
      | some (ino', d') ↦ some (ino'.i_zone block, ino', d')
    ] in
    let single : Option (ℕ × Inode × Disk) = elim (zone_at v now create 7 ino d) [
      | none ↦ none
      | some (ino', d') ↦ read_word v create (ino'.i_zone 7) (block - 7) ino' d'
    ] in
    let double : Option (ℕ × Inode × Disk) = elim (zone_at v now create 8 ino d) [
      | none ↦ none
      | some (ino', d') ↦ elim (read_word v create (ino'.i_zone 8) ((block - 519) / 512) ino' d') [
        | none ↦ none
        | some (i, ino2, d2) ↦ read_word v create i ((block - 519) % 512) ino2 d2
      ]
    ] in
    if leb (7 + 512 + 512 * 512) block
    then none
    else if ltb block 7
    then direct
    else if ltb (block - 7) 512
    then single
    else double

abbrev pub bmap : Device → ℕ → Inode → Disk → Option (ℕ × Inode × Disk)
bmap v block ino d = bmap_at v 0 false block ino d

abbrev pub create_block : Device → ℕ → ℕ → Inode → Disk → Option (ℕ × Inode × Disk)
create_block v now block ino d = bmap_at v now true block ino d
