-- ===== src/Fs/Bmap/Create.antt =====
-- fs/inode.c: create_block on a file's tree.
use linux_rpg.Prelude.{ℕ, ◌<◌, ◌≡◌, ◌≢◌, Option, some, true}
use linux_rpg.Fs.Bitmap.{Device, Disk}
use linux_rpg.Fs.Bmap.{Inode}
use linux_rpg.Fs.Bmap.Tree.{Place, value, IsTree}
use linux_rpg.Fs.Bmap.Grow.{NoSpace}
use linux_rpg.Fs.Bmap.Offset.{place_of, offset, limit}

-- What create_block does at a place: the tree has it, or there is no space, and no other block of
-- the file has changed.
record Created (v : Device) (p : Place) (z : ℕ → ℕ) (d : Disk) (z' : ℕ → ℕ) (d' : Disk) (r : ℕ)
    : Type 0 where
  tree : IsTree v z' d'.word d'.used
  reserved : d'.used 0 ≡ true
  others : (q : Place) → offset q < limit → q ≢ p → value z' d'.word q ≡ value z d.word q
  kept : value z d.word p ≢ 0 → value z' d'.word p ≡ value z d.word p
  result : r ≡ value z' d'.word p
  space : r ≡ 0 → NoSpace v d'.used

-- A run of create_block that ends.
Creates : Device → ℕ → Inode → Disk → Option (ℕ × Inode × Disk) → Type 0
Creates v block ino d run =
    (r : ℕ) × (ino' : Inode) × (d' : Disk) × (run ≡ some (r, ino', d'))
    × Created v (place_of block) ino.i_zone d ino'.i_zone d' r
