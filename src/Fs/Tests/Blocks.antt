-- ===== src/Fs/Tests/Blocks.antt =====
-- fs/bitmap.c and fs/inode.c at concrete inputs.
use linux_rpg.Prelude.{ℕ, ◌≡◌, refl, some, true, false, arith, ◌==◌}
use linux_rpg.Fs.Bitmap.{
  Device, Disk, set_used, clear_block, new_block, free_block, find_bit, find_first_zero, zero_from,
  low_zero,
}
use linux_rpg.Fs.Bitmap.New.{Allocated, new_block-Allocated, free_block-new_block}
use linux_rpg.Fs.Bmap.{Inode}

-- Ten blocks, from block 3 on for data, with one map.
abbrev device : Device
device = record {
  firstdatazone = 3;
  nzones = 10;
  zmap = λ i. i == 0;
  readable = λ b. true;
  busy = λ b. false;
}

-- Only the reserved bit is set.
abbrev fresh_disk : Disk
fresh_disk = record { used = λ k. k == 0; word = λ a i. 0 }

abbrev fresh_file : Inode
fresh_file = record { i_zone = λ k. 0; i_dirt = false; i_ctime = 0 }

-- What the first call leaves: block 3, whose bit is bit 1.
abbrev after_first : Disk
after_first = clear_block 3 (set_used 1 true fresh_disk)

new_block_first : new_block device fresh_disk ≡ some (3, after_first)
unfolding new_block find_bit find_first_zero zero_from low_zero
new_block_first = refl

new_block-Allocated_example : Allocated device fresh_disk (new_block device fresh_disk)
new_block-Allocated_example = new_block-Allocated device fresh_disk

free_block-new_block_example :
    (e : Disk) × (free_block device 3 after_first ≡ some e)
    × ((k : ℕ) → e.used k ≡ fresh_disk.used k)
free_block-new_block_example =
    free_block-new_block device fresh_disk 3 after_first (omega arith) refl new_block_first
      (omega arith)
