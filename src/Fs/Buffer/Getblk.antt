-- ===== src/Fs/Buffer/Getblk.antt =====
-- fs/buffer.c: getblk among the sleeps of its caller.
use linux_rpg.Prelude.{ℕ, ◌≡◌, List, none, true, false}
use linux_rpg.Fs.Buffer.{Cache, Change, holds, find_buffer, take_buffer}
use linux_rpg.Fs.Buffer.Alone.{IsCache}

-- What getblk returns: a buffer that has the block and is not locked, in a cache that has every
-- block once. It had the block, or it was unused, not locked and clean and has been taken for it
-- when no buffer had the block.
pub data Got (dev block : ℕ) : List Change → Cache → ℕ → Type 0 where
  found :
      (es : List Change) (c : Cache) (b : ℕ)
      → IsCache c
      → holds (c.head b) dev block ≡ true
      → (c.head b).b_lock ≡ false
      → Got dev block es c b
  taken :
      (es : List Change) (d : Cache) (b : ℕ)
      → find_buffer dev block d ≡ none
      → (d.head b).b_count ≡ 0
      → (d.head b).b_lock ≡ false
      → (d.head b).b_dirt ≡ false
      → IsCache (take_buffer dev block b d)
      → holds ((take_buffer dev block b d).head b) dev block ≡ true
      → Got dev block es (take_buffer dev block b d) b
