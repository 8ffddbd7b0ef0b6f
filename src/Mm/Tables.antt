-- ===== src/Mm/Tables.antt =====
-- mm/memory.c: `put_page` maps the page at the address, and moves no other mapping.
use linux_rpg.Prelude.{false}
use linux_rpg.Mm.{store}
use linux_rpg.Prelude.{ℕ, ◌<◌, ◌≡◌, ◌≢◌, true, false, if◌then◌else◌}
use linux_rpg.Mm.{
  Mem, paging_pages, page_address, present, or_seven, dir_entry, table_entry, in_page,
}
use linux_rpg.Mm.Entries.{lookup, IsPaged, Apart}

-- With no page table for the address: what the new page and the two stores do to another entry.
module _ (address i v : ℕ) (m m' : Mem) (p : IsPaged m)
    (absent : present (m.word (dir_entry address)) ≡ false) (lt : i < paging_pages)
    (free : m.mem_map i ≡ 0)
    (word : (a : ℕ) → m'.word a ≡ (if in_page (page_address i) a then 0 else m.word a)) where
  with_table : Mem
  with_table = store (dir_entry address) (or_seven (page_address i)) m'

-- What is so when the page is mapped at the address: its page table is present, the entry holds the
-- page, what had a page table before finds what it found, and a new page table has no other entry.
abbrev pub Mapped : ℕ → ℕ → Mem → Mem → Type 0
Mapped page address m m' =
    (present (m'.word (dir_entry address)) ≡ true)
    × (lookup address m' ≡ or_seven page)
    × ((b : ℕ) → present (m.word (dir_entry b)) ≡ true → Apart b address → lookup b m' ≡ lookup b m)
    × ((b : ℕ)
        → present (m.word (dir_entry address)) ≡ false
        → dir_entry b ≡ dir_entry address
        → table_entry b ≢ table_entry address
        → lookup b m' ≡ 0)
