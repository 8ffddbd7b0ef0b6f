-- ===== src/Mm.antt =====
-- mm/memory.c: the counts of physical pages, and the page tables in physical memory. Memory is
-- read by 32-bit words, at addresses that are multiples of 4, and so is a page directory at
-- address 0. An index past `mem_map` is not checked, as in C. Every address and entry is a number
-- below 2 ^ 32.
pub mod Pages
pub mod Entries
pub mod Tables
pub mod Cow
mod Tests
use linux_rpg.Prelude.{
  ℕ, zero, suc, ◌+◌, ◌-◌, ◌*◌, ◌/◌, ◌%◌, ◌^◌, Option, none, some, Bool, true, false, ◌&&◌, ◌||◌,
  not, leb, ltb, ◌==◌, if◌then◌else◌,
}

abbrev pub low_mem : ℕ
low_mem = 0x100000

-- PAGING_MEMORY>>12
abbrev pub paging_pages : ℕ
paging_pages = 3840

abbrev pub page_size : ℕ
page_size = 4096

abbrev pub used : ℕ
used = 100

-- MAP_NR
abbrev pub map_nr : ℕ → ℕ
map_nr addr = (addr - low_mem) / page_size

pub record Mem : Type 0 where
  pub mem_map : ℕ → ℕ
  pub high_memory : ℕ
  pub word : ℕ → ℕ

-- What a function of the file can come to: a value, a panic, or the end of the current task for
-- want of memory (`oom`), which leaves memory as it is given.
pub data Outcome (A : Type 0) : Type 0 where
  ok : A → Outcome A
  panic : Outcome A
  oom : Mem → Outcome A

infixl 5 ◌>>=◌
abbrev pub ◌>>=◌ : {A B : Type 0} → Outcome A → (A → Outcome B) → Outcome B
ok a >>= f = f a
panic >>= f = panic
oom m >>= f = oom m

abbrev pub update : (ℕ → ℕ) → ℕ → ℕ → ℕ → ℕ
update f i v j = if j == i then v else f j

abbrev pub set_map : ℕ → ℕ → Mem → Mem
set_map i v m = record m { mem_map = update m.mem_map i v }

-- *p = v, at the address `a` of a word.
abbrev pub store : ℕ → ℕ → Mem → Mem
store a v m = record m { word = update m.word a v }

abbrev pub in_page : ℕ → ℕ → Bool
in_page page a = leb page a && ltb a (page + page_size)

-- The 1024 words of a page become 0.
abbrev pub clear_page : ℕ → Mem → Mem
clear_page page m = record m { word = λ a. if in_page page a then 0 else m.word a }

-- copy_page
abbrev pub copy_page : ℕ → ℕ → Mem → Mem
copy_page from to m = record m {
  word = λ a. if in_page to a then m.word (a - to + from) else m.word a;
}

-- The scan for a zero byte, from the end of `mem_map` down.
unfoldable pub find_free : ℕ → (ℕ → ℕ) → Option ℕ
find_free zero f = none
find_free (suc i) f = let lower = find_free i f in if f i == 0 then some i else lower

abbrev pub page_address : ℕ → ℕ
page_address i = low_mem + page_size * i

-- The address is 0 if no page is free.
unfoldable pub get_free_page : Mem → ℕ × Mem
get_free_page m = elim (find_free paging_pages m.mem_map) [
  | none ↦ (0, m)
  | some i ↦ (page_address i, clear_page (page_address i) (set_map i 1 m))
]

pub free_page : ℕ → Mem → Outcome Mem
free_page addr m =
    if ltb addr low_mem
    then ok m
    else if leb m.high_memory addr
    then panic
    else if m.mem_map (map_nr addr) == 0
    then panic
    else ok (set_map (map_nr addr) (m.mem_map (map_nr addr) - 1) m)

-- 0xfffff000 & e
abbrev pub frame : ℕ → ℕ
frame e = e / page_size * page_size

-- 1 & e
abbrev pub present : ℕ → Bool
present e = not (e % 2 == 0)

-- e | 7
abbrev pub or_seven : ℕ → ℕ
or_seven e = e / 8 * 8 + 7

-- e | 2
abbrev pub or_two : ℕ → ℕ
or_two e = e / 4 * 4 + 2 + e % 2

-- The directory entry of an address: (address>>20) & 0xffc.
abbrev pub dir_entry : ℕ → ℕ
dir_entry address = address / 2 ^ 22 % 1024 * 4

-- The entry of an address within its page table: (address>>10) & 0xffc.
abbrev pub table_entry : ℕ → ℕ
table_entry address = address / 2 ^ 12 % 1024 * 4

-- The address is 0 if no page is free for the page table. (The messages of the two checks at the
-- top are left out.)
pub put_page : ℕ → ℕ → Mem → ℕ × Mem
put_page page address m =
    let dir = dir_entry address in
    let (tmp, m') = get_free_page m in
    if present (m.word dir)
    then (page, store (frame (m.word dir) + table_entry address) (or_seven page) m)
    else if tmp == 0
    then (0, m)
    else (page, store (tmp + table_entry address) (or_seven page) (store dir (or_seven tmp) m'))

-- `entry` is the address of a page table's entry.
pub un_wp_page : ℕ → Mem → Outcome Mem
un_wp_page entry m =
    let old_page = frame (m.word entry) in
    let (new_page, m') = get_free_page m in
    let m'' =
      if leb low_mem old_page
      then set_map (map_nr old_page) ((m'.mem_map (map_nr old_page) + 255) % 256) m'
      else m' in
    if leb low_mem old_page && m.mem_map (map_nr old_page) == 1
    then ok (store entry (or_two (m.word entry)) m)
    else if new_page == 0
    then oom m
    else ok (copy_page old_page new_page (store entry (or_seven new_page) m''))

pub do_wp_page : ℕ → Mem → Outcome Mem
unfolding un_wp_page
do_wp_page address m = un_wp_page (table_entry address + frame (m.word (dir_entry address))) m

pub write_verify : ℕ → Mem → Outcome Mem
unfolding un_wp_page
write_verify address m =
    let page = m.word (dir_entry address) in
    let entry = frame page + table_entry address in
    if not (present page) then ok m else if m.word entry % 4 == 1 then un_wp_page entry m else ok m

-- if (!(tmp=get_free_page()) || !put_page(tmp,address)) { free_page(tmp); oom(); }
pub get_empty_page : ℕ → Mem → Outcome Mem
unfolding put_page free_page
get_empty_page address m =
    let (tmp, m') = get_free_page m in
    let (put, m'') = put_page tmp address m' in
    if tmp == 0
    then (free_page tmp m' >>= oom)
    else if put == 0
    then (free_page tmp m'' >>= oom)
    else ok m''

abbrev pub fill : ℕ → ℕ → ℕ → (ℕ → ℕ) → ℕ → ℕ
fill i n v f j = if leb i j && ltb j (i + n) then v else f j

-- The words of memory stay as they are.
pub mem_init : ℕ → ℕ → Mem → Mem
mem_init start_mem end_mem m = record m {
  mem_map =
      fill (map_nr start_mem) ((end_mem - start_mem) / page_size) 0
        (fill 0 paging_pages used m.mem_map);
  high_memory = end_mem;
}
