-- ===== src/Mm/Pages.antt =====
-- mm/memory.c: what `get_free_page` returns, and that `free_page` takes it back.
use linux_rpg.Prelude.{◌%◌, ◌↔◌}
use linux_rpg.Prelude.{ltb, leb, false}
use native.Mathlib.Decide.{ℕ_discrete}
use linux_rpg.Mm.{clear_page}
use linux_rpg.Prelude.{
  ℕ, zero, suc, ◌+◌, ◌-◌, ◌≤◌, ◌<◌, ◌≡◌, ◌≢◌, refl, Option, none, some, arith, inl, inr, Bool-cases,
  ◌==◌, if◌then◌else◌,
}
use linux_rpg.Mm.{
  low_mem, page_size, paging_pages, map_nr, page_address, Mem, ok, panic, set_map, find_free,
  get_free_page, free_page, mem_init, in_page,
}

-- What the scan finds: the highest zero below `n`, if there is one.
abbrev pub Found : (ℕ → ℕ) → ℕ → Option ℕ → Type 0
Found f n none = (i : ℕ) → i < n → f i ≢ 0
Found f n (some i) = (i < n) × (f i ≡ 0) × ((j : ℕ) → i < j → j < n → f j ≢ 0)

pub find_free-Found : (n : ℕ) (f : ℕ → ℕ) → Found f n (find_free n f)
unfolding find_free
find_free-Found zero f = λ i h. absurd (omega arith)
find_free-Found (suc n) f = elim (Bool-cases (f n == 0)) [
  | inl e ↦ rw e (omega arith, ground arith, λ j h h'. absurd (omega arith))
  | inr e ↦
      let taken : f n ≢ 0 = ground arith in rw e (go taken (find_free n f) (find_free-Found n f))
]
  where
    go : (f n ≢ 0) → (o : Option ℕ) → Found f n o → Found f (suc n) o
    go taken none h =
        λ i lt. elim (ℕ_discrete i n) [ yes same ↦ rw same taken | no differ ↦ h i (omega arith) ]
    go taken (some k) (lt, z, above) = (
      omega arith,
      z,
      λ j h h'. elim (ℕ_discrete j n) [
        | yes same ↦ rw same taken
        | no differ ↦ above j h (omega arith)
      ],
    )

-- A frame that a page address stands for.
map_nr-page_address : (i : ℕ) → map_nr (page_address i) ≡ i
map_nr-page_address i = omega arith

-- The two ends of an allocation: no page is free, or page `i` is taken.
pub data Got (m : Mem) (r : ℕ × Mem) : Type 0 where
  exhausted : ((i : ℕ) → i < paging_pages → m.mem_map i ≢ 0) → r ≡ (0, m) → Got m r
  got :
      (i : ℕ)
      → i < paging_pages
      → m.mem_map i ≡ 0
      → ((j : ℕ) → i < j → j < paging_pages → m.mem_map j ≢ 0)
      → r.0 ≡ page_address i
      → ((j : ℕ) → r.1.mem_map j ≡ (if j == i then 1 else m.mem_map j))
      → ((a : ℕ) → r.1.word a ≡ (if in_page (page_address i) a then 0 else m.word a))
      → r.1.high_memory ≡ m.high_memory
      → Got m r

-- `get_free_page` returns 0 and changes nothing when every count of `mem_map` is positive. Else it
-- returns the highest page whose count is 0: the count becomes 1, the words of the page become 0,
-- and every other count and word stays.
pub get_free_page-Got : (m : Mem) → Got m (get_free_page m)
unfolding get_free_page
get_free_page-Got m = go (find_free paging_pages m.mem_map) (find_free-Found paging_pages m.mem_map)
  where
    go :
        (o : Option ℕ)
        → Found m.mem_map paging_pages o
        → Got m (elim o [
          | none ↦ (0, m)
          | some i ↦ (page_address i, clear_page (page_address i) (set_map i 1 m))
        ])
    go none h = exhausted h refl
    go (some i) (lt, z, above) = got i lt z above refl (λ j. refl) (λ a. refl) refl

free_page-Got :
    (m : Mem) (r : ℕ × Mem)
    → Got m r
    → r.0 ≢ 0
    → r.0 < m.high_memory
    → (m' : Mem) × (free_page r.0 r.1 ≡ ok m') × ((j : ℕ) → m'.mem_map j ≡ m.mem_map j)
unfolding free_page
free_page-Got m r (exhausted full e) h lt = absurd (ground arith)
free_page-Got m r (got i lt_i z above at map word high) h lt =
    let nr : map_nr r.0 ≡ i = omega arith in
    let one : r.1.mem_map (map_nr r.0) ≡ 1 = rw nr (ground (arith, map i)) in
    let above_low : ltb r.0 low_mem ≡ false = ground arith in
    let below_high : leb r.1.high_memory r.0 ≡ false = ground arith in
    (
      set_map (map_nr r.0) (r.1.mem_map (map_nr r.0) - 1) r.1,
      rw (above_low, below_high, one),
      λ j. ground (arith, map j),
    )

-- A page that `get_free_page` gave goes back by `free_page`, and the counts are what they were.
pub free_page-get_free_page :
    (m : Mem)
    → (get_free_page m).0 ≢ 0
    → (get_free_page m).0 < m.high_memory
    → (m' : Mem) × (free_page (get_free_page m).0 (get_free_page m).1 ≡ ok m')
      × ((j : ℕ) → m'.mem_map j ≡ m.mem_map j)
free_page-get_free_page m = free_page-Got m (get_free_page m) (get_free_page-Got m)

-- Freeing a page of the main memory whose count is 0 is a panic.
pub free_page-panic :
    (addr : ℕ) (m : Mem) → low_mem ≤ addr → m.mem_map (map_nr addr) ≡ 0 → free_page addr m ≡ panic
unfolding free_page
free_page-panic addr m h z = ground arith

-- After `mem_init` on whole pages between 1 and 16 megabytes, the free pages are exactly those
-- between `start_mem` and `end_mem`.
mem_init-free :
    (start_mem end_mem : ℕ) (m : Mem) (i : ℕ)
    → low_mem ≤ start_mem
    → start_mem ≤ end_mem
    → start_mem % page_size ≡ 0
    → end_mem % page_size ≡ 0
    → i < paging_pages
    → (mem_init start_mem end_mem m).mem_map i ≡ 0
      ↔ ((start_mem ≤ page_address i) × (page_address i + page_size ≤ end_mem))
unfolding mem_init
mem_init-free start_mem end_mem m i h1 h2 a b lt = (λ e. ground arith, λ r. ground arith)
