-- ===== src/Mm/Tests.antt =====
-- mm/memory.c at concrete inputs.
use linux_rpg.Prelude.{ℕ, ◌+◌, ◌<◌, ◌≡◌, ◌≢◌, ◌⊎◌, refl, arith, ◌==◌, if◌then◌else◌}
use linux_rpg.Mm.{Mem, Outcome, ok, paging_pages, find_free, get_free_page, free_page, un_wp_page}
use linux_rpg.Mm.Pages.{free_page-get_free_page}
use linux_rpg.Mm.Cow.{Copied, IsShared, un_wp_page-Copied}

-- All pages from the first one free, no page table, 16 megabytes.
abbrev fresh : Mem
fresh = record { mem_map = λ i. 0; high_memory = 16777216; word = λ a. 0 }

get_free_page_last : (get_free_page fresh).0 ≡ 16773120
unfolding get_free_page find_free
get_free_page_last = refl

free_page-get_free_page_example :
    (m' : Mem) × (free_page (get_free_page fresh).0 (get_free_page fresh).1 ≡ ok m')
    × ((j : ℕ) → m'.mem_map j ≡ 0)
free_page-get_free_page_example =
    free_page-get_free_page fresh (omega (arith, get_free_page_last))
      (omega (arith, get_free_page_last))

-- The entry at 8192 is for the page at 1 megabyte, which two tasks share.
abbrev shared : Mem
shared = record {
  mem_map = λ i. if i == 0 then 2 else 0;
  high_memory = 16777216;
  word = λ a. if a == 8192 then 1048576 + 5 else 7;
}

un_wp_page-Copied_example :
    ((un_wp_page 8192 shared ≡ Outcome.oom shared)
      × IsShared 8192 shared
      × ((i : ℕ) → i < paging_pages → shared.mem_map i ≢ 0))
    ⊎ ((m' : Mem) × (un_wp_page 8192 shared ≡ ok m') × Copied 8192 shared m')
un_wp_page-Copied_example = un_wp_page-Copied 8192 shared (record {
  there = refl;
  outside = refl;
  kept = λ i lt z. ground arith;
  in_use = λ i lt z e. ground arith;
})
