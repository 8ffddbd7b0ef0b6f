-- ===== src/Mm/Cow.antt =====
-- mm/memory.c: `un_wp_page`, the copy on a write to a shared page.
use mathlib.Core.Path.{fun_ext, ap}
use linux_rpg.Mm.{copy_page, set_map}
use linux_rpg.Prelude.{
  ℕ, ◌+◌, ◌-◌, ◌≤◌, ◌<◌, ◌≡◌, ◌≢◌, ◌⊎◌, inl, inr, refl, true, false, ◌&&◌, arith, ◌%◌, ◌==◌, leb,
  if◌then◌else◌, Bool-cases,
}
use linux_rpg.Mm.{
  Mem, Outcome, ok, page_size, low_mem, map_nr, paging_pages, page_address, frame, or_seven, or_two,
  in_page, get_free_page, un_wp_page, update, store,
}
use linux_rpg.Mm.Pages.{Got, exhausted, got, get_free_page-Got}

-- The entry is present and lets the user write.
abbrev pub IsWritable : ℕ → Type 0
IsWritable e = (e % 2 ≡ 1) × (e % 4 ≡ 3)

-- An entry of a page in use: it stands outside its own page and outside the free pages, its page is
-- not free, and it is present and for the user, as every entry of this memory manager.
pub record IsEntry (entry : ℕ) (m : Mem) : Type 0 where
  pub there : (m.word entry) % 2 ≡ 1
  pub outside : in_page (frame (m.word entry)) entry ≡ false
  pub kept : (i : ℕ) → i < paging_pages → m.mem_map i ≡ 0 → in_page (page_address i) entry ≡ false
  pub in_use : (i : ℕ) → i < paging_pages → m.mem_map i ≡ 0 → frame (m.word entry) ≢ page_address i

-- After the write fault: the entry is writable and finds the same words as before, and every word
-- outside the entry and the new page is as it was; the old page too.
pub record Copied (entry : ℕ) (m m' : Mem) : Type 0 where
  pub writable : IsWritable (m'.word entry)
  pub same :
      (o : ℕ)
      → o < page_size
      → m'.word (frame (m'.word entry) + o) ≡ m.word (frame (m.word entry) + o)
  pub others :
      (a : ℕ) → a ≢ entry → in_page (frame (m'.word entry)) a ≡ false → m'.word a ≡ m.word a
  -- The page is the task's own: its count is 1.
  pub own : m'.mem_map (map_nr (frame (m'.word entry))) ≡ 1
  -- The old page, if it was left, has one user less.
  pub released :
      frame (m'.word entry) ≢ frame (m.word entry)
      → low_mem ≤ frame (m.word entry)
      → 0 < m.mem_map (map_nr (frame (m.word entry)))
      → m.mem_map (map_nr (frame (m.word entry))) < 256
      → m'.mem_map (map_nr (frame (m.word entry))) + 1 ≡ m.mem_map (map_nr (frame (m.word entry)))

un_wp_page-reused :
    (entry : ℕ) (m : Mem)
    → IsEntry entry m
    → (leb low_mem (frame (m.word entry)) && m.mem_map (map_nr (frame (m.word entry))) == 1) ≡ true
    → Copied entry m (store entry (or_two (m.word entry)) m)
un_wp_page-reused entry m h one =
    let there = h.there in
    let outside = h.outside in
    let same_frame : frame (or_two (m.word entry)) ≡ frame (m.word entry) = omega arith in
    let at : update m.word entry (or_two (m.word entry)) entry ≡ or_two (m.word entry) =
      ground arith in
    record {
      writable = rw at (omega arith, omega arith);
      same = λ o lt. rw (at, same_frame) (ground arith);
      others = λ a ne out. ground arith;
      own = rw (at, same_frame) (ground arith);
      released = rw (at, same_frame) (λ ne. absurd (ne refl));
    }

-- The state that `un_wp_page` leaves when it copies to the new page `i`.
module _ (entry i : ℕ) (m m' : Mem) (h : IsEntry entry m) (lt : i < paging_pages)
    (free : m.mem_map i ≡ 0) (map : (j : ℕ) → m'.mem_map j ≡ (if j == i then 1 else m.mem_map j))
    (word : (a : ℕ) → m'.word a ≡ (if in_page (page_address i) a then 0 else m.word a)) where
  old_page : ℕ
  old_page = frame (m.word entry)

  -- What the copy leaves, `w` being the counts after the decrement.
  copied : (ℕ → ℕ) → Mem
  copied w =
      copy_page (frame (m.word entry)) (page_address i)
        (store entry (or_seven (page_address i)) (record m' { mem_map = w }))

  entry_outside : in_page (page_address i) entry ≡ false
  entry_outside = h.kept i lt free

  copied_entry : (w : ℕ → ℕ) → (copied w).word entry ≡ or_seven (page_address i)
  unfolding copied
  copied_entry w = rw entry_outside (ground arith)

  new_frame : frame (or_seven (page_address i)) ≡ page_address i
  new_frame = omega arith

  copied_same :
      (w : ℕ → ℕ) (o : ℕ)
      → o < page_size
      → (copied w).word (page_address i + o) ≡ m.word (frame (m.word entry) + o)
  unfolding copied
  copied_same w o small =
      let outside = h.outside in
      let apart = h.in_use i lt free in
      let in_new : in_page (page_address i) (page_address i + o) ≡ true = ground arith in
      let moved : page_address i + o - page_address i + frame (m.word entry)
          ≡ frame (m.word entry) + o =
        omega arith in
      let not_new : in_page (page_address i) (frame (m.word entry) + o) ≡ false = ground arith in
      let differ : frame (m.word entry) + o ≢ entry = ground arith in
      rw (in_new, moved) (ground (arith, word (frame (m.word entry) + o)))

  copied_others :
      (w : ℕ → ℕ) (a : ℕ)
      → a ≢ entry
      → in_page (page_address i) a ≡ false
      → (copied w).word a ≡ m.word a
  unfolding copied
  copied_others w a ne out = rw out (ground (arith, word a))

  -- The counts after the decrement of the old page's.
  less : ℕ → ℕ
  less j =
      if leb low_mem (frame (m.word entry)) && j == map_nr (frame (m.word entry))
      then (m'.mem_map (map_nr (frame (m.word entry))) + 255) % 256
      else m'.mem_map j

  not_map_nr : low_mem ≤ frame (m.word entry) → map_nr (frame (m.word entry)) ≢ i
  not_map_nr low e = h.in_use i lt free (omega arith)

  less_own : less i ≡ 1
  unfolding less
  less_own = ground (arith, not_map_nr, map i)

  less_released :
      low_mem ≤ frame (m.word entry)
      → 0 < m.mem_map (map_nr (frame (m.word entry)))
      → m.mem_map (map_nr (frame (m.word entry))) < 256
      → less (map_nr (frame (m.word entry))) + 1 ≡ m.mem_map (map_nr (frame (m.word entry)))
  unfolding less
  less_released low pos small =
      let ne = not_map_nr low in ground (arith, map (map_nr (frame (m.word entry))))

  copied-Copied : Copied entry m (copied less)
  unfolding copied
  copied-Copied = record {
    writable = rw (copied_entry less) (omega arith, omega arith);
    same = λ o small. rw (copied_entry less, new_frame) (copied_same less o small);
    others = λ a ne. rw (copied_entry less, new_frame) (copied_others less a ne);
    own =
        let nr : map_nr (page_address i) ≡ i = omega arith in
        rw (copied_entry less, new_frame, nr) less_own;
    released = λ ne low pos small. less_released low pos small;
  }

  less_state :
      (if leb low_mem (frame (m.word entry))
        then set_map
            (map_nr (frame (m.word entry)))
            ((m'.mem_map (map_nr (frame (m.word entry))) + 255) % 256)
            m'
        else m')
      ≡ record m' { mem_map = less }
  unfolding less
  less_state = elim (Bool-cases (leb low_mem (frame (m.word entry)))) [
    | inl e ↦ rw e (ap (λ (w : ℕ → ℕ). record m' { mem_map = w }) (fun_ext λ j. rw e))
    | inr e ↦ rw e (ap (λ (w : ℕ → ℕ). record m' { mem_map = w }) (fun_ext λ j. rw e))
  ]

-- The page that the entry maps is below the main memory, or its count is not 1.
abbrev pub IsShared : ℕ → Mem → Type 0
IsShared entry m =
    (frame (m.word entry) < low_mem) ⊎ (m.mem_map (map_nr (frame (m.word entry))) ≢ 1)

un_wp_page-Got :
    (entry : ℕ) (m : Mem)
    → IsEntry entry m
    → (leb low_mem (frame (m.word entry)) && m.mem_map (map_nr (frame (m.word entry))) == 1) ≡ false
    → Got m (get_free_page m)
    → ((un_wp_page entry m ≡ Outcome.oom m)
        × IsShared entry m
        × ((i : ℕ) → i < paging_pages → m.mem_map i ≢ 0))
      ⊎ ((m' : Mem) × (un_wp_page entry m ≡ ok m') × Copied entry m m')
unfolding un_wp_page copied
un_wp_page-Got entry m h shared (exhausted full e) = inl (rw (shared, e), ground arith, full)
un_wp_page-Got entry m h shared (got i lt free above at map word high) =
    let m' = (get_free_page m).1 in
    let some_page : (page_address i == 0) ≡ false = ground arith in
    inr (
      copied entry i m m' h lt free map word (less entry i m m' h lt free map word),
      rw (shared, at, some_page, less_state entry i m m' h lt free map word) refl,
      copied-Copied entry i m m' h lt free map word,
    )

-- A write to a present page of the main memory ends with the entry writable, with the same words
-- behind it as before, with the page the task's own (its count is 1), with the old page's count one
-- less where the page was left, and with every word outside the entry and the new page as it was.
-- It fails, for want of memory, only if the page is shared or below the main memory and every count
-- is positive.
pub un_wp_page-Copied :
    (entry : ℕ) (m : Mem)
    → IsEntry entry m
    → ((un_wp_page entry m ≡ Outcome.oom m)
        × IsShared entry m
        × ((i : ℕ) → i < paging_pages → m.mem_map i ≢ 0))
      ⊎ ((m' : Mem) × (un_wp_page entry m ≡ ok m') × Copied entry m m')
unfolding un_wp_page
un_wp_page-Copied entry m h =
    elim (Bool-cases
      (leb low_mem (frame (m.word entry)) && m.mem_map (map_nr (frame (m.word entry))) == 1)) [
        | inl one ↦
            inr (store entry (or_two (m.word entry)) m, rw one, un_wp_page-reused entry m h one)
        | inr shared ↦ un_wp_page-Got entry m h shared (get_free_page-Got m)
      ]
