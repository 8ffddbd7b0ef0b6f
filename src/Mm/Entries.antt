-- ===== src/Mm/Entries.antt =====
-- mm/memory.c: the places of the page tables' entries, and writes to them.
use native.Mathlib.Decide.{ℕ_discrete}
use linux_rpg.Prelude.{false}
use linux_rpg.Mm.{update, store}
use linux_rpg.Prelude.{ℕ, ◌+◌, ◌≤◌, ◌<◌, ◌≡◌, ◌≢◌, ◌⊎◌, inl, inr, true, false, arith}
use linux_rpg.Mm.{
  Mem, page_size, paging_pages, page_address, frame, present, or_seven, dir_entry, table_entry,
  in_page,
}

-- The entry that the processor finds for an address by way of the directory.
abbrev pub lookup : ℕ → Mem → ℕ
lookup address m = m.word (frame (m.word (dir_entry address)) + table_entry address)

-- The page tables lie above the directory, apart from one another, and in no page that is free.
pub record IsPaged (m : Mem) : Type 0 where
  pub above :
      (a : ℕ) → present (m.word (dir_entry a)) ≡ true → page_size ≤ frame (m.word (dir_entry a))
  pub apart :
      (a b : ℕ)
      → present (m.word (dir_entry a)) ≡ true
      → present (m.word (dir_entry b)) ≡ true
      → dir_entry a ≢ dir_entry b
      → frame (m.word (dir_entry a)) ≢ frame (m.word (dir_entry b))
  pub in_use :
      (a i : ℕ)
      → present (m.word (dir_entry a)) ≡ true
      → i < paging_pages
      → m.mem_map i ≡ 0
      → frame (m.word (dir_entry a)) ≢ page_address i

-- Two addresses that do not share an entry.
abbrev pub Apart : ℕ → ℕ → Type 0
Apart a b = (dir_entry a ≢ dir_entry b) ⊎ (table_entry a ≢ table_entry b)

pub update_self : (f : ℕ → ℕ) (i v : ℕ) → update f i v i ≡ v
update_self f i v = ground arith

pub update_ne : (f : ℕ → ℕ) (i v j : ℕ) → j ≢ i → update f i v j ≡ f j
update_ne f i v j h = ground arith

frame-add-ne :
    (x y s t : ℕ) → s < page_size → t < page_size → frame x ≢ frame y → frame x + s ≢ frame y + t
frame-add-ne x y s t hs ht h = omega arith

pub table_entry-lt : (a : ℕ) → table_entry a < page_size
table_entry-lt a = omega arith

pub dir_entry-lt : (a : ℕ) → dir_entry a < page_size
dir_entry-lt a = omega arith

-- The entries of two addresses that do not share one are at different places.
pub entries-Apart :
    (a b : ℕ) (m : Mem)
    → IsPaged m
    → present (m.word (dir_entry a)) ≡ true
    → present (m.word (dir_entry b)) ≡ true
    → Apart b a
    → frame (m.word (dir_entry b)) + table_entry b ≢ frame (m.word (dir_entry a)) + table_entry a
entries-Apart a b m p here there apart = elim (ℕ_discrete (dir_entry b) (dir_entry a)) [
  | yes same ↦ rw same (differ same apart)
  | no other ↦
      frame-add-ne (m.word (dir_entry b)) (m.word (dir_entry a)) (table_entry b) (table_entry a)
        (table_entry-lt b) (table_entry-lt a) (p.apart b a there here other)
]
  where
    differ :
        dir_entry b ≡ dir_entry a
        → Apart b a
        → frame (m.word (dir_entry a)) + table_entry b
          ≢ frame (m.word (dir_entry a)) + table_entry a
    differ same (inl d) = absurd (d same)
    differ same (inr t) = λ e. t (omega arith)

-- A write to a place that is neither the directory's entry nor the table's for `b`.
pub lookup-store :
    (b x v : ℕ) (m : Mem)
    → dir_entry b ≢ x
    → frame (m.word (dir_entry b)) + table_entry b ≢ x
    → lookup b (store x v m) ≡ lookup b m
lookup-store b x v m h h' =
    rw (update_ne m.word x v (dir_entry b) h)
      (update_ne m.word x v (frame (m.word (dir_entry b)) + table_entry b) h')

pub put_page-present :
    (page address : ℕ) (m : Mem)
    → IsPaged m
    → present (m.word (dir_entry address)) ≡ true
    → let m' = store (frame (m.word (dir_entry address)) + table_entry address) (or_seven page) m in
      (lookup address m' ≡ or_seven page)
      × ((b : ℕ)
          → present (m.word (dir_entry b)) ≡ true
          → Apart b address
          → lookup b m' ≡ lookup b m)
put_page-present page address m p here =
    let low = p.above address here in
    let entry = frame (m.word (dir_entry address)) + table_entry address in
    let dir_ne : (b : ℕ) → dir_entry b ≢ entry =
      λ b. let lt = dir_entry-lt b in λ e. absurd (omega arith) in
    (
      rw (update_ne m.word entry (or_seven page) (dir_entry address) (dir_ne address))
          (update_self m.word entry (or_seven page)),
      λ b there apart.
          lookup-store b entry (or_seven page) m (dir_ne b)
            (entries-Apart address b m p here there apart),
    )

pub frame-add-ne-page_address :
    (x i s t : ℕ)
    → s < page_size
    → t < page_size
    → frame x ≢ page_address i
    → frame x + s ≢ page_address i + t
frame-add-ne-page_address x i s t hs ht h = omega arith

pub not-in_page :
    (x i s : ℕ)
    → s < page_size
    → frame x ≢ page_address i
    → in_page (page_address i) (frame x + s) ≡ false
not-in_page x i s hs h = ground arith

pub not-in_page_low : (a i : ℕ) → a < page_size → in_page (page_address i) a ≡ false
not-in_page_low a i h = ground arith
