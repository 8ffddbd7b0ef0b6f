-- ===== src/Kernel/Console/Area.antt =====
-- kernel/chr_drv/console.c: the cursor on the screen, and the screen in the video memory.
use linux_rpg.Prelude.{
  ℕ, ◌+◌, ◌-◌, ◌*◌, ◌/◌, ◌≤◌, ◌<◌, ◌≡◌, ◌∙◌, arith, inl, inr, ltb, ◌==◌, ◌&&◌, Bool-cases,
}
use linux_rpg.Kernel.Console.{
  Cells, Video, Screen, size_row, gotoxy, roll_up, roll_origin, scrup, scrdown, lf, ri, cr, del,
}
use linux_rpg.Kernel.Console.Blocks.{
  Outside, fill_up-Outside, fill_down-Outside, copy_up-Outside, copy_down-Outside,
}

-- The cursor stands on the screen or one place behind a line, `pos` is its address, the scroll
-- region is within the screen, the screen within the video memory, and outside the video memory
-- all words are those of `m`.
pub record IsShown (v : Video) (m : Cells) (s : Screen) : Type 0 where
  pub x_in : s.x ≤ v.columns
  pub y_in : s.y < v.lines
  pub at : s.pos ≡ s.origin + s.y * size_row v + s.x * 2
  pub region : s.top < s.bottom
  pub region_in : s.bottom ≤ v.lines
  pub screen : s.scr_end ≡ s.origin + v.lines * size_row v
  pub start : v.mem_start ≤ s.origin
  pub end : s.scr_end ≤ v.mem_end
  pub outside : Outside v.mem_start v.mem_end m s.cells

-- A line above another ends before the other.
pub row_le : (i j r : ℕ) → i < j → i * r + r ≤ j * r
row_le i j r h = grind arith

-- The lines that a scroll moves, and the one that it clears.
pub region_rows :
    (top bottom c : ℕ)
    → top < bottom
    → c * 2 * top + 2 * ((bottom - top - 1) * c) + c * 2 ≡ c * 2 * bottom
region_rows top bottom c h =
    let e : bottom ≡ top + (bottom - top - 1) + 1 = omega arith in go (bottom - top - 1) e
  where
    go : (k : ℕ) → bottom ≡ top + k + 1 → c * 2 * top + 2 * (k * c) + c * 2 ≡ c * 2 * bottom
    go k e = rw e (grind arith)

rows_le : (b l c : ℕ) → b ≤ l → c * 2 * b ≤ l * (c * 2)
rows_le b l c h = grind arith

lines_rows : (l c : ℕ) → 0 < l → 2 * ((l - 1) * c) + c * 2 ≡ l * (c * 2)
lines_rows l c h = let e : l ≡ l - 1 + 1 = omega arith in go (l - 1) e
  where
    go : (k : ℕ) → l ≡ k + 1 → 2 * (k * c) + c * 2 ≡ l * (c * 2)
    go k e = rw e (grind arith)

module _ {v : Video} {m : Cells} {s : Screen} (h : IsShown v m s) where
  pub gotoxy-IsShown : (new_x new_y : ℕ) → IsShown v m (gotoxy v new_x new_y s)
  unfolding gotoxy
  gotoxy-IsShown new_x new_y = ground arith

  pub cr-IsShown : IsShown v m (cr s)
  unfolding cr
  cr-IsShown = ground arith

  -- The lines of the scroll region are in the video memory.
  region_end :
      s.origin + size_row v * s.top + 4 * ((s.bottom - s.top - 1) * v.columns / 2) + 2 * v.columns
      ≤ v.mem_end
  region_end = omega (
    arith,
    region_rows s.top s.bottom v.columns h.region,
    rows_le s.bottom v.lines v.columns h.region_in,
    h.screen,
    h.end,
  )

  -- So are they when it is cleared from its last line up.
  region_start :
      v.mem_start + 4 * ((s.bottom - s.top - 1) * v.columns / 2) + 2 * v.columns
      ≤ s.origin + size_row v * s.bottom
  region_start = omega (arith, region_rows s.top s.bottom v.columns h.region, h.start)

  region_below : s.origin + size_row v * s.bottom ≤ v.mem_end
  region_below = omega (arith, rows_le s.bottom v.lines v.columns h.region_in, h.screen, h.end)

  -- New words in the video memory.
  pub drawn :
      (m' : Cells)
      → Outside v.mem_start v.mem_end s.cells m'
      → IsShown v m (record s { cells = m' })
  drawn m' out = record {
    x_in = h.x_in;
    y_in = h.y_in;
    at = h.at;
    region = h.region;
    region_in = h.region_in;
    screen = h.screen;
    start = h.start;
    end = h.end;
    outside = λ a o. out a o ∙ h.outside a o;
  }

  roll_up-IsShown : IsShown v m (roll_up v s)
  unfolding roll_up
  roll_up-IsShown = drawn _ λ a o.
      fill_up-Outside v.columns _ v.erase _ v.mem_start v.mem_end (omega (arith, h.start))
        (omega (arith, region_end)) a o
      ∙ copy_up-Outside _ _ _ s.cells v.mem_start v.mem_end (omega (arith, h.start))
          (omega (arith, region_end)) a o

  pub scrdown-IsShown : 2 ≤ v.columns → IsShown v m (scrdown v s)
  unfolding scrdown
  scrdown-IsShown wide = drawn _ λ a o.
      fill_down-Outside v.columns _ v.erase _ v.mem_start v.mem_end
        (omega (arith, region_start, region_below)) (omega (arith, region_start, region_below)) a o
      ∙ copy_down-Outside _ _ _ s.cells v.mem_start v.mem_end
          (omega (arith, region_start, region_below)) (omega (arith, region_start, region_below)) a
          o

  roll_origin-IsShown : IsShown v m (roll_origin v s)
  unfolding roll_origin
  roll_origin-IsShown = elim (Bool-cases (ltb v.mem_end (s.scr_end + size_row v))) [
    | inl full ↦ rw full (record {
      x_in = h.x_in;
      y_in = h.y_in;
      at = omega (arith, h.at, h.start);
      region = h.region;
      region_in = h.region_in;
      screen = omega (arith, h.screen, h.start);
      start = omega arith;
      end = omega (arith, h.end, h.start);
      outside = λ a o.
          fill_up-Outside v.columns _ v.erase _ v.mem_start v.mem_end (omega arith) whole a o
          ∙ copy_up-Outside _ _ _ s.cells v.mem_start v.mem_end (omega arith) (omega (arith, whole))
              a o
          ∙ h.outside a o;
    })
    | inr fits ↦ rw fits (record {
      x_in = h.x_in;
      y_in = h.y_in;
      at = omega (arith, h.at, h.start);
      region = h.region;
      region_in = h.region_in;
      screen = omega (arith, h.screen, h.start);
      start = omega (arith, h.start);
      end = ground (arith, h.end);
      outside = λ a o.
          fill_up-Outside v.columns _ v.erase _ v.mem_start v.mem_end
            (omega (arith, h.screen, h.start)) (ground arith) a o
          ∙ h.outside a o;
    })
  ]
    where
      whole : v.mem_start + 4 * ((v.lines - 1) * v.columns / 2) + 2 * v.columns ≤ v.mem_end
      whole =
          omega
            (arith, lines_rows v.lines v.columns (omega (arith, h.y_in)), h.screen, h.start, h.end)

  pub scrup-IsShown : IsShown v m (scrup v s)
  unfolding scrup
  scrup-IsShown = elim (Bool-cases (v.ega && (s.top == 0 && s.bottom == v.lines))) [
    | inl fast ↦ rw fast roll_origin-IsShown
    | inr slow ↦ rw slow roll_up-IsShown
  ]

  pub lf-IsShown : IsShown v m (lf v s)
  unfolding lf
  lf-IsShown = elim (Bool-cases (ltb (s.y + 1) s.bottom)) [
    | inr last ↦ rw last scrup-IsShown
    | inl inside ↦ rw inside (record {
      x_in = h.x_in;
      y_in = ground (arith, h.region_in);
      at = grind (arith, h.at);
      region = h.region;
      region_in = h.region_in;
      screen = h.screen;
      start = h.start;
      end = h.end;
      outside = h.outside;
    })
  ]

  pub ri-IsShown : 2 ≤ v.columns → IsShown v m (ri v s)
  unfolding ri
  ri-IsShown wide = elim (Bool-cases (ltb s.top s.y)) [
    | inr first ↦ rw first (scrdown-IsShown wide)
    | inl inside ↦
        let e : s.y ≡ s.y - 1 + 1 = ground arith in
        rw inside (record {
          x_in = h.x_in;
          y_in = omega (arith, h.y_in);
          at = up (s.y - 1) e;
          region = h.region;
          region_in = h.region_in;
          screen = h.screen;
          start = h.start;
          end = h.end;
          outside = h.outside;
        })
  ]
    where
      up : (k : ℕ) → s.y ≡ k + 1 → s.pos - size_row v ≡ s.origin + k * size_row v + s.x * 2
      up k e =
          let step : s.y * size_row v ≡ k * size_row v + size_row v = rw e (grind arith) in
          omega (arith, h.at, step)

  pub del-IsShown : IsShown v m (del v s)
  unfolding del
  del-IsShown = elim (Bool-cases (s.x == 0)) [
    | inl first ↦ rw first h
    | inr inside ↦ rw inside (record {
      x_in = omega (arith, h.x_in);
      y_in = h.y_in;
      at = ground (arith, h.at);
      region = h.region;
      region_in = h.region_in;
      screen = h.screen;
      start = h.start;
      end = h.end;
      outside = λ a o. ground (arith, h.outside a o, cursor_in);
    })
  ]
    where
      -- The place before the cursor is in the video memory.
      cursor_in : s.pos ≤ v.mem_end
      cursor_in =
          omega (arith, h.at, row_le s.y v.lines (size_row v) h.y_in, h.x_in, h.screen, h.end)
