-- ===== src/Kernel/Console/Edit.antt =====
-- kernel/chr_drv/console.c: the commands that erase, insert and delete stay in the video memory.
use linux_rpg.Prelude.{
  ℕ, zero, suc, ◌+◌, ◌-◌, ◌*◌, ◌/◌, ◌≤◌, ◌<◌, ◌≡◌, Bool, true, false, arith, inl, inr, ltb, leb,
  ◌==◌, if◌then◌else◌, Bool-cases,
}
use linux_rpg.Kernel.Console.{
  Cells, Video, Screen, size_row, scrup, scrdown, erase_from, csi_J, csi_K, insert_char,
  delete_char, below, insert_line, delete_line, times,
}
use linux_rpg.Kernel.Console.Blocks.{fill_up-Outside, shift_right-Outside, shift_left-Outside}
use linux_rpg.Kernel.Console.Area.{IsShown, row_le, drawn, scrup-IsShown, scrdown-IsShown}

pub if-IsShown :
    {v : Video} {m : Cells} (b : Bool) {s t : Screen}
    → IsShown v m s
    → IsShown v m t
    → IsShown v m (if b then s else t)
if-IsShown true h k = h
if-IsShown false h k = k

module _ {v : Video} {m : Cells} {s : Screen} (h : IsShown v m s) where
  erase_from-IsShown :
      (start count : ℕ)
      → v.mem_start ≤ start
      → start + 2 * count ≤ v.mem_end
      → IsShown v m (erase_from v start count s)
  erase_from-IsShown start count low high =
      drawn h _ (fill_up-Outside count start v.erase s.cells v.mem_start v.mem_end low high)

  -- The cursor's line is in the video memory.
  line_end : s.origin + s.y * size_row v + v.columns * 2 ≤ v.mem_end
  line_end = omega (arith, row_le s.y v.lines (size_row v) h.y_in, h.screen, h.end)

  screen_size : 2 * (v.columns * v.lines) ≡ v.lines * size_row v
  screen_size = grind arith

  pub csi_J-IsShown : (par : ℕ) → IsShown v m (csi_J v par s)
  unfolding csi_J
  csi_J-IsShown par =
      if-IsShown (par == 0)
        (erase_from-IsShown s.pos ((s.scr_end - s.pos) / 2) (omega (arith, h.at, h.start))
          (omega (arith, line_end, h.at, h.x_in, h.end)))
        (if-IsShown (par == 1)
          (erase_from-IsShown s.origin ((s.pos - s.origin) / 2) h.start
            (omega (arith, line_end, h.at, h.x_in)))
          (if-IsShown (par == 2)
            (erase_from-IsShown s.origin (v.columns * v.lines) h.start
              (omega (arith, screen_size, h.screen, h.end)))
            h))

  pub csi_K-IsShown : (par : ℕ) → IsShown v m (csi_K v par s)
  unfolding csi_K
  csi_K-IsShown par =
      if-IsShown (par == 0)
        (if-IsShown (leb v.columns s.x) h (
          erase_from-IsShown s.pos (v.columns - s.x) (omega (arith, h.at, h.start))
            (omega (arith, line_end, h.at, h.x_in))))
        (if-IsShown (par == 1)
          (erase_from-IsShown (s.pos - s.x * 2) (if ltb s.x v.columns then s.x else v.columns)
            (omega (arith, h.at, h.start)) (ground (arith, line_end, h.at, h.x_in)))
          (if-IsShown (par == 2)
            (erase_from-IsShown (s.pos - s.x * 2) v.columns (omega (arith, h.at, h.start))
              (omega (arith, line_end, h.at)))
            h))

  pub insert_char-IsShown : IsShown v m (insert_char v s)
  unfolding insert_char
  insert_char-IsShown = drawn h _ (
      shift_right-Outside (v.columns - s.x) s.pos v.erase s.cells v.mem_start v.mem_end
        (omega (arith, h.at, h.start)) (omega (arith, line_end, h.at, h.x_in)))

  pub delete_char-IsShown : IsShown v m (delete_char v s)
  unfolding delete_char
  delete_char-IsShown = elim (Bool-cases (leb v.columns s.x)) [
    | inl behind ↦ rw behind h
    | inr inside ↦
        let x_lt : s.x < v.columns = ground arith in
        rw inside (
          drawn h _ (
            shift_left-Outside (v.columns - s.x - 1) s.pos v.erase s.cells v.mem_start v.mem_end
              (omega (arith, h.at, h.start)) (omega (arith, line_end, h.at))))
  ]

  below-IsShown :
      (f : Screen → Screen)
      → ((t : Screen) → IsShown v m t → IsShown v m (f t))
      → IsShown v m (below v f s)
  below-IsShown f keep =
      let k =
        keep (record s { top = s.y; bottom = v.lines })
          (record {
            x_in = h.x_in;
            y_in = h.y_in;
            at = h.at;
            region = h.y_in;
            region_in = omega arith;
            screen = h.screen;
            start = h.start;
            end = h.end;
            outside = h.outside;
          }) in
      record {
        x_in = k.x_in;
        y_in = k.y_in;
        at = k.at;
        region = h.region;
        region_in = h.region_in;
        screen = k.screen;
        start = k.start;
        end = k.end;
        outside = k.outside;
      }

module _ {v : Video} {m : Cells} where
  pub insert_line-IsShown :
      (s : Screen) → 2 ≤ v.columns → IsShown v m s → IsShown v m (insert_line v s)
  unfolding insert_line
  insert_line-IsShown s wide h = below-IsShown h (scrdown v) (λ t k. scrdown-IsShown k wide)

  pub delete_line-IsShown : (s : Screen) → IsShown v m s → IsShown v m (delete_line v s)
  unfolding delete_line
  delete_line-IsShown s h = below-IsShown h (scrup v) (λ t k. scrup-IsShown k)

  pub times-IsShown :
      (n : ℕ) (f : Screen → Screen)
      → ((t : Screen) → IsShown v m t → IsShown v m (f t))
      → (s : Screen) → IsShown v m s
      → IsShown v m (times n f s)
  unfolding times
  times-IsShown zero f keep s h = h
  times-IsShown (suc n) f keep s h = times-IsShown n f keep (f s) (keep s h)
