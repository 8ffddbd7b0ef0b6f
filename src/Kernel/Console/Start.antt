-- ===== src/Kernel/Console/Start.antt =====
-- kernel/chr_drv/console.c: `con_init`. What setup.s has left of the BIOS is its argument; the traps
-- and ports that it sets up are not part of the model.
use linux_rpg.Prelude.{
  ℕ, ◌+◌, ◌-◌, ◌*◌, ◌/◌, ◌%◌, ◌≤◌, ◌<◌, ◌≡◌, refl, List, [], ◌∷◌, Bool, false, not, arith, ltb, leb,
  ◌==◌, if◌then◌else◌, length,
}
use linux_rpg.Kernel.Console.{Cells, Video, Screen, size_row, poke, gotoxy}
use linux_rpg.Kernel.Console.Blocks.{Outside}
use linux_rpg.Kernel.Console.Area.{IsShown}

-- ORIG_VIDEO_MODE, ORIG_VIDEO_COLS, ORIG_VIDEO_EGA_BX, ORIG_X and ORIG_Y.
pub record Bios : Type 0 where
  pub mode : ℕ
  pub cols : ℕ
  pub ega_bx : ℕ
  pub orig_x : ℕ
  pub orig_y : ℕ

abbrev pub is_ega : Bios → Bool
is_ega b = not (b.ega_bx % 256 == 16)

unfoldable pub video_of : Bios → Video
video_of b = record {
  columns = b.cols;
  lines = 25;
  mem_start = if b.mode == 7 then 720896 else 753664;
  mem_end =
      if b.mode == 7
      then (if is_ega b then 753664 else 729088)
      else (if is_ega b then 770048 else 761856);
  ega = is_ega b;
  erase = 1824;
}

-- display_desc
unfoldable pub display_desc : Bios → List ℕ
display_desc b =
    if b.mode == 7
    then (if is_ega b then b'E' ∷ b'G' ∷ b'A' ∷ b'm' ∷ [] else b'*' ∷ b'M' ∷ b'D' ∷ b'A' ∷ [])
    else (if is_ega b then b'E' ∷ b'G' ∷ b'A' ∷ b'c' ∷ [] else b'*' ∷ b'C' ∷ b'G' ∷ b'A' ∷ [])

-- The characters go to the low bytes of the words from `a` on.
unfoldable pub show_desc : List ℕ → ℕ → Cells → Cells
show_desc [] a m = m
show_desc (c ∷ cs) a m = show_desc cs (a + 2) (poke a (m a / 256 * 256 + c) m)

unfoldable pub con_init : Bios → Cells → Screen
con_init b m =
    let v = video_of b in
    gotoxy v b.orig_x b.orig_y (record {
      origin = v.mem_start;
      scr_end = v.mem_start + v.lines * size_row v;
      pos = 0;
      x = 0;
      y = 0;
      top = 0;
      bottom = v.lines;
      attr = 7;
      cells = show_desc (display_desc b) (v.mem_start + size_row v - 8) m;
    })

show_desc-Outside :
    (cs : List ℕ) (a : ℕ) (m : Cells) (lo hi : ℕ)
    → lo ≤ a
    → a + 2 * length cs ≤ hi
    → Outside lo hi m (show_desc cs a m)
unfolding show_desc
show_desc-Outside [] a m lo hi h k b o = refl
show_desc-Outside (c ∷ cs) a m lo hi h k b o = ground (
  arith,
  show_desc-Outside cs (a + 2) (poke a (m a / 256 * 256 + c) m) lo hi (omega arith) (omega arith) b
      o,
)

length-display_desc : (b : Bios) → length (display_desc b) ≡ 4
unfolding display_desc
length-display_desc b = ground arith

-- With 8 to 80 columns and the cursor on the screen, the console starts with the cursor where the
-- BIOS left it, and its screen is in the video memory of the display that it has found.
pub con_init-IsShown :
    (b : Bios) (m : Cells)
    → 8 ≤ b.cols
    → b.cols ≤ 80
    → b.orig_x ≤ b.cols
    → b.orig_y < 25
    → IsShown (video_of b) m (con_init b m)
      × ((con_init b m).x ≡ b.orig_x)
      × ((con_init b m).y ≡ b.orig_y)
unfolding con_init video_of gotoxy
con_init-IsShown b m wide narrow x_in y_in =
    let ox : ltb b.cols b.orig_x ≡ false = ground arith in
    let oy : leb 25 b.orig_y ≡ false = ground arith in
    rw (ox, oy)
      (
        record {
          x_in = x_in;
          y_in = y_in;
          at = refl;
          region = omega arith;
          region_in = omega arith;
          screen = refl;
          start = omega arith;
          end = ground arith;
          outside =
              show_desc-Outside (display_desc b) _ m _ _ (omega arith)
                (ground (arith, length-display_desc b));
        },
        refl,
        refl,
      )
