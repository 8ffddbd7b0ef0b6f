-- ===== src/Kernel/Console.antt =====
-- kernel/chr_drv/console.c: the screen, the escape sequences and `con_write`. The video memory is a
-- function from even addresses to words. Addresses and cursor positions are numbers, whose sums
-- stay below 2 ^ 32 since they stay in the video memory; sums with a parameter of a sequence wrap.
-- Writes to the ports of the video controller and of the beeper are not part of the model.
mod Blocks
pub mod Area
pub mod Edit
pub mod Write
pub mod Shown
pub mod Start
use linux_rpg.Prelude.{
  ℕ, zero, suc, ◌+◌, ◌-◌, ◌*◌, ◌/◌, ◌%◌, ◌^◌, List, [], ◌∷◌, ◌++◌, Bool, true, false, not, ◌&&◌,
  ◌||◌, ltb, leb, ◌==◌, if◌then◌else◌,
}

abbrev pub Cells : Type 0
Cells = ℕ → ℕ

-- What `con_init` finds out about the display. `ega` stands for the two EGA types.
pub record Video : Type 0 where
  pub columns : ℕ
  pub lines : ℕ
  pub mem_start : ℕ
  pub mem_end : ℕ
  pub ega : Bool
  pub erase : ℕ

abbrev pub size_row : Video → ℕ
size_row v = v.columns * 2

pub record Screen : Type 0 where
  pub origin : ℕ
  pub scr_end : ℕ
  pub pos : ℕ
  pub x : ℕ
  pub y : ℕ
  pub top : ℕ
  pub bottom : ℕ
  pub attr : ℕ
  pub cells : Cells

abbrev pub poke : ℕ → ℕ → Cells → Cells
poke a w m b = if b == a then w else m b

-- cld; rep; stosw
unfoldable pub fill_up : ℕ → ℕ → ℕ → Cells → Cells
fill_up zero d w m = m
fill_up (suc n) d w m = fill_up n (d + 2) w (poke d w m)

-- std; rep; stosw
unfoldable pub fill_down : ℕ → ℕ → ℕ → Cells → Cells
fill_down zero d w m = m
fill_down (suc n) d w m = fill_down n (d - 2) w (poke d w m)

-- One `movsl`: four bytes are read, then written.
abbrev pub move : ℕ → ℕ → Cells → Cells
move s d m = poke (d + 2) (m (s + 2)) (poke d (m s) m)

-- cld; rep; movsl
unfoldable pub copy_up : ℕ → ℕ → ℕ → Cells → Cells
copy_up zero s d m = m
copy_up (suc n) s d m = copy_up n (s + 4) (d + 4) (move s d m)

-- std; rep; movsl
unfoldable pub copy_down : ℕ → ℕ → ℕ → Cells → Cells
copy_down zero s d m = m
copy_down (suc n) s d m = copy_down n (s - 4) (d - 4) (move s d m)

unfoldable pub gotoxy : Video → ℕ → ℕ → Screen → Screen
gotoxy v new_x new_y s =
    if ltb v.columns new_x || leb v.lines new_y
    then s
    else record s { x = new_x; y = new_y; pos = s.origin + new_y * size_row v + new_x * 2 }

-- The block moves of `scrup` within the lines from `top` to `bottom`.
unfoldable pub roll_up : Video → Screen → Screen
roll_up v s =
    let n = (s.bottom - s.top - 1) * v.columns / 2 in
    let d = s.origin + size_row v * s.top in
    record s {
      cells =
          fill_up v.columns (d + 4 * n) v.erase
            (copy_up n (s.origin + size_row v * (s.top + 1)) d s.cells);
    }

-- The fast scroll: the origin moves on by a line, or, at the end of the video memory, the lines
-- that stay are copied to its start.
unfoldable pub roll_origin : Video → Screen → Screen
roll_origin v s =
    let n = (v.lines - 1) * v.columns / 2 in
    let new = s.origin + size_row v in
    if ltb v.mem_end (s.scr_end + size_row v)
    then record s {
      origin = v.mem_start;
      scr_end = s.scr_end + size_row v - (new - v.mem_start);
      pos = s.pos + size_row v - (new - v.mem_start);
      cells = fill_up v.columns (v.mem_start + 4 * n) v.erase (copy_up n new v.mem_start s.cells);
    }
    else record s {
      origin = new;
      scr_end = s.scr_end + size_row v;
      pos = s.pos + size_row v;
      cells = fill_up v.columns s.scr_end v.erase s.cells;
    }

unfoldable pub scrup : Video → Screen → Screen
scrup v s = if v.ega && (s.top == 0 && s.bottom == v.lines) then roll_origin v s else roll_up v s

unfoldable pub scrdown : Video → Screen → Screen
scrdown v s =
    let n = (s.bottom - s.top - 1) * v.columns / 2 in
    let d = s.origin + size_row v * s.bottom - 4 in
    record s {
      cells =
          fill_down v.columns (d - 4 * n + 2) v.erase
            (copy_down n (s.origin + size_row v * (s.bottom - 1) - 4) d s.cells);
    }

unfoldable pub lf : Video → Screen → Screen
lf v s =
    if ltb (s.y + 1) s.bottom then record s { y = s.y + 1; pos = s.pos + size_row v } else scrup v s

unfoldable pub ri : Video → Screen → Screen
ri v s = if ltb s.top s.y then record s { y = s.y - 1; pos = s.pos - size_row v } else scrdown v s

unfoldable pub cr : Screen → Screen
cr s = record s { pos = s.pos - s.x * 2; x = 0 }

unfoldable pub del : Video → Screen → Screen
del v s =
    if s.x == 0
    then s
    else record s { pos = s.pos - 2; x = s.x - 1; cells = poke (s.pos - 2) v.erase s.cells }

abbrev pub erase_from : Video → ℕ → ℕ → Screen → Screen
erase_from v start count s = record s { cells = fill_up count start v.erase s.cells }

unfoldable pub csi_J : Video → ℕ → Screen → Screen
csi_J v par s =
    if par == 0
    then erase_from v s.pos ((s.scr_end - s.pos) / 2) s
    else if par == 1
    then erase_from v s.origin ((s.pos - s.origin) / 2) s
    else if par == 2
    then erase_from v s.origin (v.columns * v.lines) s
    else s

unfoldable pub csi_K : Video → ℕ → Screen → Screen
csi_K v par s =
    if par == 0
    then (if leb v.columns s.x then s else erase_from v s.pos (v.columns - s.x) s)
    else if par == 1
    then erase_from v (s.pos - s.x * 2) (if ltb s.x v.columns then s.x else v.columns) s
    else if par == 2
    then erase_from v (s.pos - s.x * 2) v.columns s
    else s

-- The attribute that one parameter of `csi_m` sets.
abbrev pub attr_of : ℕ → ℕ → ℕ
attr_of par attr =
    if par == 0 || par == 27
    then 7
    else if par == 1 || par == 4
    then 15
    else if par == 7
    then 112
    else attr

-- The parameters from 0 to `npar`, in this order.
unfoldable pub csi_m : ℕ → (ℕ → ℕ) → ℕ → ℕ
csi_m zero par attr = attr_of (par 0) attr
csi_m (suc n) par attr = attr_of (par (suc n)) (csi_m n par attr)

-- The loop of `insert_char`: each place takes what was before it.
unfoldable pub shift_right : ℕ → ℕ → ℕ → Cells → Cells
shift_right zero p old m = m
shift_right (suc n) p old m = shift_right n (p + 2) (m p) (poke p old m)

unfoldable pub insert_char : Video → Screen → Screen
insert_char v s = record s { cells = shift_right (v.columns - s.x) s.pos v.erase s.cells }

-- The loop of `delete_char`, which ends on the last place of the line.
unfoldable pub shift_left : ℕ → ℕ → ℕ → Cells → Cells
shift_left zero p blank m = poke p blank m
shift_left (suc n) p blank m = shift_left n (p + 2) blank (poke p (m (p + 2)) m)

unfoldable pub delete_char : Video → Screen → Screen
delete_char v s =
    if leb v.columns s.x
    then s
    else record s { cells = shift_left (v.columns - s.x - 1) s.pos v.erase s.cells }

-- `insert_line` and `delete_line` scroll the lines from the cursor's on.
abbrev pub below : Video → (Screen → Screen) → Screen → Screen
below v f s = record (f (record s { top = s.y; bottom = v.lines })) {
  top = s.top;
  bottom = s.bottom;
}

unfoldable pub insert_line : Video → Screen → Screen
insert_line v = below v (scrdown v)

unfoldable pub delete_line : Video → Screen → Screen
delete_line v = below v (scrup v)

unfoldable pub times : ℕ → (Screen → Screen) → Screen → Screen
times zero f s = s
times (suc n) f s = times n f (f s)

-- How often a command is done: at most `limit` times, and once for 0.
abbrev pub at_most : ℕ → ℕ → ℕ
at_most limit nr = if ltb limit nr then limit else if nr == 0 then 1 else nr

unfoldable pub csi_at : Video → ℕ → Screen → Screen
csi_at v nr = times (at_most v.columns nr) (insert_char v)

unfoldable pub csi_L : Video → ℕ → Screen → Screen
csi_L v nr = times (at_most v.lines nr) (insert_line v)

unfoldable pub csi_P : Video → ℕ → Screen → Screen
csi_P v nr = times (at_most v.columns nr) (delete_char v)

unfoldable pub csi_M : Video → ℕ → Screen → Screen
csi_M v nr = times (at_most v.lines nr) (delete_line v)
