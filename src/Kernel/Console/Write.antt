-- ===== src/Kernel/Console/Write.antt =====
-- kernel/chr_drv/console.c: `con_write`, character by character. The answer that `respond` puts in the terminal's read queue is collected.
-- The parameters that a command has counted down are not kept, since the next sequence clears them.
use linux_rpg.Prelude.{
  ℕ, ◌+◌, ◌-◌, ◌*◌, ◌%◌, ◌^◌, List, [], ◌∷◌, ◌++◌, Bool, not, ◌&&◌, ◌||◌, ltb, leb, ◌==◌,
  if◌then◌else◌,
}
use linux_rpg.Kernel.Console.{
  Video, Screen, size_row, poke, gotoxy, lf, ri, cr, del, csi_J, csi_K, csi_m, csi_at, csi_L, csi_P,
  csi_M,
}

-- The values 0, 1, 2 and 3 that `state` has between two characters.
pub data Parsing : Type 0 where
  text escape bracket numbers : Parsing

pub record Console : Type 0 where
  pub screen : Screen
  pub state : Parsing
  pub npar : ℕ
  pub par : ℕ → ℕ
  pub ques : Bool
  pub saved_x : ℕ
  pub saved_y : ℕ
  pub beepcount : ℕ
  pub replies : List ℕ

abbrev pub on_screen : (Screen → Screen) → Console → Console
on_screen f k = record k { screen = f k.screen }

-- A place behind the line's end is the first one of the next line.
unfoldable pub wrap_line : Video → Screen → Screen
wrap_line v s = lf v (record s { x = s.x - v.columns; pos = s.pos - size_row v })

unfoldable pub put_char : Video → ℕ → Screen → Screen
put_char v c s =
    let t = if leb v.columns s.x then wrap_line v s else s in
    record t { cells = poke t.pos (t.attr * 256 + c) t.cells; pos = t.pos + 2; x = t.x + 1 }

unfoldable pub back_space : Screen → Screen
back_space s = if s.x == 0 then s else record s { x = s.x - 1; pos = s.pos - 2 }

unfoldable pub tab : Video → Screen → Screen
tab v s =
    let c = 8 - s.x % 8 in
    let t = record s { x = s.x + c; pos = s.pos + c * 2 } in
    if ltb v.columns t.x then wrap_line v t else t

-- The screen in state 0, for any character but the bell and the escape. A `char` from 128 on is
-- negative, and so equal to no ERASE_CHAR.
unfoldable pub text_char : Video → ℕ → ℕ → Screen → Screen
text_char v erase c s =
    if ltb 31 c && ltb c 127
    then put_char v c s
    else if c == 10 || (c == 11 || c == 12)
    then lf v s
    else if c == 13
    then cr s
    else if ltb c 128 && c == erase
    then del v s
    else if c == 8
    then back_space s
    else if c == 9
    then tab v s
    else s

-- RESPONSE
abbrev pub response : List ℕ
response = 27 ∷ b'[' ∷ b'?' ∷ b'1' ∷ b';' ∷ b'2' ∷ b'c' ∷ []

abbrev pub save_cur : Console → Console
save_cur k = record k { saved_x = k.screen.x; saved_y = k.screen.y }

abbrev pub restore_cur : Video → Console → Console
restore_cur v k = on_screen (gotoxy v k.saved_x k.saved_y) k

-- State 1. The last two tests are of the cursor's column `x`, as in the source.
unfoldable pub escape_char : Video → ℕ → Console → Console
escape_char v c k =
    let n = record k { state = text } in
    if c == b'['
    then record k { state = bracket }
    else if c == b'E'
    then on_screen (gotoxy v 0 (k.screen.y + 1)) n
    else if c == b'M'
    then on_screen (ri v) n
    else if c == b'D'
    then on_screen (lf v) n
    else if c == b'Z'
    then record n { replies = k.replies ++ response }
    else if k.screen.x == b'7'
    then save_cur n
    else if k.screen.x == b'8'
    then restore_cur v n
    else n

-- Sums and differences of `unsigned long`.
abbrev pub plus : ℕ → ℕ → ℕ
plus a b = (a + b) % 2 ^ 32

abbrev pub minus : ℕ → ℕ → ℕ
minus a b = (a + (2 ^ 32 - b)) % 2 ^ 32

-- if (!par[0]) par[0]++;
abbrev pub at_least_one : ℕ → ℕ
at_least_one n = if n == 0 then 1 else n

-- The commands that move the cursor.
unfoldable pub move_command : Video → ℕ → ℕ → ℕ → Screen → Screen
move_command v c p q s =
    let n = at_least_one p in
    if c == b'G' || c == b'`'
    then gotoxy v (p - 1) s.y s
    else if c == b'A'
    then gotoxy v s.x (minus s.y n) s
    else if c == b'B' || c == b'e'
    then gotoxy v s.x (plus s.y n) s
    else if c == b'C' || c == b'a'
    then gotoxy v (plus s.x n) s.y s
    else if c == b'D'
    then gotoxy v (minus s.x n) s.y s
    else if c == b'E'
    then gotoxy v 0 (plus s.y n) s
    else if c == b'F'
    then gotoxy v 0 (minus s.y n) s
    else if c == b'd'
    then gotoxy v s.x (p - 1) s
    else if c == b'H' || c == b'f'
    then gotoxy v (q - 1) (p - 1) s
    else s

-- `r`: the lines that scroll, from `p` to `q`.
unfoldable pub set_region : Video → ℕ → ℕ → Screen → Screen
set_region v p q s =
    let last = if q == 0 then v.lines else q in
    if ltb (p - 1) last && leb last v.lines then record s { top = p - 1; bottom = last } else s

-- The commands that change what the screen shows, and the scroll region.
unfoldable pub edit_command : Video → ℕ → ℕ → ℕ → Screen → Screen
edit_command v c p q s =
    if c == b'J'
    then csi_J v p s
    else if c == b'K'
    then csi_K v p s
    else if c == b'L'
    then csi_L v p s
    else if c == b'M'
    then csi_M v p s
    else if c == b'P'
    then csi_P v p s
    else if c == b'@'
    then csi_at v p s
    else if c == b'r'
    then set_region v p q s
    else s

-- State 4: a command, and the end of the sequence.
unfoldable pub command : Video → ℕ → Console → Console
command v c k =
    let p = k.par 0 in
    let q = k.par 1 in
    let n = record k { state = text } in
    if c == b'm'
    then on_screen (λ s. record s { attr = csi_m k.npar k.par s.attr }) n
    else if c == b's'
    then save_cur n
    else if c == b'u'
    then restore_cur v n
    else on_screen (λ s. edit_command v c p q (move_command v c p q s)) n

-- State 3: a parameter goes on, the next one begins, or the command is there.
unfoldable pub number_char : Video → ℕ → Console → Console
number_char v c k =
    if c == b';' && ltb k.npar 15
    then record k { npar = k.npar + 1 }
    else if leb b'0' c && leb c b'9'
    then record k { par = λ i. if i == k.npar then (10 * k.par i + c - b'0') % 2 ^ 32 else k.par i }
    else command v c k

-- State 2 clears the parameters, and goes on as state 3 unless the character is a question mark.
unfoldable pub bracket_char : Video → ℕ → Console → Console
bracket_char v c k =
    let n = record k { state = numbers; npar = 0; par = λ i. 0; ques = c == b'?' } in
    if c == b'?' then n else number_char v c n

-- The switch of `con_write`; `erase` is ERASE_CHAR(tty).
unfoldable pub state_char : Video → ℕ → ℕ → Console → Parsing → Console
state_char v erase c k text =
    if c == 27
    then record k { state = escape }
    else if c == 7 && not (c == erase)
    then record k { beepcount = 12 }
    else on_screen (text_char v erase c) k
state_char v erase c k escape = escape_char v c k
state_char v erase c k bracket = bracket_char v c k
state_char v erase c k numbers = number_char v c k

-- One turn of the loop.
unfoldable pub con_char : Video → ℕ → ℕ → Console → Console
con_char v erase c k = state_char v erase c k k.state

-- The characters are those that were in the terminal's write queue.
unfoldable pub con_write : Video → ℕ → List ℕ → Console → Console
con_write v erase [] k = k
con_write v erase (c ∷ cs) k = con_write v erase cs (con_char v erase c k)
