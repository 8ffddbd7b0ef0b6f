-- ===== src/Kernel/Tty.antt =====
-- kernel/chr_drv/tty_io.c and include/linux/tty.h: the queues of a terminal and the line discipline.
-- Characters are bytes; a `signed char` from 128 on is negative, so it is below 32 and
-- equals none of the control characters. The driver behind `tty->write` is an argument, which works
-- on the write queue. The task table, which `tty_intr` changes, is part of the state.
pub mod Line
pub mod Cooked
pub mod Edit
pub mod Write
pub mod Print
pub mod Screen
use linux_rpg.Prelude.{
  ℕ, zero, suc, ◌+◌, ◌-◌, ◌%◌, List, [], ◌∷◌, map, Option, none, some, Bool, true, false, not, ◌&&◌,
  ◌||◌, ltb, leb, ◌==◌, if◌then◌else◌,
}
use linux_rpg.Prelude.Int.{ℤ, pos, negsuc, ◌==ℤ◌, ltb_ℤ}
use linux_rpg.Prelude.Mask.{Mask, mask_or}
use linux_rpg.Prelude.Ring.{Bytes, write_byte}
use linux_rpg.Kernel.Task.{Task, Table, sig_bit}

abbrev pub buf_size : ℕ
buf_size = 1024

-- `line_count` is the source's `data`; the readers that `proc_list` wakes are counted.
pub record Queue : Type 0 where
  pub line_count : ℕ
  pub head : ℕ
  pub tail : ℕ
  pub buf : Bytes
  pub wakes : ℕ

-- (a - 1) & (TTY_BUF_SIZE - 1)
abbrev pub before : ℕ → ℕ
before a = (a + 1023) % buf_size

abbrev pub is_empty : Queue → Bool
is_empty q = q.head == q.tail

-- LEFT and CHARS
abbrev pub left : Queue → ℕ
left q = (q.tail + 1023 - q.head) % buf_size

abbrev pub chars : Queue → ℕ
chars q = (q.head + 1024 - q.tail) % buf_size

abbrev pub is_full : Queue → Bool
is_full q = left q == 0

-- LAST
abbrev pub last_char : Queue → ℕ
last_char q = q.buf (before q.head)

abbrev pub dec_head : Queue → Queue
dec_head q = record q { head = before q.head }

abbrev pub putch : ℕ → Queue → Queue
putch c q = record q { buf = write_byte q.buf q.head c; head = (q.head + 1) % buf_size }

-- What GETCH leaves; the character is `q.buf q.tail`.
abbrev pub getch : Queue → Queue
getch q = record q { tail = (q.tail + 1) % buf_size }

-- The flags and control characters of a `struct termios` that are read.
pub record Termios : Type 0 where
  pub icrnl : Bool
  pub igncr : Bool
  pub inlcr : Bool
  pub iuclc : Bool
  pub icanon : Bool
  pub isig : Bool
  pub echo : Bool
  pub echoctl : Bool
  pub opost : Bool
  pub ocrnl : Bool
  pub onlret : Bool
  pub onlcr : Bool
  pub olcuc : Bool
  pub kill : ℕ
  pub erase : ℕ
  pub eof : ℕ
  pub stop : ℕ
  pub start : ℕ
  pub intr : ℕ
  pub quit : ℕ

pub record Tty : Type 0 where
  pub read_q : Queue
  pub write_q : Queue
  pub secondary : Queue
  pub stopped : Bool
  pub pgrp : ℤ
  pub task : Table

-- c == k, for a signed `c` and an unsigned `k`
abbrev pub same : ℕ → ℕ → Bool
same c k = ltb c 128 && c == k

-- c < 32
abbrev pub is_low : ℕ → Bool
is_low c = ltb c 32 || leb 128 c

-- A negative char, which the table of lib/ctype.c is read in front of, is taken not to be upper case.
abbrev pub to_lower : ℕ → ℕ
to_lower c = if leb b'A' c && leb c b'Z' then c + 32 else c

unfoldable pub tty_intr : Mask → Tty → Tty
tty_intr mask t =
    if ltb_ℤ (pos 0) t.pgrp
    then record t {
      task =
          map
            (λ p. elim p [
              | none ↦ none
              | some u ↦
                  some (
                    if u.ids.pgrp ==ℤ t.pgrp
                    then record u { signal = mask_or u.signal mask }
                    else u)
            ])
            t.task;
    }
    else t

-- INTMASK and QUITMASK
abbrev pub int_mask : Mask
int_mask = sig_bit 2

abbrev pub quit_mask : Mask
quit_mask = sig_bit 3

-- The character that goes on, if any: CR and NL, and upper case.
unfoldable pub translate : Termios → ℕ → Option ℕ
translate m c =
    let case = λ (d : ℕ). if m.iuclc then to_lower d else d in
    if c == 13
    then (if m.icrnl then some (case 10) else if m.igncr then none else some (case 13))
    else if c == 10 && m.inlcr
    then some (case 13)
    else some (case c)

-- The end of the line before: a newline or an end of file.
abbrev pub ends_line : Termios → ℕ → Bool
ends_line m c = c == 10 || same c m.eof

module _ (write : Queue → Queue) (m : Termios) where
  -- The echo of a character that is taken back.
  unfoldable pub echo_erase : ℕ → Tty → Tty
  echo_erase c t =
      if m.echo
      then record t {
        write_q = write (putch 127 (if is_low c then putch 127 t.write_q else t.write_q));
      }
      else t

  -- One character is taken back.
  unfoldable pub erase_last : Tty → Tty
  erase_last t =
      let u = echo_erase (last_char t.secondary) t in record u { secondary = dec_head u.secondary }

  -- The loop on the kill character, with fuel.
  unfoldable pub kill_line : ℕ → Tty → Tty
  kill_line zero t = t
  kill_line (suc n) t =
      let further = kill_line n (erase_last t) in
      if is_empty t.secondary || ends_line m (last_char t.secondary) then t else further

  unfoldable pub echo_char : ℕ → Tty → Tty
  echo_char c t =
      if not m.echo
      then t
      else if c == 10
      then record t { write_q = write (putch 13 (putch 10 t.write_q)) }
      else if is_low c
      then record t {
        write_q =
            write (if m.echoctl then putch ((c + 64) % 256) (putch b'^' t.write_q) else t.write_q);
      }
      else record t { write_q = write (putch c t.write_q) }

  -- The last part of the loop: the character goes to the line.
  unfoldable pub accept : ℕ → Tty → Tty
  accept c t =
      let u =
        if ends_line m c
        then record t { secondary = record t.secondary { line_count = t.secondary.line_count + 1 } }
        else t in
      let w = echo_char c u in record w { secondary = putch c w.secondary }

  -- What the loop does with a translated character.
  unfoldable pub cook : ℕ → Tty → Tty
  cook c t =
      if m.icanon && same c m.kill
      then kill_line (chars t.secondary) t
      else if m.icanon && same c m.erase
      then (if is_empty t.secondary || ends_line m (last_char t.secondary) then t else erase_last t)
      else if m.icanon && same c m.stop
      then record t { stopped = true }
      else if m.icanon && same c m.start
      then record t { stopped = false }
      else if m.isig && same c m.intr
      then tty_intr int_mask t
      else if m.isig && same c m.quit
      then tty_intr quit_mask t
      else accept c t

  -- One turn of the loop.
  unfoldable pub cook_next : Tty → Tty
  cook_next t =
      let c = t.read_q.buf t.read_q.tail in
      let u = record t { read_q = getch t.read_q } in
      elim (translate m c) [ none ↦ u | some d ↦ cook d u ]

  -- The loop with fuel: it ends by its test, or the fuel has run out (`none`).
  unfoldable pub cook_all : ℕ → Tty → Option Tty
  cook_all zero t = none
  cook_all (suc n) t =
      let further = cook_all n (cook_next t) in
      if is_empty t.read_q || is_full t.secondary then some t else further

  unfoldable pub copy_to_cooked : Tty → Option Tty
  copy_to_cooked t = elim (cook_all (suc (chars t.read_q)) t) [
    | none ↦ none
    | some u ↦ some (record u { secondary = record u.secondary { wakes = u.secondary.wakes + 1 } })
  ]
