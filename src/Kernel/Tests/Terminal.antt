-- ===== src/Kernel/Tests/Terminal.antt =====
-- kernel/chr_drv/ and kernel/vsprintf.c at concrete inputs.
use linux_rpg.Prelude.{
  ℕ, ◌≤◌, ◌≡◌, refl, List, [], ◌∷◌, ◌++◌, some, true, false, arith, ◌==◌, if◌then◌else◌,
}
use linux_rpg.Prelude.Int.{pos}
use linux_rpg.Kernel.Tests.{table}
use linux_rpg.Kernel.Console.{gotoxy}
use linux_rpg.Kernel.Console.Area.{IsShown}
use linux_rpg.Kernel.Console.Write.{Console, text, con_write}
use linux_rpg.Kernel.Console.Shown.{con_write-IsShown}
use linux_rpg.Kernel.Console.Start.{Bios, video_of, con_init, con_init-IsShown}
use linux_rpg.Kernel.Vsprintf.{no_flags, word, vsprintf}
use linux_rpg.Kernel.Vsprintf.Total.{vsprintf_total}
use linux_rpg.Kernel.Vsprintf.Number.{number, skip_atoi}
use linux_rpg.Kernel.Vsprintf.Digits.{skip_atoi-number}
use linux_rpg.Kernel.Tty.{Queue, Termios, Tty, copy_to_cooked}
use linux_rpg.Kernel.Tty.Print.{printed}
use linux_rpg.Kernel.Tty.Cooked.{Cooked, copy_to_cooked-Cooked}

-- A colour EGA of 80 columns, the cursor in the last line.
abbrev ega : Bios
ega = record { mode = 3; cols = 80; ega_bx = 3; orig_x = 0; orig_y = 24 }

abbrev blank : ℕ → ℕ
blank a = 1824

abbrev console : Console
console = record {
  screen = con_init ega blank;
  state = text;
  npar = 0;
  par = λ i. 0;
  ques = false;
  saved_x = 0;
  saved_y = 0;
  beepcount = 0;
  replies = [];
}

-- A letter, a new line, and the sequence that clears the screen.
abbrev typing : List ℕ
typing = b'a' ∷ 10 ∷ 27 ∷ b'[' ∷ b'2' ∷ b'J' ∷ []

ega_wide : 8 ≤ (video_of ega).columns
unfolding video_of
ega_wide = omega arith

con_write-IsShown_example :
    IsShown (video_of ega) blank (con_write (video_of ega) 127 typing console).screen
con_write-IsShown_example =
    con_write-IsShown {v = video_of ega} {m = blank} ega_wide 127 typing console
      (con_init-IsShown ega blank (omega arith) (omega arith) (omega arith) (omega arith)).0

first_column : console.screen.x ≡ 0
unfolding con_init gotoxy video_of
first_column = refl

skip_atoi-number_example :
    (s : List ℕ) × (number 1991 10 6 0 (record no_flags { zeropad = true; small = false }) ≡ some s)
    × (skip_atoi (s ++ 32 ∷ []) ≡ (1991, 32 ∷ []))
skip_atoi-number_example = skip_atoi-number 1991 6 0 false (32 ∷ []) (omega arith) refl

vsprintf_total_example :
    (r : List ℕ × List ℕ) × (vsprintf (b'%' ∷ b'd' ∷ 10 ∷ []) (word 12 ∷ []) ≡ some r)
vsprintf_total_example = vsprintf_total (b'%' ∷ b'd' ∷ 10 ∷ []) (word 12 ∷ [])

-- The modes of the console, as `tty_table` has them.
abbrev console_modes : Termios
console_modes = record {
  icrnl = true;
  igncr = false;
  inlcr = false;
  iuclc = false;
  icanon = true;
  isig = true;
  echo = true;
  echoctl = true;
  opost = true;
  ocrnl = false;
  onlret = false;
  onlcr = true;
  olcuc = false;
  kill = 21;
  erase = 127;
  eof = 4;
  stop = 19;
  start = 17;
  intr = 3;
  quit = 28;
}

abbrev no_chars : Queue
no_chars = record { line_count = 0; head = 0; tail = 0; buf = λ i. 0; wakes = 0 }

-- An `a`, an erase and a newline have come.
abbrev typed_in : Tty
typed_in = record {
  read_q = record no_chars {
    head = 3;
    buf = λ i. if i == 0 then 97 else if i == 1 then 127 else 10;
  };
  write_q = no_chars;
  secondary = no_chars;
  stopped = false;
  pgrp = pos 1;
  task = table;
}

copy_to_cooked-Cooked_example :
    (u : Tty) × (copy_to_cooked (λ q. q) console_modes typed_in ≡ some u)
    × Cooked console_modes typed_in u
copy_to_cooked-Cooked_example =
    copy_to_cooked-Cooked (λ q. q) console_modes typed_in
      (record { head_in = omega arith; tail_in = omega arith })
      (record { head_in = omega arith; tail_in = omega arith })

-- The text that goes out ends with a return and a newline.
printed_newline : printed console_modes false (b'a' ∷ 10 ∷ []) ≡ b'a' ∷ 13 ∷ 10 ∷ []
unfolding printed
printed_newline = refl
