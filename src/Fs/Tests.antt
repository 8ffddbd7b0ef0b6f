-- ===== src/Fs/Tests.antt =====
-- fs/ at concrete inputs.
mod Blocks
mod Names
use linux_rpg.Prelude.{List, false, ◌%◌, some, none, replicate, ◌==◌, if◌then◌else◌}
use linux_rpg.Prelude.Int.{pos}
use linux_rpg.Prelude.Mask.{empty}
use linux_rpg.Fs.Buffer.{Cache, Change}
use linux_rpg.Fs.Files.{Files, dupfd, free_from}
use linux_rpg.Fs.Files.Lowest.{Duped, dupfd-Duped}
use mathlib.Core.List.{append-nil}
use linux_rpg.Prelude.{◌≡◌, refl, [], ◌∷◌}
use linux_rpg.Prelude.Ring.{window}
use linux_rpg.Fs.Pipe.{Pipe}
use linux_rpg.Fs.Pipe.Bounds.{contents, after_write}
use linux_rpg.Fs.Pipe.Queue.{Event}

-- Three bytes, round the end of the page.
abbrev wrapped : Pipe
wrapped = record { page = λ i. i % 256; head = 2; tail = 4095; i_count = 2; wakes = 0 }

contents-wrapped : contents wrapped ≡ 255 ∷ 0 ∷ 1 ∷ []
unfolding window
contents-wrapped = refl

-- Another task is woken, and puts a byte into the pipe.
abbrev one_byte : Event
one_byte = record { effect = after_write 1 (7 ∷ []); bytes = 7 ∷ [] }

-- The descriptors 0 and 2 are open on file 4, all others are closed.
abbrev two_open : Files
two_open = record {
  filp = some 4 ∷ none ∷ some 4 ∷ replicate 17 none;
  f_count = λ g. if g == 4 then 2 else 0;
  close_on_exec = empty;
}

dupfd_lowest : (dupfd 2 0 two_open).0 ≡ pos 1
unfolding dupfd free_from
dupfd_lowest = refl

dupfd-Duped_example : Duped 2 0 two_open (dupfd 2 0 two_open)
dupfd-Duped_example = dupfd-Duped 2 0 two_open refl

-- Two buffers without a block; the first is unused, the second in use and locked.
abbrev cache : Cache
cache = record {
  head = λ b. record {
    b_dev = 0;
    b_blocknr = 0;
    b_uptodate = false;
    b_dirt = false;
    b_count = b;
    b_lock = b == 1;
  };
  hash_table = λ i. [];
  free_list = 0 ∷ 1 ∷ [];
}

-- The caller may sleep once, while one_byte happens.
abbrev one_sleep : List Change
one_sleep = (λ c. c) ∷ []
