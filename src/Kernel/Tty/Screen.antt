-- ===== src/Kernel/Tty/Screen.antt =====
-- kernel/chr_drv/tty_io.c and console.c: `tty_write` with the console behind it.
use linux_rpg.Prelude.{ℕ, zero, suc, false}
use linux_rpg.Kernel.Console.{Video}
use linux_rpg.Kernel.Console.Write.{Console, con_char}
use linux_rpg.Kernel.Tty.{Queue, chars, getch}
use linux_rpg.Kernel.Tty.Write.{Turn}

-- The loop of `con_write` with its GETCH, and the whole of it: nr = CHARS(tty->write_q).
unfoldable pub con_loop : Video → ℕ → ℕ → Queue → Console → Queue × Console
con_loop v erase zero q k = (q, k)
con_loop v erase (suc nr) q k = con_loop v erase nr (getch q) (con_char v erase (q.buf q.tail) k)

abbrev pub con_driver : Video → ℕ → Queue → Console → Queue × Console
con_driver v erase q k = con_loop v erase (chars q) q k

-- A turn without a signal.
abbrev pub calm : (Queue → Queue) → Turn
calm f = record { drained = f; signal = false }
