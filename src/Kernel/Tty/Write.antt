-- ===== src/Kernel/Tty/Write.antt =====
-- kernel/chr_drv/tty_io.c: `tty_write`. The bytes to write are a list, and `nr` is its length. The
-- driver behind `tty->write` works on the write queue and a state of its own. No other task writes
-- to the terminal meanwhile.
use linux_rpg.Prelude.{
  ℕ, zero, suc, ◌-◌, ◌*◌, List, [], ◌∷◌, Option, none, some, Bool, true, false, not, ◌&&◌, ltb, leb,
  ◌==◌, if◌then◌else◌, length,
}
use linux_rpg.Prelude.Int.{ℤ, pos, negsuc}
use linux_rpg.Kernel.Tty.{Queue, Termios, is_full, putch}

abbrev pub to_upper : ℕ → ℕ
to_upper c = if leb b'a' c && leb c b'z' then c - 32 else c

-- CR and NL on the way out.
abbrev pub map_return : Termios → ℕ → ℕ
map_return m c = if c == 13 && m.ocrnl then 10 else if c == 10 && m.onlret then 13 else c

-- The static `cr_flag`, the bytes that are left, and the write queue.
pub record Output : Type 0 where
  pub cr_flag : Bool
  pub rest : List ℕ
  pub queue : Queue

-- True for a byte that goes out as CR and NL.
abbrev pub takes_return : Termios → ℕ → Bool
takes_return m c = m.opost && (map_return m c == 10 && m.onlcr)

abbrev pub out_char : Termios → ℕ → ℕ
out_char m c =
    if m.opost then (if m.olcuc then to_upper (map_return m c) else map_return m c) else c

-- The inner loop, with fuel: it fills the write queue.
unfoldable pub write_chars : ℕ → Termios → Bool → List ℕ → Queue → Output
write_chars zero m cr bs q = record { cr_flag = cr; rest = bs; queue = q }
write_chars (suc n) m cr [] q = record { cr_flag = cr; rest = []; queue = q }
write_chars (suc n) m cr (c ∷ bs) q =
    let return = write_chars n m true (c ∷ bs) (putch 13 q) in
    let further = write_chars n m false bs (putch (out_char m c) q) in
    if is_full q
    then record { cr_flag = cr; rest = c ∷ bs; queue = q }
    else if takes_return m c && not cr
    then return
    else further

-- What happens before a turn of the outer loop: what the queue is after a sleep on it, if it was
-- full, and whether the task has a signal then.
pub record Turn : Type 0 where
  pub drained : Queue → Queue
  pub signal : Bool

-- sleep_if_full
abbrev pub sleep_if_full : Turn → Queue → Queue
sleep_if_full r q = if is_full q then r.drained q else q

module _ {ℓ} {D : Type ℓ} (write : Queue → D → Queue × D) (m : Termios) where
  -- The outer loop; `none` if the turns that are given are over before it is.
  unfoldable pub write_turns : List Turn → Bool → List ℕ → Queue → D → Option (Output × D)
  write_turns turns cr [] q d = some (record { cr_flag = cr; rest = []; queue = q }, d)
  write_turns [] cr (c ∷ bs) q d = none
  write_turns (r ∷ turns) cr (c ∷ bs) q d =
      let q' = sleep_if_full r q in
      let o = write_chars (suc (2 * length (c ∷ bs))) m cr (c ∷ bs) q' in
      let (q2, e) = write o.queue d in
      let further = write_turns turns o.cr_flag o.rest q2 e in
      if r.signal then some (record { cr_flag = cr; rest = c ∷ bs; queue = q' }, d) else further

  -- The value, and what is left: `queue` and the driver's state belong to the terminal that the
  -- channel is.
  unfoldable pub tty_write : ℕ → List Turn → Bool → List ℕ → Queue → D → Option (ℤ × Output × D)
  tty_write channel turns cr bs q d =
      let done = write_turns turns cr bs q d in
      if ltb 2 channel
      then some (negsuc 0, record { cr_flag = cr; rest = bs; queue = q }, d)
      else elim done [ none ↦ none | some (o, e) ↦ some (pos (length bs - length o.rest), o, e) ]
