-- ===== src/Kernel/Tty/Line.antt =====
-- include/linux/tty.h: the characters in a queue.
use linux_rpg.Prelude.{
  ℕ, zero, suc, ◌+◌, ◌-◌, ◌%◌, ◌≤◌, ◌<◌, ◌≡◌, ◌≢◌, refl, ap, List, [], ◌∷◌, true, false, arith,
  ◌==◌, length,
}
use linux_rpg.Prelude.Ring.{Bytes, write_byte, window}
use linux_rpg.Kernel.Tty.{
  Queue, buf_size, before, chars, is_empty, is_full, last_char, dec_head, putch, getch,
}

-- The indices are in the buffer.
pub record IsQueue (q : Queue) : Type 0 where
  pub head_in : q.head < buf_size
  pub tail_in : q.tail < buf_size

-- `n` characters, from the one before index `h` back.
unfoldable pub back : Bytes → ℕ → ℕ → List ℕ
back f h zero = []
back f h (suc n) = f (before h) ∷ back f (before h) n

-- The line that is being typed, the last character first.
abbrev pub line : Queue → List ℕ
line q = back q.buf q.head (chars q)

-- The characters in the order in which they came.
abbrev pub contents : Queue → List ℕ
contents q = window buf_size q.buf q.tail (chars q)

pub length-back : (f : Bytes) (h n : ℕ) → length (back f h n) ≡ n
unfolding back
length-back f h zero = refl
length-back f h (suc n) = ap suc (length-back f (before h) n)

-- A character in a place that is not looked at.
back-write_byte :
    (f : Bytes) (h n i c : ℕ)
    → h < buf_size
    → i < buf_size
    → n ≤ (h + 1023 - i) % buf_size
    → back (write_byte f i c) h n ≡ back f h n
unfolding back
back-write_byte f h zero i c hh hi le = refl
back-write_byte f h (suc n) i c hh hi le =
    let apart : before h ≢ i = λ e. absurd (omega (arith, e)) in
    let other : (before h == i) ≡ false = ground arith in
    let rest : n ≤ (before h + 1023 - i) % buf_size = omega arith in
    rw other (ap (λ l. f (before h) ∷ l) (back-write_byte f (before h) n i c (omega arith) hi rest))

module _ (q : Queue) (v : IsQueue q) where
  pub putch-IsQueue : (c : ℕ) → IsQueue (putch c q)
  putch-IsQueue c = record { head_in = omega arith; tail_in = v.tail_in }

  pub dec_head-IsQueue : IsQueue (dec_head q)
  dec_head-IsQueue = record { head_in = omega arith; tail_in = v.tail_in }

  pub getch-IsQueue : IsQueue (getch q)
  getch-IsQueue = record { head_in = v.head_in; tail_in = omega arith }

  -- PUTCH puts its character behind the others, if there is a place for it.
  pub line-putch : (c : ℕ) → is_full q ≡ false → line (putch c q) ≡ c ∷ line q
  unfolding back
  line-putch c room =
      let a = v.head_in in
      let b = v.tail_in in
      let n : chars (putch c q) ≡ suc (chars q) = ground arith in
      let at : before ((q.head + 1) % buf_size) ≡ q.head = omega arith in
      let here : (q.head == q.head) ≡ true = ground arith in
      rw (n, at, here)
        (ap (λ l. c ∷ l) (back-write_byte q.buf q.head (chars q) q.head c a a (ground arith)))

  -- A queue with something in it: its last character, and the line without it.
  pub line-dec_head : is_empty q ≡ false → line q ≡ last_char q ∷ line (dec_head q)
  unfolding back
  line-dec_head some_left =
      let a = v.head_in in
      let b = v.tail_in in let n : chars q ≡ suc (chars (dec_head q)) = ground arith in rw n refl

  pub line-empty : is_empty q ≡ true → line q ≡ []
  unfolding back
  line-empty e =
      let a = v.head_in in let b = v.tail_in in let n : chars q ≡ 0 = ground arith in rw n refl

  -- GETCH takes the oldest character.
  pub contents-getch : is_empty q ≡ false → contents q ≡ q.buf q.tail ∷ contents (getch q)
  unfolding window
  contents-getch some_left =
      let a = v.head_in in
      let b = v.tail_in in let n : chars q ≡ suc (chars (getch q)) = ground arith in rw n refl
