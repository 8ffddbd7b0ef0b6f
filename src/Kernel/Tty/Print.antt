-- ===== src/Kernel/Tty/Print.antt =====
-- kernel/chr_drv/tty_io.c: what `tty_write` puts in the write queue, and the console behind it.
use mathlib.Core.List.{append_assoc, append-nil}
use linux_rpg.Prelude.{
  ℕ, zero, suc, ◌+◌, ◌*◌, ◌≤◌, ◌<◌, ◌≡◌, ◌⊎◌, refl, sym, ap, ◌∙◌, List, [], ◌∷◌, ◌++◌, Bool, true,
  false, not, ◌&&◌, arith, inl, inr, if◌then◌else◌, length, Bool-cases,
}
use linux_rpg.Prelude.Ring.{window-put, put}
use linux_rpg.Kernel.Tty.{Queue, Termios, buf_size, chars, is_full, putch}
use linux_rpg.Kernel.Tty.Line.{IsQueue, contents, putch-IsQueue}
use linux_rpg.Kernel.Tty.Write.{Output, takes_return, out_char, write_chars}

-- PUTCH puts its character behind the contents, if there is a place for it.
pub contents-putch :
    (q : Queue) (c : ℕ)
    → IsQueue q
    → is_full q ≡ false
    → contents (putch c q) ≡ contents q ++ c ∷ []
unfolding put
contents-putch q c v room =
    let a = v.head_in in
    let b = v.tail_in in
    let n : chars (putch c q) ≡ chars q + 1 = ground arith in
    rw n (
      window-put buf_size q.buf q.tail (chars q) q.head (c ∷ []) b (ground arith) (omega arith)
        (ground arith))

chars-putch : (q : Queue) (c : ℕ) → IsQueue q → is_full q ≡ false → chars (putch c q) ≡ chars q + 1
chars-putch q c v room = let a = v.head_in in let b = v.tail_in in ground arith

-- The text that goes out for some bytes: a byte that takes a return has one before it, but for the
-- first byte if its return is out already.
unfoldable pub printed : Termios → Bool → List ℕ → List ℕ
printed m cr [] = []
printed m cr (c ∷ bs) =
    (if takes_return m c && not cr then 13 ∷ [] else []) ++ out_char m c ∷ printed m false bs

abbrev pub count : Bool → ℕ
count b = if b then 1 else 0

-- What the inner loop has done when it ends: what it has put in the queue is the front of the text,
-- and no byte is left or the queue is full.
pub record Filled (m : Termios) (cr : Bool) (bs : List ℕ) (q : Queue) (o : Output) : Type 0 where
  pub sent : List ℕ
  pub queued : contents o.queue ≡ contents q ++ sent
  pub text : printed m cr bs ≡ sent ++ printed m o.cr_flag o.rest
  pub ended : o.rest ≡ [] ⊎ is_full o.queue ≡ true
  pub queue_in : IsQueue o.queue
  pub pace : 2 * length o.rest + length sent + count cr ≤ 2 * length bs + count o.cr_flag

-- The loop does nothing more.
Filled-nothing :
    {m : Termios} {cr : Bool} {bs : List ℕ} (q : Queue)
    → IsQueue q
    → bs ≡ [] ⊎ is_full q ≡ true
    → Filled m cr bs q (record { cr_flag = cr; rest = bs; queue = q })
Filled-nothing q v ended = record {
  sent = [];
  queued = sym (append-nil (contents q));
  text = refl;
  ended = ended;
  queue_in = v;
  pace = omega arith;
}

-- One byte in the queue, and the loop goes on.
Filled-putch :
    {m : Termios} {cr cr' : Bool} {bs bs' : List ℕ} {o : Output} (q : Queue) (x : ℕ)
    → IsQueue q
    → is_full q ≡ false
    → printed m cr bs ≡ x ∷ printed m cr' bs'
    → 2 * length bs' + 1 + count cr ≤ 2 * length bs + count cr'
    → Filled m cr' bs' (putch x q) o
    → Filled m cr bs q o
Filled-putch q x v room text pace f = record {
  sent = x ∷ f.sent;
  queued = f.queued ∙ rw (contents-putch q x v room) (simp append_assoc);
  text = text ∙ ap (λ l. x ∷ l) f.text;
  ended = f.ended;
  queue_in = f.queue_in;
  pace = omega (arith, f.pace);
}

pub write_chars-Filled :
    (n : ℕ) (m : Termios) (cr : Bool) (bs : List ℕ) (q : Queue)
    → IsQueue q
    → 2 * length bs < n + count cr
    → Filled m cr bs q (write_chars n m cr bs q)
unfolding write_chars printed
write_chars-Filled zero m cr [] q v h = Filled-nothing q v (inl refl)
write_chars-Filled zero m cr (c ∷ bs) q v h = absurd (ground arith)
write_chars-Filled (suc n) m cr [] q v h = Filled-nothing q v (inl refl)
write_chars-Filled (suc n) m cr (c ∷ bs) q v h = elim (Bool-cases (is_full q)) [
  | inl full ↦ rw full (Filled-nothing q v (inr full))
  | inr room ↦ elim (Bool-cases (takes_return m c && not cr)) [
    | inl return ↦
        let first : cr ≡ false = ground arith in
        let takes : takes_return m c ≡ true = ground arith in
        let less : 2 * length (c ∷ bs) < n + count true = ground arith in
        rw (room, return)
          (Filled-putch q 13 v room (rw (takes, first, printed) refl) (ground arith)
            (write_chars-Filled n m true (c ∷ bs) (putch 13 q) (putch-IsQueue q v 13) less))
    | inr plain ↦
        rw (room, plain)
          (Filled-putch q (out_char m c) v room (rw (plain, printed) refl) (ground arith) (
            write_chars-Filled n m false bs (putch (out_char m c) q)
              (putch-IsQueue q v (out_char m c)) (ground arith)))
  ]
]
