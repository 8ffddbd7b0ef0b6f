-- ===== src/Kernel/Tty/Cooked.antt =====
-- kernel/chr_drv/tty_io.c: the loop of the line discipline.
use linux_rpg.Prelude.{
  ℕ, zero, suc, ◌<◌, ◌≡◌, ◌⊎◌, refl, sym, ap, ◌∙◌, List, [], ◌∷◌, ◌++◌, some, true, false, ◌||◌,
  arith, inl, inr, Bool-cases, Option-cases,
}
use linux_rpg.Kernel.Tty.{
  Queue, Termios, Tty, chars, is_empty, is_full, getch, translate, cook_next, cook_all,
  copy_to_cooked,
}
use linux_rpg.Kernel.Tty.Line.{IsQueue, line, contents, getch-IsQueue, contents-getch}
use linux_rpg.Kernel.Tty.Edit.{typed, cook-edit}

module _ (write : Queue → Queue) (m : Termios) where
  -- One turn of the loop takes the oldest character of the read queue.
  cook_next-typed :
      (t : Tty)
      → IsQueue t.read_q
      → IsQueue t.secondary
      → is_empty t.read_q ≡ false
      → is_full t.secondary ≡ false
      → let c = t.read_q.buf t.read_q.tail in
        (line (cook_next write m t).secondary ≡ typed m (c ∷ []) (line t.secondary))
        × IsQueue (cook_next write m t).secondary
        × ((cook_next write m t).read_q ≡ getch t.read_q)
  unfolding cook_next typed
  cook_next-typed t v w some_left room =
      elim (Option-cases (translate m (t.read_q.buf t.read_q.tail))) [
        | inl e ↦ rw (e, cook_next, typed) (refl, w, refl)
        | inr (d, e) ↦
            rw (e, cook_next, typed)
              (cook-edit write m d (record t { read_q = getch t.read_q }) w room)
      ]

-- What the loop has done when it ends: the characters taken are the front of the read queue, the
-- line is edited by them, and the read queue is empty or the line's queue is full.
pub record Cooked (m : Termios) (t u : Tty) : Type 0 where
  pub taken : List ℕ
  pub oldest : contents t.read_q ≡ taken ++ contents u.read_q
  pub edited : line u.secondary ≡ typed m taken (line t.secondary)
  pub ended : is_empty u.read_q ≡ true ⊎ is_full u.secondary ≡ true
  pub read_in : IsQueue u.read_q
  pub line_in : IsQueue u.secondary

module _ (write : Queue → Queue) (m : Termios) where
  cook_all-Cooked :
      (n : ℕ) (t : Tty)
      → IsQueue t.read_q
      → IsQueue t.secondary
      → chars t.read_q < n
      → (u : Tty) × (cook_all write m n t ≡ some u) × Cooked m t u
  unfolding cook_all typed
  cook_all-Cooked zero t v w h = absurd (omega arith)
  cook_all-Cooked (suc n) t v w h = elim (Bool-cases (is_empty t.read_q || is_full t.secondary)) [
    | inl stop ↦ rw stop (
      t,
      refl,
      record {
        taken = [];
        oldest = refl;
        edited = refl;
        ended = ground arith;
        read_in = v;
        line_in = w;
      },
    )
    | inr more ↦
        let some_left : is_empty t.read_q ≡ false = ground arith in
        let room : is_full t.secondary ≡ false = ground arith in
        let c = t.read_q.buf t.read_q.tail in
        let (e, w', r) = cook_next-typed write m t v w some_left room in
        let v' : IsQueue (cook_next write m t).read_q = rw r (getch-IsQueue t.read_q v) in
        let less : chars (cook_next write m t).read_q < n =
          rw r (taken_one t.read_q v some_left h) in
        let (u, ran, k) = cook_all-Cooked n (cook_next write m t) v' w' less in
        rw more (
          u,
          ran,
          record {
            taken = c ∷ k.taken;
            oldest =
                contents-getch t.read_q v some_left
                ∙ ap (λ l. c ∷ l) (ap contents (sym r) ∙ k.oldest);
            edited = k.edited ∙ ap (typed m k.taken) e;
            ended = k.ended;
            read_in = k.read_in;
            line_in = k.line_in;
          },
        )
  ]
    where
      taken_one :
          {n : ℕ} (q : Queue)
          → IsQueue q
          → is_empty q ≡ false
          → chars q < suc n
          → chars (getch q) < n
      taken_one q v some_left h = let a = v.head_in in let b = v.tail_in in ground arith

  -- `copy_to_cooked` comes to an end, whatever the driver does with the write queue. The characters
  -- that it takes are the front of the read queue; the line in the secondary queue is edited by them
  -- one after the other (erase takes back the last character of the line being typed, kill the whole
  -- of it, neither goes beyond the end of the line before), and it stops only when the read queue is
  -- empty or the secondary queue is full.
  pub copy_to_cooked-Cooked :
      (t : Tty)
      → IsQueue t.read_q
      → IsQueue t.secondary
      → (u : Tty) × (copy_to_cooked write m t ≡ some u) × Cooked m t u
  unfolding copy_to_cooked
  copy_to_cooked-Cooked t v w =
      let (u, e, k) = cook_all-Cooked (suc (chars t.read_q)) t v w (omega arith) in
      rw (e, copy_to_cooked)
        (
          _,
          refl,
          record {
            taken = k.taken;
            oldest = k.oldest;
            edited = k.edited;
            ended = k.ended;
            read_in = k.read_in;
            line_in = record { head_in = k.line_in.head_in; tail_in = k.line_in.tail_in };
          },
        )
