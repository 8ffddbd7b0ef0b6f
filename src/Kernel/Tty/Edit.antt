-- ===== src/Kernel/Tty/Edit.antt =====
-- kernel/chr_drv/tty_io.c: one character of the line discipline, as an editing of the line.
use linux_rpg.Prelude.{
  ℕ, zero, suc, ◌+◌, ◌≤◌, ◌≡◌, refl, ap, ◌∙◌, List, [], ◌∷◌, none, some, Bool, true, false, ◌&&◌,
  ◌||◌, arith, inl, inr, if◌then◌else◌, Bool-cases,
}
use linux_rpg.Kernel.Tty.{
  Queue, Termios, Tty, chars, is_empty, is_full, last_char, dec_head, same, ends_line, translate,
  tty_intr, int_mask, quit_mask, echo_erase, erase_last, kill_line, echo_char, accept, cook,
}
use linux_rpg.Kernel.Tty.Line.{
  IsQueue, line, putch-IsQueue, dec_head-IsQueue, line-putch, line-dec_head, line-empty,
}

module _ (m : Termios) where
  -- A line is edited at its end, its last character first.
  abbrev pub rub : List ℕ → List ℕ
  rub [] = []
  rub (d ∷ l) = if ends_line m d then d ∷ l else l

  abbrev pub strip : List ℕ → List ℕ
  strip [] = []
  strip (d ∷ l) = if ends_line m d then d ∷ l else strip l

  -- What a character does to the line.
  pub edit : ℕ → List ℕ → List ℕ
  edit c l =
      if m.icanon && same c m.kill
      then strip l
      else if m.icanon && same c m.erase
      then rub l
      else if m.icanon && (same c m.stop || same c m.start)
      then l
      else if m.isig && (same c m.intr || same c m.quit)
      then l
      else c ∷ l

  unfoldable pub typed : List ℕ → List ℕ → List ℕ
  typed [] l = l
  typed (c ∷ cs) l = typed cs (elim (translate m c) [ none ↦ l | some d ↦ edit d l ])

control_left : (a b c : Bool) → (a && b) ≡ true → (a && (b || c)) ≡ true
control_left a b c e = ground arith

control_right : (a b c : Bool) → (a && c) ≡ true → (a && (b || c)) ≡ true
control_right a b c e = ground arith

neither : (a b c : Bool) → (a && b) ≡ false → (a && c) ≡ false → (a && (b || c)) ≡ false
neither a b c e e' = ground arith

module _ (write : Queue → Queue) (m : Termios) where
  echo_erase-secondary :
      (c : ℕ) (t : Tty)
      → ((echo_erase write m c t).secondary ≡ t.secondary)
        × ((echo_erase write m c t).read_q ≡ t.read_q)
  unfolding echo_erase
  echo_erase-secondary c t = ground arith

  echo_char-secondary :
      (c : ℕ) (t : Tty)
      → ((echo_char write m c t).secondary ≡ t.secondary)
        × ((echo_char write m c t).read_q ≡ t.read_q)
  unfolding echo_char
  echo_char-secondary c t = ground arith

  erase_last-secondary :
      (t : Tty)
      → ((erase_last write m t).secondary ≡ dec_head t.secondary)
        × ((erase_last write m t).read_q ≡ t.read_q)
  unfolding erase_last
  erase_last-secondary t =
      let (s, r) = echo_erase-secondary (last_char t.secondary) t in (ap dec_head s, r)

  fewer :
      {n : ℕ} (q : Queue)
      → IsQueue q
      → is_empty q ≡ false
      → chars q ≤ suc n
      → chars (dec_head q) ≤ n
  fewer q v some_left h = let a = v.head_in in let b = v.tail_in in ground arith

  kill_line-strip :
      (n : ℕ) (t : Tty)
      → IsQueue t.secondary
      → chars t.secondary ≤ n
      → (line (kill_line write m n t).secondary ≡ strip m (line t.secondary))
        × IsQueue (kill_line write m n t).secondary
        × ((kill_line write m n t).read_q ≡ t.read_q)
  unfolding kill_line
  kill_line-strip zero t v h =
      let a = v.head_in in
      let b = v.tail_in in
      let e : is_empty t.secondary ≡ true = ground arith in
      rw (line-empty t.secondary v e) (refl, v, refl)
  kill_line-strip (suc n) t v h = elim (Bool-cases (is_empty t.secondary)) [
    | inl e ↦ rw (e, line-empty t.secondary v e) (refl, v, refl)
    | inr some_left ↦ elim (Bool-cases (ends_line m (last_char t.secondary))) [
      | inl stop ↦ rw (some_left, stop, line-dec_head t.secondary v some_left, stop) (refl, v, refl)
      | inr further ↦
          let (s, r) = erase_last-secondary t in
          let v' : IsQueue (erase_last write m t).secondary =
            rw s (dec_head-IsQueue t.secondary v) in
          let less : chars (erase_last write m t).secondary ≤ n =
            rw s (fewer t.secondary v some_left h) in
          let (e, q, i) = kill_line-strip n (erase_last write m t) v' less in
          rw (some_left, further, line-dec_head t.secondary v some_left, further)
            (e ∙ ap (λ u. strip m (line u)) s, q, i ∙ r)
    ]
  ]

  accept-cons :
      (c : ℕ) (t : Tty)
      → IsQueue t.secondary
      → is_full t.secondary ≡ false
      → (line (accept write m c t).secondary ≡ c ∷ line t.secondary)
        × IsQueue (accept write m c t).secondary
        × ((accept write m c t).read_q ≡ t.read_q)
  unfolding accept
  accept-cons c t v room = elim (Bool-cases (ends_line m c)) [
    | inl stop ↦
        let counted = record t {
          secondary = record t.secondary { line_count = t.secondary.line_count + 1 };
        } in
        let (s, r) = echo_char-secondary c counted in
        let u : IsQueue counted.secondary = record { head_in = v.head_in; tail_in = v.tail_in } in
        rw (stop, s) (line-putch counted.secondary u c room, putch-IsQueue counted.secondary u c, r)
    | inr plain ↦
        let (s, r) = echo_char-secondary c t in
        rw (plain, s) (line-putch t.secondary v c room, putch-IsQueue t.secondary v c, r)
  ]

  rub_last :
      (t : Tty)
      → IsQueue t.secondary
      → let u =
          if is_empty t.secondary || ends_line m (last_char t.secondary)
          then t
          else erase_last write m t in
        (line u.secondary ≡ rub m (line t.secondary)) × IsQueue u.secondary × (u.read_q ≡ t.read_q)
  rub_last t v = elim (Bool-cases (is_empty t.secondary)) [
    | inl e ↦ rw (e, line-empty t.secondary v e) (refl, v, refl)
    | inr some_left ↦ elim (Bool-cases (ends_line m (last_char t.secondary))) [
      | inl stop ↦ rw (some_left, stop, line-dec_head t.secondary v some_left, stop) (refl, v, refl)
      | inr further ↦
          let (s, r) = erase_last-secondary t in
          rw (some_left, further, line-dec_head t.secondary v some_left, further)
            (ap line s, rw s (dec_head-IsQueue t.secondary v), r)
    ]
  ]

  tty_intr-secondary :
      (k : ℕ → Bool) (t : Tty)
      → ((tty_intr k t).secondary ≡ t.secondary) × ((tty_intr k t).read_q ≡ t.read_q)
  unfolding tty_intr
  tty_intr-secondary k t = ground arith

  signals :
      (c : ℕ) (t : Tty)
      → IsQueue t.secondary
      → is_full t.secondary ≡ false
      → let u =
          if m.isig && same c m.intr
          then tty_intr int_mask t
          else if m.isig && same c m.quit
          then tty_intr quit_mask t
          else accept write m c t in
        (line u.secondary ≡ (
          if m.isig && (same c m.intr || same c m.quit)
          then line t.secondary
          else c ∷ line t.secondary))
        × IsQueue u.secondary
        × (u.read_q ≡ t.read_q)
  signals c t v room = elim (Bool-cases (m.isig && same c m.intr)) [
    | inl e ↦
        let control = control_left (m.isig) (same c m.intr) (same c m.quit) e in
        let (s, r) = tty_intr-secondary int_mask t in rw (e, control, s) (refl, v, r)
    | inr not_intr ↦ elim (Bool-cases (m.isig && same c m.quit)) [
      | inl e ↦
          let control = control_right (m.isig) (same c m.intr) (same c m.quit) e in
          let (s, r) = tty_intr-secondary quit_mask t in rw (not_intr, e, control, s) (refl, v, r)
      | inr not_quit ↦
          let typed_on = neither (m.isig) (same c m.intr) (same c m.quit) not_intr not_quit in
          rw (not_intr, not_quit, typed_on) (accept-cons c t v room)
    ]
  ]

  pub cook-edit :
      (c : ℕ) (t : Tty)
      → IsQueue t.secondary
      → is_full t.secondary ≡ false
      → (line (cook write m c t).secondary ≡ edit m c (line t.secondary))
        × IsQueue (cook write m c t).secondary
        × ((cook write m c t).read_q ≡ t.read_q)
  unfolding cook edit
  cook-edit c t v room = elim (Bool-cases (m.icanon && same c m.kill)) [
    | inl e ↦ rw e (kill_line-strip (chars t.secondary) t v (omega arith))
    | inr not_kill ↦ elim (Bool-cases (m.icanon && same c m.erase)) [
      | inl e ↦ rw (not_kill, e) (rub_last t v)
      | inr not_erase ↦ elim (Bool-cases (m.icanon && same c m.stop)) [
        | inl e ↦
            let control = control_left (m.icanon) (same c m.stop) (same c m.start) e in
            rw (not_kill, not_erase, e, control) (refl, v, refl)
        | inr not_stop ↦ elim (Bool-cases (m.icanon && same c m.start)) [
          | inl e ↦
              let control = control_right (m.icanon) (same c m.stop) (same c m.start) e in
              rw (not_kill, not_erase, not_stop, e, control) (refl, v, refl)
          | inr not_start ↦
              let typed_on =
                neither (m.icanon) (same c m.stop) (same c m.start) not_stop not_start in
              rw (not_kill, not_erase, not_stop, not_start, typed_on) (signals c t v room)
        ]
      ]
    ]
  ]
