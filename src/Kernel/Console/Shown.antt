-- ===== src/Kernel/Console/Shown.antt =====
-- kernel/chr_drv/console.c: what `con_write` keeps, whatever is written.
use linux_rpg.Prelude.{
  ℕ, ◌+◌, ◌-◌, ◌*◌, ◌%◌, ◌≤◌, ◌<◌, ◌≡◌, ◌≢◌, ◌⊎◌, List, [], ◌∷◌, Bool, true, false, not, ◌&&◌, ◌||◌,
  arith, inl, inr, ltb, leb, ◌==◌, if◌then◌else◌, Bool-cases,
}
use linux_rpg.Kernel.Console.{
  Cells, lf, scrup, roll_up, roll_origin, Video, Screen, size_row, at_most, csi_at, csi_L, csi_P,
  csi_M,
}
use linux_rpg.Kernel.Console.Area.{
  IsShown, row_le, gotoxy-IsShown, cr-IsShown, lf-IsShown, ri-IsShown, del-IsShown,
}
use linux_rpg.Kernel.Console.Edit.{
  if-IsShown, csi_J-IsShown, csi_K-IsShown, insert_char-IsShown, delete_char-IsShown,
  insert_line-IsShown, delete_line-IsShown, times-IsShown,
}
use linux_rpg.Kernel.Console.Write.{
  Console, Parsing, text, escape, bracket, numbers, wrap_line, put_char, back_space, tab, text_char,
  escape_char, set_region, move_command, edit_command, command, number_char, bracket_char,
  state_char, con_char, con_write,
}

module _ {v : Video} {m : Cells} {s : Screen} (h : IsShown v m s) where
  -- The line on which the cursor stands begins behind the start of the video memory.
  line_end : s.origin + s.y * size_row v + v.columns * 2 ≤ v.mem_end
  line_end = omega (arith, row_le s.y v.lines (size_row v) h.y_in, h.screen, h.end)

  back_space-IsShown : IsShown v m (back_space s)
  unfolding back_space
  back_space-IsShown = elim (Bool-cases (s.x == 0)) [
    | inl first ↦ rw first h
    | inr inside ↦ rw inside (record {
      x_in = omega (arith, h.x_in);
      y_in = h.y_in;
      at = ground (arith, h.at);
      region = h.region;
      region_in = h.region_in;
      screen = h.screen;
      start = h.start;
      end = h.end;
      outside = h.outside;
    })
  ]

  put_inside :
      s.x < v.columns
      → (c : ℕ)
      → IsShown v m (record s {
        cells = λ b. if b == s.pos then c else s.cells b;
        pos = s.pos + 2;
        x = s.x + 1;
      })
  put_inside lt c = record {
    x_in = omega arith;
    y_in = h.y_in;
    at = omega (arith, h.at);
    region = h.region;
    region_in = h.region_in;
    screen = h.screen;
    start = h.start;
    end = h.end;
    outside = λ a o. ground (arith, h.outside a o, line_end, h.at, h.start);
  }

  set_region-IsShown : (p q : ℕ) → IsShown v m (set_region v p q s)
  unfolding set_region
  set_region-IsShown p q = ground arith

  -- A cursor that has gone on behind the end of its line.
  wrap_line-IsShown :
      (x' pos' : ℕ)
      → v.columns ≤ x'
      → x' ≤ v.columns + v.columns
      → pos' ≡ s.origin + s.y * size_row v + x' * 2
      → IsShown v m (wrap_line v (record s { x = x'; pos = pos' }))
  unfolding wrap_line
  wrap_line-IsShown x' pos' low high e = lf-IsShown (record {
    x_in = omega arith;
    y_in = h.y_in;
    at = omega (arith, e);
    region = h.region;
    region_in = h.region_in;
    screen = h.screen;
    start = h.start;
    end = h.end;
    outside = h.outside;
  })

lf-x : (v : Video) (s : Screen) → (lf v s).x ≡ s.x
unfolding lf scrup roll_up roll_origin
lf-x v s = ground arith

module _ {v : Video} {m : Cells} (wide : 8 ≤ v.columns) where
  put_char-IsShown : (s : Screen) (c : ℕ) → IsShown v m s → IsShown v m (put_char v c s)
  unfolding put_char wrap_line
  put_char-IsShown s c h = elim (Bool-cases (leb v.columns s.x)) [
    | inr inside ↦ rw inside (put_inside h (ground arith) (s.attr * 256 + c))
    | inl behind ↦
        let t = wrap_line v s in
        let shown : IsShown v m t =
          wrap_line-IsShown h s.x s.pos (ground arith) (omega (arith, h.x_in)) h.at in
        let first : t.x < v.columns =
          omega
            (arith, h.x_in, lf-x v (record s { x = s.x - v.columns; pos = s.pos - size_row v })) in
        rw behind (put_inside shown first (t.attr * 256 + c))
  ]

  tab-IsShown : (s : Screen) → IsShown v m s → IsShown v m (tab v s)
  unfolding tab
  tab-IsShown s h = elim (Bool-cases (ltb v.columns (s.x + (8 - s.x % 8)))) [
    | inl behind ↦ rw behind (
        wrap_line-IsShown h (s.x + (8 - s.x % 8)) (s.pos + (8 - s.x % 8) * 2) (ground arith)
          (omega (arith, h.x_in)) (omega (arith, h.at)))
    | inr inside ↦ rw inside (record {
      x_in = ground arith;
      y_in = h.y_in;
      at = omega (arith, h.at);
      region = h.region;
      region_in = h.region_in;
      screen = h.screen;
      start = h.start;
      end = h.end;
      outside = h.outside;
    })
  ]

  text_char-IsShown :
      (erase c : ℕ) (s : Screen) → IsShown v m s → IsShown v m (text_char v erase c s)
  unfolding text_char
  text_char-IsShown erase c s h = if-IsShown (ltb 31 c && ltb c 127) (put_char-IsShown s c h) (
      if-IsShown (c == 10 || (c == 11 || c == 12)) (lf-IsShown h) (
        if-IsShown (c == 13) (cr-IsShown h) (
          if-IsShown (ltb c 128 && c == erase) (del-IsShown h) (
            if-IsShown (c == 8) (back_space-IsShown h) (if-IsShown (c == 9) (tab-IsShown s h) h)))))

  move_command-IsShown :
      (c p q : ℕ) (s : Screen) → IsShown v m s → IsShown v m (move_command v c p q s)
  unfolding move_command
  move_command-IsShown c p q s h = if-IsShown (c == b'G' || c == b'`') (gotoxy-IsShown h _ _) (
      if-IsShown (c == b'A') (gotoxy-IsShown h _ _) (
        if-IsShown (c == b'B' || c == b'e') (gotoxy-IsShown h _ _) (
          if-IsShown (c == b'C' || c == b'a') (gotoxy-IsShown h _ _) (
            if-IsShown (c == b'D') (gotoxy-IsShown h _ _) (
              if-IsShown (c == b'E') (gotoxy-IsShown h _ _) (
                if-IsShown (c == b'F') (gotoxy-IsShown h _ _) (
                  if-IsShown (c == b'd') (gotoxy-IsShown h _ _)
                    (if-IsShown (c == b'H' || c == b'f') (gotoxy-IsShown h _ _) h))))))))

  edit_command-IsShown :
      (c p q : ℕ) (s : Screen) → IsShown v m s → IsShown v m (edit_command v c p q s)
  unfolding edit_command csi_at csi_L csi_P csi_M
  edit_command-IsShown c p q s h = if-IsShown (c == b'J') (csi_J-IsShown h p) (
      if-IsShown (c == b'K') (csi_K-IsShown h p) (
        if-IsShown (c == b'L')
          (times-IsShown (at_most v.lines p) _ (λ t. insert_line-IsShown t (omega arith)) s h)
          (if-IsShown (c == b'M') (times-IsShown (at_most v.lines p) _ delete_line-IsShown s h) (
            if-IsShown (c == b'P')
              (times-IsShown (at_most v.columns p) _ (λ t k. delete_char-IsShown k) s h)
              (if-IsShown (c == b'@')
                (times-IsShown (at_most v.columns p) _ (λ t k. insert_char-IsShown k) s h)
                (if-IsShown (c == b'r') (set_region-IsShown h p q) h))))))

  -- The test of a character, on consoles.
  if-screen :
      (b : Bool) (k l : Console)
      → IsShown v m k.screen
      → IsShown v m l.screen
      → IsShown v m (if b then k else l).screen
  if-screen true k l h h' = h
  if-screen false k l h h' = h'

  escape_char-IsShown :
      (c : ℕ) (k : Console) → IsShown v m k.screen → IsShown v m (escape_char v c k).screen
  unfolding escape_char
  escape_char-IsShown c k h = if-screen (c == b'[') _ _ h (
      if-screen (c == b'E') _ _ (gotoxy-IsShown h _ _) (
        if-screen (c == b'M') _ _ (ri-IsShown h (omega arith)) (
          if-screen (c == b'D') _ _ (lf-IsShown h) (
            if-screen (c == b'Z') _ _ h (
              if-screen (k.screen.x == b'7') _ _ h
                (if-screen (k.screen.x == b'8') _ _ (gotoxy-IsShown h _ _) h))))))

  command-IsShown :
      (c : ℕ) (k : Console) → IsShown v m k.screen → IsShown v m (command v c k).screen
  unfolding command
  command-IsShown c k h =
      if-screen (c == b'm') _ _
        (record {
          x_in = h.x_in;
          y_in = h.y_in;
          at = h.at;
          region = h.region;
          region_in = h.region_in;
          screen = h.screen;
          start = h.start;
          end = h.end;
          outside = h.outside;
        })
        (if-screen (c == b's') _ _ h (
          if-screen (c == b'u') _ _ (gotoxy-IsShown h _ _) (
            edit_command-IsShown c (k.par 0) (k.par 1) _
              (move_command-IsShown c (k.par 0) (k.par 1) k.screen h))))

  number_char-IsShown :
      (c : ℕ) (k : Console) → IsShown v m k.screen → IsShown v m (number_char v c k).screen
  unfolding number_char
  number_char-IsShown c k h =
      if-screen (c == b';' && ltb k.npar 15) _ _ h
        (if-screen (leb b'0' c && leb c b'9') _ _ h (command-IsShown c k h))

  state_char-IsShown :
      (erase c : ℕ) (k : Console) (p : Parsing)
      → IsShown v m k.screen
      → IsShown v m (state_char v erase c k p).screen
  unfolding state_char bracket_char
  state_char-IsShown erase c k text h =
      if-screen (c == 27) _ _ h
        (if-screen (c == 7 && not (c == erase)) _ _ h (text_char-IsShown erase c k.screen h))
  state_char-IsShown erase c k escape h = escape_char-IsShown c k h
  state_char-IsShown erase c k bracket h = if-screen (c == b'?') _ _ h (number_char-IsShown c _ h)
  state_char-IsShown erase c k numbers h = number_char-IsShown c k h

  -- Whatever is written, on a display of at least 8 columns: the cursor stays on the screen (or one
  -- place behind a line), its address stays that of its line and column, the scroll region stays
  -- within the screen and the screen within the video memory, and no word outside the video memory
  -- changes.
  pub con_write-IsShown :
      (erase : ℕ) (cs : List ℕ) (k : Console)
      → IsShown v m k.screen
      → IsShown v m (con_write v erase cs k).screen
  unfolding con_write con_char
  con_write-IsShown erase [] k h = h
  con_write-IsShown erase (c ∷ cs) k h =
      con_write-IsShown erase cs (con_char v erase c k) (state_char-IsShown erase c k k.state h)

-- ESC 7 and ESC 8 test the column of the cursor and not the character: with the cursor in another
-- column than 55 and 56 they neither save nor restore it, they only end the sequence.
escape_char-save :
    (v : Video) (c : ℕ) (k : Console)
    → (c ≡ b'7' ⊎ c ≡ b'8')
    → k.screen.x ≢ 55
    → k.screen.x ≢ 56
    → escape_char v c k ≡ record k { state = text }
unfolding escape_char
escape_char-save v c k (inl e) h7 h8 = ground arith
escape_char-save v c k (inr e) h7 h8 = ground arith
