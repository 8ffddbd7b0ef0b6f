-- ===== src/Fs/Pipe/Bounds.antt =====
-- fs/pipe.c: the bytes in a pipe, and what one round of a call does to them.
use linux_rpg.Prelude.{
  ℕ, ◌+◌, ◌-◌, ◌%◌, ◌≤◌, ◌<◌, ◌≡◌, List, [], ◌++◌, arith, length, take, length-take, ap, ◌∙◌,
}
use linux_rpg.Prelude.Ring.{chunk, put, window, window-read, window-put, length-window}
use linux_rpg.Fs.Pipe.{Pipe, page_size, pipe_size, run_length}

-- The indices are in the page.
pub record IsPipe (p : Pipe) : Type 0 where
  pub head_in : p.head < page_size
  pub tail_in : p.tail < page_size

-- The bytes in the pipe, oldest first.
abbrev pub contents : Pipe → List ℕ
contents p = window page_size p.page p.tail (pipe_size p)

pub length-contents : (p : Pipe) → length (contents p) ≡ pipe_size p
length-contents p = length-window page_size p.page p.tail (pipe_size p)

pub contents-eq-nil : (p : Pipe) → pipe_size p ≡ 0 → contents p ≡ []
unfolding window
contents-eq-nil p e = rw e

-- The run is not empty where there is something to move, and it fits on every side.
pub run_length_bounds :
    (index count size : ℕ)
    → index < page_size
    → 0 < count
    → 0 < size
    → (0 < run_length index count size)
      × (run_length index count size ≤ count)
      × (run_length index count size ≤ size)
      × (index + run_length index count size ≤ page_size)
run_length_bounds index count size h c s = ground arith

-- A round of `read_pipe`.
abbrev pub after_read : ℕ → Pipe → Pipe
after_read chars p = record p { tail = (p.tail + chars) % page_size }

module _ (p : Pipe) (v : IsPipe p) (chars : ℕ) where
  pub after_read-IsPipe : IsPipe (after_read chars p)
  after_read-IsPipe = record { head_in = v.head_in; tail_in = omega arith }

  size-after_read :
      chars ≤ pipe_size p
      → p.tail + chars ≤ page_size
      → pipe_size (after_read chars p) + chars ≡ pipe_size p
  size-after_read le fits = let a = v.head_in in let b = v.tail_in in omega arith

  -- The bytes moved are the oldest ones, and the pipe keeps the others.
  pub contents-after_read :
      chars ≤ pipe_size p
      → p.tail + chars ≤ page_size
      → contents p ≡ chunk p.page p.tail chars ++ contents (after_read chars p)
  contents-after_read le fits =
      let e : pipe_size p ≡ chars + pipe_size (after_read chars p) =
        omega (arith, size-after_read le fits) in
      ap (window page_size p.page p.tail) e
      ∙ window-read page_size p.page p.tail chars (pipe_size (after_read chars p)) v.tail_in fits

-- A round of `write_pipe`.
abbrev pub after_write : ℕ → List ℕ → Pipe → Pipe
after_write chars src p = record p {
  page = put p.page p.head (take chars src);
  head = (p.head + chars) % page_size;
}

module _ (p : Pipe) (v : IsPipe p) (chars : ℕ) (src : List ℕ) where
  pub after_write-IsPipe : IsPipe (after_write chars src p)
  after_write-IsPipe = record { head_in = omega arith; tail_in = v.tail_in }

  pub size-after_write :
      chars ≤ page_size - 1 - pipe_size p
      → pipe_size (after_write chars src p) ≡ pipe_size p + chars
  size-after_write le = let a = v.head_in in let b = v.tail_in in omega arith

  -- The bytes moved come behind those in the pipe.
  pub contents-after_write :
      chars ≤ page_size - 1 - pipe_size p
      → chars ≤ length src
      → p.head + chars ≤ page_size
      → contents (after_write chars src p) ≡ contents p ++ take chars src
  contents-after_write le le' fits =
      let a = v.head_in in
      let b = v.tail_in in
      let n : length (take chars src) ≡ chars = length-take chars src le' in
      let e : pipe_size (after_write chars src p) ≡ pipe_size p + length (take chars src) =
        omega (arith, size-after_write le) in
      ap (window page_size (put p.page p.head (take chars src)) p.tail) e
      ∙ window-put page_size p.page p.tail (pipe_size p) p.head (take chars src) v.tail_in
          (omega arith) (omega arith) (omega arith)
