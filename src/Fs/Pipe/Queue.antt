-- ===== src/Fs/Pipe/Queue.antt =====
-- fs/pipe.c: bytes leave a pipe in the order in which they came, also across sleeps, and a call
-- comes to an end.
use linux_rpg.Prelude.{ℕ, zero, suc, ◌+◌, ◌≡◌, ◌≢◌, List, [], ◌∷◌, ◌++◌, length}
use linux_rpg.Fs.Pipe.{Pipe, pipe_size, Call, returned, asleep}
use linux_rpg.Fs.Pipe.Bounds.{IsPipe, contents}

-- What the other tasks do during a sleep of a reader, when the pipe is empty: they keep the indices
-- in the page, and they may put bytes into the pipe.
pub record Event : Type 0 where
  pub effect : Pipe → Pipe
  pub bytes : List ℕ

pub record IsWriter (e : Event) : Type 0 where
  pub keeps : (p : Pipe) → IsPipe p → pipe_size p ≡ 0 → IsPipe (e.effect p)
  pub adds : (p : Pipe) → IsPipe p → pipe_size p ≡ 0 → contents (e.effect p) ≡ contents p ++ e.bytes

abbrev pub AllWriters : List Event → Type 0
AllWriters [] = Unit
AllWriters (e ∷ es) = IsWriter e × AllWriters es

abbrev pub effects : List Event → List (Pipe → Pipe)
effects [] = []
effects (e ∷ es) = e.effect ∷ effects es

-- The bytes that the first `n` events put into the pipe.
abbrev pub added : ℕ → List Event → List ℕ
added zero es = []
added (suc n) [] = []
added (suc n) (e ∷ es) = e.bytes ++ added n es

-- How a call of `read_pipe` ends: the user's bytes and then the pipe's are those from before and
-- those of the first `used` events; and the user has all that was asked for, or the pipe is empty
-- and has no other end, or it is empty and every event is used up, the caller being asleep.
pub data ReadEnds (es : List Event) (p : Pipe) (count : ℕ) (before : List ℕ) (r : Call (List ℕ))
    : Type 0 where
  full :
      (used : ℕ) (got : List ℕ) (p' : Pipe)
      → r ≡ returned got p'
      → IsPipe p'
      → got ++ contents p' ≡ (before ++ contents p) ++ added used es
      → length got ≡ length before + count
      → ReadEnds es p count before r
  closed :
      (used : ℕ) (got : List ℕ) (p' : Pipe)
      → r ≡ returned got p'
      → IsPipe p'
      → got ≡ (before ++ contents p) ++ added used es
      → pipe_size p' ≡ 0
      → p'.i_count ≢ 2
      → ReadEnds es p count before r
  waits :
      (got : List ℕ) (p' : Pipe)
      → r ≡ asleep got p'
      → IsPipe p'
      → got ≡ (before ++ contents p) ++ added (length es) es
      → pipe_size p' ≡ 0
      → ReadEnds es p count before r
