-- ===== src/Fs/Pipe.antt =====
-- fs/pipe.c, `read_pipe` and `write_pipe`. The pipe's inode is its page, the two indices, the count
-- of its ends in `i_count`, and a count of the `wake_up` calls on `i_wait`. The list `env` has what
-- the other tasks do to the pipe during each `sleep_on`; at its end the task is still asleep.
pub mod Bounds
pub mod Queue
use linux_rpg.Prelude.Int.{ℤ, pos, negsuc}
use linux_rpg.Prelude.{true, false, ◌&&◌}
use linux_rpg.Prelude.{
  ℕ, zero, suc, ◌+◌, ◌-◌, ◌%◌, List, [], ◌∷◌, ◌++◌, Bool, not, ltb, ◌==◌, if◌then◌else◌, length,
  take, drop,
}
use linux_rpg.Prelude.Ring.{Bytes, chunk, put}

abbrev pub page_size : ℕ
page_size = 4096

pub record Pipe : Type 0 where
  pub page : Bytes
  pub head : ℕ
  pub tail : ℕ
  pub i_count : ℕ
  pub wakes : ℕ

-- PIPE_SIZE
abbrev pub pipe_size : Pipe → ℕ
pipe_size p = (p.head + page_size - p.tail) % page_size

abbrev pub wake : Pipe → Pipe
wake p = record p { wakes = p.wakes + 1 }

abbrev pub at_most : ℕ → ℕ → ℕ
at_most chars n = if ltb n chars then n else chars

-- The bytes moved in one round: to the end of the page, of the request, and of what there is.
abbrev pub run_length : ℕ → ℕ → ℕ → ℕ
run_length index count size = at_most (at_most (page_size - index) count) size

-- A call returns, with what it read or how many bytes it wrote, or it sleeps on.
pub data Call (A : Type 0) : Type 0 where
  returned : A → Pipe → Call A
  asleep : A → Pipe → Call A
  out_of_fuel : Call A

-- The two loops of `read_pipe` as one: a round sleeps if the pipe is empty, else it moves bytes.
-- `got` are the bytes that the user has.
pub read_loop : ℕ → List (Pipe → Pipe) → Pipe → ℕ → List ℕ → Call (List ℕ)
read_loop zero env p count got = out_of_fuel
read_loop (suc fuel) env p count got =
    let chars = run_length p.tail count (pipe_size p) in
    let moved =
      read_loop fuel env (record p { tail = (p.tail + chars) % page_size }) (count - chars)
        (got ++ chunk p.page p.tail chars) in
    let slept : Call (List ℕ) = elim env [
      | [] ↦ asleep got (wake p)
      | e ∷ env' ↦ read_loop fuel env' (e (wake p)) count got
    ] in
    if count == 0
    then returned got (wake p)
    else if pipe_size p == 0
    then (if not (p.i_count == 2) then returned got (wake p) else slept)
    else moved

pub read_pipe : ℕ → List (Pipe → Pipe) → Pipe → ℕ → Call (List ℕ)
read_pipe fuel env p count = read_loop fuel env p count []

-- How far `write_pipe` came: the bytes written, those left, and if SIGPIPE was raised.
pub record Written : Type 0 where
  pub written : ℕ
  pub rest : List ℕ
  pub sigpipe : Bool

-- What the call returns: -1 for a pipe with no reader that took nothing.
abbrev pub write_value : Written → ℤ
write_value w = if w.sigpipe && w.written == 0 then negsuc 0 else pos w.written

-- The two loops of `write_pipe` as one. `src` is what is left of the user's buffer.
pub write_loop : ℕ → List (Pipe → Pipe) → Pipe → List ℕ → ℕ → Call Written
write_loop zero env p src written = out_of_fuel
write_loop (suc fuel) env p src written =
    let room = page_size - 1 - pipe_size p in
    let chars = run_length p.head (length src) room in
    let moved =
      write_loop fuel env
        (record p {
          page = put p.page p.head (take chars src);
          head = (p.head + chars) % page_size;
        })
        (drop chars src) (written + chars) in
    let slept : Call Written = elim env [
      | [] ↦ asleep (record { written = written; rest = src; sigpipe = false }) (wake p)
      | e ∷ env' ↦ write_loop fuel env' (e (wake p)) src written
    ] in
    if length src == 0
    then returned (record { written = written; rest = src; sigpipe = false }) (wake p)
    else if room == 0
    then (if not (p.i_count == 2)
        then returned (record { written = written; rest = src; sigpipe = true }) (wake p)
        else slept)
    else moved

pub write_pipe : ℕ → List (Pipe → Pipe) → Pipe → List ℕ → Call Written
write_pipe fuel env p src = write_loop fuel env p src 0
