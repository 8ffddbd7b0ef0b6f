-- ===== src/Fs/Files.antt =====
-- fs/fcntl.c and `sys_close` of fs/open.c: the descriptors of a task. A pointer to a `struct file` is
-- the file's number, and `f_count` gives the count of each; what `iput` does to the inode of a file
-- that is closed for the last time is the result's second part.
pub mod Lowest
use linux_rpg.Prelude.{
  ℕ, zero, suc, ◌+◌, ◌-◌, ◌%◌, ◌^◌, List, Option, none, some, Bool, true, false, not, ltb, leb,
  ◌==◌, if◌then◌else◌, get_or, set,
}
use linux_rpg.Prelude.Int.{ℤ, pos}
use linux_rpg.Prelude.Mask.{Mask, bit, mask_and, mask_not}
use linux_rpg.Kernel.Errno.{ebadf, einval, emfile}

abbrev pub nr_open : ℕ
nr_open = 20

pub record Files : Type 0 where
  pub filp : List (Option ℕ)
  pub f_count : ℕ → ℕ
  pub close_on_exec : Mask

-- current->filp[fd]
abbrev pub file_of : ℕ → Files → Option ℕ
file_of fd s = get_or s.filp fd none

-- f_count is an unsigned short.
abbrev pub count_to : ℕ → ℕ → Files → Files
count_to file n s = record s { f_count = λ g. if g == file then n % 2 ^ 16 else s.f_count g }

abbrev pub clear_close_on_exec : ℕ → Files → Files
clear_close_on_exec fd s = record s { close_on_exec = mask_and s.close_on_exec (mask_not (bit fd)) }

-- The loop of `dupfd` over the `n` descriptors from `arg` on.
unfoldable pub free_from : ℕ → ℕ → Files → Option ℕ
free_from zero arg s = none
free_from (suc n) arg s =
    let further = free_from n (suc arg) s in
    elim (file_of arg s) [ none ↦ some arg | some file ↦ further ]

-- current->filp[arg] = current->filp[fd], with the count
abbrev pub share_file : ℕ → ℕ → Files → Files
share_file arg file s =
    count_to file (s.f_count file + 1)
      (record (clear_close_on_exec arg s) { filp = set s.filp arg (some file) })

unfoldable pub dupfd : ℕ → ℕ → Files → ℤ × Files
dupfd fd arg s = elim (file_of fd s) [
  | none ↦ (ebadf, s)
  | some file ↦
      if leb nr_open fd
      then (ebadf, s)
      else if leb nr_open arg
      then (einval, s)
      else elim (free_from (nr_open - arg) arg s) [
        | none ↦ (emfile, s)
        | some free ↦ (pos free, share_file free file s)
      ]
]

-- `panics` is the panic of a file with no count; else the value, and the file whose inode is put.
pub data Closed : Type 0 where
  panics : Closed
  closed : ℤ → Option ℕ → Files → Closed

unfoldable pub sys_close : ℕ → Files → Closed
sys_close fd s =
    let t = clear_close_on_exec fd s in
    let u : ℕ → Files =
      λ file. count_to file (s.f_count file - 1) (record t { filp = set s.filp fd none }) in
    if leb nr_open fd then closed einval none s else elim (file_of fd s) [
      | none ↦ closed einval none t
      | some file ↦
          if s.f_count file == 0
          then panics
          else closed (pos 0) (if s.f_count file == 1 then some file else none) (u file)
    ]

unfoldable pub sys_dup : ℕ → Files → ℤ × Files
sys_dup fildes s = dupfd fildes 0 s

-- `sys_dup2` closes the new descriptor first; the file that this puts comes with the result.
unfoldable pub sys_dup2 : ℕ → ℕ → Files → Closed
sys_dup2 oldfd newfd s = elim (sys_close newfd s) [
  | panics ↦ panics
  | closed ret put t ↦ let (fd, u) = dupfd oldfd newfd t in closed fd put u
]
