-- ===== src/Fs/Files/Lowest.antt =====
-- fs/fcntl.c: which descriptor `dupfd` gives.
use linux_rpg.Prelude.{
  ℕ, zero, suc, ◌+◌, ◌-◌, ◌%◌, ◌^◌, ◌≤◌, ◌<◌, ◌≡◌, ◌≢◌, ◌⊎◌, refl, sym, Option, none, some, false,
  arith, inl, inr, Bool-cases, leb, ◌==◌, if◌then◌else◌, length, get_or-set_self, get_or-set_ne,
}
use linux_rpg.Prelude.Int.{ℤ, pos}
use linux_rpg.Kernel.Errno.{ebadf, einval, emfile}
use linux_rpg.Fs.Files.{nr_open, Files, file_of, share_file, free_from, dupfd}

-- The lowest free descriptor among the `n` from `arg` on, or that there is none.
abbrev pub Lowest : ℕ → ℕ → Files → Option ℕ → Type 0
Lowest n arg s none = (i : ℕ) → arg ≤ i → i < arg + n → file_of i s ≢ none
Lowest n arg s (some fd) =
    (arg ≤ fd)
    × (fd < arg + n)
    × (file_of fd s ≡ none)
    × ((i : ℕ) → arg ≤ i → i < fd → file_of i s ≢ none)

free_from-Lowest : (n arg : ℕ) (s : Files) → Lowest n arg s (free_from n arg s)
unfolding free_from
free_from-Lowest zero arg s = λ i h k. absurd (omega arith)
free_from-Lowest (suc n) arg s = go (free_from-Lowest n (suc arg) s) (file_of arg s) refl
  where
    further :
        (file : ℕ)
        → file_of arg s ≡ some file
        → (r : Option ℕ) → Lowest n (suc arg) s r
        → Lowest (suc n) arg s r
    further file e none all = λ i h k. elim (Bool-cases (i == arg)) [
      | inl same ↦ let at : i ≡ arg = ground arith in rw (at, e) (λ z. cc)
      | inr apart ↦ all i (ground arith) (omega arith)
    ]
    further file e (some fd) (low, high, free, all) = (
      omega arith,
      omega arith,
      free,
      λ i h k. elim (Bool-cases (i == arg)) [
        | inl same ↦ let at : i ≡ arg = ground arith in rw (at, e) (λ z. cc)
        | inr apart ↦ all i (ground arith) k
      ],
    )

    go :
        Lowest n (suc arg) s (free_from n (suc arg) s)
        → (o : Option ℕ) → file_of arg s ≡ o
        → Lowest (suc n) arg s (elim o [ none ↦ some arg | some file ↦ free_from n (suc arg) s ])
    go ih none e = (omega arith, omega arith, e, λ i h k. absurd (omega arith))
    go ih (some file) e = further file e (free_from n (suc arg) s) ih

-- How `dupfd` ends.
pub data Duped (fd arg : ℕ) (s : Files) (r : ℤ × Files) : Type 0 where
  not_open : (file_of fd s ≡ none ⊎ nr_open ≤ fd) → r ≡ (ebadf, s) → Duped fd arg s r
  out_of_range : nr_open ≤ arg → r ≡ (einval, s) → Duped fd arg s r
  all_taken :
      ((i : ℕ) → arg ≤ i → i < nr_open → file_of i s ≢ none) → r ≡ (emfile, s) → Duped fd arg s r
  duped :
      (file free : ℕ)
      → file_of fd s ≡ some file
      → (arg ≤ free) × (free < nr_open)
      → file_of free s ≡ none
      → ((i : ℕ) → arg ≤ i → i < free → file_of i s ≢ none)
      → r.0 ≡ pos free
      → file_of free r.1 ≡ some file
      → ((i : ℕ) → i ≢ free → file_of i r.1 ≡ file_of i s)
      → r.1.f_count file ≡ (s.f_count file + 1) % 2 ^ 16
      → ((g : ℕ) → g ≢ file → r.1.f_count g ≡ s.f_count g)
      → r.1.close_on_exec free ≡ false
      → ((i : ℕ) → i ≢ free → r.1.close_on_exec i ≡ s.close_on_exec i)
      → Duped fd arg s r

share_file-Duped :
    (fd arg file : ℕ) (s : Files) (o : Option ℕ)
    → length s.filp ≡ nr_open
    → arg < nr_open
    → file_of fd s ≡ some file
    → Lowest (nr_open - arg) arg s o
    → Duped fd arg s
        (elim o [ none ↦ (emfile, s) | some free ↦ (pos free, share_file free file s) ])
share_file-Duped fd arg file s none n lt at all = all_taken (λ i h k. all i h (omega arith)) refl
share_file-Duped fd arg file s (some free) n lt at (low, high, open_, all) =
    duped file free at (low, omega arith) open_ all refl
      (get_or-set_self s.filp free (some file) none (omega arith))
      (λ i ne. get_or-set_ne s.filp free i (some file) none (λ e. ne (sym e))) (ground arith)
      (λ g ne. ground arith) (ground arith) (λ i ne. ground arith)

-- `dupfd` on every branch: -EBADF for a descriptor that is not open, -EINVAL for a bound beyond the
-- table, -EMFILE if no descriptor from the bound on is free; else it returns the lowest free
-- descriptor from the bound on, which is then open on the same file, closed on no exec, with the
-- file's count one more, and every other descriptor, count and flag stays.
pub dupfd-Duped :
    (fd arg : ℕ) (s : Files) → length s.filp ≡ nr_open → Duped fd arg s (dupfd fd arg s)
unfolding dupfd
dupfd-Duped fd arg s n = go (file_of fd s) refl
  where
    go :
        (o : Option ℕ)
        → file_of fd s ≡ o
        → Duped fd arg s (elim o [
          | none ↦ (ebadf, s)
          | some file ↦
              if leb nr_open fd
              then (ebadf, s)
              else if leb nr_open arg
              then (einval, s)
              else elim (free_from (nr_open - arg) arg s) [
                | none ↦ (emfile, s)
                | some free ↦ (pos free, share_file free file s)
              ]
        ])
    go none e = not_open (inl e) refl
    go (some file) e = elim (Bool-cases (leb nr_open fd)) [
      | inl high ↦ rw high (not_open (inr (ground arith)) refl)
      | inr fd_in ↦ elim (Bool-cases (leb nr_open arg)) [
        | inl high ↦ rw (fd_in, high) (out_of_range (ground arith) refl)
        | inr arg_in ↦
            rw (fd_in, arg_in)
              (share_file-Duped fd arg file s (free_from (nr_open - arg) arg s) n (ground arith) e
                (free_from-Lowest (nr_open - arg) arg s))
      ]
    ]
