-- ===== src/Kernel/Exit/Wait.antt =====
-- kernel/exit.c: which child `waitpid` takes, and what it does to the table.
use linux_rpg.Prelude.{
  ℕ, zero, suc, ◌+◌, ◌≡◌, ◌≢◌, ◌⊎◌, refl, ap, ◌∙◌, [], ◌∷◌, Option, none, some, Bool, true, false,
  arith, inl, inr, Bool-cases, ◌==◌, if◌then◌else◌,
}
use linux_rpg.Prelude.Int.{ℤ}
use linux_rpg.Kernel.Task.{State, Task, Table, slot}
use linux_rpg.Kernel.Exit.{
  is_child, Scan, no_child, alive, stopped_child, zombie_child, child_case, wait_scan,
}

-- Slot `j` of the slots from `i` on has a child that `pid` asks for, other than the caller.
pub record Child (pid : ℤ) (self : ℕ) (current : Task) (i : ℕ) (ts : Table) (j : ℕ) (t : Task)
    : Type 0 where
  pub at : slot ts j ≡ some t
  pub other : i + j ≢ self
  pub holds : is_child pid current t ≡ true

-- What the scan finds among the slots from `i` on.
pub data Found (pid : ℤ) (untraced : Bool) (self : ℕ) (current : Task) (i : ℕ) (ts : Table)
    (r : Scan) : Type 0 where
  nobody :
      ((j : ℕ) (t : Task)
        → Child pid self current i ts j t
        → (t.state ≡ State.stopped) × (untraced ≡ false))
      → r ≡ no_child
      → Found pid untraced self current i ts r
  busy :
      (j : ℕ) (t : Task)
      → Child pid self current i ts j t
      → t.state ≢ State.stopped
      → ((j' : ℕ) (t' : Task)
          → Child pid self current i ts j' t'
          → (t'.state ≢ State.zombie) × (t'.state ≡ State.stopped → untraced ≡ false))
      → r ≡ alive
      → Found pid untraced self current i ts r
  stopped :
      (j : ℕ) (t : Task)
      → Child pid self current i ts j t
      → t.state ≡ State.stopped
      → untraced ≡ true
      → r ≡ stopped_child t
      → Found pid untraced self current i ts r
  zombie :
      (j : ℕ) (t : Task)
      → Child pid self current i ts j t
      → t.state ≡ State.zombie
      → r ≡ zombie_child (i + j) t
      → Found pid untraced self current i ts r

module _ {pid : ℤ} {self : ℕ} {current : Task} {i : ℕ} {o : Option Task} {ts : Table} where
  pub Child-cons :
      (j : ℕ) (t : Task)
      → Child pid self current (suc i) ts j t
      → Child pid self current i (o ∷ ts) (suc j) t
  Child-cons j t c = record { at = c.at; other = λ e. c.other (omega arith); holds = c.holds }

  pub Child-tail :
      (j : ℕ) (t : Task)
      → Child pid self current i (o ∷ ts) (suc j) t
      → Child pid self current (suc i) ts j t
  Child-tail j t c = record { at = c.at; other = λ e. c.other (omega arith); holds = c.holds }

module _ {pid : ℤ} {untraced : Bool} {self : ℕ} {current : Task} {i : ℕ} {o : Option Task}
    {ts : Table} where
  -- The first slot has no child that counts.
  Found-skip :
      (r : Scan)
      → ((t : Task) → ¬ (Child pid self current i (o ∷ ts) 0 t))
      → Found pid untraced self current (suc i) ts r
      → Found pid untraced self current i (o ∷ ts) r
  Found-skip r first (nobody all e) = nobody all' e
    where
      all' :
          (j : ℕ) (t : Task)
          → Child pid self current i (o ∷ ts) j t
          → (t.state ≡ State.stopped) × (untraced ≡ false)
      all' zero t c = absurd (first t c)
      all' (suc j) t c = all j t (Child-tail j t c)
  Found-skip r first (busy j t c ne all e) = busy (suc j) t (Child-cons j t c) ne all' e
    where
      all' :
          (j' : ℕ) (t' : Task)
          → Child pid self current i (o ∷ ts) j' t'
          → (t'.state ≢ State.zombie) × (t'.state ≡ State.stopped → untraced ≡ false)
      all' zero t' c' = absurd (first t' c')
      all' (suc j') t' c' = all j' t' (Child-tail j' t' c')
  Found-skip r first (stopped j t c s u e) = stopped (suc j) t (Child-cons j t c) s u e
  Found-skip r first (zombie j t c s e) =
      zombie (suc j) t (Child-cons j t c) s (e ∙ ap (λ k. zombie_child k t) (omega arith))

first_eq :
    {pid : ℤ} {self : ℕ} {current : Task} {i : ℕ} {t : Task} {ts : Table} (u : Task)
    → Child pid self current i (some t ∷ ts) 0 u
    → t ≡ u
first_eq u c = cc (c.at)

quiet :
    (r : Scan) (u : Task) (n : ℕ)
    → (r ≡ no_child ⊎ r ≡ alive)
    → ¬ (r ≡ stopped_child u ⊎ r ≡ zombie_child n u)
quiet r u n (inl a) (inl b) = cc
quiet r u n (inl a) (inr b) = cc
quiet r u n (inr a) (inl b) = cc
quiet r u n (inr a) (inr b) = cc

-- The first slot has a child that counts: what its state makes of what was found before.
module _ {pid : ℤ} {untraced : Bool} {self : ℕ} {current : Task} {i : ℕ} {t : Task}
    {ts : Table} where
  -- A child that still runs.
  Found-alive :
      (r : Scan)
      → Child pid self current i (some t ∷ ts) 0 t
      → t.state ≢ State.stopped
      → t.state ≢ State.zombie
      → (r ≡ no_child ⊎ r ≡ alive)
      → Found pid untraced self current (suc i) ts r
      → Found pid untraced self current i (some t ∷ ts) alive
  Found-alive r c ns nz which f = busy 0 t c ns (all f) refl
    where
      all :
          Found pid untraced self current (suc i) ts r
          → (j' : ℕ) (t' : Task) → Child pid self current i (some t ∷ ts) j' t'
          → (t'.state ≢ State.zombie) × (t'.state ≡ State.stopped → untraced ≡ false)
      all f zero t' c' = let e = first_eq t' c' in rw (← e) (nz, λ s. absurd (ns s))
      all (nobody more e) (suc j') t' c' =
          let (s, u) = more j' t' (Child-tail j' t' c') in (λ z. cc, λ s'. u)
      all (busy j u d ne more e) (suc j') t' c' = more j' t' (Child-tail j' t' c')
      all (stopped j u d s asked e) (suc j') t' c' = absurd (quiet r u 0 which (inl e))
      all (zombie j u d s e) (suc j') t' c' = absurd (quiet r u (suc i + j) which (inr e))

  -- A stopped child, when the caller does not ask for those.
  Found-stopped :
      (r : Scan)
      → Child pid self current i (some t ∷ ts) 0 t
      → t.state ≡ State.stopped
      → untraced ≡ false
      → Found pid untraced self current (suc i) ts r
      → Found pid untraced self current i (some t ∷ ts) r
  Found-stopped r c s u (nobody all e) = nobody all' e
    where
      all' :
          (j : ℕ) (t' : Task)
          → Child pid self current i (some t ∷ ts) j t'
          → (t'.state ≡ State.stopped) × (untraced ≡ false)
      all' zero t' c' = let e = first_eq t' c' in rw (← e) (s, u)
      all' (suc j) t' c' = all j t' (Child-tail j t' c')
  Found-stopped r c s u (busy j d k ne all e) = busy (suc j) d (Child-cons j d k) ne all' e
    where
      all' :
          (j' : ℕ) (t' : Task)
          → Child pid self current i (some t ∷ ts) j' t'
          → (t'.state ≢ State.zombie) × (t'.state ≡ State.stopped → untraced ≡ false)
      all' zero t' c' = let e = first_eq t' c' in rw (← e) (λ z. cc, λ s'. u)
      all' (suc j') t' c' = all j' t' (Child-tail j' t' c')
  Found-stopped r c s u (stopped j d k z asked e) = absurd (cc)
  Found-stopped r c s u (zombie j d k z e) =
      zombie (suc j) d (Child-cons j d k) z (e ∙ ap (λ n. zombie_child n d) (omega arith))

  Found-case :
      (r : Scan)
      → Child pid self current i (some t ∷ ts) 0 t
      → (r ≡ no_child ⊎ r ≡ alive)
      → Found pid untraced self current (suc i) ts r
      → Found pid untraced self current i (some t ∷ ts) (child_case untraced i t r t.state)
  Found-case r c which f = go t.state refl
    where
      go :
          (s : State)
          → t.state ≡ s
          → Found pid untraced self current i (some t ∷ ts) (child_case untraced i t r t.state)
      go State.running e =
          let step : child_case untraced i t r t.state ≡ alive = ap (child_case untraced i t r) e in
          rw step (Found-alive r c (λ z. cc) (λ z. cc) which f)
      go State.interruptible e =
          let step : child_case untraced i t r t.state ≡ alive = ap (child_case untraced i t r) e in
          rw step (Found-alive r c (λ z. cc) (λ z. cc) which f)
      go State.uninterruptible e =
          let step : child_case untraced i t r t.state ≡ alive = ap (child_case untraced i t r) e in
          rw step (Found-alive r c (λ z. cc) (λ z. cc) which f)
      go State.zombie e =
          let step : child_case untraced i t r t.state ≡ zombie_child i t =
            ap (child_case untraced i t r) e in
          rw step (zombie 0 t c e (ap (λ n. zombie_child n t) (omega arith)))
      go State.stopped e =
          let step : child_case untraced i t r t.state ≡ (if untraced then stopped_child t else r) =
            ap (child_case untraced i t r) e in
          elim (Bool-cases untraced) [
            | inl u ↦
                rw (step ∙ ap (λ b. if b then stopped_child t else r) u) (stopped 0 t c e u refl)
            | inr u ↦
                rw (step ∙ ap (λ b. if b then stopped_child t else r) u) (Found-stopped r c e u f)
          ]

pub wait_scan-Found :
    (pid : ℤ) (untraced : Bool) (self : ℕ) (current : Task) (i : ℕ) (ts : Table)
    → Found pid untraced self current i ts (wait_scan pid untraced self current i ts)
unfolding wait_scan
wait_scan-Found pid untraced self current i [] = nobody (λ j t c. cc (c.at)) refl
wait_scan-Found pid untraced self current i (none ∷ ts) =
    Found-skip _ (λ t c. cc (c.at)) (wait_scan-Found pid untraced self current (suc i) ts)
wait_scan-Found pid untraced self current i (some t ∷ ts) = elim (Bool-cases (i == self)) [
  | inl same ↦ rw same (
      Found-skip _ (λ u c. c.other (ground arith))
        (wait_scan-Found pid untraced self current (suc i) ts))
  | inr apart ↦ elim (Bool-cases (is_child pid current t)) [
    | inr strange ↦
        rw (apart, strange)
          (Found-skip _ (λ u c. cc (c.holds, first_eq u c))
            (wait_scan-Found pid untraced self current (suc i) ts))
    | inl own ↦
        rw (apart, own)
          (go (record { at = refl; other = λ e. ground arith; holds = own })
            (wait_scan pid untraced self current (suc i) ts)
            (wait_scan-Found pid untraced self current (suc i) ts))
  ]
]
  where
    go :
        Child pid self current i (some t ∷ ts) 0 t
        → (r : Scan) → Found pid untraced self current (suc i) ts r
        → Found pid untraced self current i (some t ∷ ts) (elim r [
          | no_child ↦ child_case untraced i t no_child t.state
          | alive ↦ child_case untraced i t alive t.state
          | stopped_child u ↦ stopped_child u
          | zombie_child j u ↦ zombie_child j u
        ])
    go c no_child f = Found-case no_child c (inl refl) f
    go c alive f = Found-case alive c (inr refl) f
    go c (stopped_child u) (stopped j d k s asked e) =
        stopped (suc j) d (Child-cons j d k) s asked e
    go c (stopped_child u) (nobody all e) = absurd (cc)
    go c (stopped_child u) (busy j d k ne all e) = absurd (cc)
    go c (stopped_child u) (zombie j d k s e) = absurd (cc)
    go c (zombie_child n u) (zombie j d k s e) =
        zombie (suc j) d (Child-cons j d k) s (e ∙ ap (λ m. zombie_child m d) (omega arith))
    go c (zombie_child n u) (nobody all e) = absurd (cc)
    go c (zombie_child n u) (busy j d k ne all e) = absurd (cc)
    go c (zombie_child n u) (stopped j d k s asked e) = absurd (cc)
