-- ===== src/Kernel/Sched/Pick.antt =====
-- kernel/sched.c: which task `schedule` picks, and that its loop ends.
use linux_rpg.Prelude.{
  ℕ, zero, suc, ◌+◌, ◌/◌, ◌≤◌, ◌<◌, ◌≡◌, refl, inl, inr, map, [], ◌∷◌, Option, none, some, true,
  false, ◌&&◌, ◌⊎◌, sym, ap, ◌∙◌, arith, Bool-cases, not, ◌==◌,
}
use linux_rpg.Prelude.Int.{ℤ, pos, ◌==ℤ◌}
use linux_rpg.Prelude.Mask.{nonzero}
use linux_rpg.Kernel.Task.{Task, Table, slot, is_interruptible}
use mathlib.Core.Option
use mathlib.Core.Option.{some-injective}
use linux_rpg.Kernel.Sched.{
  each_task, Cpu, scan, scan_all, alarm_over, recharge, pick_loop, schedule, check_signals,
  check_alarm, wake_signalled, deliverable,
}
use linux_rpg.Kernel.Sched.Scan.{Ready, Scanned, idle, found, Ready-tail, Ready-cons, scan-Scanned}

-- A loop over the table changes each slot by itself, and leaves task 0 alone.
pub slot-each_task :
    (f : Task → Task) (ts : Table) (j : ℕ)
    → slot (each_task f ts) (suc j) ≡ Option.map f (slot ts (suc j))
slot-each_task f [] j = refl
slot-each_task f (t0 ∷ ts) j = go ts j
  where
    go :
        (ts : Table) (j : ℕ)
        → slot (map (λ p. elim p [ none ↦ none | some t ↦ some (f t) ]) ts) j
          ≡ Option.map f (slot ts j)
    go [] j = refl
    go (none ∷ ts) zero = refl
    go (some t ∷ ts) zero = refl
    go (p ∷ ts) (suc j) = go ts j

-- Every task has a time slice to be given.
abbrev pub Positive : Table → Type 0
Positive ts = (j : ℕ) (t : Task) → slot ts j ≡ some t → 0 < t.priority

-- The choice of `schedule`: task 0 if no other task can run, else a runnable task with ticks left
-- and no fewer of them than any other runnable task.
pub data Picked (ts : Table) (next : ℕ) : Type 0 where
  nobody : next ≡ 0 → ((j : ℕ) (t : Task) → Ready ts (suc j) t → ⊥) → Picked ts next
  somebody :
      (t : Task)
      → 0 < next
      → Ready ts next t
      → 0 < t.counter
      → ((j : ℕ) (t' : Task) → Ready ts (suc j) t' → t'.counter ≤ t.counter)
      → Picked ts next

-- One round of the loop: it ends with a good choice, or some runnable task has no ticks.
Round : Table → Type 0
Round ts =
    (((scan_all ts).0 ==ℤ pos 0) ≡ false) × Picked ts (scan_all ts).1
    ⊎ (((scan_all ts).0 ==ℤ pos 0) ≡ true)
      × ((j : ℕ) × (t : Task) × Ready ts (suc j) t × (t.counter ≡ 0))

Round-of_Scanned :
    (o : Option Task) (ts : Table) (r : ℤ × ℕ)
    → Scanned 1 ts r
    → ((r.0 ==ℤ pos 0) ≡ false) × Picked (o ∷ ts) r.1
      ⊎ ((r.0 ==ℤ pos 0) ≡ true)
        × ((j : ℕ) × (t : Task) × Ready (o ∷ ts) (suc j) t × (t.counter ≡ 0))
Round-of_Scanned o ts r (idle quiet e) =
    inl (ground arith, nobody (ground arith) (λ j t h. quiet j t (Ready-tail h)))
Round-of_Scanned o ts r (found j t h e best) = elim (Bool-cases (r.0 ==ℤ pos 0)) [
  | inl z ↦ inr (z, (j, t, Ready-cons h, ground arith))
  | inr n ↦ inl (n, somebody t (ground arith) here (ground arith) all)
]
  where
    here : Ready (o ∷ ts) r.1 t
    here = let at : r.1 ≡ suc j = ground arith in rw at (Ready-cons h)

    all : (j' : ℕ) (t' : Task) → Ready (o ∷ ts) (suc j') t' → t'.counter ≤ t.counter
    all j' t' h' = best j' t' (Ready-tail h')

scan-Round : (ts : Table) → Round ts
unfolding Round
scan-Round [] = inl (ground arith, nobody refl (λ j t h. cc (h.holds)))
scan-Round (o ∷ ts) = Round-of_Scanned o ts (scan 1 ts) (scan-Scanned 1 ts)

-- After a recharge every task has at least its priority in ticks.
recharge-counter :
    (ts : Table) (j : ℕ) (t : Task)
    → Positive ts
    → slot (recharge ts) (suc j) ≡ some t
    → 0 < t.counter
unfolding recharge
recharge-counter ts j t h e =
    let (u, at, is) = (Option.map-eq-some_iff _ _).0 (sym (slot-each_task _ ts j) ∙ e) in
    let p = h (suc j) u at in rw (← is) (omega arith)

-- With positive priorities the loop ends within two rounds.
pub pick_loop-Picked :
    (fuel : ℕ) (ts : Table)
    → Positive ts
    → (next : ℕ) × (ts' : Table) × (pick_loop (suc (suc fuel)) ts ≡ some (next, ts'))
      × Picked ts' next
      × ((ts' ≡ ts) ⊎ (ts' ≡ recharge ts))
unfolding pick_loop Round
pick_loop-Picked fuel ts h = elim (scan-Round ts) [
  | inl (stop, good) ↦ ((scan_all ts).1, ts, rw stop, good, inl refl)
  | inr (more, _) ↦ elim (scan-Round (recharge ts)) [
    | inl (stop, good) ↦ ((scan_all (recharge ts)).1, recharge ts, rw (more, stop), good, inr refl)
    | inr (_, (j, t, r, z)) ↦ let full = recharge-counter ts j t h (r.holds) in absurd (omega arith)
  ]
]

priority-check_signals :
    (n : ℕ) (t : Task) → (wake_signalled (check_alarm n t)).priority ≡ t.priority
unfolding wake_signalled check_alarm
priority-check_signals n t = wake (check_alarm n t) ∙ alarm
  where
    wake : (u : Task) → (wake_signalled u).priority ≡ u.priority
    wake u = elim (Bool-cases (nonzero (deliverable u) && is_interruptible u.state)) [
      | inl e ↦ rw e
      | inr e ↦ rw e
    ]

    alarm : (check_alarm n t).priority ≡ t.priority
    alarm = elim (Bool-cases (not (t.alarm == 0) && alarm_over t.alarm n)) [
      | inl e ↦ rw e
      | inr e ↦ rw e
    ]

-- `check_signals` changes no priority.
check_signals-Positive : (n : ℕ) (ts : Table) → Positive ts → Positive (check_signals n ts)
unfolding check_signals
check_signals-Positive n [] h j t e = h j t e
check_signals-Positive n (o ∷ ts) h zero t e = h zero t e
check_signals-Positive n (o ∷ ts) h (suc j) t e =
    let (u, at, is) = (Option.map-eq-some_iff _ _).0 (sym (slot-each_task _ (o ∷ ts) j) ∙ e) in
    let p = h (suc j) u at in rw (← is, priority-check_signals) p

-- If every task has a positive priority, `schedule` comes to an end (with two or more rounds of
-- fuel), and it switches to task 0 only if no other task can run; else it switches to a runnable
-- task with ticks left and with no fewer ticks than any other runnable task.
pub schedule-Picked :
    (fuel : ℕ) (k : Cpu)
    → Positive k.task
    → (k' : Cpu) × (schedule (suc (suc fuel)) k ≡ some k') × Picked k'.task k'.current
unfolding schedule
schedule-Picked fuel k h =
    let (next, ts, e, good, _) =
      pick_loop-Picked fuel (check_signals k.jiffies k.task)
        (check_signals-Positive k.jiffies k.task h) in
    (record k { task = ts; current = next }, rw (e, schedule), good)

-- The loop changes nothing of a task but its counter.
pick_loop-slot :
    (fuel : ℕ) (ts ts' : Table) (next j : ℕ) (t : Task)
    → pick_loop fuel ts ≡ some (next, ts')
    → slot ts (suc j) ≡ some t
    → (n : ℕ) × (slot ts' (suc j) ≡ some (record t { counter = n }))
unfolding pick_loop recharge
pick_loop-slot zero ts ts' next j t e at = cc
pick_loop-slot (suc fuel) ts ts' next j t e at = elim (Bool-cases ((scan_all ts).0 ==ℤ pos 0)) [
  | inl more ↦
      let again : pick_loop fuel (recharge ts) ≡ some (next, ts') = rw more at e in
      let moved : slot (recharge ts) (suc j)
          ≡ some (record t { counter = t.counter / 2 + t.priority }) =
        slot-each_task _ ts j ∙ ap (Option.map _) at in
      pick_loop-slot fuel (recharge ts) ts' next j
        (record t { counter = t.counter / 2 + t.priority }) again moved
  | inr stop ↦
      let same : ◌≡◌ {A = Option (ℕ × Table)} (some ((scan_all ts).1, ts)) (some (next, ts')) =
        rw stop at e in
      let here : ts ≡ ts' = ap (λ r. r.1) (some-injective _ _ same) in (t.counter, rw (← here) at)
]

schedule-eq-some :
    (fuel : ℕ) (k k' : Cpu)
    → schedule fuel k ≡ some k'
    → (next : ℕ) × (pick_loop fuel (check_signals k.jiffies k.task) ≡ some (next, k'.task))
      × (k' ≡ record k { task = k'.task; current = next })
unfolding schedule
schedule-eq-some fuel k k' e = go (pick_loop fuel (check_signals k.jiffies k.task)) refl
  where
    go :
        (r : Option (ℕ × Table))
        → pick_loop fuel (check_signals k.jiffies k.task) ≡ r
        → (next : ℕ) × (pick_loop fuel (check_signals k.jiffies k.task) ≡ some (next, k'.task))
          × (k' ≡ record k { task = k'.task; current = next })
    go none p = let bad : none ≡ some k' = rw (p, schedule) at e in cc
    go (some (next, ts)) p =
        let is : some (record k { task = ts; current = next }) ≡ some k' = rw (p, schedule) at e in
        (next, ground (arith, is), ground (arith, is))

pub check_signals-slot :
    (n : ℕ) (ts : Table) (j : ℕ) (t : Task)
    → slot ts (suc j) ≡ some t
    → slot (check_signals n ts) (suc j) ≡ some (wake_signalled (check_alarm n t))
unfolding check_signals
check_signals-slot n ts j t at = slot-each_task _ ts j ∙ ap (Option.map _) at

-- Whatever the fuel, a `schedule` that ends has changed each task other than task 0 by the signal
-- and alarm checks, and then in its counter alone.
pub schedule-slot :
    (fuel : ℕ) (k k' : Cpu) (j : ℕ) (t : Task)
    → schedule fuel k ≡ some k'
    → slot k.task (suc j) ≡ some t
    → (n : ℕ) × (slot k'.task (suc j)
        ≡ some (record (wake_signalled (check_alarm k.jiffies t)) { counter = n }))
unfolding schedule
schedule-slot fuel k k' j t e at =
    let ts = check_signals k.jiffies k.task in
    let (next, ran, is) = schedule-eq-some fuel k k' e in
    pick_loop-slot fuel ts k'.task next j (wake_signalled (check_alarm k.jiffies t)) ran
      (check_signals-slot k.jiffies k.task j t at)
