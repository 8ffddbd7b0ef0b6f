-- ===== src/Kernel/Sched/Signals.antt =====
-- kernel/sched.c: the signal checks of `schedule` wake exactly the tasks that a signal may wake.
use linux_rpg.Prelude.{
  ℕ, ◌<◌, suc, refl, some, ◌≢◌, not, ◌&&◌, ◌==◌, ◌∙◌, Bool-cases, ◌-◌, ◌≤◌, ◌≡◌, ◌⊎◌, inl, inr,
  true, false, arith,
}
use linux_rpg.Prelude.Mask.{mask_or, nonzero, nonzero_of_bit, bit_of_nonzero}
use linux_rpg.Kernel.Task.{State, Task, Table, slot, sig_bit, sigkill, sigstop, sigalrm}
use linux_rpg.Kernel.Sched.{alarm_over, check_alarm, deliverable, wake_signalled, check_signals}
use linux_rpg.Kernel.Sched.Pick.{check_signals-slot}

-- The signal is pending, and it is not blocked or cannot be.
pub record IsPending (t : Task) (sig : ℕ) : Type 0 where
  pub low : 1 ≤ sig
  pub high : sig ≤ 32
  pub raised : t.signal (sig - 1) ≡ true
  pub open_to : (t.blocked (sig - 1) ≡ false) ⊎ ((sig ≡ sigkill) ⊎ (sig ≡ sigstop))

nonzero-deliverable : (t : Task) (sig : ℕ) → IsPending t sig → nonzero (deliverable t) ≡ true
nonzero-deliverable t sig h =
    nonzero_of_bit (deliverable t) (sig - 1) (omega (arith, h.low, h.high))
      (go h.low h.raised h.open_to)
  where
    go :
        1 ≤ sig
        → t.signal (sig - 1) ≡ true
        → ((t.blocked (sig - 1) ≡ false) ⊎ ((sig ≡ sigkill) ⊎ (sig ≡ sigstop)))
        → deliverable t (sig - 1) ≡ true
    go low raised (inl open_to) = ground arith
    go low raised (inr (inl kill)) = ground arith
    go low raised (inr (inr stop)) = ground arith

-- The alarm of the task is over, and SIGALRM is not blocked.
pub record IsRinging (jiffies : ℕ) (t : Task) : Type 0 where
  pub set : t.alarm ≢ 0
  pub over : alarm_over t.alarm jiffies ≡ true
  pub open_to : t.blocked (sigalrm - 1) ≡ false

IsPending-check_alarm :
    (jiffies : ℕ) (t : Task) (sig : ℕ) → IsPending t sig → IsPending (check_alarm jiffies t) sig
unfolding check_alarm
IsPending-check_alarm jiffies t sig h =
    elim (Bool-cases (not (t.alarm == 0) && alarm_over t.alarm jiffies)) [
      | inr e ↦ rw e h
      | inl e ↦
          let raised = h.raised in
          rw e record { low = h.low; high = h.high; raised = ground arith; open_to = h.open_to }
    ]

IsPending-IsRinging :
    (jiffies : ℕ) (t : Task) → IsRinging jiffies t → IsPending (check_alarm jiffies t) sigalrm
unfolding check_alarm
IsPending-IsRinging jiffies t h =
    let set = h.set in
    let over = h.over in
    let e : (not (t.alarm == 0) && alarm_over t.alarm jiffies) ≡ true = ground arith in
    rw e record {
      low = omega arith;
      high = omega arith;
      raised = ground arith;
      open_to = inl h.open_to;
    }

state-check_alarm : (jiffies : ℕ) (t : Task) → (check_alarm jiffies t).state ≡ t.state
unfolding check_alarm
state-check_alarm jiffies t = elim (Bool-cases (not (t.alarm == 0) && alarm_over t.alarm jiffies)) [
  | inl e ↦ rw e refl
  | inr e ↦ rw e refl
]

wake_signalled-running :
    (t : Task) (sig : ℕ)
    → IsPending t sig
    → t.state ≡ State.interruptible
    → (wake_signalled t).state ≡ State.running
unfolding wake_signalled
wake_signalled-running t sig h e = let pending = nonzero-deliverable t sig h in rw (pending, e)

-- A signal or an alarm that wakes the task.
abbrev pub IsCalled : ℕ → Task → Type 0
IsCalled jiffies t = ((sig : ℕ) × IsPending t sig) ⊎ IsRinging jiffies t

IsPending-deliverable : (t : Task) (i : ℕ) → i < 32 → deliverable t i ≡ true → IsPending t (suc i)
IsPending-deliverable t i lt e =
    let here : suc i - 1 ≡ i = omega arith in
    record {
      low = omega arith;
      high = omega (arith, lt);
      raised = rw here (ground arith);
      open_to = rw here (elim (Bool-cases (t.blocked i)) [
        | inr free ↦ inl free
        | inl blocked ↦ inr (elim (Bool-cases (i == 8)) [
          | inl kill ↦ inl (ground arith)
          | inr other ↦ inr (ground arith)
        ])
      ]);
    }

IsCalled-check_alarm :
    (jiffies : ℕ) (t : Task) (sig : ℕ) → IsPending (check_alarm jiffies t) sig → IsCalled jiffies t
unfolding check_alarm
IsCalled-check_alarm jiffies t sig h =
    elim (Bool-cases (not (t.alarm == 0) && alarm_over t.alarm jiffies)) [
      | inr e ↦ inl (sig, rw e at h)
      | inl e ↦ after (ground arith) (ground arith) (rw e at h)
    ]
  where
    after :
        t.alarm ≢ 0
        → alarm_over t.alarm jiffies ≡ true
        → IsPending (record t { signal = mask_or t.signal (sig_bit sigalrm); alarm = 0 }) sig
        → IsCalled jiffies t
    after set over h' = elim (Bool-cases (t.signal (sig - 1))) [
      | inl raised ↦
          inl (sig, record { low = h'.low; high = h'.high; raised = raised; open_to = h'.open_to })
      | inr new ↦
          let low = h'.low in
          let raised = h'.raised in
          let is : sig ≡ sigalrm = ground arith in
          inr (record {
            set = set;
            over = over;
            open_to = elim h'.open_to [
              | inl free ↦ rw is at free
              | inr (inl kill) ↦ absurd (omega (arith, is, kill))
              | inr (inr stop) ↦ absurd (omega (arith, is, stop))
            ];
          })
    ]

wake_signalled-asleep :
    (t : Task)
    → t.state ≡ State.interruptible
    → nonzero (deliverable t) ≡ false
    → (wake_signalled t).state ≡ State.interruptible
unfolding wake_signalled
wake_signalled-asleep t asleep e = rw e asleep

-- The checks of schedule, for a task of the table other than task 0 that is in an interruptible
-- sleep: it is made runnable if a signal is pending for it that is not blocked, or SIGKILL or SIGSTOP
-- whatever it blocks, or if its alarm is over and SIGALRM is not blocked; else it sleeps on.
pub check_signals-running :
    (jiffies : ℕ) (ts : Table) (j : ℕ) (t : Task)
    → slot ts (suc j) ≡ some t
    → t.state ≡ State.interruptible
    → (u : Task) × (slot (check_signals jiffies ts) (suc j) ≡ some u)
      × ((IsCalled jiffies t × (u.state ≡ State.running))
          ⊎ (¬ IsCalled jiffies t × (u.state ≡ State.interruptible)))
check_signals-running jiffies ts j t at asleep = (
  wake_signalled (check_alarm jiffies t),
  check_signals-slot jiffies ts j t at,
  elim (Bool-cases (nonzero (deliverable (check_alarm jiffies t)))) [
    | inl e ↦
        let (i, lt, set) = bit_of_nonzero (deliverable (check_alarm jiffies t)) e in
        let h = IsPending-deliverable (check_alarm jiffies t) i lt set in
        inl (
          IsCalled-check_alarm jiffies t (suc i) h,
          wake_signalled-running (check_alarm jiffies t) (suc i) h still,
        )
    | inr e ↦ inr (
      λ called. elim called [
        | inl (sig, h) ↦
            let some_bit = nonzero-deliverable _ sig (IsPending-check_alarm jiffies t sig h) in cc
        | inr h ↦
            let some_bit = nonzero-deliverable _ sigalrm (IsPending-IsRinging jiffies t h) in cc
      ],
      wake_signalled-asleep (check_alarm jiffies t) still e,
    )
  ],
)
  where
    still : (check_alarm jiffies t).state ≡ State.interruptible
    still = state-check_alarm jiffies t ∙ asleep
