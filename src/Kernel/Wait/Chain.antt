-- ===== src/Kernel/Wait/Chain.antt =====
-- kernel/sched.c: the tasks on a wait queue are woken one after the other.
use mathlib.Core.Option
use native.Mathlib.Decide.{ℕ_discrete}
use linux_rpg.Prelude.{
  zero, suc, get_or-set_self, get_or-set_ne, ℕ, ◌<◌, ◌≡◌, ◌≢◌, refl, ap, ◌∙◌, List, [], ◌∷◌, Option,
  none, some, false, arith, ◌==◌, length,
}
use linux_rpg.Kernel.Task.{State, Task, Table, slot}
use linux_rpg.Kernel.Wait.{Waits, with_state, set_state, run_if, sleep_on, sleep_on_end, wake_up}

-- The tasks of a list go to sleep on the queue, the last of the list first: what each keeps as
-- `tmp`, the latest sleeper first, and the state. `none` if task 0 is among them.
pub sleep_all : List ℕ → Waits → Option (List (ℕ × Option ℕ) × Waits)
sleep_all [] w = some ([], w)
sleep_all (i ∷ is) w = elim (sleep_all is w) [
  | none ↦ none
  | some (kept, w') ↦ elim (sleep_on i w') [
    | none ↦ none
    | some (tmp, w'') ↦ some ((i, tmp) ∷ kept, w'')
  ]
]

-- The sleepers run one after the other: each is runnable when its turn comes, and ends `sleep_on`.
abbrev pub Resumes : List (ℕ × Option ℕ) → Waits → Type 0
Resumes [] w = Unit
Resumes ((i, tmp) ∷ kept) w =
    (Option.map (λ t. t.state) (slot w.task i) ≡ some State.running)
    × Resumes kept (sleep_on_end tmp w)

-- Each slot of the list holds a task other than task 0.
abbrev pub Occupied : List ℕ → Table → Type 0
Occupied [] ts = Unit
Occupied (i ∷ is) ts = (i ≢ 0) × ((t : Task) × (slot ts i ≡ some t)) × Occupied is ts

pub lt_of_slot : (ts : Table) (i : ℕ) (t : Task) → slot ts i ≡ some t → i < length ts
lt_of_slot [] i t e = cc
lt_of_slot (o ∷ ts) zero t e = omega arith
lt_of_slot (o ∷ ts) (suc i) t e = omega (arith, lt_of_slot ts i t e)

slot-set_state_self :
    (s : State) (ts : Table) (i : ℕ) (t : Task)
    → slot ts i ≡ some t
    → slot (set_state s i ts) i ≡ some (with_state s t)
slot-set_state_self s ts i t e =
    rw e (get_or-set_self ts i (some (with_state s t)) none (lt_of_slot ts i t e))

Occupied-set_state :
    (s : State) (i : ℕ) (is : List ℕ) (ts : Table) → Occupied is ts → Occupied is (set_state s i ts)
Occupied-set_state s i [] ts h = h
Occupied-set_state s i (j ∷ is) ts (h0, (t, e), rest) =
    (h0, go (ℕ_discrete i j), Occupied-set_state s i is ts rest)
  where
    go : Dec (i ≡ j) → (t' : Task) × (slot (set_state s i ts) j ≡ some t')
    go (yes p) = (with_state s t, rw p (slot-set_state_self s ts j t e))
    go (no p) = (t, get_or-set_ne ts i j _ none p ∙ e)

Occupied-run_if :
    (q : Option ℕ) (is : List ℕ) (ts : Table) → Occupied is ts → Occupied is (run_if q ts)
Occupied-run_if none is ts h = h
Occupied-run_if (some i) is ts h = Occupied-set_state State.running i is ts h

-- Each sleeper keeps the one that slept before it.
abbrev Linked : Option ℕ → List (ℕ × Option ℕ) → Type 0
Linked q [] = Unit
Linked q ((i, tmp) ∷ kept) = (q ≡ some i) × Linked tmp kept

abbrev pub names : List (ℕ × Option ℕ) → List ℕ
names [] = []
names ((i, tmp) ∷ kept) = i ∷ names kept

Linked-Resumes :
    (kept : List (ℕ × Option ℕ)) (q q' : Option ℕ) (ts : Table)
    → Linked q kept
    → Occupied (names kept) ts
    → Resumes kept (record { task = run_if q ts; queue = q' })
unfolding sleep_on_end
Linked-Resumes [] q q' ts h o = tt
Linked-Resumes ((i, tmp) ∷ kept) q q' ts (e, h) (i0, (t, at), o) = rw e (
  ap (Option.map (λ t. t.state)) (slot-set_state_self State.running ts i t at),
  Linked-Resumes kept tmp q' (set_state State.running i ts) h
      (Occupied-set_state State.running i (names kept) ts o),
)

sleep_all-Linked :
    (is : List ℕ) (w : Waits)
    → Occupied is w.task
    → (kept : List (ℕ × Option ℕ)) × (w' : Waits) × (sleep_all is w ≡ some (kept, w'))
      × Linked w'.queue kept
      × (names kept ≡ is)
      × ((js : List ℕ) → Occupied js w.task → Occupied js w'.task)
unfolding sleep_all sleep_on
sleep_all-Linked [] w o = ([], w, refl, tt, refl, λ js h. h)
sleep_all-Linked (i ∷ is) w (i0, _, o) =
    let (kept, w', e, linked, named, stay) = sleep_all-Linked is w o in
    let awake : (i == 0) ≡ false = ground arith in
    (
      (i, w'.queue) ∷ kept,
      record { task = set_state State.uninterruptible i w'.task; queue = some i },
      rw (e, awake),
      (refl, linked),
      ap (λ l. i ∷ l) named,
      λ js h. Occupied-set_state State.uninterruptible i js w'.task (stay js h),
    )

-- When several tasks other than task 0 have gone to sleep on one queue and nothing else has used
-- it since, one `wake_up` makes the latest sleeper runnable, and each sleeper, when it runs and
-- ends its `sleep_on`, makes the next one runnable: none is left asleep.
pub wake_up-Resumes :
    (is : List ℕ) (w : Waits)
    → Occupied is w.task
    → (kept : List (ℕ × Option ℕ)) × (w' : Waits) × (sleep_all is w ≡ some (kept, w'))
      × (names kept ≡ is)
      × Resumes kept (wake_up w')
unfolding wake_up
wake_up-Resumes is w o =
    let (kept, w', e, linked, named, stay) = sleep_all-Linked is w o in
    (kept, w', e, named, Linked-Resumes kept w'.queue none w'.task linked (rw named (stay is o)))
