-- ===== src/Kernel/Timer.antt =====
-- kernel/sched.c, the kernel timers: `add_timer` and the timer part of `do_timer`. The chain from
-- `next_timer` is the list of the ticks and the function of each entry; the ticks of an entry are
-- counted from the entry before it. A slot of `timer_list` is in use exactly when it is on the
-- chain, and the source moves the contents of slots, never their order. Functions are numbers, 0
-- being `NULL`; they are recorded in the order of their calls, and are taken to add no timer
-- themselves while `do_timer` runs them.
pub mod Due
use linux_rpg.Prelude.{ℕ, zero, suc, ◌-◌, List, [], ◌∷◌, ltb, leb, ◌==◌, if◌then◌else◌, length}
use linux_rpg.Prelude.Int.{ℤ, pos, negsuc}

abbrev pub Chain : Type 0
Chain = List (ℕ × ℕ)

abbrev pub time_requests : ℕ
time_requests = 64

-- What `add_timer` does: nothing, a call at once, a new chain, or a panic.
pub data Added : Type 0 where
  ignored : Added
  called : ℕ → Added
  queued : Chain → Added
  panic : Added

-- The new entry moves down the chain while the entry behind it has fewer ticks.
unfoldable pub insert : ℕ → ℕ → Chain → Chain
insert j f [] = (j, f) ∷ []
insert j f ((k, g) ∷ c) = if ltb k j then (k, g) ∷ insert (j - k) f c else (j, f) ∷ (k, g) ∷ c

pub add_timer : ℤ → ℕ → Chain → Added
add_timer jiffies fn c = if fn == 0 then Added.ignored else go jiffies
  where
    go : ℤ → Added
    go (negsuc n) = Added.called fn
    go (pos zero) = Added.called fn
    go (pos (suc n)) =
        if leb time_requests (length c) then Added.panic else Added.queued (insert (suc n) fn c)

-- while (next_timer && next_timer->jiffies <= 0)
pub run_due : Chain → List ℕ × Chain
run_due [] = ([], [])
run_due ((j, f) ∷ c) =
    let (fired, rest) = run_due c in if j == 0 then (f ∷ fired, rest) else ([], (j, f) ∷ c)

-- One tick of `next_timer`: the functions that run, and the chain that is left.
pub tick : Chain → List ℕ × Chain
tick [] = ([], [])
tick ((j, f) ∷ c) = run_due ((j - 1, f) ∷ c)
