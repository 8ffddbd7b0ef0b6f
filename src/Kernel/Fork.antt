-- ===== src/Kernel/Fork.antt =====
-- kernel/fork.c: `find_empty_process`. `last_pid` is never negative.
pub mod Fresh
use linux_rpg.Prelude.{
  ℕ, zero, suc, ◌+◌, ◌^◌, List, [], ◌∷◌, Option, none, some, Bool, true, false, leb, if◌then◌else◌,
  length, drop,
}
use linux_rpg.Prelude.Int.{ℤ, pos, ◌==ℤ◌}
use linux_rpg.Kernel.Errno.{eagain}
use linux_rpg.Kernel.Task.{Task, Table}

-- if ((++last_pid)<0) last_pid=1;
unfoldable pub next_pid : ℕ → ℕ
next_pid last_pid = if leb (2 ^ 31) (last_pid + 1) then 1 else last_pid + 1

-- The first loop: a task has the number.
unfoldable pub is_used : ℕ → Table → Bool
is_used pid [] = false
is_used pid (none ∷ ts) = is_used pid ts
is_used pid (some u ∷ ts) =
    let further = is_used pid ts in if u.ids.pid ==ℤ pos pid then true else further

-- The jumps to `repeat`, with fuel.
unfoldable pub new_pid : ℕ → ℕ → Table → Option ℕ
new_pid zero last_pid ts = none
new_pid (suc n) last_pid ts =
    let pid = next_pid last_pid in
    let again = new_pid n pid ts in if is_used pid ts then again else some pid

-- The second loop, from `i` on.
unfoldable pub empty_slot : ℕ → Table → Option ℕ
empty_slot i [] = none
empty_slot i (none ∷ ts) = some i
empty_slot i (some u ∷ ts) = empty_slot (suc i) ts

-- The new `last_pid` and the value.
unfoldable pub find_empty_process : ℕ → Table → Option (ℕ × ℤ)
find_empty_process last_pid ts = elim (new_pid (suc (length ts)) last_pid ts) [
  | none ↦ none
  | some pid ↦ some (pid, elim (empty_slot 1 (drop 1 ts)) [ none ↦ eagain | some i ↦ pos i ])
]
