-- ===== src/Kernel/Tests/Processes.antt =====
-- kernel/exit.c, kernel/sys.c and the alarms at concrete inputs.
use linux_rpg.Prelude.{ℕ, ◌<◌, ◌≤◌, ◌≡◌, ◌≢◌, refl, List, [], ◌∷◌, some, false, arith, inr, set}
use linux_rpg.Prelude.Int.{ℤ, pos, negsuc}
use linux_rpg.Kernel.Task.{State, Task, Table, slot}
use linux_rpg.Prelude.{◌++◌}
use linux_rpg.Kernel.Elevator.{Request, add_request}
use linux_rpg.Kernel.Elevator.Order.{turns, add_request-turns}
use linux_rpg.Kernel.Tests.{a_task, table}
use linux_rpg.Kernel.Session.{sys_setsid}
use linux_rpg.Kernel.Session.Groups.{setpgid_all, sys_setsid-setpgid_all}
use linux_rpg.Kernel.Fork.{next_pid, is_used, new_pid, empty_slot, find_empty_process}
use linux_rpg.Kernel.Fork.Fresh.{Slot, find_empty_process-Slot}
use linux_rpg.Kernel.Exit.{Waited, returned, wait_once, wait_scan}

-- Task 3 is a zombie child of task 1.
abbrev family : Table
family = set table 3 (some (record (a_task 3 0) { state = State.zombie; exit_code = 512 }))

abbrev pid_of : Waited → ℤ
pid_of (returned ret stat ts) = ret
pid_of (Waited.waiting ts) = negsuc 0

family_reaped : pid_of (wait_once (negsuc 0) false false 1 (a_task 1 0) family) ≡ pos 3
unfolding wait_once wait_scan
family_reaped = refl

sys_setsid-setpgid_all_example :
    (u : Task) × (slot
        (setpgid_all
          ((pos 3, pos 1, a_task 1 0) ∷ [])
          (set table 3 (some (sys_setsid (a_task 3 3)).1)))
        3
      ≡ some u)
    × (u.ids.pgrp ≡ pos 3)
    × (u.ids.session ≡ pos 3)
sys_setsid-setpgid_all_example =
    sys_setsid-setpgid_all ((pos 3, pos 1, a_task 1 0) ∷ []) (a_task 3 3) table 3 (inr refl)
      (omega arith)

-- A read of a sector of the disk.
abbrev a_read : ℕ → Request
a_read sector = record { dev = 769; cmd = 0; sector = sector; nr_sectors = 2; bh = sector }

add_request-turns_example :
    (before : List Request) × (after : List Request) × (a_read 10 ∷ a_read 4 ∷ [] ≡ before ++ after)
    × (add_request (a_read 2) (a_read 6 ∷ a_read 10 ∷ a_read 4 ∷ [])
        ≡ (false, a_read 6 ∷ (before ++ a_read 2 ∷ after)))
    × (turns (add_request (a_read 2) (a_read 6 ∷ a_read 10 ∷ a_read 4 ∷ [])).1 ≤ 1)
add_request-turns_example =
    add_request-turns (a_read 2) (a_read 6) (a_read 10 ∷ a_read 4 ∷ []) (omega arith)
      (inr refl, (inr refl, tt))

find_empty_process-Slot_example :
    (pid : ℕ) × (r : ℤ) × (find_empty_process 2147483647 table ≡ some (pid, r))
    × (1 ≤ pid)
    × (pid < 2147483648)
    × ((i : ℕ) (u : Task) → slot table i ≡ some u → u.ids.pid ≢ pos pid)
    × Slot table r
find_empty_process-Slot_example =
    find_empty_process-Slot 2147483647 table (omega arith) (omega arith)

-- The number 1 is task 1's: the search goes on to 2, and the slot is the third.
find_empty_process_wraps : find_empty_process 2147483647 table ≡ some (2, pos 2)
unfolding find_empty_process new_pid is_used next_pid empty_slot
find_empty_process_wraps = refl
