-- ===== src/Kernel/Tests/Signals.antt =====
-- kernel/signal.c and kernel/exit.c at concrete inputs.

use linux_rpg.Prelude.{none, some, if◌then◌else◌}
use linux_rpg.Prelude.{◌-◌, ◌^◌, ◌≡◌, refl, List, [], ◌∷◌, true, false, arith}
use linux_rpg.Prelude.Mask.{bit}
use linux_rpg.Kernel.Task.{Sigaction, Task, sigkill}
use linux_rpg.Kernel.Signal.{action_of, sys_sigaction, Regs, Word, Delivery, do_signal}
use linux_rpg.Kernel.Signal.Handlers.{
  signal, sigaction, ssetmask, calls, unwind, do_signal-sigkill, do_signal-frame,
  do_signal-blocks_sigkill,
}
use linux_rpg.Kernel.Tests.{a_task}

-- A handler at address 4096 for one signal, whose mask holds SIGKILL.
abbrev action : Sigaction
action = record {
  sa_handler = 4096;
  sa_mask = bit 8;
  sa_nomask = false;
  sa_oneshot = false;
  sa_restorer = 8192;
}

abbrev regs : Regs
regs = record { eax = 1; ecx = 2; edx = 3; eip = 100; eflags = 0; esp = 65536 }

do_signal-sigkill_example :
    ((calls (signal 9 4096 0 ∷ sigaction 9 action ∷ ssetmask (bit 8) ∷ []) (a_task 3 3)).blocked
        (sigkill - 1)
      ≡ false)
    × (do_signal sigkill regs
          (calls (signal 9 4096 0 ∷ sigaction 9 action ∷ ssetmask (bit 8) ∷ []) (a_task 3 3))
        ≡ Delivery.exits (2 ^ 8))
do_signal-sigkill_example =
    do_signal-sigkill (signal 9 4096 0 ∷ sigaction 9 action ∷ ssetmask (bit 8) ∷ []) (a_task 3 3)
      regs refl refl

-- The task with the handler installed.
abbrev handling : Task
handling = record (a_task 3 3) { sigaction = action ∷ [] }

do_signal-frame_example :
    (r' : Regs) × (ws : List Word) × (t' : Task) × (do_signal 1 regs handling
      ≡ Delivery.handled r' ws t')
    × (unwind r'.esp ws
        ≡ some (
          (action_of 1 handling).sa_restorer,
          1,
          if (action_of 1 handling).sa_nomask then none else some handling.blocked,
          regs,
        ))
    × (r'.eip ≡ (action_of 1 handling).sa_handler)
do_signal-frame_example = do_signal-frame 1 regs handling (omega arith) (omega arith) (omega arith)

do_signal-blocks_sigkill_example :
    (r' : Regs) × (ws : List Word) × (t' : Task) × (do_signal 2 regs
        (sys_sigaction 2 action (a_task 3 3)).1
      ≡ Delivery.handled r' ws t')
    × (t'.blocked (sigkill - 1) ≡ true)
do_signal-blocks_sigkill_example =
    do_signal-blocks_sigkill 2 action (a_task 3 3) regs refl
      (record { low = omega arith; high = omega arith; not_kill = omega arith }) (omega arith) refl
      refl
