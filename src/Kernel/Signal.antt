-- ===== src/Kernel/Signal.antt =====
-- kernel/signal.c. A `struct sigaction` is copied whole, where the source copies its bytes; what
-- user memory holds and receives is an argument and a result.
pub mod Handlers
use linux_rpg.Prelude.{
  ℕ, suc, ◌+◌, ◌-◌, ◌*◌, ◌%◌, ◌^◌, List, [], ◌∷◌, ◌++◌, Option, none, some, Bool, true, false, ◌||◌,
  not, ltb, ◌==◌, if◌then◌else◌, get_or, set,
}
use linux_rpg.Prelude.Int.{ℤ, pos, negsuc}
use linux_rpg.Prelude.Mask.{Mask, empty, bit, mask_or, mask_and, mask_not}
use linux_rpg.Kernel.Task.{Sigaction, Task, sig_bit, sigkill, sigchld}

abbrev pub sys_sgetmask : Task → Mask
sys_sgetmask t = t.blocked

pub sys_ssetmask : Mask → Task → Mask × Task
sys_ssetmask newmask t =
    (t.blocked, record t { blocked = mask_and newmask (mask_not (sig_bit sigkill)) })

abbrev pub no_action : Sigaction
no_action = record {
  sa_handler = 0;
  sa_mask = empty;
  sa_nomask = false;
  sa_oneshot = false;
  sa_restorer = 0;
}

-- current->sigaction[signum - 1]
abbrev pub action_of : ℕ → Task → Sigaction
action_of signum t = get_or t.sigaction (signum - 1) no_action

abbrev pub set_action : ℕ → Sigaction → Task → Task
set_action signum a t = record t { sigaction = set t.sigaction (signum - 1) a }

-- signum<1 || signum>32 || signum==SIGKILL
abbrev pub refused : ℕ → Bool
refused signum = ltb signum 1 || (ltb 32 signum || signum == sigkill)

-- A return value of -1 is `none`. A negative `signum` is refused as 0 is.
pub sys_signal : ℕ → ℕ → ℕ → Task → Option ℕ × Task
sys_signal signum handler restorer t = if refused signum then (none, t) else (
  some (action_of signum t).sa_handler,
  set_action signum
      (record {
        sa_handler = handler;
        sa_mask = empty;
        sa_nomask = true;
        sa_oneshot = true;
        sa_restorer = restorer;
      })
      t,
)

-- The mask of an action that is installed for `signum`.
abbrev pub own_mask : ℕ → Sigaction → Sigaction
own_mask signum a = record a {
  sa_mask = if a.sa_nomask then empty else mask_or a.sa_mask (sig_bit signum);
}

-- The old action goes to `oldaction`, if that is not NULL: the first result, `none` for -1.
pub sys_sigaction : ℕ → Sigaction → Task → Option Sigaction × Task
sys_sigaction signum action t =
    if refused signum
    then (none, t)
    else (some (action_of signum t), set_action signum (own_mask signum action) t)

-- A word that `do_signal` puts on the user's stack.
pub data Word : Type 0 where
  num : ℕ → Word
  mask : Mask → Word

-- The registers that `do_signal` takes from the kernel's stack, or writes there.
pub record Regs : Type 0 where
  pub eax : ℕ
  pub ecx : ℕ
  pub edx : ℕ
  pub eip : ℕ
  pub eflags : ℕ
  pub esp : ℕ

-- The signal is ignored, or ends the task with a code (a call of `do_exit`), or the task goes on in
-- a handler: the new registers, the words from `esp` up, and the task.
pub data Delivery : Type 0 where
  ignored : Delivery
  exits : ℕ → Delivery
  handled : Regs → List Word → Task → Delivery

-- if (sa->sa_flags & SA_ONESHOT) sa->sa_handler = NULL;
abbrev pub oneshot : ℕ → Task → Task
oneshot signr t =
    let sa = action_of signr t in
    if sa.sa_oneshot then set_action signr (record sa { sa_handler = 0 }) t else t

-- The words, from the lowest address up.
abbrev pub frame : ℕ → Regs → Task → List Word
frame signr r t =
    let sa = action_of signr t in
    (num sa.sa_restorer ∷ num signr ∷ [])
    ++ ((if sa.sa_nomask then [] else mask t.blocked ∷ [])
        ++ (num r.eax ∷ num r.ecx ∷ num r.edx ∷ num r.eflags ∷ num r.eip ∷ []))

-- The registers of the handler. `esp` is a pointer to longs and wraps as a 32-bit address.
abbrev pub entry_regs : ℕ → Regs → Task → Regs
entry_regs signr r t =
    let sa = action_of signr t in
    let longs : ℕ = if sa.sa_nomask then 7 else 8 in
    record r { eip = sa.sa_handler; esp = (r.esp + 2 ^ 32 - 4 * longs) % 2 ^ 32 }

abbrev pub entry_task : ℕ → Task → Task
entry_task signr t = record (oneshot signr t) {
  blocked = mask_or t.blocked (action_of signr t).sa_mask;
}

pub do_signal : ℕ → Regs → Task → Delivery
do_signal signr r t =
    let handler = (action_of signr t).sa_handler in
    if handler == 1
    then Delivery.ignored
    else if handler == 0
    then (if signr == sigchld then Delivery.ignored else Delivery.exits (2 ^ (signr - 1)))
    else Delivery.handled (entry_regs signr r t) (frame signr r t) (entry_task signr t)
