-- ===== src/Kernel/Signal/Handlers.antt =====
-- kernel/signal.c: which handlers a task can install, and what a delivery does.
use linux_rpg.Kernel.Signal.{entry_regs, entry_task}
use linux_rpg.Kernel.Signal.{num, mask, refused, set_action}
use linux_rpg.Prelude.{
  ℕ, ◌+◌, ◌-◌, ◌*◌, ◌%◌, ◌^◌, ◌≤◌, ◌<◌, ◌≡◌, ◌≢◌, refl, List, [], ◌∷◌, Option, none, some, true,
  false, inl, inr, ◌∙◌, Bool-cases, arith, ◌==◌, if◌then◌else◌, length, get_or-set_ne,
  get_or-set_self,
}
use linux_rpg.Prelude.Mask.{Mask}
use linux_rpg.Kernel.Task.{Sigaction, Task, sigkill}
use linux_rpg.Kernel.Signal.{
  sys_ssetmask, sys_signal, sys_sigaction, action_of, no_action, own_mask, Regs, Word, Delivery,
  do_signal, frame,
}

-- The calls by which a task changes its handlers and its mask.
pub data Call : Type 0 where
  signal : ℕ → ℕ → ℕ → Call
  sigaction : ℕ → Sigaction → Call
  ssetmask : Mask → Call

pub call : Call → Task → Task
call (signal signum handler restorer) t = (sys_signal signum handler restorer t).1
call (sigaction signum action) t = (sys_sigaction signum action t).1
call (ssetmask newmask) t = (sys_ssetmask newmask t).1

pub calls : List Call → Task → Task
calls [] t = t
calls (c ∷ cs) t = calls cs (call c t)

-- A number that the calls accept.
pub record IsSettable (signum : ℕ) : Type 0 where
  pub low : 1 ≤ signum
  pub high : signum ≤ 32
  pub not_kill : signum ≢ sigkill

IsSettable-of_refused : (signum : ℕ) → refused signum ≡ false → IsSettable signum
IsSettable-of_refused signum h = ground arith

refused_of_IsSettable : {signum : ℕ} → IsSettable signum → refused signum ≡ false
refused_of_IsSettable s = ground arith

action_of-set_action_ne :
    (signum other : ℕ) (a : Sigaction) (t : Task)
    → 1 ≤ signum
    → 1 ≤ other
    → signum ≢ other
    → action_of other (set_action signum a t) ≡ action_of other t
action_of-set_action_ne signum other a t h h' ne =
    get_or-set_ne t.sigaction (signum - 1) (other - 1) a no_action (omega arith)

action_of-sigkill-signal :
    (signum handler restorer : ℕ) (t : Task)
    → action_of sigkill (sys_signal signum handler restorer t).1 ≡ action_of sigkill t
unfolding sys_signal
action_of-sigkill-signal signum handler restorer t = elim (Bool-cases (refused signum)) [
  | inl e ↦ rw e
  | inr e ↦
      let s = IsSettable-of_refused signum e in
      rw e (action_of-set_action_ne signum sigkill _ t s.low (omega arith) s.not_kill)
]

action_of-sigkill-sigaction :
    (signum : ℕ) (a : Sigaction) (t : Task)
    → action_of sigkill (sys_sigaction signum a t).1 ≡ action_of sigkill t
unfolding sys_sigaction
action_of-sigkill-sigaction signum a t = elim (Bool-cases (refused signum)) [
  | inl e ↦ rw e
  | inr e ↦
      let s = IsSettable-of_refused signum e in
      rw e (action_of-set_action_ne signum sigkill _ t s.low (omega arith) s.not_kill)
]

action_of-sigkill-call : (c : Call) (t : Task) → action_of sigkill (call c t) ≡ action_of sigkill t
unfolding call sys_ssetmask
action_of-sigkill-call (signal signum handler restorer) t =
    action_of-sigkill-signal signum handler restorer t
action_of-sigkill-call (sigaction signum action) t = action_of-sigkill-sigaction signum action t
action_of-sigkill-call (ssetmask newmask) t = refl

action_of-sigkill-calls :
    (cs : List Call) (t : Task) → action_of sigkill (calls cs t) ≡ action_of sigkill t
unfolding calls
action_of-sigkill-calls [] t = refl
action_of-sigkill-calls (c ∷ cs) t =
    action_of-sigkill-calls cs (call c t) ∙ action_of-sigkill-call c t

blocked-sigkill-call :
    (c : Call) (t : Task)
    → t.blocked (sigkill - 1) ≡ false
    → (call c t).blocked (sigkill - 1) ≡ false
unfolding call sys_ssetmask sys_signal sys_sigaction
blocked-sigkill-call (signal signum handler restorer) t h = elim (Bool-cases (refused signum)) [
  | inl e ↦ rw (call, e) h
  | inr e ↦ rw (call, e) h
]
blocked-sigkill-call (sigaction signum action) t h = elim (Bool-cases (refused signum)) [
  | inl e ↦ rw (call, e) h
  | inr e ↦ rw (call, e) h
]
blocked-sigkill-call (ssetmask newmask) t h = ground arith

blocked-sigkill-calls :
    (cs : List Call) (t : Task)
    → t.blocked (sigkill - 1) ≡ false
    → (calls cs t).blocked (sigkill - 1) ≡ false
unfolding calls
blocked-sigkill-calls [] t h = h
blocked-sigkill-calls (c ∷ cs) t h =
    blocked-sigkill-calls cs (call c t) (blocked-sigkill-call c t h)

-- A task that starts with the default action for SIGKILL, and with SIGKILL not blocked, has it not
-- blocked after any calls of signal, sigaction and ssetmask, and a delivery of SIGKILL then ends it.
-- (No handler runs between the calls.)
pub do_signal-sigkill :
    (cs : List Call) (t : Task) (r : Regs)
    → (action_of sigkill t).sa_handler ≡ 0
    → t.blocked (sigkill - 1) ≡ false
    → ((calls cs t).blocked (sigkill - 1) ≡ false)
      × (do_signal sigkill r (calls cs t) ≡ Delivery.exits (2 ^ 8))
unfolding do_signal
do_signal-sigkill cs t r h open_to =
    (blocked-sigkill-calls cs t open_to, rw (action_of-sigkill-calls cs t, h))

-- `sigaction` on a signal that can be set returns the action that the task had for it, installs the
-- new action with the signal itself added to the mask (or with an empty mask under SA_NOMASK), and
-- leaves the actions of all other signals; on any other number it is -1 and changes nothing.
sigaction-action_of :
    (signum other : ℕ) (a : Sigaction) (t : Task)
    → length t.sigaction ≡ 32
    → 1 ≤ other
    → (IsSettable signum
        → ((sys_sigaction signum a t).0 ≡ some (action_of signum t))
          × (action_of signum (sys_sigaction signum a t).1 ≡ own_mask signum a))
      × (signum ≢ other → action_of other (sys_sigaction signum a t).1 ≡ action_of other t)
      × (refused signum ≡ true → sys_sigaction signum a t ≡ (none, t))
unfolding sys_sigaction
sigaction-action_of signum other a t n h = (set_it, leave, λ e. rw e)
  where
    set_it :
        IsSettable signum
        → ((sys_sigaction signum a t).0 ≡ some (action_of signum t))
          × (action_of signum (sys_sigaction signum a t).1 ≡ own_mask signum a)
    set_it s =
        let e = refused_of_IsSettable s in
        rw e (
          refl,
          get_or-set_self t.sigaction (signum - 1) _ no_action (omega (arith, s.low, s.high)),
        )

    leave : signum ≢ other → action_of other (sys_sigaction signum a t).1 ≡ action_of other t
    leave ne = elim (Bool-cases (refused signum)) [
      | inl e ↦ rw e
      | inr e ↦
          let s = IsSettable-of_refused signum e in
          rw e (action_of-set_action_ne signum other _ t s.low h ne)
    ]

-- What is taken off the stack, from the top at `esp` on: the address to which the handler returns,
-- its argument, the mask if there is one, and the registers that the task had, with its stack pointer.
unfoldable pub unwind : ℕ → List Word → Option (ℕ × ℕ × Option Mask × Regs)
unwind esp (num ret ∷ num arg ∷ num a ∷ num c ∷ num d ∷ num flags ∷ num ip ∷ []) =
    some (
      ret,
      arg,
      none,
      record { eax = a; ecx = c; edx = d; eip = ip; eflags = flags; esp = esp + 28 },
    )
unwind esp (num ret ∷ num arg ∷ mask old ∷ num a ∷ num c ∷ num d ∷ num flags ∷ num ip ∷ []) = some (
  ret,
  arg,
  some old,
  record { eax = a; ecx = c; edx = d; eip = ip; eflags = flags; esp = esp + 32 },
)
unwind esp _ = none

unwind-frame :
    (signr : ℕ) (r : Regs) (t : Task)
    → 32 ≤ r.esp
    → r.esp < 2 ^ 32
    → unwind (entry_regs signr r t).esp (frame signr r t)
      ≡ some (
        (action_of signr t).sa_restorer,
        signr,
        if (action_of signr t).sa_nomask then none else some t.blocked,
        r,
      )
unfolding unwind
unwind-frame signr r t h h' = elim (Bool-cases (action_of signr t).sa_nomask) [
  | inl e ↦
      let back : (r.esp + 2 ^ 32 - 4 * 7) % 2 ^ 32 + 28 ≡ r.esp = omega (arith, h, h') in
      rw (e, back) refl
  | inr e ↦
      let back : (r.esp + 2 ^ 32 - 4 * 8) % 2 ^ 32 + 32 ≡ r.esp = omega (arith, h, h') in
      rw (e, back) refl
]

do_signal-handled :
    (signr : ℕ) (r : Regs) (t : Task)
    → 1 < (action_of signr t).sa_handler
    → do_signal signr r t
      ≡ Delivery.handled (entry_regs signr r t) (frame signr r t) (entry_task signr t)
unfolding do_signal
do_signal-handled signr r t run =
    let not_ignored : ((action_of signr t).sa_handler == 1) ≡ false = ground arith in
    let not_default : ((action_of signr t).sa_handler == 0) ≡ false = ground arith in
    rw (not_ignored, not_default)

-- A handler that runs starts at its address with a stack from which the words are taken in this
-- order: the restorer, to which it returns, the signal's number, the blocked mask (unless the action
-- has SA_NOMASK), eax, ecx, edx, the flags and the address where the task was interrupted. Taking
-- them off gives all the registers back as they were, the stack pointer among them. (It is a 32-bit
-- address, not within 32 bytes of address 0.)
pub do_signal-frame :
    (signr : ℕ) (r : Regs) (t : Task)
    → 32 ≤ r.esp
    → r.esp < 2 ^ 32
    → 1 < (action_of signr t).sa_handler
    → (r' : Regs) × (ws : List Word) × (t' : Task) × (do_signal signr r t
        ≡ Delivery.handled r' ws t')
      × (unwind r'.esp ws
          ≡ some (
            (action_of signr t).sa_restorer,
            signr,
            if (action_of signr t).sa_nomask then none else some t.blocked,
            r,
          ))
      × (r'.eip ≡ (action_of signr t).sa_handler)
do_signal-frame signr r t h h' run = (
  entry_regs signr r t,
  frame signr r t,
  entry_task signr t,
  do_signal-handled signr r t run,
  unwind-frame signr r t h h',
  refl,
)

-- The mask that `sigaction` takes is not cleared of SIGKILL: when a
-- handler whose mask holds SIGKILL runs, SIGKILL is blocked.
pub do_signal-blocks_sigkill :
    (signum : ℕ) (a : Sigaction) (t : Task) (r : Regs)
    → length t.sigaction ≡ 32
    → IsSettable signum
    → 1 < a.sa_handler
    → a.sa_nomask ≡ false
    → a.sa_mask (sigkill - 1) ≡ true
    → (r' : Regs) × (ws : List Word) × (t' : Task) × (do_signal signum r
          (sys_sigaction signum a t).1
        ≡ Delivery.handled r' ws t')
      × (t'.blocked (sigkill - 1) ≡ true)
do_signal-blocks_sigkill signum a t r n s run nomask kill =
    let u = (sys_sigaction signum a t).1 in
    let (_, got) = (sigaction-action_of signum signum a t n s.low).0 s in
    let run' : 1 < (action_of signum u).sa_handler = rw got run in
    (
      entry_regs signum r u,
      frame signum r u,
      entry_task signum u,
      do_signal-handled signum r u run',
      rw got (ground arith),
    )
