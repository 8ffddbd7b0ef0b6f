-- ===== src/Kernel/Exit.antt =====
-- kernel/exit.c: `sys_waitpid`, `tell_father`, and what `do_exit` does to the task table. `release`
-- takes a task out of the table; freeing its page and the call of `schedule` are not part of it. A
-- task of the table is taken to stand there once, so a slot stands for a task's pointer.
pub mod Wait
pub mod Reap
use linux_rpg.Prelude.{
  ℕ, zero, suc, ◌+◌, ◌-◌, List, [], ◌∷◌, map, Option, none, some, Bool, true, false, not, ◌&&◌,
  ◌==◌, if◌then◌else◌, set,
}
use linux_rpg.Prelude.Int.{ℤ, pos, negsuc, ◌==ℤ◌}
use linux_rpg.Prelude.Mask.{mask_and, mask_not, nonzero}
use linux_rpg.Kernel.Task.{State, Times, Task, Table, slot, sig_bit, sigchld}
use linux_rpg.Kernel.Errno.{eintr, echild}
use linux_rpg.Kernel.Kill.{raise, send_sig, kill_session}

-- The tests of the scan of `sys_waitpid`: a child of `current` that `pid` asks for.
abbrev pub asks_for : ℤ → Task → Task → Bool
asks_for (pos (suc n)) current t = t.ids.pid ==ℤ pos (suc n)
asks_for (pos zero) current t = t.ids.pgrp ==ℤ current.ids.pgrp
asks_for (negsuc zero) current t = true
asks_for (negsuc (suc n)) current t = t.ids.pgrp ==ℤ pos (suc (suc n))

abbrev pub is_child : ℤ → Task → Task → Bool
is_child pid current t = t.ids.father ==ℤ current.ids.pid && asks_for pid current t

-- What the scan comes to: no child to wait for, one that still runs (`flag`), or the child at which
-- it stops.
pub data Scan : Type 0 where
  no_child : Scan
  alive : Scan
  stopped_child : Task → Scan
  zombie_child : ℕ → Task → Scan

-- The switch on a child's state, when the scan has not stopped before it.
abbrev pub child_case : Bool → ℕ → Task → Scan → State → Scan
child_case untraced i t found State.stopped = if untraced then stopped_child t else found
child_case untraced i t found State.zombie = zombie_child i t
child_case untraced i t found State.running = alive
child_case untraced i t found State.interruptible = alive
child_case untraced i t found State.uninterruptible = alive

-- The scan goes down from the last slot, so the later slots come first.
unfoldable pub wait_scan : ℤ → Bool → ℕ → Task → ℕ → Table → Scan
wait_scan pid untraced self current i [] = no_child
wait_scan pid untraced self current i (none ∷ ts) = wait_scan pid untraced self current (suc i) ts
wait_scan pid untraced self current i (some t ∷ ts) =
    let found = wait_scan pid untraced self current (suc i) ts in
    let visited : Scan = elim found [
      | no_child ↦ child_case untraced i t no_child t.state
      | alive ↦ child_case untraced i t alive t.state
      | stopped_child u ↦ stopped_child u
      | zombie_child j u ↦ zombie_child j u
    ] in
    if i == self then found else if is_child pid current t then visited else found

-- The scan leaves out task 0.
abbrev pub wait_scan_all : ℤ → Bool → ℕ → Task → Table → Scan
wait_scan_all pid untraced self current [] = no_child
wait_scan_all pid untraced self current (t0 ∷ ts) = wait_scan pid untraced self current 1 ts

-- current->cutime += (*p)->utime; current->cstime += (*p)->stime;
abbrev pub add_times : Task → Task → Task
add_times child t = record t {
  times = record t.times {
    cutime = t.times.cutime + child.times.utime;
    cstime = t.times.cstime + child.times.stime;
  };
}

-- A call returns, with the word that it put at `stat_addr`, or it waits.
pub data Waited : Type 0 where
  returned : ℤ → Option ℕ → Table → Waited
  waiting : Table → Waited

abbrev pub change : ℕ → (Task → Task) → Table → Table
change i f ts = elim (slot ts i) [ none ↦ ts | some t ↦ set ts i (some (f t)) ]

-- `sys_waitpid` up to its return or to its `schedule`.
unfoldable pub wait_once : ℤ → Bool → Bool → ℕ → Task → Table → Waited
wait_once pid untraced nohang self current ts = elim (wait_scan_all pid untraced self current ts) [
  | no_child ↦ returned echild none ts
  | alive ↦
      if nohang
      then returned (pos 0) none ts
      else waiting (change self (λ t. record t { state = State.interruptible }) ts)
  | stopped_child t ↦ returned t.ids.pid (some 127) ts
  | zombie_child i t ↦
      returned t.ids.pid (some t.exit_code) (set (change self (add_times t) ts) i none)
]

-- current->signal &= ~(1<<(SIGCHLD-1))
abbrev pub drop_sigchld : Task → Task
drop_sigchld t = record t { signal = mask_and t.signal (mask_not (sig_bit sigchld)) }

-- `env` is what the other tasks do to the table at each sleep; with none left the caller waits on.
unfoldable pub sys_waitpid : ℤ → Bool → Bool → ℕ → List (Table → Table) → Table → Waited
sys_waitpid pid untraced nohang self [] ts = elim (slot ts self) [
  | none ↦ returned echild none ts
  | some current ↦ wait_once pid untraced nohang self current ts
]
sys_waitpid pid untraced nohang self (e ∷ env) ts = elim (slot ts self) [
  | none ↦ returned echild none ts
  | some current ↦ elim (wait_once pid untraced nohang self current ts) [
    | returned ret stat us ↦ returned ret stat us
    | waiting us ↦
        let awake = change self drop_sigchld (e us) in
        let again = sys_waitpid pid untraced nohang self env awake in
        elim (slot awake self) [
          | none ↦ again
          | some t ↦ if nonzero t.signal then returned eintr none awake else again
        ]
  ]
]

-- The father of the tasks that `do_exit` leaves behind becomes task 1, and init is told of those
-- that are zombies.
unfoldable pub orphan : ℤ → ℕ → Table → Table
orphan self zero ts = ts
orphan self (suc n) ts =
    let us = orphan self n ts in
    elim (slot us n) [
      | none ↦ us
      | some t ↦
          let vs = set us n (some (record t { ids = record t.ids { father = pos 1 } })) in
          let told = set vs 1 (send_sig sigchld (slot vs 1) true t.cred).1 in
          if t.ids.father ==ℤ self
          then elim t.state [
            | State.zombie ↦ told
            | State.running ↦ vs
            | State.interruptible ↦ vs
            | State.uninterruptible ↦ vs
            | State.stopped ↦ vs
          ]
          else us
    ]

-- The task of the number gets SIGCHLD; `none` if there is none, and the task releases itself.
unfoldable pub tell_from : ℤ → Table → Option Table
tell_from pid [] = none
tell_from pid (none ∷ ts) = elim (tell_from pid ts) [ none ↦ none | some us ↦ some (none ∷ us) ]
tell_from pid (some t ∷ ts) =
    let rest : Option Table = elim (tell_from pid ts) [
      | none ↦ none
      | some us ↦ some (some t ∷ us)
    ] in
    if t.ids.pid ==ℤ pid then some (some (raise sigchld t) ∷ ts) else rest

unfoldable pub tell_father : ℤ → Table → Option Table
tell_father pid ts = if pid ==ℤ pos 0 then none else tell_from pid ts
