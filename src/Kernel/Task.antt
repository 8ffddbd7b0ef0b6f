-- ===== src/Kernel/Task.antt =====
-- include/linux/sched.h: the process descriptor and the task table. The table's pointers are
-- `Option`s, `NULL` being `none`; a pointer to a descriptor elsewhere is the descriptor's slot in
-- the table. The clock values and counters are taken as numbers that do not reach 2 ^ 31.
use linux_rpg.Prelude.{ℕ, ◌-◌, List, Option, none, Bool, true, false, get_or}
use linux_rpg.Prelude.Int.{ℤ}
use linux_rpg.Prelude.Mask.{Mask, bit}

pub data State : Type 0 where
  running interruptible uninterruptible zombie stopped : State

abbrev pub is_running : State → Bool
is_running State.running = true
is_running _ = false

abbrev pub is_interruptible : State → Bool
is_interruptible State.interruptible = true
is_interruptible _ = false

-- A handler is an address, 0 for the default action and 1 to ignore the signal.
pub record Sigaction : Type 0 where
  pub sa_handler : ℕ
  pub sa_mask : Mask
  pub sa_nomask : Bool
  pub sa_oneshot : Bool
  pub sa_restorer : ℕ

-- pid, father, pgrp, session, leader
pub record Ids : Type 0 where
  pub pid : ℤ
  pub father : ℤ
  pub pgrp : ℤ
  pub session : ℤ
  pub leader : Bool

-- uid, euid, suid, gid, egid, sgid: unsigned short
pub record Cred : Type 0 where
  pub uid : ℕ
  pub euid : ℕ
  pub suid : ℕ
  pub gid : ℕ
  pub egid : ℕ
  pub sgid : ℕ

pub record Times : Type 0 where
  pub utime : ℕ
  pub stime : ℕ
  pub cutime : ℕ
  pub cstime : ℕ

-- The memory layout: end_code, end_data, brk, start_stack.
pub record Layout : Type 0 where
  pub end_code : ℕ
  pub end_data : ℕ
  pub brk : ℕ
  pub start_stack : ℕ

pub record Task : Type 0 where
  pub state : State
  pub counter : ℕ
  pub priority : ℕ
  pub signal : Mask
  pub sigaction : List Sigaction
  pub blocked : Mask
  pub exit_code : ℕ
  pub layout : Layout
  pub ids : Ids
  pub cred : Cred
  pub alarm : ℕ
  pub times : Times
  pub tty : ℤ
  pub umask : ℕ

-- `task[NR_TASKS]`, less the fixed length.
abbrev pub Table : Type 0
Table = List (Option Task)

abbrev pub nr_tasks : ℕ
nr_tasks = 64

-- `task[i]`
abbrev pub slot : Table → ℕ → Option Task
slot ts i = get_or ts i none

-- 1 << (sig - 1)
abbrev pub sig_bit : ℕ → Mask
sig_bit sig = bit (sig - 1)

abbrev pub sighup : ℕ
sighup = 1

abbrev pub sigkill : ℕ
sigkill = 9

abbrev pub sigpipe : ℕ
sigpipe = 13

abbrev pub sigalrm : ℕ
sigalrm = 14

abbrev pub sigchld : ℕ
sigchld = 17

abbrev pub sigstop : ℕ
sigstop = 19

abbrev pub hz : ℕ
hz = 100
