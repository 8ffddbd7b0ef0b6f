-- ===== src/Kernel/Session.antt =====
-- kernel/sys.c: `sys_setpgid`, `sys_setsid`, `sys_getpgrp`, `sys_umask`, `sys_brk`.
pub mod Groups
use linux_rpg.Prelude.{
  ℕ, ◌+◌, ◌-◌, ◌%◌, ◌^◌, List, [], ◌∷◌, none, some, Bool, true, not, ◌&&◌, ◌||◌, ltb, leb,
  if◌then◌else◌,
}
use linux_rpg.Prelude.Int.{ℤ, pos, negsuc, ◌==ℤ◌}
use linux_rpg.Kernel.Task.{Task, Table}
use linux_rpg.Kernel.Errno.{eperm, esrch}
use linux_rpg.Kernel.Cred.{suser}

abbrev pub with_pgrp : ℤ → Task → Task
with_pgrp pgid t = record t { ids = record t.ids { pgrp = pgid } }

-- task[i]->leader, or a session that is not the caller's
abbrev pub is_fixed : Task → Task → Bool
is_fixed current t = t.ids.leader || not (t.ids.session ==ℤ current.ids.session)

-- The loop of `sys_setpgid`, with `pid` and `pgid` already filled in.
unfoldable pub setpgid_from : ℤ → ℤ → Task → Table → ℤ × Table
setpgid_from pid pgid current [] = (esrch, [])
setpgid_from pid pgid current (none ∷ ts) =
    let (ret, ts') = setpgid_from pid pgid current ts in (ret, none ∷ ts')
setpgid_from pid pgid current (some t ∷ ts) =
    let (ret, ts') = setpgid_from pid pgid current ts in
    if t.ids.pid ==ℤ pid
    then (if is_fixed current t
        then (eperm, some t ∷ ts)
        else (pos 0, some (with_pgrp pgid t) ∷ ts))
    else (ret, some t ∷ ts')

-- if (!pid) pid = current->pid;
abbrev pub or_own : ℤ → Task → ℤ
or_own pid current = if pid ==ℤ pos 0 then current.ids.pid else pid

unfoldable pub sys_setpgid : ℤ → ℤ → Task → Table → ℤ × Table
sys_setpgid pid pgid current = setpgid_from (or_own pid current) (or_own pgid current) current

abbrev pub sys_getpgrp : Task → ℤ
sys_getpgrp t = t.ids.pgrp

unfoldable pub sys_setsid : Task → ℤ × Task
sys_setsid t = if t.ids.leader && not (suser t.cred) then (eperm, t) else (
  t.ids.pid,
  record t {
    ids = record t.ids { leader = true; session = t.ids.pid; pgrp = t.ids.pid };
    tty = negsuc 0;
  },
)

-- mask & 0777
unfoldable pub sys_umask : ℕ → Task → ℕ × Task
sys_umask mask t = (t.umask, record t { umask = mask % 512 })

-- The difference of the test wraps around in 32 bits.
unfoldable pub sys_brk : ℕ → Task → ℕ × Task
sys_brk end_data_seg t =
    if leb t.layout.end_code end_data_seg
      && ltb end_data_seg ((t.layout.start_stack + (2 ^ 32 - 16384)) % 2 ^ 32)
    then (end_data_seg, record t { layout = record t.layout { brk = end_data_seg } })
    else (t.layout.brk, t)
