-- ===== src/Kernel/Tests/Clock.antt =====
-- kernel/mktime.c and the calls of kernel/sys.c on users and groups at concrete inputs.
use linux_rpg.Prelude.{◌%◌, ◌^◌, ◌≡◌, ◌≢◌, refl, [], ◌∷◌, arith}
use linux_rpg.Prelude.Int.{pos}
use linux_rpg.Kernel.Task.{Cred}
use linux_rpg.Kernel.Mktime.{Tm, kernel_mktime}
use linux_rpg.Kernel.Mktime.Calendar.{seconds, kernel_mktime-seconds}
use linux_rpg.Kernel.Cred.Privilege.{setreuid_all, setreuid_all-unprivileged}

-- 29 February 2000, 12:30:15.
abbrev leap_day : Tm
leap_day = record { tm_sec = 15; tm_min = 30; tm_hour = 12; tm_mday = 29; tm_mon = 1; tm_year = 0 }

leap_day_seconds : kernel_mktime leap_day ≡ 951827415
unfolding kernel_mktime
leap_day_seconds = refl

kernel_mktime-seconds_example : kernel_mktime leap_day ≡ seconds leap_day % 2 ^ 32
kernel_mktime-seconds_example =
    kernel_mktime-seconds leap_day (omega arith) (omega arith) (omega arith)

-- A set-user-id program of user 7, run by user 500.
abbrev user : Cred
user = record { uid = 500; euid = 7; suid = 7; gid = 50; egid = 5; sgid = 5 }

setreuid_all-unprivileged_example :
    ((setreuid_all ((pos 7, pos 500) ∷ (pos 1, pos 1) ∷ []) user).uid ≢ 0)
    × ((setreuid_all ((pos 7, pos 500) ∷ (pos 1, pos 1) ∷ []) user).euid ≢ 0)
setreuid_all-unprivileged_example =
    setreuid_all-unprivileged ((pos 7, pos 500) ∷ (pos 1, pos 1) ∷ []) user
      (record { uid = omega arith; euid = omega arith }) (omega arith) (omega arith)
