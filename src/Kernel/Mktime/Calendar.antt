-- ===== src/Kernel/Mktime/Calendar.antt =====
-- kernel/mktime.c against a calendar that counts days year by year and month by month.
use linux_rpg.Prelude.{
  ℕ, zero, suc, ◌+◌, ◌-◌, ◌*◌, ◌/◌, ◌%◌, ◌^◌, ◌≤◌, ◌<◌, ◌≡◌, Bool, true, false, ◌&&◌, ◌||◌, not,
  refl, arith, leb, ltb, ◌==◌, get_or, every_bit, every_bit-at, ==_iff, if◌then◌else◌,
}
use linux_rpg.Kernel.Mktime.{Tm, month, year_of, kernel_mktime}

-- The Gregorian rule.
abbrev pub is_leap : ℕ → Bool
is_leap y = y % 4 == 0 && (not (y % 100 == 0) || y % 400 == 0)

-- Days from 1 January 1970 to 1 January of the year 1970 + n.
pub days_before_year : ℕ → ℕ
days_before_year zero = 0
days_before_year (suc n) = days_before_year n + (if is_leap (1970 + n) then 366 else 365)

-- January is month 0.
abbrev pub days_in_month : Bool → ℕ → ℕ
days_in_month leap m =
    if m == 1
    then (if leap then 29 else 28)
    else (if m == 3 || (m == 5 || (m == 8 || m == 10)) then 30 else 31)

pub days_before_month : Bool → ℕ → ℕ
days_before_month leap zero = 0
days_before_month leap (suc m) = days_before_month leap m + days_in_month leap m

-- Years 70 to 99 are 1970 to 1999, the others 2000 to 2069.
abbrev pub full_year : ℕ → ℕ
full_year tm_year = if leb 70 tm_year then 1900 + tm_year else 2000 + tm_year

-- Whole days from 1 January 1970 to a date.
abbrev pub days : Tm → ℕ
days tm =
    days_before_year (full_year tm.tm_year - 1970)
    + days_before_month (is_leap (full_year tm.tm_year)) tm.tm_mon
    + (tm.tm_mday - 1)

abbrev pub seconds : Tm → ℕ
seconds tm = 86400 * days tm + (3600 * tm.tm_hour + (60 * tm.tm_min + tm.tm_sec))

-- Until 2099 every fourth year is a leap year.
leap_year : (y : ℕ) → y < 130 → is_leap (1970 + y) ≡ ((y + 2) % 4 == 0)
leap_year y h = ground arith

days_before_year_closed : (y : ℕ) → y < 130 → days_before_year y ≡ 365 * y + (y + 1) / 4
unfolding days_before_year
days_before_year_closed zero h = omega arith
days_before_year_closed (suc y) h = ground (arith, leap_year y, days_before_year_closed y)

-- The table of the source, for the days of the calendar and the day taken off again.
abbrev month_agrees : Bool → ℕ → Bool
month_agrees leap m =
    get_or month m 0 == 86400 * (days_before_month leap m + (if not leap && ltb 1 m then 1 else 0))

months_agree : (leap : Bool) → every_bit (month_agrees leap) 12 ≡ true
unfolding every_bit days_before_month
months_agree true = refl
months_agree false = refl

month_table :
    (leap : Bool) (m : ℕ)
    → m < 12
    → get_or month m 0 ≡ 86400 * (days_before_month leap m + (if not leap && ltb 1 m then 1 else 0))
month_table leap m h = (==_iff _ _).0 (every_bit-at (month_agrees leap) 12 m h (months_agree leap))

days_before_month-le : (leap : Bool) (m : ℕ) → days_before_month leap m ≤ 31 * m
unfolding days_before_month
days_before_month-le leap zero = omega arith
days_before_month-le leap (suc m) = ground (arith, days_before_month-le leap m)

-- For a clock between 1970 and 2069 whose month is below 12 and whose day is at least 1,
-- `kernel_mktime` is the number of seconds from 1 January 1970 by the Gregorian calendar,
-- modulo 2 ^ 32.
pub kernel_mktime-seconds :
    (tm : Tm)
    → tm.tm_year < 170
    → tm.tm_mon < 12
    → 1 ≤ tm.tm_mday
    → kernel_mktime tm ≡ seconds tm % 2 ^ 32
unfolding kernel_mktime
kernel_mktime-seconds tm hy hm hd = ground (
  arith,
  leap_year (year_of tm.tm_year),
  days_before_year_closed (year_of tm.tm_year),
  month_table (is_leap (full_year tm.tm_year)) tm.tm_mon hm,
)

-- The fields of a real date before the year 2038.
pub record IsDate (tm : Tm) : Type 0 where
  pub year : year_of tm.tm_year < 68
  pub mon : tm.tm_mon < 12
  pub mday : (1 ≤ tm.tm_mday) × (tm.tm_mday ≤ 31)
  pub clock : (tm.tm_hour < 24) × (tm.tm_min < 60) × (tm.tm_sec < 60)

-- For a real date before 2038 the signed 32-bit result does not overflow: it is the exact number
-- of seconds since 1970, and below 2 ^ 31.
kernel_mktime-exact :
    (tm : Tm) → IsDate tm → (kernel_mktime tm ≡ seconds tm) × (kernel_mktime tm < 2 ^ 31)
kernel_mktime-exact tm d = ground (
  arith,
  kernel_mktime-seconds tm,
  days_before_year_closed (year_of tm.tm_year),
  days_before_month-le (is_leap (full_year tm.tm_year)) tm.tm_mon,
)
