-- ===== src/Kernel/Mktime.antt =====
-- kernel/mktime.c: seconds since 1970 from the fields of the CMOS clock. A `long` is its bit
-- pattern, a number below 2 ^ 32, so that a sum or a product wraps as on the machine.
pub mod Calendar
use linux_rpg.Prelude.{
  ℕ, ◌+◌, ◌-◌, ◌*◌, ◌/◌, ◌%◌, ◌^◌, List, [], ◌∷◌, ◌&&◌, not, leb, ltb, ◌==◌, if◌then◌else◌, get_or,
}

-- `struct tm`, the fields that `kernel_mktime` reads.
pub record Tm : Type 0 where
  pub tm_sec : ℕ
  pub tm_min : ℕ
  pub tm_hour : ℕ
  pub tm_mday : ℕ
  pub tm_mon : ℕ
  pub tm_year : ℕ

abbrev pub minute : ℕ
minute = 60

abbrev pub hour : ℕ
hour = 60 * minute

abbrev pub day : ℕ
day = 24 * hour

abbrev pub year_seconds : ℕ
year_seconds = 365 * day

abbrev pub wrap : ℕ → ℕ
wrap n = n % 2 ^ 32

-- The table of the seconds before each month of a leap year.
abbrev pub month : List ℕ
month =
    0
    ∷ (day * 31)
    ∷ (day * (31 + 29))
    ∷ (day * (31 + 29 + 31))
    ∷ (day * (31 + 29 + 31 + 30))
    ∷ (day * (31 + 29 + 31 + 30 + 31))
    ∷ (day * (31 + 29 + 31 + 30 + 31 + 30))
    ∷ (day * (31 + 29 + 31 + 30 + 31 + 30 + 31))
    ∷ (day * (31 + 29 + 31 + 30 + 31 + 30 + 31 + 31))
    ∷ (day * (31 + 29 + 31 + 30 + 31 + 30 + 31 + 31 + 30))
    ∷ (day * (31 + 29 + 31 + 30 + 31 + 30 + 31 + 31 + 30 + 31))
    ∷ (day * (31 + 29 + 31 + 30 + 31 + 30 + 31 + 31 + 30 + 31 + 30))
    ∷ []

-- Years since 1970 of a two-digit year.
abbrev pub year_of : ℕ → ℕ
year_of tm_year = if leb 70 tm_year then tm_year - 70 else tm_year + 100 - 70

-- A month number past the table reads 0 here; the theorems are about months below 12.
unfoldable pub kernel_mktime : Tm → ℕ
kernel_mktime tm =
    let year = year_of tm.tm_year in
    let res = wrap (year_seconds * year + day * ((year + 1) / 4)) in
    let res = wrap (res + get_or month tm.tm_mon 0) in
    let res =
      if ltb 1 tm.tm_mon && not ((year + 2) % 4 == 0) then wrap (res + 2 ^ 32 - day) else res in
    let res = wrap (res + day * (tm.tm_mday + 2 ^ 32 - 1)) in
    let res = wrap (res + hour * tm.tm_hour) in
    let res = wrap (res + minute * tm.tm_min) in wrap (res + tm.tm_sec)
