-- ===== src/Strings.antt =====
-- lib/string.c: the string instructions as loops over a memory of bytes. Addresses and counts are
-- natural numbers, and the direction flag is what the routine sets. A loop that only the zero at the
-- end of a string stops has fuel, and is `none` without it.
pub mod Moves
pub mod Texts
pub mod Compare
pub mod Bounded
pub mod Span
pub mod Search
pub mod Token
mod Tests
use linux_rpg.Prelude.{
  ℕ, zero, suc, ◌+◌, ◌-◌, ◌%◌, Option, none, some, Bool, true, false, not, ◌&&◌, ltb, ◌==◌,
  if◌then◌else◌,
}
use linux_rpg.Prelude.Int.{ℤ, pos, negsuc}

abbrev pub Bytes : Type 0
Bytes = ℕ → ℕ

unfoldable pub set_byte : ℕ → ℕ → Bytes → Bytes
set_byte a v m b = if b == a then v else m b

-- rep movsb, forwards and backwards.
unfoldable pub movsb_up : ℕ → ℕ → ℕ → Bytes → Bytes
movsb_up zero src dest m = m
movsb_up (suc n) src dest m = movsb_up n (src + 1) (dest + 1) (set_byte dest (m src) m)

unfoldable pub movsb_down : ℕ → ℕ → ℕ → Bytes → Bytes
movsb_down zero src dest m = m
movsb_down (suc n) src dest m = movsb_down n (src - 1) (dest - 1) (set_byte dest (m src) m)

abbrev pub memcpy : ℕ → ℕ → ℕ → Bytes → Bytes
memcpy dest src n m = movsb_up n src dest m

unfoldable pub memmove : ℕ → ℕ → ℕ → Bytes → Bytes
memmove dest src n m =
    if ltb dest src then movsb_up n src dest m else movsb_down n (src + n - 1) (dest + n - 1) m

-- rep stosb.
unfoldable pub memset : ℕ → ℕ → ℕ → Bytes → Bytes
memset s c zero m = m
memset s c (suc n) m = memset (s + 1) c n (set_byte s c m)

-- repne scasb: what is left of the count, the address behind the last byte, and the zero flag.
unfoldable pub repne_scasb : ℕ → Bool → ℕ → ℕ → Bytes → ℕ × ℕ × Bool
repne_scasb zero z al edi m = (0, edi, z)
repne_scasb (suc n) z al edi m = elim (m edi == al) [
  | true ↦ (n, edi + 1, true)
  | false ↦ repne_scasb n false al (edi + 1) m
]

abbrev pub all_ones : ℕ
all_ones = 4294967295

unfoldable pub strlen : ℕ → Bytes → ℕ
strlen s m = all_ones - (repne_scasb all_ones false 0 s m).0 - 1

-- `none` is NULL.
unfoldable pub memchr : ℕ → ℕ → ℕ → Bytes → Option ℕ
memchr cs c count m =
    let (ecx, edi, z) = repne_scasb count false c cs m in
    if not (count == 0) && z then some (edi - 1) else none

-- The loop of strcpy and strcat.
unfoldable pub copy_text : ℕ → ℕ → ℕ → Bytes → Option Bytes
copy_text zero src dest m = none
copy_text (suc n) src dest m =
    let rest = copy_text n (src + 1) (dest + 1) (set_byte dest (m src) m) in
    if m src == 0 then some (set_byte dest (m src) m) else rest

abbrev pub strcpy : ℕ → ℕ → ℕ → Bytes → Option Bytes
strcpy fuel dest src m = copy_text fuel src dest m

unfoldable pub strcat : ℕ → ℕ → ℕ → Bytes → Option Bytes
strcat fuel dest src m = copy_text fuel src ((repne_scasb all_ones false 0 dest m).1 - 1) m

unfoldable pub strncpy : ℕ → ℕ → ℕ → Bytes → Bytes
strncpy dest src zero m = m
strncpy dest src (suc n) m =
    let m' = set_byte dest (m src) m in
    let rest = strncpy (dest + 1) (src + 1) n m' in
    if m src == 0 then memset (dest + 1) 0 n m' else rest

-- The loop of strncat: the memory, and where the next byte goes.
unfoldable pub copy_some : ℕ → ℕ → ℕ → Bytes → Bytes × ℕ
copy_some zero src dest m = (m, dest)
copy_some (suc n) src dest m =
    let m' = set_byte dest (m src) m in
    let rest = copy_some n (src + 1) (dest + 1) m' in if m src == 0 then (m', dest + 1) else rest

unfoldable pub strncat : ℕ → ℕ → ℕ → Bytes → Bytes
strncat dest src count m =
    let (m', end) = copy_some count src ((repne_scasb all_ones false 0 dest m).1 - 1) m in
    set_byte end 0 m'

-- The jump on less: the bytes are signed.
abbrev pub less_signed : ℕ → ℕ → Bool
less_signed a b = ltb ((a + 128) % 256) ((b + 128) % 256)

abbrev pub difference : ℕ → ℕ → ℤ
difference a b = if less_signed b a then pos 1 else negsuc 0

unfoldable pub strcmp : ℕ → ℕ → ℕ → Bytes → Option ℤ
strcmp zero cs ct m = none
strcmp (suc n) cs ct m =
    let rest = strcmp n (cs + 1) (ct + 1) m in
    if not (m ct == m cs)
    then some (difference (m cs) (m ct))
    else if m ct == 0
    then some (pos 0)
    else rest

unfoldable pub strncmp : ℕ → ℕ → ℕ → Bytes → ℤ
strncmp cs ct zero m = pos 0
strncmp cs ct (suc n) m =
    let rest = strncmp (cs + 1) (ct + 1) n m in
    if not (m ct == m cs) then difference (m cs) (m ct) else if m ct == 0 then pos 0 else rest

-- The inner `none` is NULL.
unfoldable pub strchr : ℕ → ℕ → ℕ → Bytes → Option (Option ℕ)
strchr zero s c m = none
strchr (suc n) s c m =
    let rest = strchr n (s + 1) c m in
    if m s == c then some (some s) else if m s == 0 then some none else rest

unfoldable pub strrchr_from : ℕ → Option ℕ → ℕ → ℕ → Bytes → Option (Option ℕ)
strrchr_from zero last s c m = none
strrchr_from (suc n) last s c m =
    let last' = if m s == c then some s else last in
    let rest = strrchr_from n last' (s + 1) c m in if m s == 0 then some last' else rest

abbrev pub strrchr : ℕ → ℕ → ℕ → Bytes → Option (Option ℕ)
strrchr fuel s c m = strrchr_from fuel none s c m

-- Whether a byte is one of the string at `ct`, of length `edx`.
abbrev pub is_among : ℕ → ℕ → ℕ → Bytes → Bool
is_among edx ct al m = (repne_scasb edx false al ct m).2

-- The loop of strspn (`inside`), strcspn and strpbrk: where it stops.
unfoldable pub span_from : ℕ → Bool → ℕ → ℕ → ℕ → Bytes → Option ℕ
span_from zero inside edx cs ct m = none
span_from (suc n) inside edx cs ct m =
    let rest = span_from n inside edx (cs + 1) ct m in
    let among = is_among edx ct (m cs) m in
    if m cs == 0 then some cs else if (if inside then among else not among) then rest else some cs

unfoldable pub strspn : ℕ → ℕ → ℕ → Bytes → Option ℕ
strspn fuel cs ct m = elim (span_from fuel true (strlen ct m) cs ct m) [
  | none ↦ none
  | some end ↦ some (end - cs)
]

unfoldable pub strcspn : ℕ → ℕ → ℕ → Bytes → Option ℕ
strcspn fuel cs ct m = elim (span_from fuel false (strlen ct m) cs ct m) [
  | none ↦ none
  | some end ↦ some (end - cs)
]

unfoldable pub strpbrk : ℕ → ℕ → ℕ → Bytes → Option (Option ℕ)
strpbrk fuel cs ct m = elim (span_from fuel false (strlen ct m) cs ct m) [
  | none ↦ none
  | some end ↦ some (if m end == 0 then none else some end)
]

-- repe cmpsb: the address behind the last byte at `esi`, and the zero flag, which is set before.
unfoldable pub repe_cmpsb : ℕ → ℕ → ℕ → Bytes → ℕ × Bool
repe_cmpsb zero esi edi m = (esi, true)
repe_cmpsb (suc n) esi edi m =
    let rest = repe_cmpsb n (esi + 1) (edi + 1) m in
    if m esi == m edi then rest else (esi + 1, false)

unfoldable pub strstr_from : ℕ → ℕ → ℕ → ℕ → Bytes → Option (Option ℕ)
strstr_from zero edx cs ct m = none
strstr_from (suc n) edx cs ct m =
    let rest = strstr_from n edx (cs + 1) ct m in
    let (eax, equal) = repe_cmpsb edx cs ct m in
    if equal then some (some cs) else if m (eax - 1) == 0 then some none else rest

abbrev pub strstr : ℕ → ℕ → ℕ → Bytes → Option (Option ℕ)
strstr fuel cs ct m = strstr_from fuel (strlen ct m) cs ct m
