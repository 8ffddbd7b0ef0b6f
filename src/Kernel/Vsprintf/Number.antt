-- ===== src/Kernel/Vsprintf/Number.antt =====
-- kernel/vsprintf.c: `skip_atoi` and `number`.
use mathlib.Core.List.{reverse}
use linux_rpg.Prelude.{
  ℕ, zero, suc, ◌+◌, ◌-◌, ◌*◌, ◌/◌, ◌%◌, ◌^◌, List, [], ◌∷◌, ◌++◌, Option, none, some, Bool, not,
  ◌&&◌, ◌||◌, ltb, leb, ◌==◌, if◌then◌else◌, length, replicate,
}

abbrev pub is_digit : ℕ → Bool
is_digit c = leb b'0' c && leb c b'9'

-- The value so far is `i`.
unfoldable pub atoi_from : ℕ → List ℕ → ℕ × List ℕ
atoi_from i [] = (i, [])
atoi_from i (c ∷ s) =
    let further = atoi_from ((i * 10 + c - b'0') % 2 ^ 32) s in
    if is_digit c then further else (i, c ∷ s)

unfoldable pub skip_atoi : List ℕ → ℕ × List ℕ
skip_atoi s = atoi_from 0 s

-- ZEROPAD, SIGN, PLUS, SPACE, LEFT, SPECIAL and SMALL.
pub record Flags : Type 0 where
  pub zeropad : Bool
  pub sign : Bool
  pub plus : Bool
  pub space : Bool
  pub left : Bool
  pub special : Bool
  pub small : Bool

-- The entry of `digits`: 0 to 9, then the letters.
abbrev pub digit : Bool → ℕ → ℕ
digit small d = if ltb d 10 then b'0' + d else if small then b'a' + (d - 10) else b'A' + (d - 10)

-- The loop on `num`, which puts the last digit first; a word has at most 32 digits.
unfoldable pub digits_from : ℕ → Bool → ℕ → ℕ → List ℕ
digits_from zero small base num = []
digits_from (suc n) small base num =
    let further = digits_from n small base (num / base) in
    if num == 0 then [] else digit small (num % base) ∷ further

unfoldable pub digits : Bool → ℕ → ℕ → List ℕ
digits small base num = if num == 0 then b'0' ∷ [] else digits_from 32 small base num

abbrev pub is_negative : ℕ → Bool
is_negative num = leb (2 ^ 31) num

-- The sign, if any: `-`, `+` or a space.
abbrev pub sign_of : Flags → ℕ → List ℕ
sign_of f num =
    if f.sign && is_negative num
    then b'-' ∷ []
    else if f.plus
    then b'+' ∷ []
    else if f.space
    then 32 ∷ []
    else []

abbrev pub magnitude : Flags → ℕ → ℕ
magnitude f num = if f.sign && is_negative num then 2 ^ 32 - num else num

abbrev pub prefix : Flags → ℕ → List ℕ
prefix f base =
    if f.special
    then (if base == 8 then b'0' ∷ [] else if base == 16 then b'0' ∷ digit f.small 33 ∷ [] else [])
    else []

abbrev pub max : ℕ → ℕ → ℕ
max a b = if ltb a b then b else a

-- A count of C that only matters where it is positive is a number: `size` and `precision` are 0
-- where the source has a negative value. `none` is the return of 0 for a base out of range.
unfoldable pub number : ℕ → ℕ → ℕ → ℕ → Flags → Option (List ℕ)
number num base size precision f =
    let zeropad = f.zeropad && not f.left in
    let c = if zeropad then b'0' else 32 in
    let tmp = digits f.small base (magnitude f num) in
    let i = length tmp in
    let precision' = max precision i in
    let size' = size - length (sign_of f num) - length (prefix f base) - precision' in
    let lead = if zeropad || f.left then 0 else size' in
    let middle = if f.left then 0 else size' - lead in
    let trail = size' - lead - middle in
    if ltb base 2 || ltb 36 base
    then none
    else some (
        replicate lead 32
        ++ (sign_of f num
            ++ (prefix f base
                ++ (replicate middle c
                    ++ (replicate (precision' - i) b'0' ++ (reverse tmp ++ replicate trail 32))))))
