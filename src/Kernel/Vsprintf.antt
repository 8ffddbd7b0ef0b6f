-- ===== src/Kernel/Vsprintf.antt =====
-- kernel/vsprintf.c: `skip_atoi`, `number` and `vsprintf`. A text is the list of its bytes, without
-- the zero at its end. An `int` or `long` argument is its 32-bit pattern. An argument that is not
-- there, or is of the other kind, reads as 0 or as the empty text.
pub mod Number
pub mod Digits
pub mod Total
use linux_rpg.Prelude.{
  ℕ, zero, suc, ◌+◌, ◌-◌, ◌*◌, ◌/◌, ◌%◌, ◌^◌, List, [], ◌∷◌, ◌++◌, Option, none, some, Bool, true,
  false, not, ◌&&◌, ◌||◌, ltb, leb, ◌==◌, if◌then◌else◌, length, replicate, take,
}
use linux_rpg.Prelude.Int.{ℤ, pos, negsuc, pos_part}
use linux_rpg.Kernel.Vsprintf.Number.{Flags, is_digit, is_negative, skip_atoi, number}

pub data Arg : Type 0 where
  word : ℕ → Arg
  text : List ℕ → Arg

unfoldable pub word_arg : List Arg → ℕ × List Arg
word_arg [] = (0, [])
word_arg (word n ∷ args) = (n, args)
word_arg (text s ∷ args) = (0, args)

unfoldable pub text_arg : List Arg → List ℕ × List Arg
text_arg [] = ([], [])
text_arg (word n ∷ args) = ([], args)
text_arg (text s ∷ args) = (s, args)

abbrev pub no_flags : Flags
no_flags = record {
  zeropad = false;
  sign = false;
  plus = false;
  space = false;
  left = false;
  special = false;
  small = false;
}

unfoldable pub parse_flags : List ℕ → Flags → Flags × List ℕ
parse_flags [] f = (f, [])
parse_flags (c ∷ fmt) f =
    let go = parse_flags fmt in
    if c == b'-'
    then go (record f { left = true })
    else if c == b'+'
    then go (record f { plus = true })
    else if c == 32
    then go (record f { space = true })
    else if c == b'#'
    then go (record f { special = true })
    else if c == b'0'
    then go (record f { zeropad = true })
    else (f, c ∷ fmt)

abbrev pub signed : ℕ → ℤ
signed n = if is_negative n then negsuc (2 ^ 32 - n - 1) else pos n

-- A number from the format, or from the arguments at an asterisk, which the source does not step
-- over; `none` if there is neither.
unfoldable pub parse_count : List ℕ → List Arg → Option ℤ × List ℕ × List Arg
parse_count [] args = (none, [], args)
parse_count (c ∷ fmt) args =
    let (n, rest) = skip_atoi (c ∷ fmt) in
    let (w, args') = word_arg args in
    if is_digit c
    then (some (signed n), rest, args)
    else if c == b'*'
    then (some (signed w), c ∷ fmt, args')
    else (none, c ∷ fmt, args)

-- One conversion: the flags, the field width, the precision (`none` is -1).
pub record Conversion : Type 0 where
  pub flags : Flags
  pub width : Option ℕ
  pub precision : Option ℕ

-- A negative width from the arguments stands for its magnitude, to the left. (A width in the format
-- is taken to fit in an `int`, and one from the arguments to have a magnitude that does.)
abbrev pub with_width : Option ℤ → Flags → Conversion
with_width none f = record { flags = f; width = none; precision = none }
with_width (some (pos n)) f = record { flags = f; width = some n; precision = none }
with_width (some (negsuc n)) f = record {
  flags = record f { left = true };
  width = some (suc n);
  precision = none;
}

unfoldable pub parse_precision : Conversion → List ℕ → List Arg → Conversion × List ℕ × List Arg
parse_precision k [] args = (k, [], args)
parse_precision k (c ∷ fmt) args =
    let (n, rest, args') = parse_count fmt args in
    let p : ℕ = elim n [ none ↦ 0 | some z ↦ pos_part z ] in
    if c == b'.' then (record k { precision = some p }, rest, args') else (k, c ∷ fmt, args)

-- The qualifier, which is read and not used.
unfoldable pub skip_qualifier : List ℕ → List ℕ
skip_qualifier [] = []
skip_qualifier (c ∷ fmt) = if c == b'h' || (c == b'l' || c == b'L') then fmt else c ∷ fmt

abbrev pub count_or : Option ℕ → ℕ → ℕ
count_or none d = d
count_or (some n) d = n

-- What one conversion writes, what it stores for `%n`, and the arguments left.
pub record Converted : Type 0 where
  pub out : List ℕ
  pub stored : Option ℕ
  pub args : List Arg

abbrev pub print_number : ℕ → Conversion → List Arg → Converted
print_number base k args =
    let (n, args') = word_arg args in
    record {
      out = elim (number n base (count_or k.width 0) (count_or k.precision 0) k.flags) [
        | none ↦ []
        | some s ↦ s
      ];
      stored = none;
      args = args';
    }

unfoldable pub print_char : Conversion → List Arg → Converted
print_char k args =
    let (n, args') = word_arg args in
    let pad = count_or k.width 0 - 1 in
    record {
      out =
          replicate (if k.flags.left then 0 else pad) 32
          ++ n % 256 ∷ replicate (if k.flags.left then pad else 0) 32;
      stored = none;
      args = args';
    }

unfoldable pub print_text : Conversion → List Arg → Converted
print_text k args =
    let (s, args') = text_arg args in
    let shown = take (count_or k.precision (length s)) s in
    let pad = count_or k.width 0 - length shown in
    record {
      out =
          replicate (if k.flags.left then 0 else pad) 32
          ++ (shown ++ replicate (if k.flags.left then pad else 0) 32);
      stored = none;
      args = args';
    }

-- The conversions that take an argument; `written` is `str - buf`.
unfoldable pub convert : ℕ → Conversion → ℕ → List Arg → Option Converted
convert c k written args =
    let as_pointer = record k { width = some 8; flags = record k.flags { zeropad = true } } in
    if c == b'c'
    then some (print_char k args)
    else if c == b's'
    then some (print_text k args)
    else if c == b'o'
    then some (print_number 8 k args)
    else if c == b'p'
    then some
        (elim k.width [ none ↦ print_number 16 as_pointer args | some w ↦ print_number 16 k args ])
    else if c == b'x'
    then some (print_number 16 (record k { flags = record k.flags { small = true } }) args)
    else if c == b'X'
    then some (print_number 16 k args)
    else if c == b'd' || c == b'i'
    then some (print_number 10 (record k { flags = record k.flags { sign = true } }) args)
    else if c == b'u'
    then some (print_number 10 k args)
    else if c == b'n'
    then some (record { out = []; stored = some written; args = (word_arg args).1 })
    else none

-- The part of a format between `%` and the conversion's letter.
unfoldable pub parse_conversion : List ℕ → List Arg → Conversion × List ℕ × List Arg
parse_conversion fmt args =
    let (f, fmt') = parse_flags fmt no_flags in
    let (w, fmt'', args') = parse_count fmt' args in
    let (k, fmt3, args'') = parse_precision (with_width w f) fmt'' args' in
    (k, skip_qualifier fmt3, args'')

-- The text so far and the values that `%n` has stored; `none` means that the fuel ran out.
unfoldable pub format : ℕ → List ℕ → List Arg → List ℕ → List ℕ → Option (List ℕ × List ℕ)
format zero fmt args out stored = none
format (suc fuel) [] args out stored = some (out, stored)
format (suc fuel) (c ∷ fmt) args out stored =
    let (k, fmt', args') = parse_conversion fmt args in
    let literal = format fuel fmt args (out ++ c ∷ []) stored in
    let conversion : Option (List ℕ × List ℕ) = elim fmt' [
      | [] ↦ some (out ++ b'%' ∷ [], stored)
      | d ∷ fmt'' ↦ elim (convert d k (length out) args') [
        | some r ↦
            format fuel fmt'' r.args (out ++ r.out)
              (elim r.stored [ none ↦ stored | some n ↦ stored ++ n ∷ [] ])
        | none ↦
            format fuel fmt'' args' (out ++ (if d == b'%' then d ∷ [] else b'%' ∷ d ∷ [])) stored
      ]
    ] in
    if c == b'%' then conversion else literal

unfoldable pub vsprintf : List ℕ → List Arg → Option (List ℕ × List ℕ)
vsprintf fmt args = format (suc (length fmt)) fmt args [] []
