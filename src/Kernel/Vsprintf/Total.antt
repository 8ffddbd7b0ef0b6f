-- ===== src/Kernel/Vsprintf/Total.antt =====
-- kernel/vsprintf.c: `vsprintf` comes to an end, and copies text without `%`.
use linux_rpg.Prelude.{
  ℕ, zero, suc, ◌+◌, ◌-◌, ◌*◌, ◌%◌, ◌^◌, ◌≤◌, ◌<◌, ◌≡◌, refl, List, [], ◌∷◌, ◌++◌, Option, none,
  some, true, arith, inl, inr, ◌==◌, if◌then◌else◌, Bool-cases, length, Option-cases,
}
use linux_rpg.Kernel.Vsprintf.{
  Arg, Conversion, no_flags, parse_flags, parse_count, parse_precision, with_width, skip_qualifier,
  parse_conversion, convert, format, vsprintf,
}
use linux_rpg.Kernel.Vsprintf.Number.{Flags, atoi_from, skip_atoi}

length-atoi_from : (i : ℕ) (s : List ℕ) → length (atoi_from i s).1 ≤ length s
unfolding atoi_from
length-atoi_from i [] = omega arith
length-atoi_from i (c ∷ s) = ground (arith, length-atoi_from ((i * 10 + c - b'0') % 2 ^ 32) s)

length-parse_flags : (fmt : List ℕ) (f : Flags) → length (parse_flags fmt f).1 ≤ length fmt
unfolding parse_flags
length-parse_flags [] f = omega arith
length-parse_flags (c ∷ fmt) f = ground (
  arith,
  length-parse_flags fmt (record f { left = true }),
  length-parse_flags fmt (record f { plus = true }),
  length-parse_flags fmt (record f { space = true }),
  length-parse_flags fmt (record f { special = true }),
  length-parse_flags fmt (record f { zeropad = true }),
)

length-parse_count : (fmt : List ℕ) (args : List Arg) → length (parse_count fmt args).1 ≤ length fmt
unfolding parse_count skip_atoi
length-parse_count [] args = omega arith
length-parse_count (c ∷ fmt) args = ground (arith, length-atoi_from 0 (c ∷ fmt))

length-parse_precision :
    (k : Conversion) (fmt : List ℕ) (args : List Arg)
    → length (parse_precision k fmt args).1 ≤ length fmt
unfolding parse_precision
length-parse_precision k [] args = omega arith
length-parse_precision k (c ∷ fmt) args = ground (arith, length-parse_count fmt args)

length-skip_qualifier : (fmt : List ℕ) → length (skip_qualifier fmt) ≤ length fmt
unfolding skip_qualifier
length-skip_qualifier [] = omega arith
length-skip_qualifier (c ∷ fmt) = ground arith

length-parse_conversion :
    (fmt : List ℕ) (args : List Arg) → length (parse_conversion fmt args).1 ≤ length fmt
unfolding parse_conversion
length-parse_conversion fmt args =
    let (f, fmt') = parse_flags fmt no_flags in
    let (w, fmt'', args') = parse_count fmt' args in
    let (k, fmt3, args'') = parse_precision (with_width w f) fmt'' args' in
    omega (
      arith,
      length-parse_flags fmt no_flags,
      length-parse_count fmt' args,
      length-parse_precision (with_width w f) fmt'' args',
      length-skip_qualifier fmt3,
    )

format_total :
    (fuel : ℕ) (fmt : List ℕ) (args : List Arg) (out stored : List ℕ)
    → length fmt < fuel
    → (r : List ℕ × List ℕ) × (format fuel fmt args out stored ≡ some r)
unfolding format
format_total zero fmt args out stored h = absurd (omega arith)
format_total (suc fuel) [] args out stored h = ((out, stored), refl)
format_total (suc fuel) (c ∷ fmt) args out stored h = elim (Bool-cases (c == b'%')) [
  | inr plain ↦ rw plain (format_total fuel fmt args (out ++ c ∷ []) stored (omega arith))
  | inl percent ↦ rw percent (
      go (λ fmt' args' out' stored'. format_total fuel fmt' args' out' stored')
        (parse_conversion fmt args).0 (parse_conversion fmt args).1 (parse_conversion fmt args).2
        (omega (arith, length-parse_conversion fmt args)))
]
  where
    go :
        ((fmt' : List ℕ) (args' : List Arg) (out' stored' : List ℕ)
          → length fmt' < fuel
          → (r : List ℕ × List ℕ) × (format fuel fmt' args' out' stored' ≡ some r))
        → (k : Conversion) (fmt' : List ℕ) (args' : List Arg) → length fmt' ≤ fuel
        → (r : List ℕ × List ℕ) × (◌≡◌ {A = Option (List ℕ × List ℕ)}
            (elim fmt' [
              | [] ↦ some (out ++ b'%' ∷ [], stored)
              | d ∷ fmt'' ↦ elim (convert d k (length out) args') [
                | some r ↦
                    format fuel fmt'' r.args
                      (out ++ r.out)
                      (elim r.stored [ none ↦ stored | some n ↦ stored ++ n ∷ [] ])
                | none ↦
                    format fuel fmt'' args'
                      (out ++ (if d == b'%' then d ∷ [] else b'%' ∷ d ∷ []))
                      stored
              ]
            ])
            (some r))
    go ih k [] args' le = (_, refl)
    go ih k (d ∷ fmt'') args' le = elim (Option-cases (convert d k (length out) args')) [
      | inl e ↦ rw e (ih fmt'' args' _ stored (omega arith))
      | inr (r, e) ↦ rw e (ih fmt'' r.args (out ++ r.out) _ (omega arith))
    ]

-- `vsprintf` comes to an end for every format and all arguments: its fuel, one more than the length
-- of the format, is enough.
pub vsprintf_total :
    (fmt : List ℕ) (args : List Arg) → (r : List ℕ × List ℕ) × (vsprintf fmt args ≡ some r)
unfolding vsprintf
vsprintf_total fmt args = format_total (suc (length fmt)) fmt args [] [] (omega arith)
