-- ===== src/Strings/Moves.antt =====
-- lib/string.c: memmove and the bytes it moves.
use linux_rpg.Prelude.{
  ℕ, zero, suc, ◌+◌, ◌-◌, ◌≤◌, ◌<◌, ◌≡◌, ◌≢◌, ◌⊎◌, refl, sym, ap, ◌∙◌, true, false, ◌&&◌, inl, inr,
  arith, ltb, leb, ◌==◌, Bool-cases, if◌then◌else◌,
}
use linux_rpg.Strings.{Bytes, set_byte, movsb_up, movsb_down, memmove}

pub set_byte_at : (a b v : ℕ) (m : Bytes) → b ≡ a → set_byte a v m b ≡ v
unfolding set_byte
set_byte_at a b v m e = let same : (b == a) ≡ true = ground arith in rw same refl

pub set_byte_other : (a b v : ℕ) (m : Bytes) → b ≢ a → set_byte a v m b ≡ m b
unfolding set_byte
set_byte_other a b v m ne = let apart : (b == a) ≡ false = ground arith in rw apart refl

pub lt_or_le : (a b : ℕ) → (a < b) ⊎ (b ≤ a)
lt_or_le a b = elim (Bool-cases (ltb a b)) [
  | inl e ↦ inl (ground arith)
  | inr e ↦ inr (ground arith)
]

-- The bytes of a block moved, as one copy at once.
unfoldable pub moved : ℕ → ℕ → ℕ → Bytes → Bytes
moved dest src n m a = if leb dest a && ltb a (dest + n) then m (src + (a - dest)) else m a

moved_in :
    (dest src n : ℕ) (m : Bytes) (a : ℕ)
    → dest ≤ a
    → a < dest + n
    → moved dest src n m a ≡ m (src + (a - dest))
unfolding moved
moved_in dest src n m a le lt =
    let e : (leb dest a && ltb a (dest + n)) ≡ true = ground arith in rw e refl

moved_out :
    (dest src n : ℕ) (m : Bytes) (a : ℕ) → (a < dest) ⊎ (dest + n ≤ a) → moved dest src n m a ≡ m a
unfolding moved
moved_out dest src n m a h =
    let e : (leb dest a && ltb a (dest + n)) ≡ false = ground arith in rw e refl

ends : (a dest : ℕ) → (a < dest) ⊎ (dest + 0 ≤ a)
ends a dest = elim (lt_or_le a dest) [ inl h ↦ inl h | inr h ↦ inr (omega (arith, h)) ]

movsb_up-moved :
    (n src dest : ℕ) (m : Bytes) (a : ℕ)
    → dest < src
    → movsb_up n src dest m a ≡ moved dest src n m a
unfolding movsb_up
movsb_up-moved zero src dest m a lt = sym (moved_out dest src 0 m a (ends a dest))
movsb_up-moved (suc n) src dest m a lt =
    let m' = set_byte dest (m src) m in
    movsb_up-moved n (src + 1) (dest + 1) m' a (omega (arith, lt)) ∙ elim (lt_or_le a dest) [
      | inl before ↦
          moved_out (dest + 1) (src + 1) n m' a (inl (omega (arith, before)))
          ∙ set_byte_other dest a _ m (omega (arith, before))
          ∙ sym (moved_out dest src (suc n) m a (inl before))
      | inr from ↦ elim (lt_or_le a (dest + 1 + n)) [
        | inr behind ↦
            moved_out (dest + 1) (src + 1) n m' a (inr behind)
            ∙ set_byte_other dest a _ m (omega (arith, behind))
            ∙ sym (moved_out dest src (suc n) m a (inr (omega (arith, behind))))
        | inl inside ↦ elim (lt_or_le dest a) [
          | inl later ↦
              moved_in (dest + 1) (src + 1) n m' a (omega (arith, later)) inside
              ∙ set_byte_other dest (src + 1 + (a - (dest + 1))) _ m (omega (arith, lt))
              ∙ ap m (omega (arith, later))
              ∙ sym (moved_in dest src (suc n) m a from (omega (arith, inside)))
          | inr first ↦
              moved_out (dest + 1) (src + 1) n m' a (inl (omega (arith, first)))
              ∙ set_byte_at dest a _ m (omega (arith, first, from))
              ∙ ap m (omega (arith, first))
              ∙ sym (moved_in dest src (suc n) m a from (omega (arith, inside)))
        ]
      ]
    ]

movsb_down-moved :
    (n src dest : ℕ) (m : Bytes) (a : ℕ)
    → src ≤ dest
    → movsb_down n (src + n - 1) (dest + n - 1) m a ≡ moved dest src n m a
unfolding movsb_down
movsb_down-moved zero src dest m a le = sym (moved_out dest src 0 m a (ends a dest))
movsb_down-moved (suc n) src dest m a le =
    let m' = set_byte (dest + suc n - 1) (m (src + suc n - 1)) m in
    let s_next : src + suc n - 1 - 1 ≡ src + n - 1 = omega arith in
    let d_next : dest + suc n - 1 - 1 ≡ dest + n - 1 = omega arith in
    ap (λ x. movsb_down n x (dest + suc n - 1 - 1) m' a) s_next
    ∙ ap (λ x. movsb_down n (src + n - 1) x m' a) d_next
    ∙ movsb_down-moved n src dest m' a le
    ∙ elim (lt_or_le a dest) [
      | inl before ↦
          moved_out dest src n m' a (inl before)
          ∙ set_byte_other (dest + suc n - 1) a _ m (omega (arith, before))
          ∙ sym (moved_out dest src (suc n) m a (inl before))
      | inr from ↦ elim (lt_or_le a (dest + n)) [
        | inl inside ↦
            moved_in dest src n m' a from inside
            ∙ set_byte_other (dest + suc n - 1) (src + (a - dest)) _ m
                (omega (arith, le, inside, from))
            ∙ sym (moved_in dest src (suc n) m a from (omega (arith, inside)))
        | inr behind ↦ elim (lt_or_le a (dest + suc n)) [
          | inl last ↦
              moved_out dest src n m' a (inr behind)
              ∙ set_byte_at (dest + suc n - 1) a _ m (omega (arith, last, behind))
              ∙ ap m (omega (arith, last, behind))
              ∙ sym (moved_in dest src (suc n) m a from last)
          | inr out ↦
              moved_out dest src n m' a (inr behind)
              ∙ set_byte_other (dest + suc n - 1) a _ m (omega (arith, out))
              ∙ sym (moved_out dest src (suc n) m a (inr out))
        ]
      ]
    ]

-- For blocks that overlap in either way, and for none: after memmove the block at `dest` has the
-- bytes that the block at `src` had before, and all other bytes are as they were.
pub memmove-moved :
    (dest src n : ℕ) (m : Bytes) (a : ℕ) → memmove dest src n m a ≡ moved dest src n m a
unfolding memmove
memmove-moved dest src n m a = elim (Bool-cases (ltb dest src)) [
  | inl e ↦ rw e (movsb_up-moved n src dest m a (ground arith))
  | inr e ↦ rw e (movsb_down-moved n src dest m a (ground arith))
]
