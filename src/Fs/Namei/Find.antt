-- ===== src/Fs/Namei/Find.antt =====
-- fs/namei.c: find_entry against the entries of the directory.
use mathlib.Core.Option.{some-injective}
use linux_rpg.Prelude.{
  ℕ, [], ◌∷◌, zero, suc, ◌+◌, ◌-◌, ◌/◌, ◌%◌, ◌≤◌, ◌<◌, ◌≡◌, ◌⊎◌, refl, sym, ap, ◌∙◌, List, Option,
  none, some, true, false, inl, inr, arith, ltb, leb, ◌==◌, Bool-cases, Option-cases, length, take,
  if◌then◌else◌,
}
use linux_rpg.Fs.Namei.{
  name_len, Entry, Node, World, Refs, match, scan_entries, is_dotdot, same_node, dotdot, find_entry,
}
use linux_rpg.Fs.Namei.Match.{HasNoZero, IsNamed, match-IsNamed, IsNamed-match}

-- Entry `i` of a directory, if its block can be read.
unfoldable pub entry_at : (ℕ → Option (ℕ → Entry)) → ℕ → Option Entry
entry_at blocks i = elim (blocks (i / 32)) [ none ↦ none | some b ↦ some (b (i % 32)) ]

entry_at-some :
    (blocks : ℕ → Option (ℕ → Entry)) (i k : ℕ) (b : ℕ → Entry)
    → blocks (i / 32) ≡ some b
    → i % 32 ≡ k
    → entry_at blocks i ≡ some (b k)
unfolding entry_at
entry_at-some blocks i k b e at_k = rw (entry_at, e, at_k) refl

entry_at-none :
    (blocks : ℕ → Option (ℕ → Entry)) (i : ℕ) → blocks (i / 32) ≡ none → entry_at blocks i ≡ none
unfolding entry_at
entry_at-none blocks i e = rw (entry_at, e) refl

-- Entry `i` does not hold the name.
abbrev pub Misses : (ℕ → Option (ℕ → Entry)) → List ℕ → ℕ → Type 0
Misses blocks name i = (de : Entry) → entry_at blocks i ≡ some de → ¬ IsNamed name de

-- The first of the entries from `i` on that holds the name, or none of them does.
unfoldable pub Finds : ℕ → (ℕ → Option (ℕ → Entry)) → List ℕ → ℕ → Option Entry → Type 0
Finds entries blocks name i none = (j : ℕ) → i ≤ j → j < entries → Misses blocks name j
Finds entries blocks name i (some de) =
    (j : ℕ) × (i ≤ j)
    × (j < entries)
    × (entry_at blocks j ≡ some de)
    × IsNamed name de
    × ((k : ℕ) → i ≤ k → k < j → Misses blocks name k)

module _ (entries : ℕ) (blocks : ℕ → Option (ℕ → Entry)) (name : List ℕ) (z : HasNoZero name)
    (short : length name ≤ 14) where
  Finds-skip :
      (i m : ℕ) (found : Option Entry)
      → ((k : ℕ) → i ≤ k → k < i + m → Misses blocks name k)
      → Finds entries blocks name (i + m) found
      → Finds entries blocks name i found
  unfolding Finds
  Finds-skip i m none skip f = λ j le lt. elim (Bool-cases (ltb j (i + m))) [
    | inl e ↦ skip j le (ground arith)
    | inr e ↦ f j (ground arith) lt
  ]
  Finds-skip i m (some de) skip (j, le, lt, at_j, named, first) = (
    j,
    omega (arith, le),
    lt,
    at_j,
    named,
    λ k le' lt'. elim (Bool-cases (ltb k (i + m))) [
      | inl e ↦ skip k le' (ground arith)
      | inr e ↦ first k (ground arith) lt'
    ],
  )

  Finds-end : (i : ℕ) → entries ≤ i → Finds entries blocks name i none
  unfolding Finds
  Finds-end i done j le lt = absurd (omega (arith, done, le, lt))

  Finds-here :
      (i : ℕ) (de : Entry) (rest : Option Entry)
      → i < entries
      → entry_at blocks i ≡ some de
      → Finds entries blocks name (i + 1) rest
      → Finds entries blocks name i (if match name de then some de else rest)
  Finds-here i de rest lt here f = elim (Bool-cases (match name de)) [
    | inl e ↦ rw e (
        unfold Finds in
        (
          i,
          omega arith,
          lt,
          here,
          match-IsNamed name de e z,
          λ k le lt'. absurd (omega (arith, le, lt')),
        ))
    | inr e ↦ rw e (
        Finds-skip i 1 rest
          (λ k le lt' de' there named.
            let same : k ≡ i = omega (arith, le, lt') in
            let same_entry : de ≡ de' =
              some-injective _ _ (sym here ∙ ap (entry_at blocks) (sym same) ∙ there) in
            let hit = IsNamed-match name de' named short in cc)
          f)
  ]

  -- Where the loop is: in the block of entry `i`, or at the start of the next one.
  abbrev At : ℕ → ℕ → (ℕ → Entry) → Type 0
  At i k de = ((k < 32) × (i % 32 ≡ k) × (blocks (i / 32) ≡ some de)) ⊎ ((32 ≤ k) × (i % 32 ≡ 0))

  At-next :
      (i k : ℕ) (de : ℕ → Entry)
      → k < 32
      → i % 32 ≡ k
      → blocks (i / 32) ≡ some de
      → At (i + 1) (k + 1) de
  At-next i k de lt e there = elim (Bool-cases (ltb (k + 1) 32)) [
    | inl o ↦
        let same : (i + 1) / 32 ≡ i / 32 = ground arith in
        inl (ground arith, ground arith, ap blocks same ∙ there)
    | inr o ↦ inr (ground arith, ground arith)
  ]

  scan_entries-Finds :
      (n i k : ℕ) (de : ℕ → Entry)
      → entries - i < n
      → At i k de
      → Finds entries blocks name i (scan_entries n entries blocks name i k de)
  unfolding scan_entries
  scan_entries-Finds zero i k de h here = absurd (omega (arith, h))
  scan_entries-Finds (suc n) i k de h here = elim (Bool-cases (leb entries i)) [
    | inl e ↦ rw e (Finds-end i (ground arith))
    | inr e ↦
        let lt : i < entries = ground arith in
        elim here [
          | inl (in_block, at_k, there) ↦
              let o : leb 32 k ≡ false = ground arith in
              let at_i = entry_at-some blocks i k de there at_k in
              rw (e, o)
                (Finds-here i (de k) _ lt at_i (
                  scan_entries-Finds n (i + 1) (k + 1) de (omega (arith, h, lt))
                    (At-next i k de in_block at_k there)))
          | inr (behind, at_0) ↦
              let o : leb 32 k ≡ true = ground arith in
              elim (Option-cases (blocks (i / 32))) [
                | inl missing ↦
                    rw (e, o, missing)
                      (Finds-skip i 32 _
                        (λ k' le lt' de' there'.
                          let same : k' / 32 ≡ i / 32 = omega (arith, le, lt', at_0) in
                          let nothing = entry_at-none blocks k' (ap blocks same ∙ missing) in cc)
                        (scan_entries-Finds n (i + 32) k de (omega (arith, h, lt))
                          (inr (behind, omega (arith, at_0)))))
                | inr (b, there) ↦
                    let at_i = entry_at-some blocks i 0 b there at_0 in
                    rw (e, o, there)
                      (Finds-here i (b 0) _ lt at_i (
                        scan_entries-Finds n (i + 1) 1 b (omega (arith, h, lt))
                          (At-next i 0 b (omega arith) at_0 there)))
              ]
        ]
  ]

take-HasNoZero : (n : ℕ) (name : List ℕ) → HasNoZero name → HasNoZero (take n name)
unfolding HasNoZero
take-HasNoZero zero name z = tt
take-HasNoZero (suc n) [] z = tt
take-HasNoZero (suc n) (c ∷ cs) (nz, z) = (nz, take-HasNoZero n cs z)

length-take_le : (n : ℕ) (name : List ℕ) → length (take n name) ≤ n
length-take_le zero name = omega arith
length-take_le (suc n) [] = omega arith
length-take_le (suc n) (c ∷ cs) = let le = length-take_le n cs in omega (arith, le)

dotdot-name :
    (w : World) (dir : Node) (name : List ℕ) (r : Refs)
    → ((dotdot w dir name r).1 ≡ name) ⊎ ((dotdot w dir name r).1 ≡ 46 ∷ [])
unfolding dotdot
dotdot-name w dir name r = elim (Bool-cases (is_dotdot name)) [
  | inr e ↦ rw e (inl refl)
  | inl e ↦ elim (Bool-cases (same_node dir w.root)) [
    | inl e' ↦ rw (e, e') (inr refl)
    | inr e' ↦ elim (Bool-cases (dir.i_num == 1)) [
      | inr o ↦ rw (e, e', o) (inl refl)
      | inl o ↦ elim (Option-cases (w.s_imount dir.i_dev)) [
        | inl none_there ↦ rw (e, e', o, none_there) (inl refl)
        | inr (m, there) ↦ rw (e, e', o, there) (inl refl)
      ]
    ]
  ]
]

dotdot-short :
    (w : World) (dir : Node) (name : List ℕ) (r : Refs)
    → HasNoZero name
    → HasNoZero (dotdot w dir (take name_len name) r).1
      × (length (dotdot w dir (take name_len name) r).1 ≤ 14)
dotdot-short w dir name r z = elim (dotdot-name w dir (take name_len name) r) [
  | inl e ↦ rw e (take-HasNoZero 14 name z, length-take_le 14 name)
  | inr e ↦ rw e (unfold HasNoZero in ((λ q. omega (arith, q)), tt), omega arith)
]

-- The name is not empty, and the first block can be read, of the directory that dotdot gives. What
-- find_entry gives is the first of that directory's entries, by place, that is in use and holds the
-- name that dotdot gives for the first 14 bytes of the name. It gives none only if none of the
-- entries that can be read does. The loop's bound, a round more than there are entries, is enough.
-- The number of entries is that of the directory before dotdot.
pub find_entry-Finds :
    (w : World) (dir : Node) (name : List ℕ) (r : Refs) (b : ℕ → Entry)
    → HasNoZero name
    → 0 < length name
    → (dotdot w dir (take name_len name) r).0.blocks 0 ≡ some b
    → (found : Option Entry) × (find_entry w dir name r
        ≡ ((dotdot w dir (take name_len name) r).0, found, (dotdot w dir (take name_len name) r).2))
      × Finds
          (dir.i_size / 16)
          (dotdot w dir (take name_len name) r).0.blocks
          (dotdot w dir (take name_len name) r).1
          0
          found
unfolding find_entry
find_entry-Finds w dir [] r b z more first = absurd (omega (arith, more))
find_entry-Finds w dir (c ∷ cs) r b z more first =
    let name' = (dotdot w dir (take name_len (c ∷ cs)) r).1 in
    let (z', short) = dotdot-short w dir (c ∷ cs) r z in
    let filled : (length (take name_len (c ∷ cs)) == 0) ≡ false = ground arith in
    rw (filled, first)
      (
        _,
        refl,
        scan_entries-Finds (dir.i_size / 16) _ name' z' short (suc (dir.i_size / 16)) 0 0 b
            (omega arith) (inl (omega arith, refl, first)),
      )
