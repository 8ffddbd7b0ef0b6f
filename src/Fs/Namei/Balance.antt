-- ===== src/Fs/Namei/Balance.antt =====
-- fs/namei.c: the references that find_entry, get_dir and namei take and give back.
use mathlib.Core.Option.{some-injective}
use mathlib.Core.Path.{fun_ext}
use linux_rpg.Prelude.{
  ℕ, Option-cases, zero, suc, ◌<◌, ◌≡◌, refl, ap, List, [], ◌∷◌, Option, none, some, not, ◌||◌, inl,
  inr, arith, ◌==◌, Bool-cases, length, take,
}
use linux_rpg.Fs.Namei.{
  name_len, Node, World, Refs, hold, iput, permission, is_dotdot, same_node, dotdot, find_entry,
  is_dir, span_name, walk, get_dir, base_name, dir_namei, namei, namei_in, namei_from,
  with_basename,
}

iput-hold : (n : Node) (r : Refs) → iput n (hold n r) ≡ r
unfolding hold iput
iput-hold n r = fun_ext λ dev. fun_ext λ num. ground arith

-- What a lookup gives back: the references of before, and one more for the inode if there is one.
unfoldable pub Balanced : Refs → Option (Option Node × Refs) → Type 0
Balanced r none = ⊥
Balanced r (some (none, r')) = r' ≡ r
Balanced r (some (some n, r')) = r' ≡ hold n r

dotdot-hold :
    (w : World) (dir : Node) (name : List ℕ) (r : Refs)
    → (dotdot w dir name (hold dir r)).2 ≡ hold (dotdot w dir name (hold dir r)).0 r
unfolding dotdot
dotdot-hold w dir name r = elim (Bool-cases (is_dotdot name)) [
  | inr e ↦ rw e refl
  | inl e ↦ elim (Bool-cases (same_node dir w.root)) [
    | inl e' ↦ rw (e, e') refl
    | inr e' ↦ elim (Bool-cases (dir.i_num == 1)) [
      | inr o ↦ rw (e, e', o) refl
      | inl o ↦ elim (Option-cases (w.s_imount dir.i_dev)) [
        | inl none_there ↦ rw (e, e', o, none_there) refl
        | inr (m, there) ↦ rw (e, e', o, there) (ap (hold m) (iput-hold dir r))
      ]
    ]
  ]
]

-- The reference goes with the directory when `..` leaves a mounted file system.
find_entry-hold :
    (w : World) (dir : Node) (name : List ℕ) (r : Refs)
    → (find_entry w dir name (hold dir r)).2 ≡ hold (find_entry w dir name (hold dir r)).0 r
unfolding find_entry
find_entry-hold w dir name r = elim (Bool-cases (length (take name_len name) == 0)) [
  | inl e ↦ rw e refl
  | inr e ↦ rw e (dotdot-hold w dir (take name_len name) r)
]

iput-find_entry :
    (w : World) (dir : Node) (name : List ℕ) (r : Refs)
    → iput (find_entry w dir name (hold dir r)).0 (find_entry w dir name (hold dir r)).2 ≡ r
iput-find_entry w dir name r = rw (find_entry-hold w dir name r) (iput-hold _ r)

span_name-length :
    (path path' : List ℕ) → (span_name path).1 ≡ some path' → length path' < length path
unfolding span_name
span_name-length [] path' e = cc
span_name-length (c ∷ path) path' e = elim (Bool-cases (c == 47)) [
  | inl o ↦ let same : path ≡ path' = some-injective _ _ (rw o at e) in rw (← same) (omega arith)
  | inr o ↦ let shorter = span_name-length path path' (rw o at e) in omega (arith, shorter)
]

walk-Balanced :
    (n : ℕ) (w : World) (inode : Node) (path : List ℕ) (r : Refs)
    → length path < n
    → Balanced r (walk n w inode path (hold inode r))
unfolding walk Balanced
walk-Balanced zero w inode path r h = absurd (omega (arith, h))
walk-Balanced (suc n) w inode path r h =
    let thisname = (span_name path).0 in
    let found = find_entry w inode thisname (hold inode r) in
    let given_back = iput-find_entry w inode thisname r in
    elim (Bool-cases (not (is_dir inode) || not (permission w inode 1))) [
      | inl e ↦ rw e (iput-hold inode r)
      | inr e ↦ elim (Option-cases (span_name path).1) [
        | inl last ↦ rw (e, last) refl
        | inr (path', more) ↦ elim (Option-cases found.1) [
          | inl missing ↦ rw (e, more, missing) given_back
          | inr (de, there) ↦ elim (Option-cases (w.iget found.0.i_dev de.inode)) [
            | inl lost ↦ rw (e, more, there, lost) given_back
            | inr (inode', got) ↦
                let shorter = span_name-length path path' more in
                rw (e, more, there, got, given_back)
                  (walk-Balanced n w inode' path' r (omega (arith, shorter, h)))
          ]
        ]
      ]
    ]

get_dir-Balanced : (w : World) (path : List ℕ) (r : Refs) → Balanced r (get_dir w path r)
unfolding get_dir Balanced
get_dir-Balanced w [] r = refl
get_dir-Balanced w (c ∷ path) r = elim (Bool-cases (c == 47)) [
  | inl e ↦ rw e (walk-Balanced _ w w.root path r (omega arith))
  | inr e ↦ rw e (walk-Balanced _ w w.pwd (c ∷ path) r (omega arith))
]

-- The last step of namei, from the directory that get_dir has found.
module _ (w : World) (dir : Node) (basename : List ℕ) (r : Refs) where
  namei-found : Balanced r (some (namei_in w dir basename (hold dir r)))
  unfolding Balanced namei_in
  namei-found =
      let found = find_entry w dir basename (hold dir r) in
      let given_back = iput-find_entry w dir basename r in
      elim (Bool-cases (length basename == 0)) [
        | inl e ↦ rw e refl
        | inr e ↦ elim (Option-cases found.1) [
          | inl missing ↦ rw (e, missing) given_back
          | inr (de, there) ↦ elim (Option-cases (w.iget found.0.i_dev de.inode)) [
            | inl lost ↦ rw (e, there, lost) given_back
            | inr (n, got) ↦ rw (e, there, got, given_back) (unfold hold in refl)
          ]
        ]
      ]

namei_from-Balanced :
    (w : World) (path : List ℕ) (r : Refs) (run : Option (Option Node × Refs))
    → Balanced r run
    → Balanced r (namei_from w (with_basename path run))
unfolding namei_from with_basename Balanced
namei_from-Balanced w path r none h = h
namei_from-Balanced w path r (some (none, r')) h = h
namei_from-Balanced w path r (some (some dir, r')) h =
    rw h (namei-found w dir (base_name path path) r)

-- namei ends for every path, whatever the directories hold and iget gives. It leaves the reference
-- counts as they were when it returns NULL, and takes exactly one reference, to the inode that it
-- returns, when it returns one: none of the directories on the way keeps a reference.
pub namei-Balanced : (w : World) (path : List ℕ) (r : Refs) → Balanced r (namei w path r)
unfolding namei dir_namei
namei-Balanced w path r = namei_from-Balanced w path r _ (get_dir-Balanced w path r)
