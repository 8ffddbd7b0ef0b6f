-- ===== src/Fs/Namei.antt =====
-- fs/namei.c: permission, match, find_entry, get_dir, dir_namei and namei. An inode carries what
-- bmap and bread give of its directory; the inodes that iget and the mount table give are the
-- world's. The reference counts are explicit: iget and i_count++ take a reference, iput gives one
-- back. A path is the list of its bytes, without the zero at its end.
pub mod Match
pub mod Balance
pub mod Find
use Prim.Native.Nat.{bit_and}
use linux_rpg.Prelude.{
  ℕ, zero, suc, ◌+◌, ◌-◌, ◌/◌, ◌%◌, List, [], ◌∷◌, Option, none, some, Bool, true, false, not, ◌&&◌,
  ◌||◌, ltb, leb, ◌==◌, if◌then◌else◌, length, take,
}

pub record Entry : Type 0 where
  pub inode : ℕ
  pub name : ℕ → ℕ

-- The blocks of a directory that can be read: 32 entries each.
pub record Node : Type 0 where
  pub i_mode : ℕ
  pub i_uid : ℕ
  pub i_gid : ℕ
  pub i_nlinks : ℕ
  pub i_dev : ℕ
  pub i_num : ℕ
  pub i_size : ℕ
  pub i_atime : ℕ
  pub i_dirt : Bool
  pub blocks : ℕ → Option (ℕ → Entry)

-- euid, egid, root and pwd of the current task, CURRENT_TIME, iget, and s_imount of a device's super
-- block.
pub record World : Type 0 where
  pub euid : ℕ
  pub egid : ℕ
  pub now : ℕ
  pub root : Node
  pub pwd : Node
  pub iget : ℕ → ℕ → Option Node
  pub s_imount : ℕ → Option Node

-- i_count of each inode. The root and the directory of the task are taken to hold one of their own, so
-- the panics for a count of 0 are left out, and what iput does at the last reference.
abbrev pub Refs : Type 0
Refs = ℕ → ℕ → ℕ

unfoldable pub hold : Node → Refs → Refs
hold n r dev num = if dev == n.i_dev && num == n.i_num then r dev num + 1 else r dev num

unfoldable pub iput : Node → Refs → Refs
iput n r dev num = if dev == n.i_dev && num == n.i_num then r dev num - 1 else r dev num

unfoldable pub permission : World → Node → ℕ → Bool
permission w n mask =
    let mode =
      if w.euid == n.i_uid
      then n.i_mode / 64
      else if w.egid == n.i_gid
      then n.i_mode / 8
      else n.i_mode in
    if not (n.i_dev == 0) && n.i_nlinks == 0
    then false
    else bit_and (bit_and mode mask) 7 == mask || w.euid == 0

abbrev pub name_len : ℕ
name_len = 14

-- repe cmpsb: the name against the entry's from its byte `i` on.
unfoldable pub same_name : List ℕ → (ℕ → ℕ) → ℕ → Bool
same_name [] f i = true
same_name (c ∷ cs) f i = let rest = same_name cs f (i + 1) in if c == f i then rest else false

unfoldable pub match : List ℕ → Entry → Bool
match name de =
    let len = length name in
    if de.inode == 0 || ltb name_len len
    then false
    else if ltb len name_len && not (de.name len == 0)
    then false
    else same_name name de.name 0

-- The loop of find_entry, with fuel: `k` entries of the block `de` are behind it.
unfoldable pub scan_entries :
    ℕ → ℕ → (ℕ → Option (ℕ → Entry)) → List ℕ → ℕ → ℕ → (ℕ → Entry) → Option Entry
scan_entries zero entries blocks name i k de = none
scan_entries (suc n) entries blocks name i k de =
    let next = scan_entries n entries blocks name (i + 1) (k + 1) de in
    let here = if match name (de k) then some (de k) else next in
    let loaded : Option Entry = elim (blocks (i / 32)) [
      | none ↦ scan_entries n entries blocks name (i + 32) k de
      | some b ↦
          let next_there = scan_entries n entries blocks name (i + 1) 1 b in
          if match name (b 0) then some (b 0) else next_there
    ] in
    if leb entries i then none else if leb 32 k then loaded else here

abbrev pub is_dotdot : List ℕ → Bool
is_dotdot (b ∷ c ∷ []) = b == b'.' && c == b'.'
is_dotdot _ = false

abbrev pub same_node : Node → Node → Bool
same_node a b = a.i_dev == b.i_dev && a.i_num == b.i_num

-- What becomes of the directory and the name at `..`.
unfoldable pub dotdot : World → Node → List ℕ → Refs → Node × List ℕ × Refs
dotdot w dir name r =
    if not (is_dotdot name)
    then (dir, name, r)
    else if same_node dir w.root
    then (dir, b'.' ∷ [], r)
    else if dir.i_num == 1
    then elim (w.s_imount dir.i_dev) [
      | none ↦ (dir, name, r)
      | some m ↦ (m, name, hold m (iput dir r))
    ]
    else (dir, name, r)

-- The directory in which it has looked, the entry, and the references.
unfoldable pub find_entry : World → Node → List ℕ → Refs → Node × Option Entry × Refs
find_entry w dir name r =
    let short = take name_len name in
    let entries = dir.i_size / 16 in
    let (dir', name', r') = dotdot w dir short r in
    let found : Option Entry = elim (dir'.blocks 0) [
      | none ↦ none
      | some b ↦ scan_entries (suc entries) entries dir'.blocks name' 0 0 b
    ] in
    if length short == 0 then (dir, none, r) else (dir', found, r')

abbrev pub is_dir : Node → Bool
is_dir n = n.i_mode / 4096 % 16 == 4

-- The name up to a slash, and what is behind the slash, if there is one.
unfoldable pub span_name : List ℕ → List ℕ × Option (List ℕ)
span_name [] = ([], none)
span_name (c ∷ path) =
    let (name, rest) = span_name path in if c == b'/' then ([], some path) else (c ∷ name, rest)

-- The loop of get_dir, with fuel. `none` in the end is NULL.
unfoldable pub walk : ℕ → World → Node → List ℕ → Refs → Option (Option Node × Refs)
walk zero w inode path r = none
walk (suc n) w inode path r =
    let (thisname, rest) = span_name path in
    if not (is_dir inode) || not (permission w inode 1)
    then some (none, iput inode r)
    else elim rest [
      | none ↦ some (some inode, r)
      | some path' ↦
          let (dir, found, r') = find_entry w inode thisname r in
          elim found [
            | none ↦ some (none, iput dir r')
            | some de ↦ elim (w.iget dir.i_dev de.inode) [
              | none ↦ some (none, iput dir r')
              | some inode' ↦ walk n w inode' path' (hold inode' (iput dir r'))
            ]
          ]
    ]

unfoldable pub get_dir : World → List ℕ → Refs → Option (Option Node × Refs)
get_dir w [] r = some (none, r)
get_dir w (c ∷ path) r =
    if c == b'/'
    then walk (suc (length path)) w w.root path (hold w.root r)
    else walk (suc (suc (length path))) w w.pwd (c ∷ path) (hold w.pwd r)

-- The bytes behind the last slash; `basename` is what is taken without one.
unfoldable pub base_name : List ℕ → List ℕ → List ℕ
base_name [] basename = basename
base_name (c ∷ path) basename =
    let here = base_name path path in
    let there = base_name path basename in if c == b'/' then here else there

-- What dir_namei makes of the end of get_dir.
unfoldable pub with_basename :
    List ℕ → Option (Option Node × Refs) → Option (Option (Node × List ℕ) × Refs)
with_basename path none = none
with_basename path (some (none, r)) = some (none, r)
with_basename path (some (some dir, r)) = some (some (dir, base_name path path), r)

unfoldable pub dir_namei : World → List ℕ → Refs → Option (Option (Node × List ℕ) × Refs)
dir_namei w path r = with_basename path (get_dir w path r)

unfoldable pub namei_in : World → Node → List ℕ → Refs → Option Node × Refs
namei_in w dir basename r =
    let (dir', found, r') = find_entry w dir basename r in
    let entry : Option Node × Refs = elim found [
      | none ↦ (none, iput dir' r')
      | some de ↦ elim (w.iget dir'.i_dev de.inode) [
        | none ↦ (none, iput dir' r')
        | some n ↦ (some (record n { i_atime = w.now; i_dirt = true }), hold n (iput dir' r'))
      ]
    ] in
    if length basename == 0 then (some dir, r) else entry

unfoldable pub namei_from :
    World → Option (Option (Node × List ℕ) × Refs) → Option (Option Node × Refs)
namei_from w none = none
namei_from w (some (none, r)) = some (none, r)
namei_from w (some (some (dir, basename), r)) = some (namei_in w dir basename r)

unfoldable pub namei : World → List ℕ → Refs → Option (Option Node × Refs)
namei w path r = namei_from w (dir_namei w path r)
