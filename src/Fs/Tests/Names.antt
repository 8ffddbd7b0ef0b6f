-- ===== src/Fs/Tests/Names.antt =====
-- fs/namei.c at concrete inputs.
use linux_rpg.Prelude.{
  ℕ, ◌/◌, ◌≡◌, refl, List, [], ◌∷◌, Option, none, some, false, arith, ◌==◌, if◌then◌else◌, take,
  get_or,
}
use linux_rpg.Fs.Namei.{
  name_len, Entry, Node, World, Refs, permission, same_name, match, scan_entries, dotdot,
  find_entry, span_name, walk, get_dir, base_name, with_basename, dir_namei, namei_in, namei_from,
  namei,
}
use linux_rpg.Fs.Namei.Match.{HasNoZero}
use linux_rpg.Fs.Namei.Find.{Finds, find_entry-Finds}
use linux_rpg.Fs.Namei.Balance.{Balanced, namei-Balanced}

abbrev named_entry : ℕ → List ℕ → Entry
named_entry n name = record { inode = n; name = λ i. get_or name i 0 }

abbrev root_entries : ℕ → Entry
root_entries k =
    if k == 0
    then named_entry 1 (b'.' ∷ [])
    else if k == 1
    then named_entry 1 (b'.' ∷ b'.' ∷ [])
    else if k == 2
    then named_entry 5 (b'd' ∷ b'e' ∷ b'v' ∷ [])
    else named_entry 0 []

abbrev node : ℕ → Node
node n = record {
  i_mode = 16877;
  i_uid = 0;
  i_gid = 0;
  i_nlinks = 2;
  i_dev = 769;
  i_num = n;
  i_size = 48;
  i_atime = 0;
  i_dirt = false;
  blocks = λ k. if k == 0 then some root_entries else none;
}

-- A user with a file system that has one directory in its root.
abbrev world : World
world = record {
  euid = 100;
  egid = 5;
  now = 77;
  root = node 1;
  pwd = node 1;
  iget = λ dev n. some (node n);
  s_imount = λ dev. none;
}

abbrev no_refs : Refs
no_refs dev num = 0

abbrev dev_name : List ℕ
dev_name = b'd' ∷ b'e' ∷ b'v' ∷ []

abbrev i_num_of : Option (Option Node × Refs) → ℕ
i_num_of (some (some n, r)) = n.i_num
i_num_of _ = 0

namei-dev : i_num_of (namei world (b'/' ∷ dev_name) no_refs) ≡ 5
unfolding namei namei_from with_basename dir_namei get_dir walk span_name permission base_name
    namei_in find_entry dotdot scan_entries match same_name
namei-dev = refl

namei-Balanced_example : Balanced no_refs (namei world (b'/' ∷ dev_name) no_refs)
namei-Balanced_example = namei-Balanced world (b'/' ∷ dev_name) no_refs

dev_name-HasNoZero : HasNoZero dev_name
unfolding HasNoZero
dev_name-HasNoZero = (λ e. omega (arith, e), (λ e. omega (arith, e), (λ e. omega (arith, e), tt)))

dev_block : (dotdot world (node 1) (take name_len dev_name) no_refs).0.blocks 0 ≡ some root_entries
unfolding dotdot
dev_block = refl

find_entry-Finds_example :
    (found : Option Entry) × (find_entry world (node 1) dev_name no_refs ≡ (
      (dotdot world (node 1) (take name_len dev_name) no_refs).0,
      found,
      (dotdot world (node 1) (take name_len dev_name) no_refs).2,
    ))
    × Finds
        (48 / 16)
        (dotdot world (node 1) (take name_len dev_name) no_refs).0.blocks
        (dotdot world (node 1) (take name_len dev_name) no_refs).1
        0
        found
find_entry-Finds_example =
    find_entry-Finds world (node 1) dev_name no_refs root_entries dev_name-HasNoZero (omega arith)
      dev_block
