-- ===== src/Fs/Bmap/Alloc.antt =====
-- fs/inode.c: the blocks that zone_at and word_at add to a file's tree.
use linux_rpg.Prelude.{
  ℕ, ◌%◌, ◌^◌, ◌≡◌, ◌≢◌, sym, ap, ◌∙◌, true, false, ◌&&◌, arith, inl, inr, ◌==◌, if◌then◌else◌,
  Bool-cases,
}
use linux_rpg.Fs.Bitmap.{Device, Disk}
use linux_rpg.Fs.Bmap.{Inode}
use linux_rpg.Fs.Bmap.Idle.{zone_idle, word_idle}
use linux_rpg.Fs.Bmap.Tree.{
  Place, zone, ind, dind, leaf, value, bit_of, IsTree, Stored, Stored-zone, Stored-ind, Stored-dind,
  Stored-leaf, leaf-value, dind-stored_words,
}
use linux_rpg.Fs.Bmap.Grow.{
  IsDevice, Fresh, nothing, one, new_block-Fresh, Grown, Grown-same, Grown-nothing, Grown-Stored,
}

pub zone_at-Grown :
    (v : Device) (now k : ℕ) (ino : Inode) (d : Disk)
    → IsDevice v
    → IsTree v ino.i_zone d.word d.used
    → d.used 0 ≡ true
    → Grown v
        (zone k)
        ino.i_zone
        d
        (zone_idle v now true k ino d).0.i_zone
        (zone_idle v now true k ino d).1
unfolding zone_idle value
zone_at-Grown v now k ino d dev t res = elim (Bool-cases (ino.i_zone k == 0)) [
  | inl e ↦ rw e (from (new_block-Fresh v d dev res) (ground arith))
  | inr e ↦ rw e (Grown-same v (zone k) ino.i_zone d t res (ground arith))
]
  where
    added : ℕ → Disk → Inode × Disk
    added n d' = if n == 0 then (ino, d') else (
      record {
        i_zone = λ j. if j == k then n % 2 ^ 16 else ino.i_zone j;
        i_dirt = true;
        i_ctime = now;
      },
      d',
    )

    from :
        {n : ℕ} {d' : Disk}
        → Fresh v d n d'
        → ino.i_zone k ≡ 0
        → Grown v (zone k) ino.i_zone d (added n d').0.i_zone (added n d').1
    from (nothing used' more none_left) free =
        Grown-nothing v (zone k) ino.i_zone d t res used' more none_left
    from (one n used' some_block small fresh marked more) free =
        let e : (n == 0) ≡ false = ground arith in
        let e' : n % 2 ^ 16 ≡ n = omega arith in
        rw (e, e')
          (Grown-Stored v (zone k) ino.i_zone d t res n used' _ _ free some_block fresh marked more
            (Stored-zone v ino.i_zone d.word d.used t n some_block fresh k free) (ground arith))

-- Block `b` with `n` as its word `i`, and `n` cleared.
abbrev pub with_word : (ℕ → ℕ → ℕ) → ℕ → ℕ → ℕ → ℕ → ℕ → ℕ
with_word w b i n a j = if a == b && j == i then n else if a == n then 0 else w a j

pub word_at-Grown :
    (v : Device) (p : Place) (z : ℕ → ℕ) (d : Disk) (b i : ℕ)
    → IsDevice v
    → IsTree v z d.word d.used
    → d.used 0 ≡ true
    → value z d.word p ≡ d.word b i
    → ((n : ℕ)
        → n ≢ 0
        → value z d.word p ≡ 0
        → d.used (bit_of v n) ≡ false
        → Stored z d.word z (with_word d.word b i n) p n × (value z (with_word d.word b i n) p ≡ n))
    → Grown v p z d z (word_idle v true b i d).1
      × ((word_idle v true b i d).0 ≡ value z (word_idle v true b i d).1.word p)
unfolding word_idle
word_at-Grown v p z d b i dev t res here stored = elim (Bool-cases (d.word b i == 0)) [
  | inl e ↦ rw e (from (new_block-Fresh v d dev res) (here ∙ ground arith))
  | inr e ↦ rw e (Grown-same v p z d t res (λ e'. absurd (ground (arith, here, e'))), sym here)
]
  where
    added : ℕ → Disk → ℕ × Disk
    added n d' =
        if n == 0
        then (0, d')
        else (n, record d' { word = λ a j. if a == b && j == i then n % 2 ^ 16 else d'.word a j })

    from :
        {n : ℕ} {d' : Disk}
        → Fresh v d n d'
        → value z d.word p ≡ 0
        → Grown v p z d z (added n d').1 × ((added n d').0 ≡ value z (added n d').1.word p)
    from (nothing used' more none_left) free =
        (Grown-nothing v p z d t res used' more none_left, sym free)
    from (one n used' some_block small fresh marked more) free =
        let e : (n == 0) ≡ false = ground arith in
        let e' : n % 2 ^ 16 ≡ n = omega arith in
        let (st, at) = stored n some_block free fresh in
        rw (e, e')
          (Grown-Stored v p z d t res n used' z _ free some_block fresh marked more st at, sym at)

-- The places of the indirect blocks' words.
pub ind-Grown :
    (v : Device) (z : ℕ → ℕ) (d : Disk) (i : ℕ)
    → IsDevice v
    → IsTree v z d.word d.used
    → d.used 0 ≡ true
    → z 7 ≢ 0
    → Grown v (ind i) z d z (word_idle v true (z 7) i d).1
      × ((word_idle v true (z 7) i d).0 ≡ value z (word_idle v true (z 7) i d).1.word (ind i))
unfolding value
ind-Grown v z d i dev t res there =
    word_at-Grown v (ind i) z d (z 7) i dev t res (ground arith) (λ n some_block free fresh.
      (Stored-ind v z d.word d.used t n some_block fresh i there, ground arith))

pub dind-Grown :
    (v : Device) (z : ℕ → ℕ) (d : Disk) (i : ℕ)
    → IsDevice v
    → IsTree v z d.word d.used
    → d.used 0 ≡ true
    → z 8 ≢ 0
    → Grown v (dind i) z d z (word_idle v true (z 8) i d).1
      × ((word_idle v true (z 8) i d).0 ≡ value z (word_idle v true (z 8) i d).1.word (dind i))
unfolding value
dind-Grown v z d i dev t res there =
    let here : value z d.word (dind i) ≡ d.word (z 8) i = ground arith in
    word_at-Grown v (dind i) z d (z 8) i dev t res here (λ n some_block free fresh.
      (Stored-dind v z d.word d.used t n some_block fresh i there (sym here ∙ free), ground arith))

pub leaf-Grown :
    (v : Device) (z : ℕ → ℕ) (d : Disk) (i j : ℕ)
    → IsDevice v
    → IsTree v z d.word d.used
    → d.used 0 ≡ true
    → value z d.word (dind i) ≢ 0
    → Grown v (leaf i j) z d z (word_idle v true (value z d.word (dind i)) j d).1
      × ((word_idle v true (value z d.word (dind i)) j d).0
          ≡ value z (word_idle v true (value z d.word (dind i)) j d).1.word (leaf i j))
leaf-Grown v z d i j dev t res there =
    let m = value z d.word (dind i) in
    word_at-Grown v (leaf i j) z d m j dev t res (leaf-value z d.word i j ∙ ground arith)
      (λ n some_block free fresh. (
        Stored-leaf v z d.word d.used t n some_block fresh i j there,
        leaf-value z (with_word d.word m j n) i j
            ∙ ap (λ a. if a == 0 then 0 else with_word d.word m j n a j)
                (dind-stored_words v z d.word d.used t n some_block fresh i j i there)
            ∙ ground arith,
      ))
