-- ===== src/Fs/Bmap/Idle.antt =====
-- fs/inode.c: _bmap when nobody else holds a buffer of a free block, so that new_block does not
-- panic: the same routines without that result.
use linux_rpg.Prelude.{
  ℕ, ◌+◌, ◌-◌, ◌*◌, ◌/◌, ◌%◌, ◌≡◌, refl, Option, none, some, Bool, not, ◌&&◌, ◌||◌, inl, inr, ltb,
  leb, ◌==◌, if◌then◌else◌, Bool-cases,
}
use linux_rpg.Fs.Bitmap.{Device, Disk}
use linux_rpg.Fs.Bmap.{Inode, set_word, with_zone, zone_at, word_at, read_word, bmap_at}
use linux_rpg.Fs.Bmap.Grow.{IsDevice, given, new_block-given}

unfoldable pub zone_idle : Device → ℕ → Bool → ℕ → Inode → Disk → Inode × Disk
zone_idle v now create k ino d =
    if create && ino.i_zone k == 0
    then with_zone now k ino (given v d).0 (given v d).1
    else (ino, d)

unfoldable pub word_idle : Device → Bool → ℕ → ℕ → Disk → ℕ × Disk
word_idle v create b i d =
    let (n, d') = given v d in
    if create && d.word b i == 0
    then (if n == 0 then (0, d') else (n, set_word b i n d'))
    else (d.word b i, d)

unfoldable pub bmap_idle : Device → ℕ → Bool → ℕ → Inode → Disk → Option (ℕ × Inode × Disk)
bmap_idle v now create block ino d =
    let (inoz, dz) = zone_idle v now create block ino d in
    let (ino7, d7) = zone_idle v now create 7 ino d in
    let single = word_idle v create (ino7.i_zone 7) (block - 7) d7 in
    let (ino8, d8) = zone_idle v now create 8 ino d in
    let (i, di) = word_idle v create (ino8.i_zone 8) ((block - 519) / 512) d8 in
    let double = word_idle v create i ((block - 519) % 512) di in
    if leb (7 + 512 + 512 * 512) block
    then none
    else if ltb block 7
    then some (inoz.i_zone block, inoz, dz)
    else if ltb (block - 7) 512
    then (if ino7.i_zone 7 == 0 || not (v.readable (ino7.i_zone 7))
        then some (0, ino7, d7)
        else some (single.0, ino7, single.1))
    else if ino8.i_zone 8 == 0 || not (v.readable (ino8.i_zone 8))
    then some (0, ino8, d8)
    else if i == 0 || not (v.readable i)
    then some (0, ino8, di)
    else some (double.0, ino8, double.1)

module _ (v : Device) (dev : IsDevice v) where
  zone_at-idle :
      (now : ℕ) (create : Bool) (k : ℕ) (ino : Inode) (d : Disk)
      → zone_at v now create k ino d ≡ some (zone_idle v now create k ino d)
  unfolding zone_at zone_idle
  zone_at-idle now create k ino d =
      let ran = new_block-given v d dev in
      elim (Bool-cases (create && ino.i_zone k == 0)) [
        | inl e ↦ rw (e, ran) refl
        | inr e ↦ rw e refl
      ]

  word_at-idle :
      (create : Bool) (b i : ℕ) (d : Disk)
      → word_at v create b i d ≡ some (word_idle v create b i d)
  unfolding word_at word_idle
  word_at-idle create b i d =
      let ran = new_block-given v d dev in
      elim (Bool-cases (create && d.word b i == 0)) [ inl e ↦ rw (e, ran) refl | inr e ↦ rw e refl ]

  read_word-idle :
      (create : Bool) (b i : ℕ) (ino : Inode) (d : Disk)
      → read_word v create b i ino d ≡ (
          if b == 0 || not (v.readable b)
          then some (0, ino, d)
          else some ((word_idle v create b i d).0, ino, (word_idle v create b i d).1))
  unfolding read_word
  read_word-idle create b i ino d = rw (word_at-idle create b i d) refl

  pub bmap_at-idle :
      (now : ℕ) (create : Bool) (block : ℕ) (ino : Inode) (d : Disk)
      → bmap_at v now create block ino d ≡ bmap_idle v now create block ino d
  unfolding bmap_at bmap_idle
  bmap_at-idle now create block ino d = elim (Bool-cases (leb 262663 block)) [
    | inl e ↦ rw e refl
    | inr e ↦ elim (Bool-cases (ltb block 7)) [
      | inl e' ↦ rw (e, e', zone_at-idle now create block ino d) refl
      | inr e' ↦ elim (Bool-cases (ltb (block - 7) 512)) [
        | inl o ↦
            let (ino7, d7) = zone_idle v now create 7 ino d in
            rw
              (
                e,
                e',
                o,
                zone_at-idle now create 7 ino d,
                read_word-idle create (ino7.i_zone 7) (block - 7) ino7 d7,
              )
              refl
        | inr o ↦
            let (ino8, d8) = zone_idle v now create 8 ino d in
            let (i, d2) = word_idle v create (ino8.i_zone 8) ((block - 519) / 512) d8 in
            let first = read_word-idle create (ino8.i_zone 8) ((block - 519) / 512) ino8 d8 in
            let last = read_word-idle create i ((block - 519) % 512) ino8 d2 in
            rw (e, e', o, zone_at-idle now create 8 ino d, first)
              (elim (Bool-cases (ino8.i_zone 8 == 0 || not (v.readable (ino8.i_zone 8)))) [
                | inl q ↦ rw q (none_there ino8 d8 ((block - 519) % 512))
                | inr q ↦ rw (q, last) refl
              ])
      ]
    ]
  ]
    where
      none_there :
          (ino' : Inode) (d' : Disk) (i : ℕ) → read_word v create 0 i ino' d' ≡ some (0, ino', d')
      none_there ino' d' i = read_word-idle create 0 i ino' d'
