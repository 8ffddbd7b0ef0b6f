-- ===== src/Fs/Bmap/Offset.antt =====
-- fs/inode.c: the place of a file's block, and bmap.
use linux_rpg.Prelude.{
  ℕ, ◌+◌, ◌-◌, ◌*◌, ◌/◌, ◌%◌, ◌<◌, ◌≡◌, refl, ◌∙◌, some, true, false, arith, inl, inr, ltb, leb,
  ◌==◌, if◌then◌else◌, Bool-cases,
}
use linux_rpg.Fs.Bitmap.{Device, Disk}
use linux_rpg.Fs.Bmap.{Inode, bmap}
use linux_rpg.Fs.Bmap.Idle.{zone_idle, word_idle, bmap_idle, bmap_at-idle}
use linux_rpg.Fs.Bmap.Tree.{Place, zone, ind, dind, leaf, value}
use linux_rpg.Fs.Bmap.Grow.{IsDevice}

-- The place of a file's block.
unfoldable pub place_of : ℕ → Place
place_of block =
    if ltb block 7
    then zone block
    else if ltb block 519
    then ind (block - 7)
    else leaf ((block - 519) / 512) ((block - 519) % 512)

unfoldable pub offset : Place → ℕ
offset (zone k) = if ltb k 7 then k else 1000000
offset (ind i) = 7 + i
offset (dind i) = 1000000
offset (leaf i j) = 519 + 512 * i + j

abbrev pub limit : ℕ
limit = 262663

pub offset-place_of : (block : ℕ) → block < limit → offset (place_of block) ≡ block
unfolding offset place_of
offset-place_of block h = elim (Bool-cases (ltb block 7)) [
  | inl e ↦ rw (e, offset) (rw e refl)
  | inr e ↦ rw e (elim (Bool-cases (ltb block 519)) [
    | inl e' ↦ rw (e', offset) (ground arith)
    | inr e' ↦ rw (e', offset) (ground arith)
  ])
]

pub bmap-value :
    (v : Device) (block : ℕ) (ino : Inode) (d : Disk)
    → IsDevice v
    → block < limit
    → bmap v block ino d ≡ some (value ino.i_zone d.word (place_of block), ino, d)
unfolding bmap_idle zone_idle word_idle value place_of
bmap-value v block ino d dev h =
    bmap_at-idle v dev 0 false block ino d
    ∙ (let r7 = dev.readable (ino.i_zone 7) in
        let r8 = dev.readable (ino.i_zone 8) in
        let rd = dev.readable (d.word (ino.i_zone 8) ((block - 519) / 512)) in
        let ok : leb 262663 block ≡ false = ground arith in
        elim (Bool-cases (ltb block 7)) [
          | inl e ↦ rw (ok, e) refl
          | inr e ↦ elim (Bool-cases (ltb block 519)) [
            | inl e' ↦
                let low : ltb (block - 7) 512 ≡ true = ground arith in
                rw (ok, e, low, e', r7)
                  (elim (Bool-cases (ino.i_zone 7 == 0)) [ inl q ↦ rw q refl | inr q ↦ rw q refl ])
            | inr e' ↦
                let high : ltb (block - 7) 512 ≡ false = ground arith in
                rw (ok, e, high, e', r8, rd)
                  (elim (Bool-cases (ino.i_zone 8 == 0)) [
                    | inl q ↦ rw q refl
                    | inr q ↦
                        rw q (elim (Bool-cases (d.word (ino.i_zone 8) ((block - 519) / 512) == 0)) [
                          | inl q' ↦ rw q' refl
                          | inr q' ↦ rw q' refl
                        ])
                  ])
          ]
        ])
