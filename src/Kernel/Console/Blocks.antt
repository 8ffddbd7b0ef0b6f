-- ===== src/Kernel/Console/Blocks.antt =====
-- kernel/chr_drv/console.c: which words the block moves leave alone.
use linux_rpg.Prelude.{ℕ, zero, suc, ◌+◌, ◌-◌, ◌*◌, ◌≤◌, ◌<◌, ◌≡◌, ◌⊎◌, refl, arith}
use linux_rpg.Kernel.Console.{
  Cells, poke, fill_up, fill_down, move, copy_up, copy_down, shift_right, shift_left,
}

-- Outside the bytes from `lo` to `hi` nothing has changed.
abbrev pub Outside : ℕ → ℕ → Cells → Cells → Type 0
Outside lo hi m m' = (a : ℕ) → (a < lo ⊎ hi ≤ a) → m' a ≡ m a

pub fill_up-Outside :
    (n d w : ℕ) (m : Cells) (lo hi : ℕ)
    → lo ≤ d
    → d + 2 * n ≤ hi
    → Outside lo hi m (fill_up n d w m)
unfolding fill_up
fill_up-Outside zero d w m lo hi h k a o = refl
fill_up-Outside (suc n) d w m lo hi h k a o =
    ground (arith, fill_up-Outside n (d + 2) w (poke d w m) lo hi (omega arith) (omega arith) a o)

pub fill_down-Outside :
    (n d w : ℕ) (m : Cells) (lo hi : ℕ)
    → lo + 2 * n ≤ d + 2
    → d + 2 ≤ hi
    → Outside lo hi m (fill_down n d w m)
unfolding fill_down
fill_down-Outside zero d w m lo hi h k a o = refl
fill_down-Outside (suc n) d w m lo hi h k a o =
    ground (arith, fill_down-Outside n (d - 2) w (poke d w m) lo hi (omega arith) (omega arith) a o)

pub copy_up-Outside :
    (n s d : ℕ) (m : Cells) (lo hi : ℕ)
    → lo ≤ d
    → d + 4 * n ≤ hi
    → Outside lo hi m (copy_up n s d m)
unfolding copy_up
copy_up-Outside zero s d m lo hi h k a o = refl
copy_up-Outside (suc n) s d m lo hi h k a o =
    ground
      (arith, copy_up-Outside n (s + 4) (d + 4) (move s d m) lo hi (omega arith) (omega arith) a o)

pub shift_right-Outside :
    (n p old : ℕ) (m : Cells) (lo hi : ℕ)
    → lo ≤ p
    → p + 2 * n ≤ hi
    → Outside lo hi m (shift_right n p old m)
unfolding shift_right
shift_right-Outside zero p old m lo hi h k a o = refl
shift_right-Outside (suc n) p old m lo hi h k a o = ground (
  arith,
  shift_right-Outside n (p + 2) (m p) (poke p old m) lo hi (omega arith) (omega arith) a o,
)

pub shift_left-Outside :
    (n p blank : ℕ) (m : Cells) (lo hi : ℕ)
    → lo ≤ p
    → p + 2 * n + 2 ≤ hi
    → Outside lo hi m (shift_left n p blank m)
unfolding shift_left
shift_left-Outside zero p blank m lo hi h k a o = ground arith
shift_left-Outside (suc n) p blank m lo hi h k a o = ground (
  arith,
  shift_left-Outside n (p + 2) blank (poke p (m (p + 2)) m) lo hi (omega arith) (omega arith) a o,
)

pub copy_down-Outside :
    (n s d : ℕ) (m : Cells) (lo hi : ℕ)
    → lo + 4 * n ≤ d + 4
    → d + 4 ≤ hi
    → Outside lo hi m (copy_down n s d m)
unfolding copy_down
copy_down-Outside zero s d m lo hi h k a o = refl
copy_down-Outside (suc n) s d m lo hi h k a o =
    ground (
      arith,
      copy_down-Outside n (s - 4) (d - 4) (move s d m) lo hi (omega arith) (omega arith) a o,
    )
