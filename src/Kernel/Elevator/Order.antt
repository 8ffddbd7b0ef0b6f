-- ===== src/Kernel/Elevator/Order.antt =====
-- kernel/blk_drv/ll_rw_blk.c: the elevator keeps the request that runs first and loses none, and
-- the places where the queue is out of order.
use linux_rpg.Prelude.{
  ℕ, ◌+◌, ◌≤◌, ◌≡◌, ◌⊎◌, refl, ap, List, [], ◌∷◌, ◌++◌, true, false, arith, inl, inr, Bool-cases,
  if◌then◌else◌,
}
use linux_rpg.Kernel.Elevator.{Request, in_order, goes_between, place, add_request}

-- 1 at a place where the queue turns back: the second request is not in order behind the first.
abbrev pub turn : Request → Request → ℕ
turn a b = if in_order a b then 0 else 1

abbrev pub turns : List Request → ℕ
turns [] = 0
turns (a ∷ []) = 0
turns (a ∷ b ∷ rest) = turn a b + turns (b ∷ rest)

-- The new request is not for the sector of another, for the same command and device.
abbrev pub Apart : Request → List Request → Type 0
Apart req [] = Unit
Apart req (b ∷ rest) = (in_order b req ≡ true ⊎ in_order req b ≡ true) × Apart req rest

turns-place :
    (a tmp req : Request) (rest : List Request)
    → turns (a ∷ place tmp req rest) ≡ turn a tmp + turns (place tmp req rest)
unfolding place
turns-place a tmp req [] = refl
turns-place a tmp req (next ∷ rest) = elim (Bool-cases (goes_between tmp req next)) [
  | inl stop ↦ rw stop refl
  | inr further ↦ rw further refl
]

passed :
    (tmp req next : Request)
    → goes_between tmp req next ≡ false
    → (in_order tmp req ≡ true ⊎ in_order tmp next ≡ false)
    → (in_order next req ≡ true ⊎ in_order req next ≡ true)
    → in_order next req ≡ true
passed tmp req next further open_ apart = ground arith

-- A request that belongs behind all of an ordered queue's passed ones makes no turn.
place-ordered :
    (tmp req : Request) (rest : List Request)
    → in_order tmp req ≡ true
    → turns (tmp ∷ rest) ≡ 0
    → Apart req rest
    → turns (place tmp req rest) ≡ 0
unfolding place
place-ordered tmp req [] behind h a = rw behind (omega arith)
place-ordered tmp req (next ∷ rest) behind h (one, a) =
    elim (Bool-cases (goes_between tmp req next)) [
      | inl stop ↦
          let before : in_order req next ≡ true = cc in rw (stop, behind, before) (omega arith)
      | inr further ↦
          let next_behind = passed tmp req next further (inl behind) one in
          rw (further, turns-place tmp next req rest)
            (omega (arith, place-ordered next req rest next_behind (omega arith) a))
    ]

place-turns :
    (tmp req : Request) (rest : List Request)
    → turns (tmp ∷ rest) ≤ 1
    → Apart req rest
    → turns (place tmp req rest) ≤ 1
unfolding place
place-turns tmp req [] h a = ground arith
place-turns tmp req (next ∷ rest) h (one, a) = elim (Bool-cases (goes_between tmp req next)) [
  | inl stop ↦
      let before : in_order req next ≡ true = ground arith in rw (stop, before) (stops before stop)
  | inr further ↦ elim (Bool-cases (in_order tmp next)) [
    | inl forward ↦
        rw (further, turns-place tmp next req rest, forward)
          (omega (arith, place-turns next req rest (omega arith) a))
    | inr back ↦
        let next_behind = passed tmp req next further (inr back) one in
        let rest_ordered : turns (next ∷ rest) ≡ 0 = ground arith in
        rw (further, turns-place tmp next req rest, back)
          (omega (arith, place-ordered next req rest next_behind rest_ordered a))
  ]
]
  where
    stops :
        in_order req next ≡ true
        → goes_between tmp req next ≡ true
        → turn tmp req + (0 + turns (next ∷ rest)) ≤ 1
    stops before stop = ground arith

place-split :
    (tmp req : Request) (rest : List Request)
    → (before : List Request) × (after : List Request) × (rest ≡ before ++ after)
      × (place tmp req rest ≡ tmp ∷ (before ++ req ∷ after))
unfolding place
place-split tmp req [] = ([], [], refl, refl)
place-split tmp req (next ∷ rest) = elim (Bool-cases (goes_between tmp req next)) [
  | inl stop ↦ rw stop ([], next ∷ rest, refl, refl)
  | inr further ↦
      let (before, after, split, put) = place-split next req rest in
      rw further (next ∷ before, after, ap (λ l. next ∷ l) split, ap (λ l. tmp ∷ l) put)
]

-- On a busy device `add_request` leaves the running request first, puts the new one at some place
-- behind it and keeps the order of the others; and a queue with at most one place where a
-- request is not in order (by command, device and sector) behind the one before it still has at most
-- one such place, if no other waiting request is for the same place.
pub add_request-turns :
    (req tmp : Request) (rest : List Request)
    → turns (tmp ∷ rest) ≤ 1
    → Apart req rest
    → (before : List Request) × (after : List Request) × (rest ≡ before ++ after)
      × (add_request req (tmp ∷ rest) ≡ (false, tmp ∷ (before ++ req ∷ after)))
      × (turns (add_request req (tmp ∷ rest)).1 ≤ 1)
unfolding add_request
add_request-turns req tmp rest h a =
    let (before, after, split, put) = place-split tmp req rest in
    (before, after, split, ap (λ l. (false, l)) put, place-turns tmp req rest h a)
