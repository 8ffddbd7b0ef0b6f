-- ===== src/Kernel/Elevator.antt =====
-- kernel/blk_drv/ll_rw_blk.c: the request queue of a block device, with IN_ORDER of
-- kernel/blk_drv/blk.h. The list from `current_request` on is a list of requests; the table of 32
-- requests says which of them are free (dev < 0 in the source).
pub mod Order
use linux_rpg.Prelude.{
  ℕ, zero, suc, ◌*◌, ◌/◌, List, [], ◌∷◌, Option, none, some, Bool, true, false, not, ◌&&◌, ◌||◌,
  ltb, leb, ◌==◌, if◌then◌else◌,
}

-- cmd is 0 for READ and 1 for WRITE; bh is the buffer's number.
pub record Request : Type 0 where
  pub dev : ℕ
  pub cmd : ℕ
  pub sector : ℕ
  pub nr_sectors : ℕ
  pub bh : ℕ

abbrev pub in_order : Request → Request → Bool
in_order a b =
    ltb a.cmd b.cmd
    || (a.cmd == b.cmd && (ltb a.dev b.dev || (a.dev == b.dev && ltb a.sector b.sector)))

-- The condition at which the walk of `add_request` stops, between `tmp` and the request behind it.
abbrev pub goes_between : Request → Request → Request → Bool
goes_between tmp req next = (in_order tmp req || not (in_order tmp next)) && in_order req next

-- The walk of `add_request` from `tmp`, which stays where it is.
unfoldable pub place : Request → Request → List Request → List Request
place tmp req [] = tmp ∷ req ∷ []
place tmp req (next ∷ rest) =
    let further = place next req rest in
    if goes_between tmp req next then tmp ∷ req ∷ next ∷ rest else tmp ∷ further

-- True if the device was idle: its `request_fn` is then called.
unfoldable pub add_request : Request → List Request → Bool × List Request
add_request req [] = (true, req ∷ [])
add_request req (tmp ∷ rest) = (false, place tmp req rest)

abbrev pub nr_request : ℕ
nr_request = 32

-- The number of the table's entries that a read or a write may take.
abbrev pub share : ℕ → ℕ
share cmd = if cmd == 0 then nr_request else nr_request * 2 / 3

-- while (--req >= request) if (req->dev<0) break;
unfoldable pub find_request : ℕ → (ℕ → Bool) → Option ℕ
find_request zero free = none
find_request (suc i) free = let lower = find_request i free in if free i then some i else lower
