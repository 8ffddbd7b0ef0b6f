-- ===== src/Fs/Buffer.antt =====
-- fs/buffer.c: the hash queues, the free list and getblk. A pointer to a buffer head is the head's
-- number, a queue the list of its heads in order; the free list begins where `free_list` points, and
-- no entry of it is missing, so that remove_from_queues does not panic. A call that sleeps takes the next event: what the other tasks (and the driver) do to the
-- cache until it runs again. The call of sync_dev in getblk, with all its sleeps, is one event.
pub mod Alone
pub mod Take
pub mod Sleeps
pub mod Getblk
use Prim.Native.Nat.{bit_xor}
use linux_rpg.Prelude.{
  ℕ, zero, suc, ◌+◌, ◌-◌, ◌*◌, ◌%◌, List, [], ◌∷◌, ◌++◌, Option, none, some, Bool, true, false, not,
  ◌&&◌, ◌||◌, ltb, ◌==◌, if◌then◌else◌, length,
}

-- b_dev is 0 for a buffer that holds no block.
pub record Head : Type 0 where
  pub b_dev : ℕ
  pub b_blocknr : ℕ
  pub b_uptodate : Bool
  pub b_dirt : Bool
  pub b_count : ℕ
  pub b_lock : Bool

pub record Cache : Type 0 where
  pub head : ℕ → Head
  pub hash_table : ℕ → List ℕ
  pub free_list : List ℕ

abbrev pub Change : Type 0
Change = Cache → Cache

-- What a call comes to: it still sleeps when the events are over, its fuel has run out, or it
-- returns with the events that are left.
pub data Run {ℓ} (A : Type ℓ) : Type ℓ where
  asleep : Cache → Run A
  stuck : Run A
  ends : List Change → Cache → A → Run A

unfoldable pub bind {ℓ κ} :
    {A : Type ℓ} {B : Type κ} → Run A → (List Change → Cache → A → Run B) → Run B
bind (asleep c) f = asleep c
bind stuck f = stuck
bind (ends es c a) f = f es c a

abbrev pub with_head : ℕ → Head → Cache → Cache
with_head b h c = record c { head = λ j. if j == b then h else c.head j }

abbrev pub holds : Head → ℕ → ℕ → Bool
holds h dev block = h.b_dev == dev && h.b_blocknr == block

-- b_count++ and b_count--, of an unsigned char
abbrev pub add_count : ℕ → ℕ → Cache → Cache
add_count n b c = let h = c.head b in with_head b (record h { b_count = (h.b_count + n) % 256 }) c

unfoldable pub wait_on_buffer : ℕ → List Change → Cache → Run Bool
wait_on_buffer b [] c = if (c.head b).b_lock then asleep c else ends [] c true
wait_on_buffer b (e ∷ es) c =
    let again = wait_on_buffer b es (e c) in
    if (c.head b).b_lock then again else ends (e ∷ es) c true

unfoldable pub without : ℕ → List ℕ → List ℕ
without b [] = []
without b (x ∷ xs) = let rest = without b xs in if x == b then rest else x ∷ rest

-- The walk of find_buffer along a queue.
unfoldable pub find_in : (ℕ → Head) → ℕ → ℕ → List ℕ → Option ℕ
find_in head dev block [] = none
find_in head dev block (b ∷ bs) =
    let rest = find_in head dev block bs in if holds (head b) dev block then some b else rest

abbrev pub badness : Head → ℕ
badness h = (if h.b_dirt then 2 else 0) + (if h.b_lock then 1 else 0)

-- True for a buffer that is a better choice than `bh`.
abbrev pub is_better : (ℕ → Head) → Option ℕ → ℕ → Bool
is_better head none t = true
is_better head (some b) t = ltb (badness (head t)) (badness (head b))

-- The do loop of getblk, with `bh` so far.
unfoldable pub pick : (ℕ → Head) → Option ℕ → List ℕ → Option ℕ
pick head bh [] = bh
pick head bh (t ∷ ts) =
    let skip = pick head bh ts in
    let further = pick head (some t) ts in
    if not ((head t).b_count == 0) || not (is_better head bh t)
    then skip
    else if badness (head t) == 0
    then some t
    else further

abbrev pub nr_hash : ℕ
nr_hash = 307

unfoldable pub hashfn : ℕ → ℕ → ℕ
hashfn dev block = bit_xor dev block % nr_hash

unfoldable pub find_buffer : ℕ → ℕ → Cache → Option ℕ
find_buffer dev block c = find_in c.head dev block (c.hash_table (hashfn dev block))

abbrev pub change_queue : ℕ → ℕ → (List ℕ → List ℕ) → Cache → Cache
change_queue dev block f c = record c {
  hash_table = λ i. if i == hashfn dev block then f (c.hash_table i) else c.hash_table i;
}

unfoldable pub remove_from_queues : ℕ → Cache → Cache
remove_from_queues b c =
    let d = change_queue (c.head b).b_dev (c.head b).b_blocknr (without b) c in
    record d { free_list = without b c.free_list }

unfoldable pub insert_into_queues : ℕ → Cache → Cache
insert_into_queues b c =
    let d = record c { free_list = c.free_list ++ b ∷ [] } in
    let queued = change_queue (c.head b).b_dev (c.head b).b_blocknr (λ l. b ∷ l) d in
    if (c.head b).b_dev == 0 then d else queued

unfoldable pub get_hash_table : ℕ → ℕ → ℕ → List Change → Cache → Run (Option ℕ)
get_hash_table zero dev block es c = stuck
get_hash_table (suc n) dev block es c = elim (find_buffer dev block c) [
  | none ↦ ends es c none
  | some b ↦ bind (wait_on_buffer b es (add_count 1 b c)) (λ es' c' _.
      let again = get_hash_table n dev block es' (add_count 255 b c') in
      if holds (c'.head b) dev block then ends es' c' (some b) else again)
]

-- The loop while the buffer is dirty: true when it is clean, false to repeat.
unfoldable pub clean : ℕ → ℕ → List Change → Cache → Run Bool
clean zero b es c = stuck
clean (suc n) b [] c = if (c.head b).b_dirt then asleep c else ends [] c true
clean (suc n) b (e ∷ es) c =
    let synced : Run Bool = bind (wait_on_buffer b es (e c)) (λ es' c' _.
      let again = clean n b es' c' in
      if (c'.head b).b_count == 0 then again else ends es' c' false) in
    if (c.head b).b_dirt then synced else ends (e ∷ es) c true

-- The end of getblk: the buffer is taken for the block. (A device number fits in the unsigned short
-- that b_dev is.)
unfoldable pub take_buffer : ℕ → ℕ → ℕ → Cache → Cache
take_buffer dev block b c =
    let h = record (c.head b) { b_count = 1; b_dirt = false; b_uptodate = false } in
    let d = remove_from_queues b (with_head b h c) in
    insert_into_queues b (with_head b (record h { b_dev = dev; b_blocknr = block }) d)

-- The parts of getblk, with its `goto repeat` as an argument. The last of them: somebody else may
-- have added the block.
unfoldable pub finish :
    (List Change → Cache → Run ℕ) → ℕ → ℕ → ℕ → List Change → Cache → Bool → Run ℕ
finish repeat dev block b es c false = repeat es c
finish repeat dev block b es c true = elim (find_buffer dev block c) [
  | some b' ↦ repeat es c
  | none ↦ ends es (take_buffer dev block b c) b
]

-- From the test of b_count behind wait_on_buffer on.
unfoldable pub settle : (List Change → Cache → Run ℕ) → ℕ → ℕ → ℕ → List Change → Cache → Run ℕ
settle repeat dev block b es c =
    let used = repeat es c in
    let unused = bind (clean (suc (length es)) b es c) (finish repeat dev block b) in
    if (c.head b).b_count == 0 then unused else used

-- sleep_on(&buffer_wait)
unfoldable pub sleep_for_buffer : (List Change → Cache → Run ℕ) → List Change → Cache → Run ℕ
sleep_for_buffer repeat [] c = asleep c
sleep_for_buffer repeat (e ∷ es) c = repeat es (e c)

-- From the result of get_hash_table on.
unfoldable pub choose :
    (List Change → Cache → Run ℕ) → ℕ → ℕ → List Change → Cache → Option ℕ → Run ℕ
choose repeat dev block es c (some b) = ends es c b
choose repeat dev block es c none = elim (pick c.head none c.free_list) [
  | none ↦ sleep_for_buffer repeat es c
  | some b ↦ bind (wait_on_buffer b es c) (λ es' c' _. settle repeat dev block b es' c')
]

-- getblk on fuel.
unfoldable pub getblk_from : ℕ → ℕ → ℕ → List Change → Cache → Run ℕ
getblk_from zero dev block es c = stuck
getblk_from (suc n) dev block es c =
    bind (get_hash_table (suc (length es)) dev block es c)
      (choose (getblk_from n dev block) dev block)

abbrev pub getblk : ℕ → ℕ → List Change → Cache → Run ℕ
getblk dev block es c = getblk_from (suc (length es)) dev block es c
