-- ===== src/Fs/Buffer/Sleeps.antt =====
-- fs/buffer.c: the sleeps of a call: wait_on_buffer, get_hash_table and the loop on a dirty buffer.
use linux_rpg.Prelude.{
  ℕ, zero, suc, ◌≤◌, ◌<◌, ◌≡◌, ◌≢◌, ◌⊎◌, refl, List, [], ◌∷◌, Option, none, some, Bool, true, false,
  arith, inl, inr, ◌==◌, length, Bool-cases, Option-cases,
}
use linux_rpg.Fs.Buffer.{
  pick, Cache, Change, Run, asleep, ends, bind, holds, add_count, find_buffer, wait_on_buffer,
  get_hash_table, clean,
}
use linux_rpg.Fs.Buffer.Alone.{IsCache, add_count-IsCache, find_buffer-holds}

-- What the others do leaves the cache with every block once.
unfoldable pub Keeps : List Change → Type 0
Keeps [] = Unit
Keeps (f ∷ fs) = ((c : Cache) → IsCache c → IsCache (f c)) × Keeps fs

-- What a call can wait for: a buffer is locked, or dirty, or getblk finds none in the free list.
pub data WaitsFor (c : Cache) : Type 0 where
  locked : (b : ℕ) → (c.head b).b_lock ≡ true → WaitsFor c
  dirty : (b : ℕ) → (c.head b).b_dirt ≡ true → WaitsFor c
  all_used : pick c.head none c.free_list ≡ none → WaitsFor c

-- A call that has not run out of fuel: it waits for something, or it returns and `P` holds.
pub data Meets {ℓ} {A : Type ℓ} (P : List Change → Cache → A → Type 0) : Run A → Type ℓ where
  sleeps : (c : Cache) → WaitsFor c → Meets P (asleep c)
  returns : (es : List Change) (c : Cache) (a : A) → P es c a → Meets P (ends es c a)

pub bind-Meets {ℓ κ} :
    {A : Type ℓ} {B : Type κ} {P : List Change → Cache → A → Type 0}
    {Q : List Change → Cache → B → Type 0} {f : List Change → Cache → A → Run B} (r : Run A)
    → Meets P r
    → ((es : List Change) (c : Cache) (a : A) → P es c a → Meets Q (f es c a))
    → Meets Q (bind r f)
unfolding bind
bind-Meets _ (sleeps c w) g = sleeps c w
bind-Meets _ (returns es c a p) g = g es c a p

-- From one point of a call to another: if events have passed, they are fewer, and else the cache is
-- the same.
pub record Step (es : List Change) (c : Cache) (es' : List Change) (c' : Cache) : Type 0 where
  pub is : IsCache c'
  pub keeps : Keeps es'
  pub moved : length es' < length es ⊎ ((length es' ≡ length es) × (c' ≡ c))

pub loosen {ℓ} :
    {A : Type ℓ} {P Q : List Change → Cache → A → Type 0} {r : Run A}
    → Meets P r
    → ((es : List Change) (c : Cache) (a : A) → P es c a → Q es c a)
    → Meets Q r
loosen (sleeps c w) g = sleeps c w
loosen (returns es c a p) g = returns es c a (g es c a p)

pub Step-le : {es es' : List Change} {c c' : Cache} → Step es c es' c' → length es' ≤ length es
Step-le s = elim s.moved [ inl h ↦ omega arith | inr (h, _) ↦ omega arith ]

pub Step-refl : (es : List Change) (c : Cache) → IsCache c → Keeps es → Step es c es c
Step-refl es c v k = record { is = v; keeps = k; moved = inr (refl, refl) }

-- After at least one event.
pub Step-after :
    {es es' es'' : List Change} {c c' c'' : Cache}
    → length es' < length es
    → Step es' c' es'' c''
    → Step es c es'' c''
Step-after less s = record { is = s.is; keeps = s.keeps; moved = inl (omega (arith, Step-le s)) }

pub wait_on_buffer-Step :
    (b : ℕ) (es : List Change) (c : Cache)
    → IsCache c
    → Keeps es
    → Meets (λ es' c' _. Step es c es' c' × ((c'.head b).b_lock ≡ false)) (wait_on_buffer b es c)
unfolding wait_on_buffer Keeps
wait_on_buffer-Step b [] c v k = elim (Bool-cases (c.head b).b_lock) [
  | inl e ↦ rw e (sleeps c (locked b e))
  | inr free ↦ rw free (returns [] c true (Step-refl [] c v k, free))
]
wait_on_buffer-Step b (e ∷ es) c v (k, ks) = elim (Bool-cases (c.head b).b_lock) [
  | inl busy ↦ rw busy (
      loosen (wait_on_buffer-Step b es (e c) (k c v) ks)
        (λ es' c' _ (s, free). (Step-after (omega arith) s, free)))
  | inr free ↦ rw free (returns (e ∷ es) c true (Step-refl (e ∷ es) c v (k, ks), free))
]

-- How get_hash_table ends: no buffer has the block, or one has, and is not locked.
pub data Hashed (dev block : ℕ) (es : List Change) (c : Cache)
    : List Change → Cache → Option ℕ → Type 0 where
  missing :
      {es' : List Change} {c' : Cache}
      → Step es c es' c'
      → find_buffer dev block c' ≡ none
      → Hashed dev block es c es' c' none
  there :
      {es' : List Change} {c' : Cache} (b : ℕ)
      → IsCache c'
      → holds (c'.head b) dev block ≡ true
      → (c'.head b).b_lock ≡ false
      → Hashed dev block es c es' c' (some b)

pub get_hash_table-Hashed :
    (n dev block : ℕ) (es : List Change) (c : Cache)
    → IsCache c
    → Keeps es
    → length es < n
    → Meets (Hashed dev block es c) (get_hash_table n dev block es c)
unfolding get_hash_table
get_hash_table-Hashed zero dev block es c v k h = absurd (omega arith)
get_hash_table-Hashed (suc n) dev block es c v k h = elim (Option-cases (find_buffer dev block c)) [
  | inl e ↦ rw (e, get_hash_table) (returns es c none (missing (Step-refl es c v k) e))
  | inr (b, e) ↦
      rw (e, get_hash_table)
        (bind-Meets _ (wait_on_buffer-Step b es (add_count 1 b c) (add_count-IsCache 1 b c v) k)
          (λ es' c' _ (s, free). elim (Bool-cases (holds (c'.head b) dev block)) [
            | inl ok ↦ rw ok (returns es' c' (some b) (there b s.is ok free))
            | inr differs ↦
                let less : length es' < length es = elim s.moved [
                  | inl fewer ↦ fewer
                  | inr (_, same) ↦ absurd (moved b e (rw same at differs))
                ] in
                rw differs (
                  loosen
                    (get_hash_table-Hashed n dev block es' (add_count 255 b c')
                      (add_count-IsCache 255 b c' s.is) s.keeps (omega arith))
                    (λ es2 c2 r. widen less))
          ]))
]
  where
    moved :
        (b : ℕ)
        → find_buffer dev block c ≡ some b
        → holds ((add_count 1 b c).head b) dev block ≢ false
    moved b e wrong =
        let ok = find_buffer-holds dev block b c e in
        let self : (b == b) ≡ true = ground arith in ground (arith, ok, rw self at wrong)

    widen :
        {es' es2 : List Change} {c' c2 : Cache} {r : Option ℕ}
        → length es' < length es
        → Hashed dev block es' c' es2 c2 r
        → Hashed dev block es c es2 c2 r
    widen less (missing s e) = missing (Step-after less s) e
    widen less (there b v ok free) = there b v ok free

-- How the loop on a dirty buffer ends: the buffer is clean, unused and not locked, or it has been
-- taken by somebody else.
pub data Cleaned (b : ℕ) (es : List Change) (c : Cache) : List Change → Cache → Bool → Type 0 where
  cleaned :
      {es' : List Change} {c' : Cache}
      → Step es c es' c'
      → (c'.head b).b_count ≡ 0
      → (c'.head b).b_lock ≡ false
      → (c'.head b).b_dirt ≡ false
      → Cleaned b es c es' c' true
  lost :
      {es' : List Change} {c' : Cache}
      → Step es c es' c'
      → length es' < length es
      → Cleaned b es c es' c' false

pub clean-Cleaned :
    (n b : ℕ) (es : List Change) (c : Cache)
    → IsCache c
    → Keeps es
    → (c.head b).b_count ≡ 0
    → (c.head b).b_lock ≡ false
    → length es < n
    → Meets (Cleaned b es c) (clean n b es c)
unfolding clean Keeps
clean-Cleaned zero b es c v k unused free h = absurd (omega arith)
clean-Cleaned (suc n) b [] c v k unused free h = elim (Bool-cases (c.head b).b_dirt) [
  | inl e ↦ rw e (sleeps c (dirty b e))
  | inr fine ↦ rw fine (returns [] c true (cleaned (Step-refl [] c v k) unused free fine))
]
clean-Cleaned (suc n) b (e ∷ es) c v (k, ks) unused free h = elim (Bool-cases (c.head b).b_dirt) [
  | inl busy ↦ rw busy (
      bind-Meets _ (wait_on_buffer-Step b es (e c) (k c v) ks) (λ es' c' _ (s, free').
        let t : Step (e ∷ es) c es' c' = Step-after (omega arith) s in
        let less : length es' < length (e ∷ es) = omega (arith, Step-le s) in
        elim (Bool-cases ((c'.head b).b_count == 0)) [
          | inl unused' ↦ rw unused' (
              loosen (clean-Cleaned n b es' c' s.is s.keeps (ground arith) free' (omega arith))
                (λ es2 c2 r. widen less))
          | inr used ↦ rw used (returns es' c' false (lost t less))
        ]))
  | inr fine ↦
      rw fine (returns (e ∷ es) c true (cleaned (Step-refl (e ∷ es) c v (k, ks)) unused free fine))
]
  where
    widen :
        {es' es2 : List Change} {c' c2 : Cache} {r : Bool}
        → length es' < suc (length es)
        → Cleaned b es' c' es2 c2 r
        → Cleaned b (e ∷ es) c es2 c2 r
    widen less (cleaned s unused free fine) = cleaned (Step-after less s) unused free fine
    widen less (lost s fewer) = lost (Step-after less s) (omega arith)
