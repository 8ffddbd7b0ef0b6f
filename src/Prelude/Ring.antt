-- ===== src/Prelude/Ring.antt =====
-- A ring of `cap` places, as the pipe's page and the terminals' queues have one: the bytes in it,
-- and what writing a run of bytes does to them.
use mathlib.Core.Path.{ap₂}
use native.Mathlib.Nat.{mod-add-mod, mod-eq_of_lt, mod-eq-sub-mod, add-zero}
use native.Mathlib.Decide.{dec_lt}
use linux_rpg.Prelude.{
  ℕ, zero, suc, ◌+◌, ◌-◌, ◌%◌, ◌≤◌, ◌<◌, ◌≡◌, ◌⊎◌, inl, inr, refl, ap, ◌∙◌, List, [], ◌∷◌, ◌++◌,
  arith, ◌==◌, if◌then◌else◌, length,
}

-- The bytes of a page, or of a queue's array, by their index.
abbrev pub Bytes : Type 0
Bytes = ℕ → ℕ

-- `n` bytes from index `t` on, without going round.
unfoldable pub chunk : Bytes → ℕ → ℕ → List ℕ
chunk f t zero = []
chunk f t (suc n) = f t ∷ chunk f (t + 1) n

abbrev pub write_byte : Bytes → ℕ → ℕ → Bytes
write_byte f i v j = if j == i then v else f j

-- A run of bytes goes to index `h` on, without going round.
unfoldable pub put : Bytes → ℕ → List ℕ → Bytes
put f h [] = f
put f h (b ∷ bs) = put (write_byte f h b) (h + 1) bs

pub put_before : (f : Bytes) (h : ℕ) (bs : List ℕ) (j : ℕ) → j < h → put f h bs j ≡ f j
unfolding put
put_before f h [] j lt = refl
put_before f h (b ∷ bs) j lt = ground (arith, put_before (write_byte f h b) (h + 1) bs j)

pub put_behind : (f : Bytes) (h : ℕ) (bs : List ℕ) (j : ℕ) → h + length bs ≤ j → put f h bs j ≡ f j
unfolding put
put_behind f h [] j le = refl
put_behind f h (b ∷ bs) j le = ground (arith, put_behind (write_byte f h b) (h + 1) bs j)

pub chunk-put : (f : Bytes) (h : ℕ) (bs : List ℕ) → chunk (put f h bs) h (length bs) ≡ bs
unfolding chunk put
chunk-put f h [] = refl
chunk-put f h (b ∷ bs) =
    ground
      (arith, put_before (write_byte f h b) (h + 1) bs h, chunk-put (write_byte f h b) (h + 1) bs)

pub length-chunk : (f : Bytes) (t n : ℕ) → length (chunk f t n) ≡ n
unfolding chunk
length-chunk f t zero = refl
length-chunk f t (suc n) = ap suc (length-chunk f (t + 1) n)

module _ (cap : ℕ) where
  -- `n` bytes from index `t` on, going round.
  unfoldable pub window : Bytes → ℕ → ℕ → List ℕ
  window f t zero = []
  window f t (suc n) = f t ∷ window f ((t + 1) % cap) n

  pub length-window : (f : Bytes) (t n : ℕ) → length (window f t n) ≡ n
  unfolding window
  length-window f t zero = refl
  length-window f t (suc n) = ap suc (length-window f ((t + 1) % cap) n)

  shift : (t a : ℕ) → ((t + 1) % cap + a) % cap ≡ (t + suc a) % cap
  shift t a = rw mod-add-mod (ap (λ k. k % cap) (omega arith))

  -- The remainder of a number below twice the modulus.
  mod_cases :
      (x : ℕ) → x < cap + cap → ((x % cap ≡ x) × (x < cap)) ⊎ ((x % cap ≡ x - cap) × (cap ≤ x))
  mod_cases x h = elim (dec_lt x cap) [
    | yes p ↦ inl (mod-eq_of_lt p, p)
    | no p ↦ inr (
      mod-eq-sub-mod {n = x} {m = cap} (omega arith)
          ∙ mod-eq_of_lt {n = x - cap} {m = cap} (omega arith),
      omega arith,
    )
  ]

  window-add :
      (f : Bytes) (t a b : ℕ)
      → t < cap
      → window f t (a + b) ≡ window f t a ++ window f ((t + a) % cap) b
  unfolding window
  window-add f t zero b h =
      let e : (t + 0) % cap ≡ t = rw add-zero (mod-eq_of_lt h) in
      let e' : 0 + b ≡ b = omega arith in rw (e, e')
  window-add f t (suc a) b h =
      let e : suc a + b ≡ suc (a + b) = omega arith in
      rw (e, ← shift t a) (ap (λ l. f t ∷ l) (window-add f ((t + 1) % cap) a b (omega arith)))

  -- The window of a run that does not go round.
  window-chunk : (f : Bytes) (t n : ℕ) → t + n ≤ cap → window f t n ≡ chunk f t n
  unfolding window chunk
  window-chunk f t zero h = refl
  window-chunk f t (suc zero) h = refl
  window-chunk f t (suc (suc n)) h =
      let e : (t + 1) % cap ≡ t + 1 = mod-eq_of_lt (omega arith) in
      rw e (ap (λ l. f t ∷ l) (window-chunk f (t + 1) (suc n) (omega arith)))

  window_ext :
      (f g : Bytes) (t n : ℕ)
      → t < cap
      → ((k : ℕ) → k < n → f ((t + k) % cap) ≡ g ((t + k) % cap))
      → window f t n ≡ window g t n
  unfolding window
  window_ext f g t zero h same = refl
  window_ext f g t (suc n) h same =
      let here : (t + 0) % cap ≡ t = rw add-zero (mod-eq_of_lt h) in
      let first : f t ≡ g t = rw here at (same 0 (omega arith)) in
      rw first (
        ap (λ l. g t ∷ l)
          (window_ext f g ((t + 1) % cap) n (omega arith)
            (λ k lt. rw (shift t k) (same (suc k) (omega arith)))))

  -- Reading a run from the front of the window.
  pub window-read :
      (f : Bytes) (t a b : ℕ)
      → t < cap
      → t + a ≤ cap
      → window f t (a + b) ≡ chunk f t a ++ window f ((t + a) % cap) b
  window-read f t a b h fits = rw (window-add f t a b h, window-chunk f t a fits)

  -- Writing a run just behind the window.
  pub window-put :
      (f : Bytes) (t n h : ℕ) (bs : List ℕ)
      → t < cap
      → n + length bs ≤ cap
      → h ≡ (t + n) % cap
      → h + length bs ≤ cap
      → window (put f h bs) t (n + length bs) ≡ window f t n ++ bs
  window-put f t n h bs lt room e fits =
      window-add (put f h bs) t n (length bs) lt
      ∙ ap₂ ◌++◌ (window_ext (put f h bs) f t n lt untouched)
          (rw (← e) (window-chunk (put f h bs) h (length bs) fits ∙ chunk-put f h bs))
    where
      untouched : (k : ℕ) → k < n → put f h bs ((t + k) % cap) ≡ f ((t + k) % cap)
      untouched k less = elim (dec_lt ((t + k) % cap) h) [
        | yes p ↦ put_before f h bs ((t + k) % cap) p
        | no p ↦
            put_behind f h bs ((t + k) % cap)
              (away (mod_cases (t + k) (omega arith)) (mod_cases (t + n) (omega arith)) p)
      ]
        where
          away :
              (((t + k) % cap ≡ t + k) × (t + k < cap))
                ⊎ (((t + k) % cap ≡ t + k - cap) × (cap ≤ t + k))
              → (((t + n) % cap ≡ t + n) × (t + n < cap))
                ⊎ (((t + n) % cap ≡ t + n - cap) × (cap ≤ t + n))
              → ¬ ((t + k) % cap < h)
              → h + length bs ≤ (t + k) % cap
          away (inl a) (inl b) q = omega arith
          away (inl a) (inr b) q = omega arith
          away (inr a) (inl b) q = omega arith
          away (inr a) (inr b) q = omega arith
