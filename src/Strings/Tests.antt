-- ===== src/Strings/Tests.antt =====
-- lib/string.c at concrete inputs.
use linux_rpg.Prelude.{
  ℕ, ◌+◌, ◌<◌, ◌≡◌, ◌⊎◌, ◌↔◌, refl, List, [], ◌∷◌, ◌++◌, none, some, true, false, inl, arith,
  length, take, drop, Option, get_or, if◌then◌else◌, ◌==◌,
}
use linux_rpg.Prelude.Int.{pos}
use linux_rpg.Strings.{
  Bytes, set_byte, memmove, repne_scasb, copy_some, strcat, strncat, strcmp, strstr, strspn,
  strcspn, strpbrk,
}
use linux_rpg.Strings.Moves.{moved, memmove-moved}
use linux_rpg.Strings.Texts.{IsText, strcat-IsText}
use linux_rpg.Strings.Compare.{order, strcmp-equal}
use linux_rpg.Strings.Span.{elem, prefix_length, strspn-prefix_length}
use linux_rpg.Strings.Search.{occurrence, strstr-occurrence}
use linux_rpg.Strings.Token.{strtok, Cut, strtok-Cut}
use linux_rpg.Strings.Bounded.{beyond, strncat-IsText}

-- The string ab at 0, room behind it, and cd at 8.
abbrev memory : Bytes
memory a = get_or (97 ∷ 98 ∷ 0 ∷ 7 ∷ 7 ∷ 7 ∷ 7 ∷ 7 ∷ 99 ∷ 100 ∷ []) a 0

abbrev ab : List ℕ
ab = 97 ∷ 98 ∷ []

abbrev cd : List ℕ
cd = 99 ∷ 100 ∷ []

memory-ab : IsText memory 0 ab
unfolding IsText
memory-ab = ((λ e. omega (arith, e)), refl, ((λ e. omega (arith, e)), refl, refl))

memory-cd : IsText memory 8 cd
unfolding IsText
memory-cd = ((λ e. omega (arith, e)), refl, ((λ e. omega (arith, e)), refl, refl))

-- Three bytes moved up by one, over themselves.
memmove-moved_example : memmove 1 0 3 memory 3 ≡ moved 1 0 3 memory 3
memmove-moved_example = memmove-moved 1 0 3 memory 3

strcat-IsText_example :
    (m' : Bytes) × (strcat 3 0 8 memory ≡ some m')
    × IsText m' 0 (ab ++ cd)
    × ((a : ℕ) → (a < 2) ⊎ (4 < a) → m' a ≡ memory a)
strcat-IsText_example =
    strcat-IsText 0 8 ab cd memory memory-ab memory-cd (omega arith) (inl (omega arith))

-- The byte behind the end of abcd is written, though three is more than cd has.
strncat_beyond : strncat 0 8 3 memory 5 ≡ 0
unfolding strncat repne_scasb copy_some set_byte
strncat_beyond = refl

strncat-IsText_example :
    IsText (strncat 0 8 3 memory) 0 (ab ++ take 3 cd)
    × (strncat 0 8 3 memory (0 + length ab + length (take 3 cd) + beyond 3 cd) ≡ 0)
    × ((a : ℕ)
        → (a < 0 + length ab) ⊎ (0 + length ab + length (take 3 cd) + beyond 3 cd < a)
        → strncat 0 8 3 memory a ≡ memory a)
strncat-IsText_example =
    strncat-IsText 0 8 3 ab cd memory memory-ab memory-cd (omega arith) (inl (omega arith))

strcmp-equal_example : (strcmp 3 0 8 memory ≡ some (order ab cd)) × (order ab cd ≡ pos 0 ↔ ab ≡ cd)
strcmp-equal_example = strcmp-equal ab cd 0 8 memory memory-ab memory-cd

strspn-prefix_length_example :
    (strspn 3 0 8 memory ≡ some (prefix_length true ab cd))
    × (strcspn 3 0 8 memory ≡ some (prefix_length false ab cd))
    × (strpbrk 3 0 8 memory
        ≡ some
            (if prefix_length false ab cd == 2 then none else some (0 + prefix_length false ab cd)))
strspn-prefix_length_example =
    strspn-prefix_length cd 8 memory memory-cd ab 0 (omega arith) memory-ab

strstr-occurrence_example : strstr 3 0 8 memory ≡ some (occurrence 0 ab cd)
strstr-occurrence_example = strstr-occurrence cd 8 memory memory-cd ab 0 (omega arith) memory-ab

memory-b : IsText memory 1 (98 ∷ [])
unfolding IsText
memory-b = ((λ e. omega (arith, e)), refl, refl)

-- b ends a token: a is one, and the rest is kept.
strtok-Cut_example :
    (out : Option ℕ × Option ℕ × Bytes) × (strtok 3 (some 0) none 1 memory ≡ some out)
    × Cut memory
        (0 + prefix_length true ab (98 ∷ []))
        (prefix_length false (drop (prefix_length true ab (98 ∷ [])) ab) (98 ∷ []))
        (drop (prefix_length true ab (98 ∷ [])) ab)
        out
strtok-Cut_example =
    strtok-Cut 0 1 ab (98 ∷ []) memory none memory-ab memory-b (omega arith) (omega arith)
      (unfold prefix_length elem in omega arith)
