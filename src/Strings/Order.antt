-- ===== src/Strings/Order.antt =====
-- `strcmp` (source/kernel/libs/string.c) decides equality, and its sign is an order.
use waffle_os.Common.{ℕ, ◌<◌, ◌≡◌, ◌↔◌, refl, List, [], ◌∷◌, arith, pos, ◌≤ℤ◌, ◌-ℤ◌}
use waffle_os.Strings.{strcmp}

-- Every character is one of a C string: not the NUL.
abbrev pub NoNul : List ℕ → Type 0
NoNul [] = Unit
NoNul (c ∷ s) = (0 < c) × NoNul s

strcmp_refl : (s : List ℕ) → strcmp s s ≡ pos 0
unfolding strcmp
strcmp_refl [] = refl
strcmp_refl (c ∷ s) = ground (arith, strcmp_refl s)

strcmp_sound : (s t : List ℕ) → NoNul s → NoNul t → strcmp s t ≡ pos 0 → s ≡ t
unfolding strcmp
strcmp_sound [] [] p q e = refl
strcmp_sound [] (d ∷ t) p q e = ground arith
strcmp_sound (c ∷ s) [] p q e = ground arith
strcmp_sound (c ∷ s) (d ∷ t) p q e = ground (arith, strcmp_sound s t p.1 q.1)

-- `strcmp` of two C strings is 0 exactly if they are equal.
pub strcmp-zero : (s t : List ℕ) → NoNul s → NoNul t → (strcmp s t ≡ pos 0) ↔ (s ≡ t)
strcmp-zero s t p q = (strcmp_sound s t p q, λ e. rw e (strcmp_refl t))

-- Swapping the arguments of `strcmp` negates its result.
strcmp_swap : (s t : List ℕ) → strcmp t s ≡ pos 0 -ℤ strcmp s t
unfolding strcmp ◌-ℤ◌
strcmp_swap [] [] = refl
strcmp_swap [] (d ∷ t) = ground arith
strcmp_swap (c ∷ s) [] = ground arith
strcmp_swap (c ∷ s) (d ∷ t) = ground (arith, strcmp_swap s t)

strcmp_trans :
    (s t u : List ℕ)
    → NoNul s
    → NoNul t
    → NoNul u
    → strcmp s t ≤ℤ pos 0
    → strcmp t u ≤ℤ pos 0
    → strcmp s u ≤ℤ pos 0
unfolding strcmp
strcmp_trans [] t [] p q r h k = ground arith
strcmp_trans [] t (e ∷ u) p q r h k = ground arith
strcmp_trans (c ∷ s) [] u p q r h k = ground arith
strcmp_trans (c ∷ s) (d ∷ t) [] p q r h k = ground arith
strcmp_trans (c ∷ s) (d ∷ t) (e ∷ u) p q r h k = ground (arith, strcmp_trans s t u p.1 q.1 r.1)
