-- ===== src/Strings/Scan.antt =====
-- `strchr` and `strpbrk` (source/kernel/libs/string.c) find the first match.
use waffle_os.Common.{
  ℕ, ◌≡◌, refl, true, false, List, [], ◌∷◌, ◌++◌, Option, none, some, ◌==◌, arith, ap, Bool-cases,
  inl, inr,
}
use waffle_os.Strings.{strchr, strpbrk, in_set}

abbrev pub Lacks : ℕ → List ℕ → Type 0
Lacks c [] = Unit
Lacks c (x ∷ xs) = ((x == c) ≡ false) × Lacks c xs

abbrev pub LacksAll : List ℕ → List ℕ → Type 0
LacksAll char_set [] = Unit
LacksAll char_set (x ∷ xs) = (in_set x char_set ≡ false) × LacksAll char_set xs

pub strchr-append :
    (c : ℕ) (front rest : List ℕ) → Lacks c front → strchr (front ++ c ∷ rest) c ≡ some (c ∷ rest)
unfolding strchr
strchr-append c [] rest h = ground arith
strchr-append c (x ∷ front) rest h = ground (arith, strchr-append c front rest h.1)

pub strchr-none : (c : ℕ) (s : List ℕ) → Lacks c s → strchr s c ≡ none
unfolding strchr
strchr-none c [] h = refl
strchr-none c (x ∷ s) h = ground (arith, strchr-none c s h.1)

-- What `strchr` points to: a first match, and how the string falls apart there.
abbrev pub FirstMatch : ℕ → List ℕ → List ℕ → Type 0
FirstMatch c s found =
    (front : List ℕ) × (rest : List ℕ) × (found ≡ c ∷ rest)
    × (s ≡ front ++ c ∷ rest)
    × Lacks c front

-- What `strchr` returns for the character `c` in `s`: NULL if `s` lacks it, else the first match.
abbrev pub Found : ℕ → List ℕ → Option (List ℕ) → Type 0
Found c s none = Lacks c s
Found c s (some found) = FirstMatch c s found

Found-later :
    (c x : ℕ) (s : List ℕ) (r : Option (List ℕ))
    → (x == c) ≡ false
    → Found c s r
    → Found c (x ∷ s) r
Found-later c x s none miss lacks = (miss, lacks)
Found-later c x s (some found) miss (front, rest, at, whole, lacks) =
    (x ∷ front, rest, at, ap (λ t. x ∷ t) whole, (miss, lacks))

-- `strchr` returns NULL if the string lacks the character, and otherwise a pointer to it with no
-- other such character in front.
strchr-Found : (c : ℕ) (s : List ℕ) → Found c s (strchr s c)
unfolding strchr
strchr-Found c [] = tt
strchr-Found c (x ∷ s) = elim (Bool-cases (x == c)) [
  | inl hit ↦ rw hit ([], s, ground arith, ground arith, tt)
  | inr miss ↦ rw miss (Found-later c x s (strchr s c) miss (strchr-Found c s))
]

pub strpbrk-append :
    (char_set : List ℕ) (c : ℕ) (front rest : List ℕ)
    → LacksAll char_set front
    → in_set c char_set ≡ true
    → strpbrk (front ++ c ∷ rest) char_set ≡ some (c ∷ rest)
unfolding strpbrk
strpbrk-append char_set c [] rest h k = ground arith
strpbrk-append char_set c (x ∷ front) rest h k =
    ground (arith, strpbrk-append char_set c front rest h.1)

pub strpbrk-none : (char_set s : List ℕ) → LacksAll char_set s → strpbrk s char_set ≡ none
unfolding strpbrk
strpbrk-none char_set [] h = refl
strpbrk-none char_set (x ∷ s) h = ground (arith, strpbrk-none char_set s h.1)
