-- ===== src/Strings/Reversal.antt =====
-- The swaps at the end of `int_to_str` (source/kernel/libs/string.c) reverse the text.
use waffle_os.Common.{
  ℕ, zero, suc, ◌+◌, ◌-◌, ◌/◌, ◌≤◌, ◌<◌, ◌≡◌, refl, Bool, true, false, List, [], ◌∷◌, ◌++◌, ◌==◌,
  ltb, ◌||◌, if◌then◌else◌, arith, ap, sym, ◌∙◌, set, get_or, length, length-append, length-set,
  get_or-set_self, get_or-set_ne, reverse, reverse-append, inl, inr, Bool-cases,
}
use waffle_os.Strings.{swap_loop, swap_all}

get_or-set_if :
    (xs : List ℕ) (i j v : ℕ)
    → i < length xs
    → get_or (set xs i v) j 0 ≡ (if i == j then v else get_or xs j 0)
get_or-set_if xs i j v h = elim (Bool-cases (i == j)) [
  | inl same ↦ let e : i ≡ j = ground arith in rw (same, ← e) (get_or-set_self xs i v 0 h)
  | inr other ↦ rw other (get_or-set_ne xs {i = i} {j = j} v 0 (ground arith))
]

if_index :
    (xs : List ℕ) (b : Bool) (p q : ℕ)
    → (if b then get_or xs p 0 else get_or xs q 0) ≡ get_or xs (if b then p else q) 0
if_index xs true p q = refl
if_index xs false p q = refl

-- One swap.
swapped : (j i : ℕ) (str : List ℕ) → List ℕ
swapped j i str = set (set str j (get_or str (i - 1 - j) 0)) (i - 1 - j) (get_or str j 0)

length-swapped : (j i : ℕ) (str : List ℕ) → length (swapped j i str) ≡ length str
unfolding swapped
length-swapped j i str =
    length-set (set str j (get_or str (i - 1 - j) 0)) (i - 1 - j) (get_or str j 0)
    ∙ length-set str j (get_or str (i - 1 - j) 0)

get_or-swapped :
    (j i : ℕ) (str : List ℕ) (k : ℕ)
    → length str ≡ i
    → j < i
    → get_or (swapped j i str) k 0
      ≡ (if k == j || k == (i - 1 - j) then get_or str (i - 1 - k) 0 else get_or str k 0)
unfolding swapped
get_or-swapped j i str k len below =
    let first = set str j (get_or str (i - 1 - j) 0) in
    let len1 = length-set str j (get_or str (i - 1 - j) 0) in
    ground (
      arith,
      get_or-set_if str j k (get_or str (i - 1 - j) 0) (omega arith),
      get_or-set_if first (i - 1 - j) k (get_or str j 0) (omega arith),
    )

length-swap_loop : (n j i : ℕ) (str : List ℕ) → length (swap_loop n j i str) ≡ length str
unfolding swap_loop swapped
length-swap_loop zero j i str = refl
length-swap_loop (suc n) j i str =
    length-swap_loop n (j + 1) i (swapped j i str) ∙ length-swapped j i str

swap_loop_step :
    (n j i : ℕ) (str : List ℕ) → swap_loop (suc n) j i str ≡ swap_loop n (j + 1) i (swapped j i str)
unfolding swap_loop swapped
swap_loop_step n j i str = refl

-- Where the character at `p` comes from, by one swap and by the rounds from `j` on.
abbrev swapped_index : ℕ → ℕ → ℕ → ℕ
swapped_index j i p = if p == j || p == (i - 1 - j) then i - 1 - p else p

swap_index : ℕ → ℕ → ℕ → ℕ → ℕ
swap_index zero j i k = k
swap_index (suc n) j i k = swapped_index j i (swap_index n (j + 1) i k)

get_or-swap_loop :
    (n j i : ℕ) (str : List ℕ) (k : ℕ)
    → length str ≡ i
    → j + n ≤ i / 2
    → get_or (swap_loop n j i str) k 0 ≡ get_or str (swap_index n j i k) 0
unfolding swap_loop swap_index
get_or-swap_loop zero j i str k len half = refl
get_or-swap_loop (suc n) j i str k len half =
    let same = length-swapped j i str ∙ len in
    ap (λ t. get_or t k 0) (swap_loop_step n j i str)
    ∙ (get_or-swap_loop n (j + 1) i (swapped j i str) k same (omega arith)
        ∙ (get_or-swapped j i str (swap_index n (j + 1) i k) len (omega arith)
            ∙ if_index str
                (swap_index n (j + 1) i k == j || swap_index n (j + 1) i k == (i - 1 - j))
                (i - 1 - swap_index n (j + 1) i k) (swap_index n (j + 1) i k)))

-- The places that the rounds have not reached, and those that they have.
swap_index_middle :
    (n j i k : ℕ) → j + n ≤ i / 2 → k < i → j + n ≤ k → j + n ≤ i - 1 - k → swap_index n j i k ≡ k
unfolding swap_index
swap_index_middle zero j i k half below a b = refl
swap_index_middle (suc n) j i k half below a b =
    let rest = swap_index_middle n (j + 1) i k (omega arith) below (omega arith) (omega arith) in
    ground (arith, rest)

swap_index_outside : (n j i k : ℕ) → j + n ≤ i / 2 → k < i → k < j → swap_index n j i k ≡ k
unfolding swap_index
swap_index_outside zero j i k half below a = refl
swap_index_outside (suc n) j i k half below a =
    let rest = swap_index_outside n (j + 1) i k (omega arith) below (omega arith) in
    ground (arith, rest)

swap_index_beyond : (n j i k : ℕ) → j + n ≤ i / 2 → k < i → i - 1 - k < j → swap_index n j i k ≡ k
unfolding swap_index
swap_index_beyond zero j i k half below a = refl
swap_index_beyond (suc n) j i k half below a =
    let rest = swap_index_beyond n (j + 1) i k (omega arith) below (omega arith) in
    ground (arith, rest)

swap_index_front :
    (n j i k : ℕ) → j + n ≤ i / 2 → k < i → j ≤ k → k < j + n → swap_index n j i k ≡ i - 1 - k
unfolding swap_index
swap_index_front zero j i k half below a b = absurd (omega arith)
swap_index_front (suc n) j i k half below a b = elim (Bool-cases (k == j)) [
  | inl now ↦
      let rest = swap_index_outside n (j + 1) i k (omega arith) below (ground arith) in
      ground (arith, rest)
  | inr later ↦
      let rest = swap_index_front n (j + 1) i k (omega arith) below (ground arith) (omega arith) in
      ground (arith, rest)
]

swap_index_back :
    (n j i k : ℕ)
    → j + n ≤ i / 2
    → k < i
    → j ≤ i - 1 - k
    → i - 1 - k < j + n
    → swap_index n j i k ≡ i - 1 - k
unfolding swap_index
swap_index_back zero j i k half below a b = absurd (omega arith)
swap_index_back (suc n) j i k half below a b = elim (Bool-cases ((i - 1 - k) == j)) [
  | inl now ↦
      let rest = swap_index_beyond n (j + 1) i k (omega arith) below (ground arith) in
      ground (arith, rest)
  | inr later ↦
      let rest = swap_index_back n (j + 1) i k (omega arith) below (ground arith) (omega arith) in
      ground (arith, rest)
]

swap_index_all : (i k : ℕ) → k < i → swap_index (i / 2) 0 i k ≡ i - 1 - k
swap_index_all i k below = elim (Bool-cases (ltb k (i / 2))) [
  | inl front ↦ swap_index_front (i / 2) 0 i k (omega arith) below (omega arith) (ground arith)
  | inr rest ↦ elim (Bool-cases (ltb (i - 1 - k) (i / 2))) [
    | inl back ↦ swap_index_back (i / 2) 0 i k (omega arith) below (omega arith) (ground arith)
    | inr middle ↦
        swap_index_middle (i / 2) 0 i k (omega arith) below (ground arith) (ground arith)
        ∙ ground arith
  ]
]

get_or-append :
    (xs ys : List ℕ) (k : ℕ)
    → get_or (xs ++ ys) k 0
      ≡ (if ltb k (length xs) then get_or xs k 0 else get_or ys (k - length xs) 0)
get_or-append [] ys k = ground arith
get_or-append (x ∷ xs) ys zero = ground arith
get_or-append (x ∷ xs) ys (suc k) = ground (arith, get_or-append xs ys k)

length-reverse : (xs : List ℕ) → length (reverse xs) ≡ length xs
length-reverse [] = refl
length-reverse (x ∷ xs) =
    rw (reverse-append (x ∷ []) xs)
      (omega (arith, length-append (reverse xs) (x ∷ []), length-reverse xs))

get_or-reverse :
    (xs : List ℕ) (k : ℕ)
    → k < length xs
    → get_or (reverse xs) k 0 ≡ get_or xs (length xs - 1 - k) 0
get_or-reverse [] k h = absurd (omega arith)
get_or-reverse (x ∷ xs) k h =
    let len = length-reverse xs in
    elim (Bool-cases (ltb k (length xs))) [
      | inl front ↦
          let at : length (x ∷ xs) - 1 - k ≡ suc (length xs - 1 - k) = ground arith in
          rw (reverse-append (x ∷ []) xs, get_or-append (reverse xs) (x ∷ []) k, len, front, at)
            (get_or-reverse xs k (ground arith))
      | inr back ↦
          let at : length (x ∷ xs) - 1 - k ≡ 0 = ground arith in
          let at' : k - length xs ≡ 0 = ground arith in
          rw (reverse-append (x ∷ []) xs, get_or-append (reverse xs) (x ∷ []) k, len, back, at, at')
    ]

-- Two lists of one length are equal if they agree at every index.
list_ext :
    (xs ys : List ℕ)
    → length xs ≡ length ys
    → ((k : ℕ) → k < length xs → get_or xs k 0 ≡ get_or ys k 0)
    → xs ≡ ys
list_ext [] [] e h = refl
list_ext [] (y ∷ ys) e h = absurd (omega arith)
list_ext (x ∷ xs) [] e h = absurd (omega arith)
list_ext (x ∷ xs) (y ∷ ys) e h =
    let rest = list_ext xs ys (omega arith) (λ k below. h (suc k) (omega arith)) in
    let first = h 0 (omega arith) in cc

-- The swaps reverse the text.
pub swap_all-eq-reverse : (str : List ℕ) → swap_all str ≡ reverse str
swap_all-eq-reverse str =
    let n = length str in
    list_ext (swap_all str) (reverse str)
      (length-swap_loop (n / 2) 0 n str ∙ sym (length-reverse str))
      (λ k below.
        let small : k < n = omega (arith, length-swap_loop (n / 2) 0 n str) in
        get_or-swap_loop (n / 2) 0 n str k refl (omega arith)
        ∙ rw (swap_index_all n k small) (sym (get_or-reverse str k small)))
