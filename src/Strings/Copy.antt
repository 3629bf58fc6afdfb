-- ===== src/Strings/Copy.antt =====
-- `strcpy`, `strncpy` and `strcat` (source/kernel/libs/string.c) on arrays with enough room.
use waffle_os.Common.{
  ℕ, zero, suc, ◌+◌, ◌≤◌, ◌<◌, ◌≡◌, refl, List, [], ◌∷◌, ◌++◌, arith, ap, set, length, drop,
  append_assoc, ◌∙◌, sym, length-append,
}
use waffle_os.Strings.{strcpy, strcpy_from, strncpy, strncpy_from, strcat, find_end}
use waffle_os.Strings.Order.{NoNul}

pub set-append :
    (front : List ℕ) (x : ℕ) (rest : List ℕ) (v : ℕ)
    → set (front ++ x ∷ rest) (length front) v ≡ front ++ v ∷ rest
set-append [] x rest v = refl
set-append (y ∷ front) x rest v = ap (λ t. y ∷ t) (set-append front x rest v)

pub length-snoc : (front : List ℕ) (c : ℕ) → length (front ++ c ∷ []) ≡ length front + 1
length-snoc front c = length-append front (c ∷ [])

-- One character further, in what follows `front`.
pub snoc-append :
    (front : List ℕ) (c : ℕ) (rest : List ℕ) → front ++ c ∷ rest ≡ (front ++ c ∷ []) ++ rest
snoc-append front c rest = sym (append_assoc front (c ∷ []) rest)

strcpy_from-append :
    (src front room : List ℕ)
    → length src < length room
    → strcpy_from (length front) src (front ++ room)
      ≡ front ++ (src ++ 0 ∷ drop (suc (length src)) room)
unfolding strcpy_from
strcpy_from-append [] front [] h = absurd (omega arith)
strcpy_from-append [] front (x ∷ room) h = set-append front x room 0
strcpy_from-append (c ∷ src) front [] h = absurd (omega arith)
strcpy_from-append (c ∷ src) front (x ∷ room) h =
    let next : length front + 1 ≡ length (front ++ c ∷ []) = sym (length-snoc front c) in
    rw (set-append front x room c, next, snoc-append front c room)
      (strcpy_from-append src (front ++ c ∷ []) room (omega arith)
        ∙ append_assoc front (c ∷ []) (src ++ 0 ∷ drop (suc (length src)) room))

-- In an array with room for the NUL, `strcpy` writes the string and the NUL to its front and
-- leaves the rest.
strcpy-eq :
    (dest src : List ℕ)
    → length src < length dest
    → strcpy dest src ≡ src ++ 0 ∷ drop (suc (length src)) dest
unfolding strcpy
strcpy-eq dest src h = strcpy_from-append src [] dest h

find_end-append : (d rest : List ℕ) → NoNul d → find_end (d ++ 0 ∷ rest) ≡ length d
unfolding find_end
find_end-append [] rest p = refl
find_end-append (c ∷ d) rest p = ground (arith, find_end-append d rest p.1)

-- In an array that holds the string `d`, its NUL and enough room, `strcat` leaves the string `d`
-- followed by `src`, the NUL, and the rest of the room.
strcat-append :
    (d src room : List ℕ)
    → NoNul d
    → length src ≤ length room
    → strcat (d ++ 0 ∷ room) src ≡ d ++ (src ++ 0 ∷ drop (length src) room)
unfolding strcat
strcat-append d src room p h =
    rw (find_end-append d room p) (strcpy_from-append src d (0 ∷ room) (omega arith))

-- `n` bytes: the characters of the string, cut at `n`, and zeros.
abbrev pub padded : ℕ → List ℕ → List ℕ
padded zero src = []
padded (suc n) [] = 0 ∷ padded n []
padded (suc n) (c ∷ src) = c ∷ padded n src

strncpy_from-append :
    (n : ℕ) (src front room : List ℕ)
    → n ≤ length room
    → strncpy_from n (length front) src (front ++ room) ≡ front ++ (padded n src ++ drop n room)
unfolding strncpy_from
strncpy_from-append zero src front room h = refl
strncpy_from-append (suc n) src front [] h = absurd (omega arith)
strncpy_from-append (suc n) [] front (x ∷ room) h =
    let next : length front + 1 ≡ length (front ++ 0 ∷ []) = sym (length-snoc front 0) in
    rw (set-append front x room 0, next, snoc-append front 0 room)
      (strncpy_from-append n [] (front ++ 0 ∷ []) room (omega arith)
        ∙ append_assoc front (0 ∷ []) (padded n [] ++ drop n room))
strncpy_from-append (suc n) (c ∷ src) front (x ∷ room) h =
    let next : length front + 1 ≡ length (front ++ c ∷ []) = sym (length-snoc front c) in
    rw (set-append front x room c, next, snoc-append front c room)
      (strncpy_from-append n src (front ++ c ∷ []) room (omega arith)
        ∙ append_assoc front (c ∷ []) (padded n src ++ drop n room))

-- In an array of at least `n` bytes, `strncpy` writes the first `n`: the string, cut where it is
-- longer and filled up with zeros where it is shorter. A string of `n` characters or more gets no
-- NUL.
pub strncpy-eq :
    (dest src : List ℕ) (n : ℕ) → n ≤ length dest → strncpy dest src n ≡ padded n src ++ drop n dest
unfolding strncpy
strncpy-eq dest src n h = strncpy_from-append n src [] dest h
