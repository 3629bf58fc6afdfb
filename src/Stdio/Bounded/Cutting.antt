-- ===== src/Stdio/Bounded/Cutting.antt =====
-- `snprintf` (source/kernel/core/stdio.c) cuts what it would print to the size.
use waffle_os.Common.{
  ℕ, zero, suc, ◌-◌, ◌≡◌, refl, List, [], ◌∷◌, ◌++◌, Option, none, some, ◌==◌, if◌then◌else◌, ◌>>=◌,
  length, take, take-nil, arith, ap, sym, ◌∙◌, Bool-cases, inl, inr,
}
use waffle_os.Stdio.Format.{Arg}
use waffle_os.Stdio.Bounded.{conversion, snprintf_loop, snprintf}

-- The format with its conversions done, of any length.
unfoldable pub expansion : List ℕ → List Arg → Option (List ℕ)
expansion [] args = some []
expansion (c ∷ []) args = if c == b'%' then none else some (c ∷ [])
expansion (c ∷ d ∷ fmt) args =
    let converted : Option (List ℕ) = do
      (chars, args') ← conversion d args
      rest ← expansion fmt args'
      some (chars ++ rest)
    in let plain : Option (List ℕ) = (do rest ← expansion (d ∷ fmt) args; some (c ∷ rest)) in
      if c == b'%' then converted else plain

expanded_rest : List ℕ → List ℕ × List Arg → Option (List ℕ)
unfolding expansion
expanded_rest fmt (chars, args) = do rest ← expansion fmt args; some (chars ++ rest)

expanded_conversion : ℕ → List ℕ → List Arg → Option (List ℕ)
unfolding expanded_rest
expanded_conversion d fmt args = conversion d args >>= expanded_rest fmt

pub take-append :
    (n : ℕ) (xs ys : List ℕ) → take n (xs ++ ys) ≡ take n xs ++ take (n - length (take n xs)) ys
take-append zero xs ys = refl
take-append (suc n) [] ys = let same : suc n ≡ suc n - 0 = omega arith in ap (λ k. take k ys) same
take-append (suc n) (x ∷ xs) ys =
    let left : suc n - length (take (suc n) (x ∷ xs)) ≡ n - length (take n xs) = omega arith in
    rw left (ap (λ t. x ∷ t) (take-append n xs ys))

>>=-eq-some :
    {A B : Type 0} (m : Option A) (f : A → Option B) {b : B}
    → (m >>= f) ≡ some b
    → (a : A) × (m ≡ some a) × (f a ≡ some b)
>>=-eq-some none f h = cc
>>=-eq-some (some a) f h = (a, refl, h)

some-inj : {A : Type 0} {a b : A} → some a ≡ some b → a ≡ b
some-inj e = cc

snprintf_loop-take :
    (fmt : List ℕ) (room : ℕ) (args : List Arg) (full : List ℕ)
    → expansion fmt args ≡ some full
    → snprintf_loop fmt room args ≡ some (take room full)
unfolding expansion snprintf_loop expanded_rest expanded_conversion
snprintf_loop-take [] zero args full e = refl
snprintf_loop-take [] (suc room) args full e = rw (← (some-inj e))
snprintf_loop-take (c ∷ fmt) zero args full e = refl
snprintf_loop-take (c ∷ []) (suc room) args full e = elim (Bool-cases (c == b'%')) [
  | inl percent ↦ cc (rw percent at e)
  | inr plain ↦
      let same : c ∷ [] ≡ full = some-inj (rw plain at e) in
      rw plain (ap some (rw (← same) (ap (λ t. c ∷ t) (sym (take-nil room)))))
]
snprintf_loop-take (c ∷ d ∷ fmt) (suc room) args full e = elim (Bool-cases (c == b'%')) [
  | inl percent ↦
      let e' : expanded_conversion d fmt args ≡ some full = rw percent at e in
      let ((chars, args'), converts, e1) = >>=-eq-some (conversion d args) (expanded_rest fmt) e' in
      let (more, goes, e2) = >>=-eq-some (expansion fmt args') (λ rest. some (chars ++ rest)) e1 in
      let left = suc room - length (take (suc room) chars) in
      rw (percent, converts, snprintf_loop-take fmt left args' more goes)
        (ap some (sym (take-append (suc room) chars more) ∙ ap (take (suc room)) (some-inj e2)))
  | inr plain ↦
      let e' : (expansion (d ∷ fmt) args >>= λ rest. some (c ∷ rest)) ≡ some full = rw plain at e in
      let (more, goes, e1) = >>=-eq-some (expansion (d ∷ fmt) args) (λ rest. some (c ∷ rest)) e' in
      rw (plain, snprintf_loop-take (d ∷ fmt) room args more goes)
        (ap (λ t. some (take (suc room) t)) (some-inj e1))
]

-- If every conversion of the format has its argument, `snprintf` gives the text with the
-- conversions done, cut to one character less than the size, and nothing for the size 0. Its result
-- is the number of characters that it has written, never the number that it would have written.
pub snprintf-take :
    (size : ℕ) (fmt : List ℕ) (args : List Arg) (full : List ℕ)
    → expansion fmt args ≡ some full
    → snprintf size fmt args ≡ some (take (size - 1) full)
unfolding snprintf
snprintf-take zero fmt args full e = refl
snprintf-take (suc max_size) fmt args full e =
    let same : max_size ≡ suc max_size - 1 = omega arith in
    snprintf_loop-take fmt max_size args full e ∙ ap (λ n. some (take n full)) same
