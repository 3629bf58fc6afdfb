-- ===== src/Graphics/Spans.antt =====
-- Spans of pixels along one axis: what a loop over a span does when its rounds outside the screen do
-- nothing, and the clipping of `draw_rect`.
use waffle_os.Common.{
  ℕ, zero, suc, ◌+◌, ◌-◌, ◌≤◌, ◌≡◌, ◌⊎◌, inl, inr, refl, sym, ap, ◌∙◌, leb, if◌then◌else◌, ℤ, pos,
  negsuc, pos_part, neg_part, ◌+ℤ◌, ◌-ℤ◌, ◌≤ℤ◌, int_laws, arith,
}
use native.Mathlib.Nat.{zero-add, suc-add}
use waffle_os.Graphics.{clip}

abbrev pub clip_start : ℕ → ℤ → ℤ → ℕ
clip_start size x len = let (x', len') = clip size x len in pos_part x'

abbrev pub clip_length : ℕ → ℤ → ℤ → ℕ
clip_length size x len = let (x', len') = clip size x len in pos_part len'

pub clip-fits :
    (size : ℕ) (x len : ℤ)
    → (clip_length size x len ≡ 0) ⊎ (clip_start size x len + clip_length size x len ≤ size)
unfolding clip ◌+ℤ◌ ◌-ℤ◌
clip-fits size x len = ground arith

clip_before : (size : ℕ) (x len : ℤ) → ℕ
clip_before size x len = if leb (pos_part len) (neg_part x) then pos_part len else neg_part x

clip-cover : (size : ℕ) (x len : ℤ) → clip_before size x len + clip_length size x len ≤ pos_part len
unfolding clip_before clip ◌+ℤ◌ ◌-ℤ◌
clip-cover size x len = ground arith

clip_before-left : (size : ℕ) (x len : ℤ) → clip_before size x len ≤ neg_part x
unfolding clip_before
clip_before-left size x len = ground arith

-- The rest of the span is past the end of the screen, and what is left of it starts on the screen.
clip-after :
    (size : ℕ) (x len : ℤ)
    → (clip_before size x len + clip_length size x len ≡ pos_part len)
      ⊎ (pos size ≤ℤ x +ℤ pos (clip_before size x len + clip_length size x len))
unfolding clip_before clip ◌+ℤ◌ ◌-ℤ◌
clip-after size x len = ground arith

clip-start :
    (size : ℕ) (x len : ℤ)
    → (clip_length size x len ≡ 0)
      ⊎ (x +ℤ pos (clip_before size x len) ≡ pos (clip_start size x len))
unfolding clip_before clip ◌+ℤ◌ ◌-ℤ◌
clip-start size x len = ground arith

next : (i : ℕ) → pos i +ℤ pos 1 ≡ pos (i + 1)
unfolding ◌+ℤ◌
next i = ground arith

plus_zero : (x : ℤ) → x +ℤ pos 0 ≡ x
plus_zero x = grind int_laws

further : (x : ℤ) (p : ℕ) → x +ℤ pos 1 +ℤ pos p ≡ x +ℤ pos (suc p)
further x p = grind int_laws

module _ {ℓ} {A : Type ℓ} (f : ℤ → A → A) where
  -- `f` at n numbers from x on.
  unfoldable pub rounds : ℕ → ℤ → A → A
  rounds zero x a = a
  rounds (suc n) x a = rounds n (x +ℤ pos 1) (f x a)

  unfoldable pub rounds_on : ℕ → ℕ → A → A
  rounds_on zero i a = a
  rounds_on (suc n) i a = rounds_on n (i + 1) (f (pos i) a)

  rounds-on : (n i : ℕ) (a : A) → rounds n (pos i) a ≡ rounds_on n i a
  unfolding rounds rounds_on
  rounds-on zero i a = refl
  rounds-on (suc n) i a =
      ap (λ z. rounds n z (f (pos i) a)) (next i) ∙ rounds-on n (i + 1) (f (pos i) a)

  rounds-+ : (p q : ℕ) (x : ℤ) (a : A) → rounds (p + q) x a ≡ rounds q (x +ℤ pos p) (rounds p x a)
  unfolding rounds
  rounds-+ zero q x a =
      ap (λ k. rounds k x a) (zero-add q) ∙ ap (λ z. rounds q z a) (sym (plus_zero x))
  rounds-+ (suc p) q x a =
      ap (λ k. rounds k x a) (suc-add p q)
      ∙ rounds-+ p q (x +ℤ pos 1) (f x a)
      ∙ ap (λ z. rounds q z (rounds p (x +ℤ pos 1) (f x a))) (further x p)

  module _ (size : ℕ) (off : (x : ℤ) (a : A) → (x ≤ℤ negsuc 0) ⊎ (pos size ≤ℤ x) → f x a ≡ a) where
    rounds-before : (n : ℕ) (x : ℤ) (a : A) → n ≤ neg_part x → rounds n x a ≡ a
    unfolding rounds
    rounds-before zero x a left_of = refl
    rounds-before (suc n) x a left_of =
        rounds-before n (x +ℤ pos 1) (f x a) (grind int_laws) ∙ off x a (inl (grind int_laws))

    rounds-after : (n : ℕ) (x : ℤ) (a : A) → pos size ≤ℤ x → rounds n x a ≡ a
    unfolding rounds
    rounds-after zero x a right_of = refl
    rounds-after (suc n) x a right_of =
        rounds-after n (x +ℤ pos 1) (f x a) (grind int_laws) ∙ off x a (inr right_of)

    rounds-parts :
        (p q r i : ℕ) (x : ℤ) (a : A)
        → p ≤ neg_part x
        → (r ≡ 0) ⊎ (pos size ≤ℤ x +ℤ pos p +ℤ pos q)
        → (q ≡ 0) ⊎ (x +ℤ pos p ≡ pos i)
        → rounds (p + (q + r)) x a ≡ rounds_on q i a
    unfolding rounds rounds_on
    rounds-parts p q r i x a left_of right_of start =
        rounds-+ p (q + r) x a
        ∙ ap (rounds (q + r) (x +ℤ pos p)) (rounds-before p x a left_of)
        ∙ rounds-+ q r (x +ℤ pos p) a
        ∙ elim right_of [
          | inl none_left ↦
              ap (λ k. rounds k (x +ℤ pos p +ℤ pos q) (rounds q (x +ℤ pos p) a)) none_left
          | inr far ↦ rounds-after r (x +ℤ pos p +ℤ pos q) (rounds q (x +ℤ pos p) a) far
        ]
        ∙ elim start [
          | inl empty ↦
              ap (λ k. rounds k (x +ℤ pos p) a) empty ∙ ap (λ k. rounds_on k i a) (sym empty)
          | inr first ↦ ap (λ z. rounds q z a) first ∙ rounds-on q i a
        ]

    -- So only the part of the span on the screen is drawn.
    pub rounds-clip :
        (x len : ℤ) (a : A)
        → rounds (pos_part len) x a ≡ rounds_on (clip_length size x len) (clip_start size x len) a
    rounds-clip x len a =
        let p = clip_before size x len in
        let q = clip_length size x len in
        let r = pos_part len - (p + q) in
        let all = clip-cover size x len in
        let sum : pos_part len ≡ p + (q + r) = omega arith in
        ap (λ k. rounds k x a) sum
        ∙ rounds-parts p q r (clip_start size x len) x a (clip_before-left size x len)
            (elim (clip-after size x len) [
              | inl full ↦ inl (omega arith)
              | inr far ↦ inr (grind int_laws)
            ])
            (clip-start size x len)
