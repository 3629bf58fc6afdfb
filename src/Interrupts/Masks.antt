-- ===== src/Interrupts/Masks.antt =====
-- The masks of the interrupt controllers (source/kernel/core/idt.c).
use waffle_os.Common.{
  ℕ, ◌-◌, ◌/◌, ◌%◌, ◌^◌, ◌<◌, ◌≡◌, refl, Bool, true, false, [], ◌∷◌, ltb, ◌==◌, if◌then◌else◌,
  arith, ◌∙◌, every_under, every_under_lem, Bool-cases, inl, inr,
}
use waffle_os.Interrupts.{Writes, pic1_data, pic2_data, flag_unset, enable_irq}

-- Whether bit `j` of a mask is set: the interrupt is held back.
abbrev pub is_masked : ℕ → ℕ → Bool
is_masked mask j = mask / 2 ^ j % 2 == 1

abbrev same : Bool → Bool → Bool
same true b = b
same false true = false
same false false = true

clears_bit : ℕ → ℕ → ℕ → Bool
clears_bit bit mask j =
    same (is_masked (flag_unset mask (2 ^ bit)) j) (if j == bit then false else is_masked mask j)

clears_all : ℕ → Bool
unfolding clears_bit every_under
clears_all bit = every_under (λ mask. every_under (λ j. clears_bit bit mask j) 8) 256

every_clears_all : every_under clears_all 8 ≡ true
unfolding every_under clears_all
every_clears_all = refl

same-eq : (a b : Bool) → same a b ≡ true → a ≡ b
same-eq true true e = refl
same-eq true false e = cc
same-eq false true e = cc
same-eq false false e = refl

-- The mask after one bit has been cleared.
flag_unset-is_masked :
    (bit mask j : ℕ)
    → bit < 8
    → mask < 256
    → j < 8
    → is_masked (flag_unset mask (2 ^ bit)) j ≡ (if j == bit then false else is_masked mask j)
unfolding clears_bit clears_all
flag_unset-is_masked bit mask j small byte place =
    let a = every_under_lem clears_all 8 bit small every_clears_all in
    let b = every_under_lem (λ m. every_under (λ i. clears_bit bit m i) 8) 256 mask byte a in
    let c = every_under_lem (λ i. clears_bit bit mask i) 8 j place b in
    same-eq (is_masked (flag_unset mask (2 ^ bit)) j) (if j == bit then false else is_masked mask j)
      c

-- The masks after the writes to the data ports of the two controllers.
unfoldable pub apply_writes : Writes → (ℕ → ℕ) → ℕ → ℕ
apply_writes [] masks = masks
apply_writes ((port, value) ∷ rest) masks =
    apply_writes rest (λ p. if p == port then value else masks p)

-- Whether line `j` of the 16 interrupt lines is held back.
abbrev pub line_masked : (ℕ → ℕ) → ℕ → Bool
line_masked masks j =
    if ltb j 8 then is_masked (masks pic1_data) j else is_masked (masks pic2_data) (j - 8)

-- `enable_irq` on one of the 16 lines, the masks that it reads being bytes: after its writes that
-- line is not held back, and each other line is held back just if it was.
enable_irq-line_masked :
    (masks : ℕ → ℕ) (irq j : ℕ)
    → irq < 16
    → j < 16
    → masks pic1_data < 256
    → masks pic2_data < 256
    → line_masked (apply_writes (enable_irq masks irq) masks) j
      ≡ (if j == irq then false else line_masked masks j)
unfolding enable_irq apply_writes
enable_irq-line_masked masks irq j line line' low high = elim (Bool-cases (ltb irq 8)) [
  | inl first ↦ elim (Bool-cases (ltb j 8)) [
    | inl jlow ↦
        rw (first, jlow)
          (flag_unset-is_masked irq (masks pic1_data) j (ground arith) low (ground arith))
    | inr jhigh ↦ let differs : (j == irq) ≡ false = ground arith in rw (first, jhigh, differs) refl
  ]
  | inr second ↦ elim (Bool-cases (ltb j 8)) [
    | inl jlow ↦ let differs : (j == irq) ≡ false = ground arith in rw (second, jlow, differs) refl
    | inr jhigh ↦
        let bits : (j - 8 == (irq - 8)) ≡ (j == irq) = ground arith in
        rw (second, jhigh)
          (flag_unset-is_masked (irq - 8) (masks pic2_data) (j - 8) (ground arith) high
              (ground arith)
            ∙ rw bits refl)
  ]
]
