-- ===== src/Terminal/Scrolling.antt =====
-- Which lines of the wrapped text source/kernel/libs/apps/terminal.c shows.
use waffle_os.Common.{
  ℕ, suc, ◌+◌, ◌-◌, ◌≤◌, ◌<◌, ◌≡◌, ◌∙◌, refl, ap, Bool, true, false, List, [], ◌∷◌, ltb, ◌==◌,
  if◌then◌else◌, drop, min, arith, Bool-cases, inl, inr,
}
use native.Mathlib.Nat.{zero-add}
use waffle_os.Terminal.{count_lines, skip_lines, update_visible_offset}

abbrev skip_rest : ℕ → ℕ → ℕ → List ℕ → Bool → Bool → ℕ
skip_rest target count i text newline reached = elim newline [
  | true ↦ elim reached [ true ↦ i + 1 | false ↦ skip_lines target (count + 1) (i + 1) text ]
  | false ↦ skip_lines target count (i + 1) text
]

skip_lines-cons :
    (target count i c : ℕ) (text : List ℕ)
    → skip_lines target count i (c ∷ text)
      ≡ skip_rest target count i text (c == 10) (count + 1 == target)
unfolding skip_lines
skip_lines-cons target count i c text = refl

abbrev more_lines : Bool → ℕ → ℕ
more_lines newline n = if newline then suc n else n

count_lines-cons :
    (c : ℕ) (text : List ℕ) → count_lines (c ∷ text) ≡ more_lines (c == 10) (count_lines text)
unfolding count_lines
count_lines-cons c text = refl

next : (i k : ℕ) → i + 1 + k ≡ i + suc k
next i k = omega arith

-- The offset is behind the newline that ends the last line to skip.
abbrev Skipped : ℕ → ℕ → ℕ → List ℕ → ℕ → Type 0
Skipped target count i text offset =
    (k : ℕ) × (offset ≡ i + k) × (count_lines (drop k text) + target ≡ count + count_lines text)

skip_lines-Skipped :
    (target count i : ℕ) (text : List ℕ)
    → count < target
    → target ≤ count + count_lines text
    → Skipped target count i text (skip_lines target count i text)
unfolding count_lines
skip_lines-Skipped target count i [] behind enough = absurd (omega arith)
skip_lines-Skipped target count i (c ∷ text) behind enough =
    let step = skip_lines-cons target count i c text in
    let lines = count_lines-cons c text in
    elim (Bool-cases (c == 10)) [
      | inl newline ↦
          let one_more = lines ∙ ap (λ b. more_lines b (count_lines text)) newline in
          let step' =
            step ∙ ap (λ b. skip_rest target count i text b (count + 1 == target)) newline in
          elim (Bool-cases (count + 1 == target)) [
            | inl reached ↦
                let same : count + 1 ≡ target = ground arith in
                (1, step' ∙ ap (skip_rest target count i text true) reached, omega arith)
            | inr before ↦
                let behind' : count + 1 < target = ground arith in
                let (k, at, left) =
                  skip_lines-Skipped target (count + 1) (i + 1) text behind' (omega arith) in
                (
                  suc k,
                  step' ∙ ap (skip_rest target count i text true) before ∙ at ∙ next i k,
                  omega arith,
                )
          ]
      | inr inside ↦
          let as_many = lines ∙ ap (λ b. more_lines b (count_lines text)) inside in
          let step' =
            step ∙ ap (λ b. skip_rest target count i text b (count + 1 == target)) inside in
          let (k, at, left) = skip_lines-Skipped target count (i + 1) text behind (omega arith) in
          (suc k, step' ∙ at ∙ next i k, omega arith)
    ]

skip_lines-zero : (count i : ℕ) (text : List ℕ) → skip_lines 0 count i text ≡ 0
unfolding skip_lines
skip_lines-zero count i [] = refl
skip_lines-zero count i (c ∷ text) =
    let never : (count + 1 == 0) ≡ false = ground arith in
    ap (skip_rest 0 count i text (c == 10)) never
    ∙ elim (c == 10) as (λ b. skip_rest 0 count i text b false ≡ 0) [
      | true ↦ skip_lines-zero (count + 1) (i + 1) text
      | false ↦ skip_lines-zero count (i + 1) text
    ]

scrolled :
    (wrapped : List ℕ) (max_lines : ℕ)
    → max_lines ≤ count_lines wrapped
    → count_lines (drop (skip_lines (count_lines wrapped - max_lines) 0 0 wrapped) wrapped)
      ≡ min (count_lines wrapped) max_lines
scrolled wrapped max_lines many =
    let total = count_lines wrapped in
    elim (Bool-cases (ltb max_lines total)) [
      | inl more ↦
          let (k, at, left) =
            skip_lines-Skipped (total - max_lines) 0 0 wrapped (ground arith) (omega arith) in
          let at' : skip_lines (total - max_lines) 0 0 wrapped ≡ k = at ∙ zero-add k in
          ap (λ o. count_lines (drop o wrapped)) at' ∙ omega arith
      | inr level ↦
          let none_to_skip : total - max_lines ≡ 0 = ground arith in
          ap (λ n. count_lines (drop (skip_lines n 0 0 wrapped) wrapped)) none_to_skip
          ∙ ap (λ o. count_lines (drop o wrapped)) (skip_lines-zero 0 0 wrapped)
          ∙ omega arith
    ]

-- The text that the terminal shows, from its offset on, has as many newlines as the whole text, but at
-- most `max_lines`: of a text with at least `max_lines` newlines it shows `max_lines` whole lines and the
-- one behind them.
pub update_visible_offset-count_lines :
    (wrapped : List ℕ) (max_lines : ℕ)
    → count_lines (drop (update_visible_offset wrapped max_lines) wrapped)
      ≡ min (count_lines wrapped) max_lines
unfolding update_visible_offset
update_visible_offset-count_lines wrapped max_lines =
    let total = count_lines wrapped in
    let shown : ℕ → ℕ = λ offset. count_lines (drop offset wrapped) in
    let choose : Bool → ℕ = λ b. if b then 0 else skip_lines (total - max_lines) 0 0 wrapped in
    elim (Bool-cases (ltb total max_lines)) [
      | inl short ↦
          let few : total < max_lines = ground arith in
          ap (λ b. shown (choose b)) short ∙ omega arith
      | inr long ↦
          let many : max_lines ≤ total = ground arith in
          ap (λ b. shown (choose b)) long ∙ scrolled wrapped max_lines many
    ]
