-- ===== src/Windows/Slots.antt =====
-- Which pointers the table of source/kernel/libs/ui/window_manager.c holds after it is changed.
use waffle_os.Common.{
  ℕ, zero, suc, ◌+◌, ◌-◌, ◌≤◌, ◌<◌, ◌≡◌, ◌⊎◌, ◌∙◌, ap, sym, subst, refl, inl, inr, Bool, true,
  false, List, [], ◌∷◌, Option, none, some, ◌==◌, if◌then◌else◌, set, get_or, length, length-set,
  get_or-set_self, arith, Bool-cases, ltb,
}
use waffle_os.Windows.{
  Windows, index_of, shift_down, destroy_at, destroy_window, front_from, bring_to_front,
}

pub set-cases :
    (l : List ℕ) (i v k : ℕ)
    → (get_or (set l i v) k 0 ≡ get_or l k 0) ⊎ ((i ≡ k) × (get_or (set l i v) k 0 ≡ v))
set-cases [] i v k = inl refl
set-cases (x ∷ l) zero v zero = inr (refl, refl)
set-cases (x ∷ l) zero v (suc k) = inl refl
set-cases (x ∷ l) (suc i) v zero = inl refl
set-cases (x ∷ l) (suc i) v (suc k) = elim (set-cases l i v k) [
  | inl e ↦ inl e
  | inr (same, e) ↦ inr (ap suc same, e)
]

length-shift_down : (n i : ℕ) (l : List ℕ) → length (shift_down n i l) ≡ length l
unfolding shift_down
length-shift_down zero i l = refl
length-shift_down (suc n) i l =
    length-shift_down n (i + 1) (set l i (get_or l (i + 1) 0)) ∙ length-set l i (get_or l (i + 1) 0)

-- A slot holds what it held or what the next one held.
shift_down-cases :
    (n i : ℕ) (l : List ℕ) (j : ℕ)
    → (get_or (shift_down n i l) j 0 ≡ get_or l j 0)
      ⊎ ((i ≤ j) × (get_or (shift_down n i l) j 0 ≡ get_or l (j + 1) 0))
unfolding shift_down
shift_down-cases zero i l j = inl refl
shift_down-cases (suc n) i l j =
    let v = get_or l (i + 1) 0 in
    elim (shift_down-cases n (i + 1) (set l i v) j) [
      | inl e ↦ elim (set-cases l i v j) [
        | inl e' ↦ inl (e ∙ e')
        | inr (same, e') ↦ inr (omega arith, e ∙ e' ∙ ap (λ k. get_or l (k + 1) 0) same)
      ]
      | inr (past, e) ↦ elim (set-cases l i v (j + 1)) [
        | inl e' ↦ inr (omega arith, e ∙ e')
        | inr (same, e') ↦ absurd (omega arith)
      ]
    ]

-- Every pointer in use in `t'` is in use in `t`, and the array has the same length.
pub record HoldsOf (t t' : Windows) : Type 0 where
  pub same_length : length t'.slots ≡ length t.slots
  pub no_more : t'.window_count ≤ t.window_count
  pub from :
      (j : ℕ)
      → j < t'.window_count
      → (k : ℕ) × (k < t.window_count) × (get_or t'.slots j 0 ≡ get_or t.slots k 0)

pub HoldsOf-refl : (t : Windows) → HoldsOf t t
HoldsOf-refl t = record {
  same_length = refl;
  no_more = omega arith;
  from = λ j below. (j, below, refl);
}

unless-HoldsOf : (b : Bool) (t t' : Windows) → HoldsOf t t' → HoldsOf t (if b then t else t')
unless-HoldsOf true t t' h = HoldsOf-refl t
unless-HoldsOf false t t' h = h

shifted-from :
    (n i : ℕ) (t : Windows) (j : ℕ)
    → j + 1 < t.window_count
    → (k : ℕ) × (k < t.window_count) × (get_or (shift_down n i t.slots) j 0 ≡ get_or t.slots k 0)
shifted-from n i t j below = elim (shift_down-cases n i t.slots j) [
  | inl e ↦ (j, omega arith, e)
  | inr (_, e) ↦ (j + 1, below, e)
]

destroy_at-HoldsOf : (found : Option ℕ) (t : Windows) → HoldsOf t (destroy_at found t)
unfolding destroy_at
destroy_at-HoldsOf none t = HoldsOf-refl t
destroy_at-HoldsOf (some index) t = record {
  same_length = length-shift_down (t.window_count - 1 - index) index t.slots;
  no_more = omega arith;
  from = λ j below. shifted-from (t.window_count - 1 - index) index t j (omega arith);
}

pub destroy_window-HoldsOf : (win : ℕ) (t : Windows) → HoldsOf t (destroy_window win t)
unfolding destroy_window
destroy_window-HoldsOf win t =
    let found = index_of win t.window_count 0 t.slots in
    unless-HoldsOf (win == 0) t (destroy_at found t) (destroy_at-HoldsOf found t)

-- An index that is found is below the last one looked at, and holds the pointer.
index_of-some :
    (win n i : ℕ) (slots : List ℕ) (k : ℕ)
    → index_of win n i slots ≡ some k
    → (k < i + n) × (get_or slots k 0 ≡ win)
unfolding index_of
index_of-some win zero i slots k e = ground arith
index_of-some win (suc n) i slots k e = elim (Bool-cases (get_or slots i 0 == win)) [
  | inl hit ↦
      let choose : Bool → Option ℕ = λ b. if b then some i else index_of win n (i + 1) slots in
      let e' : some i ≡ some k = ap choose (sym hit) ∙ e in
      let same : i ≡ k = ground arith in
      (omega arith, subst (λ j. get_or slots j 0 ≡ win) same (ground arith))
  | inr miss ↦
      let choose : Bool → Option ℕ = λ b. if b then some i else index_of win n (i + 1) slots in
      let e' : index_of win n (i + 1) slots ≡ some k = ap choose (sym miss) ∙ e in
      let (below, at) = index_of-some win n (i + 1) slots k e' in (omega arith, at)
]

front_from-HoldsOf :
    (win : ℕ) (found : Option ℕ) (t : Windows)
    → t.window_count ≤ length t.slots
    → ((k : ℕ) → found ≡ some k → (k < t.window_count) × (get_or t.slots k 0 ≡ win))
    → HoldsOf t (front_from win found t)
unfolding front_from
front_from-HoldsOf win none t fits it = HoldsOf-refl t
front_from-HoldsOf win (some index) t fits it =
    let (below, at) = it index refl in
    let last = t.window_count - 1 in
    let n = last - index in
    let l = shift_down n index t.slots in
    unless-HoldsOf (index == (t.window_count - 1)) t (record t { slots = set l last win })
      (record {
        same_length = length-set l last win ∙ length-shift_down n index t.slots;
        no_more = omega arith;
        from = λ j below'. elim (set-cases l last win j) [
          | inl e ↦ elim (Bool-cases (ltb (j + 1) t.window_count)) [
            | inl inner ↦
                let (k, below'', e') = shifted-from n index t j (ground arith) in
                (k, below'', e ∙ e')
            | inr at_last ↦
                let same : last ≡ j = ground arith in
                let room = length-shift_down n index t.slots in
                (
                  index,
                  below,
                  subst (λ k. get_or (set l last win) k 0 ≡ win) same
                        (get_or-set_self l last win 0 (omega arith))
                      ∙ sym at,
                )
          ]
          | inr (_, e) ↦ (index, below, e ∙ sym at)
        ];
      })

pub bring_to_front-HoldsOf :
    (win : ℕ) (t : Windows) → t.window_count ≤ length t.slots → HoldsOf t (bring_to_front win t)
unfolding bring_to_front
bring_to_front-HoldsOf win t fits =
    let found = index_of win t.window_count 0 t.slots in
    unless-HoldsOf (win == 0) t (front_from win found t) (
      front_from-HoldsOf win found t fits (λ k e.
        let (below, at) = index_of-some win t.window_count 0 t.slots k e in (omega arith, at)))
