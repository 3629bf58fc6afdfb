-- ===== src/Common/First.antt =====
-- The first element of a list that passes a test, as a relation between the list and the result of a
-- search.
use mathlib.Core.Path.{◌≡◌}
use mathlib.Core.Bool.{Bool, true, false}
use mathlib.Core.List.{List, [], ◌∷◌, ◌++◌}
use mathlib.Core.Option.{Option, none, some}

-- The first element of a list that passes a test, if one does.
pub data FirstOf {ℓ} {A : Type ℓ} (test : A → Bool) : List A → Option A → Type ℓ where
  nowhere : FirstOf test [] none
  here : {a : A} {l : List A} → test a ≡ true → FirstOf test (a ∷ l) (some a)
  later :
      {a : A} {l : List A} {r : Option A}
      → test a ≡ false
      → FirstOf test l r
      → FirstOf test (a ∷ l) r

module _ {ℓ} {A : Type ℓ} {test : A → Bool} where
  pub FirstOf-some :
      (l l' : List A) {a : A} → FirstOf test l (some a) → FirstOf test (l ++ l') (some a)
  FirstOf-some [] l' f = elim f [ ]
  FirstOf-some (b ∷ l) l' (here e) = here e
  FirstOf-some (b ∷ l) l' (later e f) = later e (FirstOf-some l l' f)

  pub FirstOf-none :
      (l l' : List A) {r : Option A}
      → FirstOf test l none
      → FirstOf test l' r
      → FirstOf test (l ++ l') r
  FirstOf-none [] l' nowhere g = g
  FirstOf-none (b ∷ l) l' (later e f) g = later e (FirstOf-none l l' f g)

  -- What the code's two loops return.
  pub first-next :
      (b : Bool) {a : A} {l : List A} {r : Option A}
      → test a ≡ b
      → FirstOf test l r
      → FirstOf test (a ∷ l) (elim b as (λ _. Option A) [ true ↦ some a | false ↦ r ])
  first-next true e f = here e
  first-next false e f = later e f

  pub first-either :
      (r r' : Option A) {l l' : List A}
      → FirstOf test l r
      → FirstOf test l' r'
      → FirstOf test (l ++ l') (elim r as (λ _. Option A) [ some c ↦ some c | none ↦ r' ])
  first-either none r' {l = l} {l' = l'} f g = FirstOf-none l l' f g
  first-either (some c) r' {l = l} {l' = l'} f g = FirstOf-some l l' f
