-- ===== src/Windows/Stacking.antt =====
-- The order of the windows of source/kernel/libs/ui/window_manager.c.
use waffle_os.Common.{
  ℕ, suc, ◌+◌, ◌-◌, ◌≡◌, refl, true, false, List, [], ◌∷◌, ◌++◌, some, ◌==◌, set, get_or, length,
  arith, ap, sym, ◌∙◌, length-append, append_assoc, ==_refl,
}
use waffle_os.Strings.Scan.{Lacks}
use waffle_os.Strings.Copy.{set-append, length-snoc, snoc-append}
use waffle_os.Windows.{
  Windows, index_of, shift_down, destroy_at, destroy_window, front_from, bring_to_front,
}

-- A table whose windows are `l`, from the back to the front, with `rest` behind them in the array.
abbrev pub table : List ℕ → List ℕ → Windows
table l rest = record { slots = l ++ rest; window_count = length l }

abbrev pub last_of : ℕ → List ℕ → ℕ
last_of x [] = x
last_of x (y ∷ ys) = last_of y ys

get_or-append :
    (front : List ℕ) (x : ℕ) (rest : List ℕ) → get_or (front ++ x ∷ rest) (length front) 0 ≡ x
get_or-append [] x rest = refl
get_or-append (y ∷ front) x rest = get_or-append front x rest

get_or-next :
    (front : List ℕ) (x y : ℕ) (rest : List ℕ)
    → get_or (front ++ x ∷ y ∷ rest) (length front + 1) 0 ≡ y
get_or-next front x y rest =
    rw (snoc-append front x (y ∷ rest), ← (length-snoc front x))
      (get_or-append (front ++ x ∷ []) y rest)

index_of_hit :
    (win rounds i : ℕ) (slots : List ℕ)
    → get_or slots i 0 ≡ win
    → index_of win (suc rounds) i slots ≡ some i
unfolding index_of
index_of_hit win rounds i slots e =
    let hit : (get_or slots i 0 == win) ≡ true = rw e (==_refl win) in rw hit

index_of_miss :
    (win rounds i : ℕ) (slots : List ℕ)
    → (get_or slots i 0 == win) ≡ false
    → index_of win (suc rounds) i slots ≡ index_of win rounds (i + 1) slots
unfolding index_of
index_of_miss win rounds i slots miss = rw miss

index_of-append :
    (win : ℕ) (a b rest front : List ℕ)
    → Lacks win a
    → index_of win (length (a ++ win ∷ b)) (length front) (front ++ ((a ++ win ∷ b) ++ rest))
      ≡ some (length front + length a)
index_of-append win [] b rest front lacks =
    index_of_hit win (length b) (length front) (front ++ win ∷ (b ++ rest))
      (get_or-append front win (b ++ rest))
    ∙ ap some (omega arith)
index_of-append win (x ∷ a) b rest front (miss, lacks) =
    let behind = (a ++ win ∷ b) ++ rest in
    let next = index_of-append win a b rest (front ++ x ∷ []) lacks in
    let next' : index_of win (length (a ++ win ∷ b)) (length front + 1) (front ++ x ∷ behind)
        ≡ some (length front + 1 + length a) =
      rw (snoc-append front x behind, ← (length-snoc front x)) next in
    index_of_miss win (length (a ++ win ∷ b)) (length front) (front ++ x ∷ behind)
      (rw (get_or-append front x behind) miss)
    ∙ (next' ∙ ap some (omega arith))

shift_down_step :
    (rounds i : ℕ) (slots : List ℕ)
    → shift_down (suc rounds) i slots
      ≡ shift_down rounds (i + 1) (set slots i (get_or slots (i + 1) 0))
unfolding shift_down
shift_down_step rounds i slots = refl

shift_down-append :
    (x : ℕ) (mid rest front : List ℕ)
    → shift_down (length mid) (length front) (front ++ x ∷ (mid ++ rest))
      ≡ front ++ (mid ++ last_of x mid ∷ rest)
unfolding shift_down
shift_down-append x [] rest front = refl
shift_down-append x (y ∷ mid) rest front =
    let behind = mid ++ rest in
    let next = shift_down-append y mid rest (front ++ y ∷ []) in
    let moved : set (front ++ x ∷ y ∷ behind) (length front)
          (get_or (front ++ x ∷ y ∷ behind) (length front + 1) 0)
        ≡ front ++ y ∷ y ∷ behind =
      rw (get_or-next front x y behind) (set-append front x (y ∷ behind) y) in
    let next' : shift_down (length mid) (length front + 1) (front ++ y ∷ y ∷ behind)
        ≡ (front ++ y ∷ []) ++ (mid ++ last_of y mid ∷ rest) =
      rw (snoc-append front y (y ∷ behind), ← (length-snoc front y)) next in
    shift_down_step (length mid) (length front) (front ++ x ∷ y ∷ behind)
    ∙ (ap (shift_down (length mid) (length front + 1)) moved
        ∙ (next' ∙ sym (snoc-append front y (mid ++ last_of y mid ∷ rest))))

-- The index, the rounds of the shift, and the array after it.
found_index :
    (win : ℕ) (a b rest : List ℕ)
    → Lacks win a
    → index_of win (length (a ++ win ∷ b)) 0 ((a ++ win ∷ b) ++ rest) ≡ some (length a)
found_index win a b rest lacks = index_of-append win a b rest [] lacks ∙ ap some (omega arith)

shifted :
    (win : ℕ) (a b rest : List ℕ)
    → shift_down (length (a ++ win ∷ b) - 1 - length a) (length a) ((a ++ win ∷ b) ++ rest)
      ≡ (a ++ b) ++ last_of win b ∷ rest
shifted win a b rest =
    let rounds : length (a ++ win ∷ b) - 1 - length a ≡ length b =
      omega (arith, length-append a (win ∷ b)) in
    rw (rounds, append_assoc a (win ∷ b) rest)
      (shift_down-append win b rest a ∙ sym (append_assoc a b (last_of win b ∷ rest)))

one_less : (win : ℕ) (a b : List ℕ) → length (a ++ win ∷ b) - 1 ≡ length (a ++ b)
one_less win a b = omega (arith, length-append a (win ∷ b), length-append a b)

front_from_last :
    (win index : ℕ) (t : Windows)
    → (index == (t.window_count - 1)) ≡ true
    → front_from win (some index) t ≡ t
unfolding front_from
front_from_last win index t e = rw e

front_from_moved :
    (win index : ℕ) (t : Windows)
    → (index == (t.window_count - 1)) ≡ false
    → front_from win (some index) t ≡ record t {
      slots = set (shift_down (t.window_count - 1 - index) index t.slots) (t.window_count - 1) win;
    }
unfolding front_from
front_from_moved win index t e = rw e

bring_to_front_found :
    (win index : ℕ) (t : Windows)
    → (win == 0) ≡ false
    → index_of win t.window_count 0 t.slots ≡ some index
    → bring_to_front win t ≡ front_from win (some index) t
unfolding bring_to_front
bring_to_front_found win index t real found = rw (real, found)

front-slots :
    (win : ℕ) (a b rest : List ℕ)
    → set
        (shift_down (length (a ++ win ∷ b) - 1 - length a) (length a) ((a ++ win ∷ b) ++ rest))
        (length (a ++ win ∷ b) - 1)
        win
      ≡ (a ++ (b ++ win ∷ [])) ++ rest
front-slots win a b rest =
    rw (shifted win a b rest, one_less win a b)
      (set-append (a ++ b) (last_of win b) rest win
        ∙ (snoc-append (a ++ b) win rest ∙ ap (λ t. t ++ rest) (append_assoc a b (win ∷ []))))

-- A window that is in the table for the first time at some place comes to the front: it leaves
-- that place and stands behind all others in the list, which keep their order, as do the slots
-- that are not in use.
bring_to_front-table :
    (win : ℕ) (a b rest : List ℕ)
    → (win == 0) ≡ false
    → Lacks win a
    → bring_to_front win (table (a ++ win ∷ b) rest) ≡ table (a ++ (b ++ win ∷ [])) rest
bring_to_front-table win a [] rest real lacks =
    let t = table (a ++ win ∷ []) rest in
    let at_end : (length a == (length (a ++ win ∷ []) - 1)) ≡ true =
      rw (length-snoc a win) (ground arith) in
    bring_to_front_found win (length a) t real (found_index win a [] rest lacks)
    ∙ front_from_last win (length a) t at_end
bring_to_front-table win a (y ∷ b) rest real lacks =
    let t = table (a ++ win ∷ y ∷ b) rest in
    let length_t = length-append a (win ∷ y ∷ b) in
    let before_end : (length a == (length (a ++ win ∷ y ∷ b) - 1)) ≡ false = ground arith in
    let same_count : length (a ++ win ∷ y ∷ b) ≡ length (a ++ ((y ∷ b) ++ win ∷ [])) = omega (
      arith,
      length-append a (win ∷ y ∷ b),
      length-append a ((y ∷ b) ++ win ∷ []),
      length-snoc (y ∷ b) win,
    ) in
    bring_to_front_found win (length a) t real (found_index win a (y ∷ b) rest lacks)
    ∙ (front_from_moved win (length a) t before_end
        ∙ (λ i. record { slots = front-slots win a (y ∷ b) rest i; window_count = same_count i }))

-- Destroying a window takes it out of the table where it is found first, and the others keep their
-- order. The slot behind the last of them keeps the pointer that was last before.
destroy_window-table :
    (win : ℕ) (a b rest : List ℕ)
    → (win == 0) ≡ false
    → Lacks win a
    → destroy_window win (table (a ++ win ∷ b) rest) ≡ table (a ++ b) (last_of win b ∷ rest)
unfolding destroy_window destroy_at
destroy_window-table win a b rest real lacks =
    rw (real, found_index win a b rest lacks)
      (λ i. record { slots = shifted win a b rest i; window_count = one_less win a b i })
