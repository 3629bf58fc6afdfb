-- ===== src/Windows/Tests.antt =====
-- Three windows in a table of five slots.
use waffle_os.Common.{◌≡◌, refl, [], ◌∷◌}
use waffle_os.Windows.{Windows, bring_to_front, destroy_window}

abbrev three_windows : Windows
three_windows = record { slots = 100 ∷ 200 ∷ 300 ∷ 0 ∷ 0 ∷ []; window_count = 3 }

to_front : (bring_to_front 100 three_windows).slots ≡ 200 ∷ 300 ∷ 100 ∷ 0 ∷ 0 ∷ []
unfolding bring_to_front
to_front = refl

destroyed : (destroy_window 200 three_windows).slots ≡ 100 ∷ 300 ∷ 300 ∷ 0 ∷ 0 ∷ []
unfolding destroy_window
destroyed = refl
