-- ===== src/Windows.antt =====
-- The window table of source/kernel/libs/ui/window_manager.c: the array of pointers `windows`, the
-- first `window_count` of which are in use, the last of them being the one in front. A pointer is a
-- number, and 0 is NULL.
pub mod Stacking
pub mod Slots
mod Tests
use waffle_os.Common.{
  ℕ, zero, suc, ◌+◌, ◌-◌, Bool, true, false, List, [], ◌∷◌, Option, none, some, ◌==◌, leb,
  if◌then◌else◌, set, get_or,
}

pub record Windows : Type 0 where
  pub slots : List ℕ
  pub window_count : ℕ

-- `MAX_WINDOWS`
abbrev pub max_windows : ℕ
max_windows = 10

-- What `create_window` does to the table; `allocated` is the result of `malloc`.
unfoldable pub add_window : ℕ → Windows → ℕ × Windows
add_window allocated t =
    if leb max_windows t.window_count then (0, t) else if allocated == 0 then (0, t) else (
      allocated,
      record t { slots = set t.slots t.window_count allocated; window_count = t.window_count + 1 },
    )

-- The first index below `i + rounds` and from `i` on at which the pointer stands.
unfoldable pub index_of : ℕ → ℕ → ℕ → List ℕ → Option ℕ
index_of win zero i slots = none
index_of win (suc rounds) i slots =
    let rest = index_of win rounds (i + 1) slots in if get_or slots i 0 == win then some i else rest

-- `windows[i] = windows[i + 1];` from `i` on.
unfoldable pub shift_down : ℕ → ℕ → List ℕ → List ℕ
shift_down zero i slots = slots
shift_down (suc rounds) i slots = shift_down rounds (i + 1) (set slots i (get_or slots (i + 1) 0))

-- From `if (index == -1)` on.
unfoldable pub destroy_at : Option ℕ → Windows → Windows
unfolding shift_down
destroy_at none t = t
destroy_at (some index) t = record {
  slots = shift_down (t.window_count - 1 - index) index t.slots;
  window_count = t.window_count - 1;
}

-- What `destroy_window` does to the table.
unfoldable pub destroy_window : ℕ → Windows → Windows
unfolding index_of destroy_at
destroy_window win t = if win == 0 then t else destroy_at (index_of win t.window_count 0 t.slots) t

unfoldable pub front_from : ℕ → Option ℕ → Windows → Windows
unfolding shift_down
front_from win none t = t
front_from win (some index) t = if index == t.window_count - 1 then t else record t {
  slots = set (shift_down (t.window_count - 1 - index) index t.slots) (t.window_count - 1) win;
}

unfoldable pub bring_to_front : ℕ → Windows → Windows
unfolding index_of front_from
bring_to_front win t =
    if win == 0 then t else front_from win (index_of win t.window_count 0 t.slots) t
