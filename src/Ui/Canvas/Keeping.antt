-- ===== src/Ui/Canvas/Keeping.antt =====
-- Making a canvas keeps the windows well formed: `create_canvas` of libs/ui/ui_widget.c and
-- `create_window_canvas` of libs/ui/window_manager.c.
use waffle_os.Common.{ℕ, ◌≡◌, ◌⊎◌, sym, subst, inl, inr, ℤ, arith}
use waffle_os.Ui.{UiWidget, Window, Ui, create_widget, set_widget, set_window}
use waffle_os.Ui.Widgets.{IsWindow}
use waffle_os.Ui.Steps.{Keeps, Keeps-refl, create_widget-Keeps, set_widget-Keeps, set_window-Keeps}
use waffle_os.Ui.Canvas.{new_canvas, Desktop, create_canvas, create_window_canvas}

module _ (win : ℕ) (x y width height : ℤ) (allocated buffer : ℕ) (d : Desktop) where
  abbrev fields : UiWidget
  fields = new_canvas x y width height buffer (d.ui.widget_at allocated)

  create_canvas-cases :
      ((create_canvas win x y width height allocated buffer d).1.ui ≡ d.ui)
      ⊎ (((create_canvas win x y width height allocated buffer d).1.ui
            ≡ set_widget d.ui allocated fields)
          ⊎ ((create_canvas win x y width height allocated buffer d).1.ui
              ≡ (create_widget win fields allocated d.ui).1))
  unfolding create_canvas create_widget
  create_canvas-cases = ground arith

  pub create_canvas-Keeps : Keeps d.ui (create_canvas win x y width height allocated buffer d).1.ui
  create_canvas-Keeps = elim create_canvas-cases [
    | inl same ↦ subst (Keeps d.ui) (sym same) (Keeps-refl d.ui)
    | inr (inl written) ↦
        subst (Keeps d.ui) (sym written)
          (set_widget-Keeps allocated fields d.ui d.ui (Keeps-refl d.ui))
    | inr (inr made) ↦ subst (Keeps d.ui) (sym made) (create_widget-Keeps win fields allocated d.ui)
  ]

  module _ (bytes_per_pixel : ℕ) where
    abbrev with_canvas : Ui
    with_canvas = set_window d.ui win (record (d.ui.window_at win) { canvas = allocated })

    create_window_canvas-cases :
        ((create_window_canvas bytes_per_pixel win x y width height allocated buffer d).1.ui ≡ d.ui)
        ⊎ ((create_window_canvas bytes_per_pixel win x y width height allocated buffer d).1.ui
            ≡ with_canvas)
    unfolding create_window_canvas
    create_window_canvas-cases = ground arith

canvas-IsWindow : (w : Window) (canvas : ℕ) → IsWindow w → IsWindow (record w { canvas = canvas })
canvas-IsWindow w canvas v = record {
  ten_slots = v.ten_slots;
  bounded = v.bounded;
  not_null = λ j below. v.not_null j below;
}

pub create_window_canvas-Keeps :
    (bytes_per_pixel win : ℕ) (x y width height : ℤ) (allocated buffer : ℕ) (d : Desktop)
    → Keeps d.ui (create_window_canvas bytes_per_pixel win x y width height allocated buffer d).1.ui
create_window_canvas-Keeps bytes_per_pixel win x y width height allocated buffer d =
    elim (create_window_canvas-cases win x y width height allocated buffer d bytes_per_pixel) [
      | inl same ↦ subst (Keeps d.ui) (sym same) (Keeps-refl d.ui)
      | inr made ↦ subst (Keeps d.ui) (sym made) (
          set_window-Keeps win (record (d.ui.window_at win) { canvas = allocated }) d.ui
            (canvas-IsWindow (d.ui.window_at win) allocated))
    ]
