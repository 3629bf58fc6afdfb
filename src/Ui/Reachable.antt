-- ===== src/Ui/Reachable.antt =====
-- The windows that the operations can reach: `create_window`, `destroy_window`, `bring_to_front`,
-- `move_window` and `resize_window` of libs/ui/window_manager.c, the routines of libs/ui/ui_widget.c
-- and `update_drag` of libs/ui/events.c in any order.
use waffle_os.Common.{ℕ, List, ℤ, arith}
use waffle_os.Windows.{destroy_window, bring_to_front}
use waffle_os.Windows.Slots.{destroy_window-HoldsOf, bring_to_front-HoldsOf}
use waffle_os.Ui.{
  Ui, create_button, create_button_with_data, create_label, create_window, move_window,
  resize_window,
}
use waffle_os.Mouse.{MouseState}
use waffle_os.Ui.Events.{Drag, update_drag}
use waffle_os.Ui.Steps.{
  create_button-Keeps, create_label-Keeps, create_button_with_data-Keeps, move_window-Keeps,
  resize_window-Keeps, update_drag-Keeps,
}
use waffle_os.Memory.Bytes.{Mem8}
use waffle_os.Ui.Canvas.{Canvas, create_canvas, create_window_canvas}
use waffle_os.Ui.Canvas.Keeping.{create_canvas-Keeps, create_window_canvas-Keeps}
use waffle_os.Ui.Opening.{IsUi, Keeps-IsUi, create_window-IsUi}

-- One operation, with whatever arguments it has.
pub data UiStep (default_close terminal_close : ℕ) (ui : Ui) : Ui → Type 0 where
  makes_button :
      (win : ℕ) (x y width height : ℤ) (text : List ℕ) (bg_color text_color callback allocated : ℕ)
      → UiStep default_close terminal_close ui
          (create_button win x y width height text bg_color text_color callback allocated ui).1
  makes_button_with_data :
      (win : ℕ) (x y width height : ℤ) (text : List ℕ)
      (bg_color text_color callback user_data allocated : ℕ)
      → UiStep default_close terminal_close ui
          (create_button_with_data win x y width height text bg_color text_color callback user_data
            allocated ui).1
  makes_label :
      (win : ℕ) (x y width height : ℤ) (text : List ℕ) (text_color allocated : ℕ)
      → UiStep default_close terminal_close ui
          (create_label win x y width height text text_color allocated ui).1
  opens :
      (x y width height : ℤ) (bg_color : ℕ) (title : List ℕ) (allocated button : ℕ)
      → UiStep default_close terminal_close ui
          (create_window default_close terminal_close x y width height bg_color title allocated
            button ui).1
  closes :
      (win : ℕ)
      → UiStep default_close terminal_close ui (record ui { table = destroy_window win ui.table })
  raises :
      (win : ℕ)
      → UiStep default_close terminal_close ui (record ui { table = bring_to_front win ui.table })
  moves : (win : ℕ) (x y : ℤ) → UiStep default_close terminal_close ui (move_window win x y ui)
  resizes :
      (win : ℕ) (width height : ℤ)
      → UiStep default_close terminal_close ui (resize_window win width height ui)
  drags :
      (mouse : MouseState) (d : Drag)
      → UiStep default_close terminal_close ui (update_drag mouse (d, ui)).1
  makes_canvas :
      (win : ℕ) (x y width height : ℤ) (allocated buffer : ℕ) (canvas_at : ℕ → Canvas)
      (bytes : Mem8)
      → UiStep default_close terminal_close ui
          (create_canvas win x y width height allocated buffer
            (record { ui = ui; canvas_at = canvas_at; bytes = bytes })).1.ui
  makes_window_canvas :
      (bytes_per_pixel win : ℕ) (x y width height : ℤ) (allocated buffer : ℕ)
      (canvas_at : ℕ → Canvas) (bytes : Mem8)
      → UiStep default_close terminal_close ui
          (create_window_canvas bytes_per_pixel win x y width height allocated buffer
            (record { ui = ui; canvas_at = canvas_at; bytes = bytes })).1.ui

-- Every operation keeps the windows well formed: at most ten of them, at most ten widgets in each, and
-- no NULL pointer among those in use. This holds for the routines that make widgets
-- and canvases, `create_window`,
-- `destroy_window`, `bring_to_front`, `move_window`, `resize_window` and a frame of dragging, with any
-- arguments, also when there is no room left or `malloc` returns NULL.
pub step-IsUi :
    (default_close terminal_close : ℕ) (ui ui' : Ui)
    → UiStep default_close terminal_close ui ui'
    → IsUi ui
    → IsUi ui'
step-IsUi dc tc ui ui'
      (makes_button win x y width height text bg_color text_color callback allocated) v =
    Keeps-IsUi ui ui'
      (create_button-Keeps win x y width height text bg_color text_color callback allocated ui) v
step-IsUi dc tc ui ui'
      (makes_button_with_data win x y width height text bg_color text_color callback user_data
        allocated)
      v =
    Keeps-IsUi ui ui'
      (create_button_with_data-Keeps win x y width height text bg_color text_color callback
        user_data allocated ui)
      v
step-IsUi dc tc ui ui' (makes_label win x y width height text text_color allocated) v =
    Keeps-IsUi ui ui' (create_label-Keeps win x y width height text text_color allocated ui) v
step-IsUi dc tc ui ui' (opens x y width height bg_color title allocated button) v =
    create_window-IsUi dc tc x y width height bg_color title allocated button ui v
step-IsUi dc tc ui ui' (closes win) v =
    Keeps-IsUi ui ui' (record { windows = λ p w. w; table = destroy_window-HoldsOf win ui.table }) v
step-IsUi dc tc ui ui' (raises win) v =
    Keeps-IsUi ui ui'
      (record {
        windows = λ p w. w;
        table = bring_to_front-HoldsOf win ui.table (omega (arith, v.bounded, v.ten_slots));
      })
      v
step-IsUi dc tc ui ui' (moves win x y) v = Keeps-IsUi ui ui' (move_window-Keeps win x y ui) v
step-IsUi dc tc ui ui' (resizes win width height) v =
    Keeps-IsUi ui ui' (resize_window-Keeps win width height ui) v
step-IsUi dc tc ui ui' (drags mouse d) v = Keeps-IsUi ui ui' (update_drag-Keeps mouse d ui) v
step-IsUi dc tc ui ui' (makes_canvas win x y width height allocated buffer canvas_at bytes) v =
    Keeps-IsUi ui ui'
      (create_canvas-Keeps win x y width height allocated buffer
        (record { ui = ui; canvas_at = canvas_at; bytes = bytes }))
      v
step-IsUi dc tc ui ui'
      (makes_window_canvas bytes_per_pixel win x y width height allocated buffer canvas_at bytes)
      v =
    Keeps-IsUi ui ui'
      (create_window_canvas-Keeps bytes_per_pixel win x y width height allocated buffer
        (record { ui = ui; canvas_at = canvas_at; bytes = bytes }))
      v
