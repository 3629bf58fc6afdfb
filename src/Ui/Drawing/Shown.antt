-- ===== src/Ui/Drawing/Shown.antt =====
-- What the canvas of a widget shows: `draw_widget` of libs/ui/ui_widget.c over the pixels that
-- `canvas_clear` and `canvas_draw_pixel` have written, in the mode of one byte per pixel.
use waffle_os.Common.{
  ℕ, ◌+◌, ◌-◌, ◌*◌, ◌%◌, ◌^◌, ◌≤◌, ◌<◌, ◌≡◌, ◌≢◌, ◌⊎◌, inl, inr, sym, ap, subst, ◌∙◌, false, ◌||◌,
  ◌==◌, if◌then◌else◌, ℤ, pos_part, neg_part, ◌+ℤ◌, arith,
}
use native.Mathlib.Nat.{mul-le-mul_right, suc-mul}
use waffle_os.Memory.Bytes.{Mem8, write, write_word}
use waffle_os.Graphics.{GraphicsContext, ctx_put_pixel}
use waffle_os.Graphics.Bounds.{RowsFit, put_pixel-Spares}
use waffle_os.Ui.{UiWidgetType, ui_button, ui_label, ui_canvas, UiWidget}
use waffle_os.Ui.Canvas.{Desktop, read_word, store_word}
use waffle_os.Ui.Drawing.{put_rows, widget_color, draw_widget_at, draw_widget}
use waffle_os.Ui.Drawing.Copied.{pixel, Unmoved, rows_on, rows_off}

pub store_word-apart : (a v b : ℕ) (m : Mem8) → (b < a) ⊎ (a + 4 ≤ b) → store_word a v m b ≡ m b
unfolding store_word write_word write
store_word-apart a v b m apart = ground arith

pub store_word-low : (a v : ℕ) (m : Mem8) → read_word a (store_word a v m) % 2 ^ 8 ≡ v % 2 ^ 8
unfolding store_word write_word write
store_word-low a v m = ground arith

pub same_word :
    (a : ℕ) (m m' : Mem8)
    → ((i : ℕ) → i < 4 → m (a + i) ≡ m' (a + i))
    → read_word a m ≡ read_word a m'
same_word a m m' same =
    let b0 = same 0 (omega arith) in
    let b1 = same 1 (omega arith) in
    let b2 = same 2 (omega arith) in
    let b3 = same 3 (omega arith) in
    let z : a + 0 ≡ a = omega arith in let b0' = ap m (sym z) ∙ b0 ∙ ap m' z in omega arith

-- Where along one axis a pixel lies: off a span of n pixels from x on, or in it.
spot :
    (x : ℤ) (n p : ℕ)
    → ((p + neg_part x < pos_part x) ⊎ (pos_part x + n ≤ p + neg_part x))
      ⊎ ((i : ℕ) × (i < n) × (pos_part x + i ≡ p + neg_part x))
spot x n p = elim (between x n p) [
  | inl off ↦ inl off
  | inr (low, high) ↦ inr (p + neg_part x - pos_part x, omega arith, omega arith)
]
  where
    between :
        (x : ℤ) (n p : ℕ)
        → ((p + neg_part x < pos_part x) ⊎ (pos_part x + n ≤ p + neg_part x))
          ⊎ ((pos_part x ≤ p + neg_part x) × (p + neg_part x < pos_part x + n))
    between x n p = omega arith

-- A canvas that a widget of a window holds, whose pixels lie apart from those of the screen.
pub record IsShown (ctx : GraphicsContext) (d : Desktop) (canvas win : ℕ) : Type 0 where
  pub some_canvas : canvas ≢ 0
  pub some_window : win ≢ 0
  pub type : (d.ui.widget_at canvas).type ≡ ui_canvas
  pub some_buffer : (d.ui.widget_at canvas).canvas_buffer ≢ 0
  pub apart :
      ((d.ui.widget_at canvas).canvas_buffer
          + 4 * (pos_part (d.ui.widget_at canvas).height * pos_part (d.ui.widget_at canvas).width)
        ≤ ctx.buffer)
      ⊎ (ctx.buffer + ctx.height * ctx.pitch ≤ (d.ui.widget_at canvas).canvas_buffer)

by_type {ℓ} :
    {A : Type ℓ} (button label canvas : A) (t : UiWidgetType)
    → t ≡ ui_canvas
    → elim t as (λ _. A) [ ui_button ↦ button | ui_label ↦ label | ui_canvas ↦ canvas ] ≡ canvas
by_type {A = A} button label canvas t e =
    ap (λ t. elim t as (λ _. A) [ ui_button ↦ button | ui_label ↦ label | ui_canvas ↦ canvas ]) e

pub cell-below :
    (width height i j : ℕ) → i < width → j < height → j * width + i + 1 ≤ height * width
cell-below width height i j in_row in_rows =
    let rows = mul-le-mul_right width in_rows in let next = suc-mul j width in omega arith

module _ (ctx : GraphicsContext) (one : ctx.bytes_per_pixel ≡ 1) (fit : RowsFit ctx) (px py : ℕ)
    (on_x : px < ctx.width) (on_y : py < ctx.height) where
  -- The colours of words apart from the screen are not moved by drawing.
  word-Unmoved :
      (base k cells : ℕ)
      → k + 1 ≤ cells
      → (base + 4 * cells ≤ ctx.buffer) ⊎ (ctx.buffer + ctx.height * ctx.pitch ≤ base)
      → Unmoved ctx one fit px py on_x on_y (widget_color ctx base) k
  word-Unmoved base k cells below apart x y c m =
      same_word (base + 4 * k) (ctx_put_pixel ctx x y c m) m
        (λ i small. put_pixel-Spares ctx c (base + 4 * k + i) fit (grind arith) x y m)

  -- The pixel is no cell of the widget's canvas, or it is one.
  abbrev pub Hit : UiWidget → ℤ → ℤ → ℕ → ℕ → Type 0
  Hit w x y i j =
      (i < pos_part w.width)
      × (j < pos_part w.height)
      × (pos_part x + i ≡ px + neg_part x)
      × (pos_part y + j ≡ py + neg_part y)

  abbrev pub Missed : UiWidget → ℤ → ℤ → Type 0
  Missed w x y =
      ((px + neg_part x < pos_part x) ⊎ (pos_part x + pos_part w.width ≤ px + neg_part x))
      ⊎ ((py + neg_part y < pos_part y) ⊎ (pos_part y + pos_part w.height ≤ py + neg_part y))

  pub spot_cell : (w : UiWidget) (x y : ℤ) → Missed w x y ⊎ ((i : ℕ) × (j : ℕ) × Hit w x y i j)
  spot_cell w x y = elim (spot x (pos_part w.width) px) [
    | inl off ↦ inl (inl off)
    | inr (i, in_row, at_x) ↦ elim (spot y (pos_part w.height) py) [
      | inl off ↦ inl (inr off)
      | inr (j, in_rows, at_y) ↦ inr (i, j, (in_row, in_rows, at_x, at_y))
    ]
  ]

  module _ (font font8 : ℕ → ℕ → ℕ) (d : Desktop) (canvas win : ℕ)
      (h : IsShown ctx d canvas win) where
    abbrev pub corner_x : ℤ
    corner_x = (d.ui.window_at win).x +ℤ (d.ui.widget_at canvas).x

    abbrev pub corner_y : ℤ
    corner_y = (d.ui.window_at win).y +ℤ (d.ui.widget_at canvas).y

    abbrev copied : Mem8 → Mem8
    copied m =
        let w : UiWidget = d.ui.widget_at canvas in
        put_rows ctx (widget_color ctx w.canvas_buffer) (pos_part w.height) (pos_part w.width) 0
          corner_x corner_y m

    draw_widget-copied : (m : Mem8) → draw_widget ctx font font8 d canvas win m ≡ copied m
    unfolding draw_widget draw_widget_at
    draw_widget-copied m =
        let w : UiWidget = d.ui.widget_at canvas in
        let guard : (canvas == 0 || win == 0) ≡ false =
          ground (arith, h.some_canvas, h.some_window) in
        let buffer : (w.canvas_buffer == 0) ≡ false = ground (arith, h.some_buffer) in
        ap (λ b. if b then m else draw_widget_at ctx font font8 w corner_x corner_y m) guard
        ∙ by_type _ _ _ w.type h.type
        ∙ ap (λ b. if b then m else copied m) buffer

    pub hit_lem :
        (i j : ℕ) (m : Mem8)
        → Hit (d.ui.widget_at canvas) corner_x corner_y i j
        → draw_widget ctx font font8 d canvas win m (pixel ctx px py)
          ≡ widget_color ctx
              (d.ui.widget_at canvas).canvas_buffer
              (j * pos_part (d.ui.widget_at canvas).width + i)
              m
            % 2 ^ 8
    hit_lem i j m (in_row, in_rows, at_x, at_y) =
        let w : UiWidget = d.ui.widget_at canvas in
        let cell : ℕ = j * pos_part w.width + i in
        let same : 0 + cell ≡ cell = omega arith in
        let below = cell-below (pos_part w.width) (pos_part w.height) i j in_row in_rows in
        let still =
          word-Unmoved w.canvas_buffer cell (pos_part w.height * pos_part w.width) below h.apart in
        let color : ℕ → Mem8 → ℕ = widget_color ctx w.canvas_buffer in
        ap (λ f. f (pixel ctx px py)) (draw_widget-copied m)
        ∙ rows_on ctx one fit px py on_x on_y color (pos_part w.height) (pos_part w.width) 0 i j
            corner_x corner_y m in_row in_rows at_x at_y
            (subst (Unmoved ctx one fit px py on_x on_y color) (sym same) still)
        ∙ ap (λ k. color k m % 2 ^ 8) same

    pub missed_lem :
        (m : Mem8)
        → Missed (d.ui.widget_at canvas) corner_x corner_y
        → draw_widget ctx font font8 d canvas win m (pixel ctx px py) ≡ m (pixel ctx px py)
    missed_lem m off =
        let w : UiWidget = d.ui.widget_at canvas in
        ap (λ f. f (pixel ctx px py)) (draw_widget-copied m)
        ∙ rows_off ctx one fit px py on_x on_y (widget_color ctx w.canvas_buffer)
            (pos_part w.height) (pos_part w.width) 0 corner_x corner_y m off
