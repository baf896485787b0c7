-- ===== src/Widgets/Chart/Boxes.antt =====
-- `render_right_aligned_labeled_box` of src/widgets/chart.rs.
pub mod Apart
pub mod Inside
use chaindash.Base.{
  ltb, ◌==◌, if◌then◌else◌, length, Text, codes, bytes, ℕ, ◌+◌, ◌-◌, ◌%◌, ◌^◌, min, max, Bool, true,
  false, ◌||◌, Option, none, some, List, [], ◌∷◌, ◌++◌,
}
use chaindash.Widgets.Countries.{Rect}
use chaindash.Widgets.Lines.{Style, Span}
use chaindash.Widgets.Chart.Marks.{Mark, fill, text, dot, row_of, segments_width, put_segments}

pub record LabeledBoxRow : Type 0 where
  pub label : Text
  pub label_style : Style
  pub value : List Span

pub record LabeledBoxOptions : Type 0 where
  pub start_y_offset : ℕ
  pub title : Text
  pub title_style : Style
  pub frame_style : Style
  pub background_style : Style
  pub column_gap : ℕ
  pub right_inset : ℕ

-- `iter().map(f).max().unwrap_or(0)`
unfoldable pub max_of {ℓ} : {A : Type ℓ} → (A → ℕ) → List A → ℕ
max_of f [] = 0
max_of f (x ∷ xs) = max (f x) (max_of f xs)

-- A line of the frame: both ends, and what is between them.
unfoldable pub frame_line : ℕ → ℕ → ℕ → Text → Text → Style → List Mark
frame_line box_x y total_width left right style =
    dot box_x y left style
    ∷ dot (box_x + total_width - 1) y right style
    ∷ fill (row_of (box_x + 1) y (total_width - 2)) (codes "─") style
    ∷ []

module _ (width : Text → ℕ) (options : LabeledBoxOptions) where
  unfoldable pub label_columns : List LabeledBoxRow → ℕ
  unfolding max_of
  label_columns rows = max_of (λ row. width row.label) rows

  unfoldable pub value_columns : List LabeledBoxRow → ℕ
  unfolding max_of segments_width
  value_columns rows = max_of (λ row. segments_width width row.value) rows

  unfoldable pub box_content_width : List LabeledBoxRow → ℕ
  unfolding label_columns value_columns
  box_content_width rows =
      max (label_columns rows + options.column_gap + value_columns rows) (width options.title + 2)

  -- Where the value of a row starts: it ends at the right of the content.
  unfoldable pub value_x : ℕ → ℕ → LabeledBoxRow → ℕ
  unfolding segments_width
  value_x content_x content_width row =
      content_x + (content_width - min (segments_width width row.value) content_width)

  -- The loop over the rows, the first of them below the title.
  unfoldable pub box_rows : ℕ → ℕ → ℕ → ℕ → ℕ → List LabeledBoxRow → List Mark
  unfolding value_x put_segments
  box_rows box_x content_width label_width total_width y [] = []
  box_rows box_x content_width label_width total_width y (row ∷ rows) =
      (dot box_x y (codes "│") options.frame_style
        ∷ dot (box_x + total_width - 1) y (codes "│") options.frame_style
        ∷ text (box_x + 1) y row.label label_width row.label_style
        ∷ put_segments width (value_x (box_x + 1) content_width row) y row.value)
      ++ box_rows box_x content_width label_width total_width (y + 1) rows

  abbrev pub title_text : Text
  title_text = codes " " ++ (options.title ++ codes " ")

  -- The box, once it is known to fit.
  unfoldable pub box_marks : Rect → ℕ → ℕ → List LabeledBoxRow → List Mark
  unfolding frame_line box_rows label_columns
  box_marks area content_width total_rows rows =
      let total_width = content_width + 2 in
      let box_x = area.x + (area.width - min (total_width + options.right_inset) 65535) in
      let top_y = area.y + options.start_y_offset in
      let bottom_y = top_y + total_rows - 1 in
      let title_x = box_x + 1 + (if ltb (width title_text) content_width then 1 else 0) in
      fill (record { x = box_x; y = top_y; width = total_width; height = total_rows }) (codes " ")
          options.background_style
        ∷ frame_line box_x top_y total_width (codes "╭") (codes "╮") options.frame_style
      ++ (text title_x top_y title_text (length (bytes title_text)) options.title_style
            ∷ box_rows box_x content_width (label_columns rows) total_width (top_y + 1) rows
          ++ frame_line box_x bottom_y total_width (codes "╰") (codes "╯") options.frame_style)

  abbrev pub no_rows : List LabeledBoxRow → Bool
  no_rows [] = true
  no_rows (row ∷ rows) = false

  -- The writes, or `none` for the answer that there is no room. A cast to `u16` is taken modulo
  -- 2 ^ 16.
  unfoldable pub render_labeled_box : Rect → List LabeledBoxRow → Option (List Mark)
  unfolding box_marks box_content_width
  render_labeled_box area rows =
      let content_width = box_content_width rows in
      let total_rows = (length rows + 2) % 2 ^ 16 in
      if area.width - 2 == 0 || no_rows rows
      then none
      else if content_width == 0 || ltb (area.width - 2 - 2) content_width
      then none
      else if total_rows == 0 || ltb (area.height - (options.start_y_offset + 1)) total_rows
      then none
      else some (box_marks area content_width total_rows rows)
