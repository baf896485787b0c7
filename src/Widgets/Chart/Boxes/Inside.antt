-- ===== src/Widgets/Chart/Boxes/Inside.antt =====
-- A box that is drawn lies in its area, and no label runs into its value.
use chaindash.Base.{
  ltb, if◌then◌else◌, length, All, All-append, Text, codes, bytes, ℕ, ◌+◌, ◌-◌, ◌%◌, ◌^◌, ◌≤◌, ◌<◌,
  min, ◌≡◌, refl, some, List, [], ◌∷◌, ◌++◌, arith,
}
use chaindash.Widgets.Countries.{Rect}
use chaindash.Widgets.Lines.{Style}
use chaindash.Widgets.Chart.Marks.{Mark, IsInArea, segments_width, put_segments-IsInArea}
use chaindash.Widgets.Chart.Boxes.Apart.{AreWritten, box_marks-AreWritten}
use chaindash.Widgets.Chart.Boxes.{
  text, LabeledBoxRow, LabeledBoxOptions, max_of, frame_line, label_columns, value_columns,
  box_content_width, value_x, box_rows, title_text, box_marks, render_labeled_box,
}

max_of-bounds {ℓ} :
    {A : Type ℓ} (f : A → ℕ) (n : ℕ) (xs : List A) → max_of f xs ≤ n → All (λ x. f x ≤ n) xs
unfolding max_of
max_of-bounds f n [] h = tt
max_of-bounds f n (x ∷ xs) h = (omega arith, max_of-bounds f n xs (omega arith))

-- What makes up a box that fits.
record IsPlaced (area : Rect) (box_x content_width total_width y rows : ℕ) : Type 0 where
  left : area.x ≤ box_x
  right : box_x + total_width ≤ area.x + area.width
  total : total_width ≡ content_width + 2
  above : area.y ≤ y
  below : y + rows ≤ area.y + area.height

module _ (width : Text → ℕ) (options : LabeledBoxOptions) where
  frame-IsInArea :
      (area : Rect) (box_x content_width total_width y : ℕ) (left right : Text) (style : Style)
      → IsPlaced area box_x content_width total_width y 1
      → All (IsInArea width area) (frame_line box_x y total_width left right style)
  unfolding frame_line
  frame-IsInArea area box_x content_width total_width y left right style h = omega arith

  rows-IsInArea :
      (area : Rect) (box_x content_width label_width total_width y : ℕ) (rows : List LabeledBoxRow)
      → IsPlaced area box_x content_width total_width y (length rows)
      → label_width ≤ content_width
      → All (λ row. segments_width width row.value ≤ content_width) rows
      → All
          (IsInArea width area)
          (box_rows width options box_x content_width label_width total_width y rows)
  unfolding box_rows value_x
  rows-IsInArea area box_x content_width label_width total_width y [] h k l = tt
  rows-IsInArea area box_x content_width label_width total_width y (row ∷ rows) h k l =
      let rest =
        rows-IsInArea area box_x content_width label_width total_width (y + 1) rows
          (record {
            left = h.left;
            right = h.right;
            total = h.total;
            above = omega arith;
            below = omega arith;
          })
          k l.1 in
      let value =
        put_segments-IsInArea width area
          (box_x + 1 + (content_width - min (segments_width width row.value) content_width)) y
          row.value (omega (arith, l.0)) in
      (omega arith, (omega arith, (omega arith, All-append (IsInArea width area) _ _ value rest)))

  -- What the tests of `render_labeled_box` leave.
  fits :
      (area : Rect) (rows : List LabeledBoxRow) (marks : List Mark)
      → length rows + 2 < 2 ^ 16
      → render_labeled_box width options area rows ≡ some marks
      → (marks
          ≡ box_marks width options area
              (box_content_width width options rows)
              (length rows + 2)
              rows)
        × (box_content_width width options rows ≤ area.width - 4)
        × (length rows + 2 ≤ area.height - (options.start_y_offset + 1))
        × (0 < box_content_width width options rows)
  unfolding render_labeled_box
  fits area rows marks h e =
      let size : (length rows + 2) % 2 ^ 16 ≡ length rows + 2 = omega arith in ground (arith, size)

  box-IsInArea :
      (area : Rect) (content_width : ℕ) (rows : List LabeledBoxRow)
      → width (title_text width options) ≡ width options.title + 2
      → area.width < 2 ^ 16
      → box_content_width width options rows ≡ content_width
      → content_width ≤ area.width - 4
      → length rows + 2 ≤ area.height - (options.start_y_offset + 1)
      → 0 < content_width
      → All
          (IsInArea width area)
          (box_marks width options area content_width (length rows + 2) rows)
  unfolding box_marks box_content_width label_columns value_columns
  box-IsInArea area content_width rows pads w e h k pos_width =
      let total_width = content_width + 2 in
      let box_x = area.x + (area.width - min (total_width + options.right_inset) 65535) in
      let top_y = area.y + options.start_y_offset in
      let place : (y n : ℕ)
          → top_y ≤ y
          → y + n ≤ top_y + (length rows + 2)
          → IsPlaced area box_x content_width total_width y n =
        λ y n a b. record {
          left = omega arith;
          right = omega arith;
          total = refl;
          above = omega arith;
          below = omega arith;
        } in
      let frame = λ (y : ℕ) (l r : Text) (p : IsPlaced area box_x content_width total_width y 1).
        frame-IsInArea area box_x content_width total_width y l r options.frame_style p in
      let lines =
        rows-IsInArea area box_x content_width (label_columns width options rows) total_width
          (top_y + 1) rows (place (top_y + 1) (length rows) (omega arith) (omega arith))
          (omega arith)
          (max_of-bounds (λ row. segments_width width row.value) content_width rows
            (omega arith)) in
      let bottom_y = top_y + (length rows + 2) - 1 in
      let title_x =
        box_x + 1 + (if ltb (width (title_text width options)) content_width then 1 else 0) in
      let drawn =
        box_rows width options box_x content_width (label_columns width options rows) total_width
          (top_y + 1) rows
        ++ frame_line box_x bottom_y total_width (codes "╰") (codes "╯") options.frame_style in
      let below : All (IsInArea width area) (
          text title_x top_y (title_text width options) (length (bytes (title_text width options)))
            options.title_style
          ∷ drawn) =
        (
          ground (arith, pads),
          All-append (IsInArea width area) _ _ lines (
              frame bottom_y (codes "╰") (codes "╯")
                (place bottom_y 1 (omega arith) (omega arith))),
        ) in
      (omega arith, (omega arith, (omega arith, (omega arith, below))))

  -- A box that is drawn writes into its area only. From the row below its title on, each row has its
  -- label, written in full, and each segment of its value, from a column on that is at least
  -- `column_gap` columns behind the label: no label runs into its value.
  pub render_labeled_box-IsInArea :
      (area : Rect) (rows : List LabeledBoxRow) (marks : List Mark)
      → width (title_text width options) ≡ width options.title + 2
      → area.width < 2 ^ 16
      → length rows + 2 < 2 ^ 16
      → render_labeled_box width options area rows ≡ some marks
      → All (IsInArea width area) marks
        × AreWritten width options marks (area.y + options.start_y_offset + 1) rows
  unfolding box_content_width
  render_labeled_box-IsInArea area rows marks pads w n e =
      let (is_box, narrow, low, positive) = fits area rows marks n e in
      rw is_box (
        box-IsInArea area _ rows pads w refl narrow low positive,
        box_marks-AreWritten width options area (box_content_width width options rows)
            (length rows + 2) rows (omega arith),
      )
