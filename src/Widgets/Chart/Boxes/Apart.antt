-- ===== src/Widgets/Chart/Boxes/Apart.antt =====
-- Each row of a box is written with its label and its value, and the label ends before the value.
use chaindash.Base.{
  All, Has, Text, codes, ℕ, ◌+◌, ◌-◌, ◌≤◌, min, refl, inl, inr, List, [], ◌∷◌, ◌++◌, arith,
}
use chaindash.Widgets.Countries.{Rect}
use chaindash.Widgets.Chart.Marks.{Mark, text, put_segments}
use chaindash.Widgets.Chart.Boxes.{
  LabeledBoxRow, LabeledBoxOptions, max_of, frame_line, label_columns, value_columns, value_x,
  box_rows, box_marks,
}

Has-left : {A : Type 0} (x : A) (xs ys : List A) → Has x xs → Has x (xs ++ ys)
Has-left x [] ys h = absurd h
Has-left x (z ∷ xs) ys (inl e) = inl e
Has-left x (z ∷ xs) ys (inr h) = inr (Has-left x xs ys h)

Has-right : {A : Type 0} (x : A) (xs ys : List A) → Has x ys → Has x (xs ++ ys)
Has-right x [] ys h = h
Has-right x (z ∷ xs) ys h = inr (Has-right x xs ys h)

-- A list that is part of another one.
All-Has : {A : Type 0} (xs ys : List A) → ((x : A) → Has x xs → Has x ys) → All (λ x. Has x ys) xs
All-Has [] ys h = tt
All-Has (x ∷ xs) ys h = (h x (inl refl), All-Has xs ys (λ z k. h z (inr k)))

module _ (width : Text → ℕ) (options : LabeledBoxOptions) where
  -- In row `y` the label is written uncut, from column `x` on, and every segment of the value from
  -- column `v` on, which is `column_gap` columns or more behind the room of the label.
  abbrev pub IsWritten : List Mark → ℕ → LabeledBoxRow → Type 0
  IsWritten marks y row =
      (x : ℕ) × (room : ℕ) × (v : ℕ) × Has (text x y row.label room row.label_style) marks
      × All (λ m. Has m marks) (put_segments width v y row.value)
      × (width row.label ≤ room)
      × (x + room + options.column_gap ≤ v)

  -- The rows, each below the one before it.
  abbrev pub AreWritten : List Mark → ℕ → List LabeledBoxRow → Type 0
  AreWritten marks y [] = Unit
  AreWritten marks y (row ∷ rows) = IsWritten marks y row × AreWritten marks (y + 1) rows

  rows-AreWritten :
      (marks : List Mark) (box_x content_width label_width total_width y : ℕ)
      (rows : List LabeledBoxRow)
      → ((m : Mark)
          → Has m (box_rows width options box_x content_width label_width total_width y rows)
          → Has m marks)
      → label_columns width options rows ≤ label_width
      → label_width + options.column_gap + value_columns width options rows ≤ content_width
      → AreWritten marks y rows
  unfolding box_rows value_x label_columns value_columns max_of
  rows-AreWritten marks box_x content_width label_width total_width y [] part h k = tt
  rows-AreWritten marks box_x content_width label_width total_width y (row ∷ rows) part h k =
      let v : ℕ = value_x width options (box_x + 1) content_width row in
      let values : List Mark = put_segments width v y row.value in
      let rest : List Mark =
        box_rows width options box_x content_width label_width total_width (y + 1) rows in
      (
        (
          box_x + 1,
          label_width,
          v,
          part _ (inr (inr (inl refl))),
          All-Has values marks (λ m i. part m (inr (inr (inr (Has-left m values rest i))))),
          omega arith,
          omega arith,
        ),
        rows-AreWritten marks box_x content_width label_width total_width (y + 1) rows
            (λ m i. part m (inr (inr (inr (Has-right m values rest i))))) (omega arith)
            (omega arith),
      )

  pub box_marks-AreWritten :
      (area : Rect) (content_width total_rows : ℕ) (rows : List LabeledBoxRow)
      → label_columns width options rows + options.column_gap + value_columns width options rows
        ≤ content_width
      → AreWritten
          (box_marks width options area content_width total_rows rows)
          (area.y + options.start_y_offset + 1)
          rows
  unfolding box_marks frame_line
  box_marks-AreWritten area content_width total_rows rows h =
      let total_width = content_width + 2 in
      let box_x = area.x + (area.width - min (total_width + options.right_inset) 65535) in
      let lines : List Mark =
        box_rows width options box_x content_width (label_columns width options rows) total_width
          (area.y + options.start_y_offset + 1) rows in
      let bottom : List Mark =
        frame_line box_x (area.y + options.start_y_offset + total_rows - 1) total_width (codes "╰")
          (codes "╯") options.frame_style in
      rows-AreWritten (box_marks width options area content_width total_rows rows) box_x
        content_width (label_columns width options rows) total_width
        (area.y + options.start_y_offset + 1) rows
        (λ m i. inr (inr (inr (inr (inr (Has-left m lines bottom i)))))) (omega arith) h
