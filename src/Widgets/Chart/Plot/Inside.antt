-- ===== src/Widgets/Chart/Plot/Inside.antt =====
-- The axis labels and the plot lie in their area.
use chaindash.Base.{
  ltb, ◌==◌, Bool-cases, length, drop, length-drop, All, All-append, Text, values, ℕ, zero, suc,
  ◌+◌, ◌-◌, ◌*◌, ◌^◌, ◌≤◌, ◌<◌, min, ◌≡◌, inl, inr, true, ◌||◌, List, [], ◌∷◌, arith,
}
use chaindash.Widgets.Countries.{Rect}
use chaindash.Widgets.Lines.{Style}
use chaindash.Widgets.Nodes.{clamp}
use chaindash.Widgets.Chart.Marks.{IsWithin, IsInArea}
use chaindash.Widgets.Chart.Plot.{
  PlotFloats, axis_label_width, has_axis, render_left_axis_labels, column_cells, plot_columns,
  plot_from, render_bottom_band_dotted_plot,
}

module _ (width : Text → ℕ) where
  -- What the tests for the axis leave.
  axis_room :
      (area : Rect) (top_label bottom_label : Text)
      → area.width < 2 ^ 16
      → has_axis width area top_label bottom_label ≡ true
      → (axis_label_width width top_label bottom_label + 5 ≤ area.width)
        × (0 < axis_label_width width top_label bottom_label)
        × (0 < area.height)
  axis_room area top_label bottom_label w h = ground arith

  pub axis-IsInArea :
      (area : Rect) (top_label bottom_label : Text) (style : Style)
      → area.width < 2 ^ 16
      → All
          (IsInArea width area)
          (render_left_axis_labels width area top_label bottom_label style).0
        × IsWithin area (render_left_axis_labels width area top_label bottom_label style).1
  unfolding render_left_axis_labels
  axis-IsInArea area top_label bottom_label style w =
      elim (Bool-cases (has_axis width area top_label bottom_label)) [
        | inl labels ↦ elim (Bool-cases (ltb 1 area.height)) [
          | inl two ↦
              rw (labels, two)
                (
                  (
                    ground (arith, axis_room area top_label bottom_label w labels),
                    (ground (arith, axis_room area top_label bottom_label w labels), tt),
                  ),
                  ground (arith, axis_room area top_label bottom_label w labels),
                )
          | inr one ↦
              rw (labels, one)
                (
                  (ground (arith, axis_room area top_label bottom_label w labels), tt),
                  ground (arith, axis_room area top_label bottom_label w labels),
                )
        ]
        | inr plain ↦ rw plain (tt, omega arith)
      ]

  cells-IsInArea :
      (area : Rect) (x filled_units : ℕ) (fill_style crest_style : Style) (rounds cell_offset : ℕ)
      → area.x ≤ x
      → x < area.x + area.width
      → rounds + cell_offset ≤ area.height
      → All
          (IsInArea width area)
          (column_cells area x filled_units fill_style crest_style rounds cell_offset)
  unfolding column_cells
  cells-IsInArea area x filled_units fill_style crest_style zero cell_offset h k l = tt
  cells-IsInArea area x filled_units fill_style crest_style (suc rounds) cell_offset h k l =
      let rest =
        cells-IsInArea area x filled_units fill_style crest_style rounds (cell_offset + 1) h k
          (omega arith) in
      elim (Bool-cases (ltb 0 (min (filled_units - min (cell_offset * 4) 65535) 4))) [
        | inl filled ↦ rw filled (omega arith, rest)
        | inr blank ↦ rw blank rest
      ]

  module _ {F : Type 0} (ops : PlotFloats F) where
    columns-IsInArea :
        (area : Rect) (y_max : F) (band_rows : ℕ) (fill_style crest_style : Style) (x : ℕ)
        (prev : F) (values : List F)
        → area.x ≤ x
        → x + length values ≤ area.x + area.width
        → band_rows ≤ area.height
        → All
            (IsInArea width area)
            (plot_columns ops area y_max band_rows fill_style crest_style x prev values)
    unfolding plot_columns
    columns-IsInArea area y_max band_rows fill_style crest_style x prev [] h k l = tt
    columns-IsInArea area y_max band_rows fill_style crest_style x prev (value ∷ values) h k l =
        All-append (IsInArea width area) _ _
          (cells-IsInArea area x _ fill_style crest_style band_rows 0 h (omega arith) (omega arith))
          (columns-IsInArea area y_max band_rows fill_style crest_style (x + 1) value values
            (omega arith) (omega arith) l)

    from-IsInArea :
        (area : Rect) (y_max : F) (band_rows : ℕ) (fill_style crest_style : Style) (x : ℕ)
        (values : List F)
        → area.x ≤ x
        → x + length values ≤ area.x + area.width
        → band_rows ≤ area.height
        → All
            (IsInArea width area)
            (plot_from ops area y_max band_rows fill_style crest_style x values)
    from-IsInArea area y_max band_rows fill_style crest_style x [] h k l = tt
    from-IsInArea area y_max band_rows fill_style crest_style x (value ∷ values) h k l =
        columns-IsInArea area y_max band_rows fill_style crest_style x value (value ∷ values) h k l

    pub plot-IsInArea :
        (area : Rect) (values : List F) (y_max : F) (band_rows : ℕ) (fill_style crest_style : Style)
        → All
            (IsInArea width area)
            (render_bottom_band_dotted_plot ops area values y_max band_rows fill_style crest_style)
    unfolding render_bottom_band_dotted_plot
    plot-IsInArea area values y_max band_rows fill_style crest_style =
        let visible_count = min area.width (length values) in
        let nothing =
          area.width == 0 || area.height == 0 || length values == 0 || ops.at_most_zero y_max in
        elim (Bool-cases nothing) [
          | inl blank ↦ rw blank tt
          | inr shown ↦ rw shown (
              from-IsInArea area y_max (clamp band_rows 1 area.height) fill_style crest_style
                (area.x + (area.width - visible_count))
                (drop (length values - visible_count) values) (omega arith)
                (omega (arith, length-drop {0} (length values - visible_count) values))
                (ground arith))
        ]
