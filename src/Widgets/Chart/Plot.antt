-- ===== src/Widgets/Chart/Plot.antt =====
-- The axis labels and the plot of src/widgets/chart.rs: `render_left_axis_labels` and
-- `render_bottom_band_dotted_plot`. `F` stands for `f64`.
pub mod Inside
use chaindash.Base.{
  ltb, leb, ◌==◌, if◌then◌else◌, not, length, drop, Text, codes, values, is_positive, ℕ, zero, suc,
  ◌+◌, ◌-◌, ◌*◌, ◌/◌, ◌%◌, ◌^◌, min, max, Bool, ◌&&◌, ◌||◌, List, [], ◌∷◌, ◌++◌,
}
use chaindash.Widgets.Countries.{Rect}
use chaindash.Widgets.Lines.{Style}
use chaindash.Widgets.Nodes.{clamp}
use chaindash.Widgets.Chart.Marks.{Mark, text, dot}

-- What the plot uses of `f64`.
pub record PlotFloats (F : Type 0) : Type 0 where
  pub is_positive : F → Bool
  -- `a <= 0.0`, which is false of NaN, as is `a > 0.0`
  pub at_most_zero : F → Bool
  -- `((prev + value * 2.0 + next) / 4.0).max(0.0).min(y_max)`
  pub smoothed : F → F → F → F → F
  -- `((smoothed / y_max).clamp(0.0, 1.0) * f64::from(band_units)).round() as u16`
  pub units : F → F → ℕ → ℕ

unfoldable pub lower_band_rows : ℕ → ℕ
lower_band_rows area_height = max (min (area_height * 3) 65535 / 4) 2

unfoldable pub lighter_band_rows : ℕ → ℕ
lighter_band_rows area_height = max (min (area_height * 2) 65535 / 3) 2

module _ (width : Text → ℕ) where
  -- The labels' columns, as a `u16`.
  abbrev pub axis_label_width : Text → Text → ℕ
  axis_label_width top_label bottom_label = max (width top_label) (width bottom_label) % 2 ^ 16

  abbrev pub has_axis : Rect → Text → Text → Bool
  has_axis area top_label bottom_label =
      let label_width = axis_label_width top_label bottom_label in
      not (area.width == 0 || area.height == 0)
      && not (label_width == 0 || ltb (area.width - min (label_width + 1) 65535) 4)

  -- A label that ends at the right of the label columns.
  abbrev pub axis_label : Rect → ℕ → ℕ → Text → Style → Mark
  axis_label area columns y label style =
      text (area.x + (columns - width label) % 2 ^ 16) y label columns style

  -- The marks, and the area that is left for the plot.
  unfoldable pub render_left_axis_labels : Rect → Text → Text → Style → List Mark × Rect
  render_left_axis_labels area top_label bottom_label style =
      let gutter_width = min (axis_label_width top_label bottom_label + 1) 65535 in
      let columns = gutter_width - 1 in
      if has_axis area top_label bottom_label
      then (
        axis_label area columns area.y top_label style
            ∷ (if ltb 1 area.height
                then axis_label area columns (area.y + area.height - 1) bottom_label style ∷ []
                else []),
        record area { x = area.x + gutter_width; width = area.width - gutter_width },
      )
      else ([], area)

unfoldable pub braille_fill_symbol : ℕ → Text
braille_fill_symbol zero = codes " "
braille_fill_symbol (suc zero) = codes "⣀"
braille_fill_symbol (suc (suc zero)) = codes "⣤"
braille_fill_symbol (suc (suc (suc zero))) = codes "⣶"
braille_fill_symbol (suc (suc (suc (suc n)))) = codes "⣿"

-- The loop over the cells of a column, from an offset on, `rounds` of them.
unfoldable pub column_cells : Rect → ℕ → ℕ → Style → Style → ℕ → ℕ → List Mark
unfolding braille_fill_symbol
column_cells area x filled_units fill_style crest_style zero cell_offset = []
column_cells area x filled_units fill_style crest_style (suc rounds) cell_offset =
    let cell_start = min (cell_offset * 4) 65535 in
    let filled_rows = min (filled_units - cell_start) 4 in
    let is_crest = ltb cell_start filled_units && leb filled_units (cell_start + 4) in
    let rest = column_cells area x filled_units fill_style crest_style rounds (cell_offset + 1) in
    if ltb 0 filled_rows
    then dot x (area.y + area.height - 1 - cell_offset) (braille_fill_symbol filled_rows)
        (if is_crest then crest_style else fill_style)
      ∷ rest
    else rest

module _ {F : Type 0} (ops : PlotFloats F) where
  abbrev pub next_value : F → List F → F
  next_value value [] = value
  next_value value (next ∷ values) = next

  -- At least one unit for a value above 0.
  unfoldable pub filled_units : F → F → ℕ → ℕ
  filled_units smoothed_value y_max band_units =
      let filled = ops.units smoothed_value y_max band_units in
      if ops.is_positive smoothed_value && filled == 0 then 1 else filled

  -- The columns from left to right, with the value before each.
  unfoldable pub plot_columns : Rect → F → ℕ → Style → Style → ℕ → F → List F → List Mark
  unfolding column_cells filled_units
  plot_columns area y_max band_rows fill_style crest_style x prev [] = []
  plot_columns area y_max band_rows fill_style crest_style x prev (value ∷ values) =
      let smoothed_value = ops.smoothed prev value (next_value value values) y_max in
      column_cells area x (filled_units smoothed_value y_max (min (band_rows * 4) 65535)) fill_style
        crest_style band_rows 0
      ++ plot_columns area y_max band_rows fill_style crest_style (x + 1) value values

  abbrev pub plot_from : Rect → F → ℕ → Style → Style → ℕ → List F → List Mark
  plot_from area y_max band_rows fill_style crest_style x [] = []
  plot_from area y_max band_rows fill_style crest_style x (value ∷ values) =
      plot_columns area y_max band_rows fill_style crest_style x value (value ∷ values)

  -- The last values, one for each column, at the right of the area.
  unfoldable pub render_bottom_band_dotted_plot : Rect → List F → F → ℕ → Style → Style → List Mark
  unfolding plot_columns
  render_bottom_band_dotted_plot area values y_max band_rows fill_style crest_style =
      let visible_count = min area.width (length values) in
      let start_x = area.x + (area.width - visible_count) in
      if area.width == 0 || area.height == 0 || length values == 0 || ops.at_most_zero y_max
      then []
      else plot_from area y_max (clamp band_rows 1 area.height) fill_style crest_style start_x
          (drop (length values - visible_count) values)
