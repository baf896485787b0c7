-- ===== src/Widgets/Chart/Figures.antt =====
-- The figures beside a plot: `standard_metric_rows` and `limit_standard_metric_rows` of
-- src/widgets/chart.rs.
use chaindash.Base.{
  ltb, leb, ◌==◌, if◌then◌else◌, length, take, Text, codes, values, ℕ, Option, none, some, List, [],
  ◌∷◌, ◌++◌,
}
use chaindash.Widgets.Lines.{Style, Span, styled}
use chaindash.Widgets.Nodes.{clamp}
use chaindash.Widgets.Chart.Boxes.{LabeledBoxRow}
use chaindash.Widgets.Chart.Grid.{SegmentGridRow}

-- The styles that the palette of a chart gives.
pub record StandardMetricPalette : Type 0 where
  pub trend_style : Text → Style
  pub current_box_style : Style
  pub current_fallback_style : Style
  pub top_box_style : Style
  pub top_fallback_style : Style
  pub avg_style : Style
  pub block_style : Style
  pub label_style : Style

pub record StandardMetricValues : Type 0 where
  pub trend : Text
  pub current_box_value : Text
  pub current_fallback_value : Text
  pub top_box_value : Text
  pub top_fallback : Text
  pub avg_trend : Text
  pub avg_box_value : Text
  pub avg_fallback_value : Text
  pub block_box_value : Text
  pub block_fallback : Text

abbrev pub narrow_chart_width : ℕ
narrow_chart_width = 40

abbrev pub ultra_narrow_chart_width : ℕ
ultra_narrow_chart_width = 32

unfoldable pub info_labels : ℕ → Text × Text × Text × Text
info_labels area_width =
    if ltb area_width ultra_narrow_chart_width
    then (codes "C", codes "M", codes "A", codes "B")
    else (codes "CUR", codes "MAX", codes "AVG", codes "BLK")

abbrev pub labeled_info_row : StandardMetricPalette → Text → List Span → LabeledBoxRow
labeled_info_row palette label value = record {
  label = label;
  label_style = palette.label_style;
  value = value;
}

-- The rows of the box, and those of the grid.
unfoldable pub standard_metric_rows :
    Text × Text × Text × Text
    → StandardMetricValues
    → StandardMetricPalette
    → List LabeledBoxRow × List SegmentGridRow
standard_metric_rows (cur_label, max_label, avg_label, blk_label) values palette = (
  labeled_info_row palette (codes "now:") (
        styled values.trend (palette.trend_style values.trend)
        ∷ styled values.current_box_value palette.current_box_style
        ∷ [])
      ∷ labeled_info_row palette (codes "top:")
          (styled values.top_box_value palette.top_box_style ∷ [])
      ∷ labeled_info_row palette (codes "avg:") (
          styled values.avg_trend (palette.trend_style values.avg_trend)
          ∷ styled values.avg_box_value palette.avg_style
          ∷ [])
      ∷ labeled_info_row palette (codes "blk:")
          (styled values.block_box_value palette.block_style ∷ [])
      ∷ [],
  ((styled (cur_label ++ codes " ") palette.current_fallback_style
          ∷ styled values.trend (palette.trend_style values.trend)
          ∷ styled values.current_fallback_value palette.current_fallback_style
          ∷ [])
        ∷ (styled values.top_fallback palette.top_fallback_style ∷ [])
        ∷ [])
      ∷ ((styled (avg_label ++ codes " ") palette.avg_style
            ∷ styled values.avg_trend (palette.trend_style values.avg_trend)
            ∷ styled values.avg_fallback_value palette.avg_style
            ∷ [])
          ∷ (styled values.block_fallback palette.block_style ∷ [])
          ∷ [])
      ∷ [],
)

-- The first figure of the grid, the first two, the first three; `none` where the source indexes a row
-- or a cell that is not there.
abbrev pub one_cell : List SegmentGridRow → Option (List SegmentGridRow)
one_cell ((a ∷ cells) ∷ rows) = some ((a ∷ []) ∷ [])
one_cell rows = none

abbrev pub two_cells : List SegmentGridRow → Option (List SegmentGridRow)
two_cells ((a ∷ b ∷ cells) ∷ rows) = some ((a ∷ b ∷ []) ∷ [])
two_cells rows = none

abbrev pub three_cells : List SegmentGridRow → Option (List SegmentGridRow)
three_cells ((a ∷ b ∷ cells) ∷ (c ∷ others) ∷ rows) = some ((a ∷ b ∷ []) ∷ (c ∷ []) ∷ [])
three_cells rows = none

abbrev pub limit_grid : ℕ → List SegmentGridRow → Option (List SegmentGridRow)
limit_grid max_metrics rows =
    if max_metrics == 1
    then one_cell rows
    else if max_metrics == 2
    then two_cells rows
    else if max_metrics == 3
    then three_cells rows
    else some rows

-- `box_rows[0]`, `[1]` and `[2]`, where they are there.
abbrev pub limit_rows : ℕ → List LabeledBoxRow → Option (List LabeledBoxRow)
limit_rows max_metrics rows =
    if leb 4 max_metrics
    then some rows
    else if leb max_metrics (length rows)
    then some (take max_metrics rows)
    else none

abbrev pub both {ℓ κ} : {A : Type ℓ} {B : Type κ} → Option A → Option B → Option (A × B)
both none b = none
both (some a) none = none
both (some a) (some b) = some (a, b)

-- `none` stands for a panic.
unfoldable pub limit_standard_metric_rows :
    List LabeledBoxRow → List SegmentGridRow → ℕ → Option (List LabeledBoxRow × List SegmentGridRow)
limit_standard_metric_rows box_rows fallback_rows max_metrics =
    both (limit_rows (clamp max_metrics 1 4) box_rows)
      (limit_grid (clamp max_metrics 1 4) fallback_rows)
