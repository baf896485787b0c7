-- ===== src/Widgets/Chart/Blocks/Inside.antt =====
-- Both charts are drawn without a panic, each inside its area.
use chaindash.Base.{
  length, map, All, Text, codes, ℕ, zero, suc, ◌+◌, ◌-◌, ◌^◌, ◌≤◌, ◌<◌, ◌≡◌, refl, sym, ◌⊎◌, inl,
  inr, Option, none, some, List, ◌++◌, arith,
}
use chaindash.App.{TxsWidget, TimeWidget}
use chaindash.Widgets.Countries.{Rect}
use chaindash.Widgets.Lines.{Panels}
use chaindash.Widgets.Nodes.{clamp}
use mathlib.Core.Path.{subst}
use chaindash.Widgets.Chart.Plot.{lighter_band_rows}
use chaindash.Widgets.Chart.Marks.{Mark, IsWithin, IsInArea}
use chaindash.Widgets.Chart.Boxes.{LabeledBoxRow}
use chaindash.Widgets.Chart.Grid.{SegmentGridRow}
use chaindash.Widgets.Chart.Panel.Inside.{render_metric_panel-IsInArea}
use chaindash.Widgets.Chart.Figures.{
  StandardMetricPalette, StandardMetricValues, info_labels, standard_metric_rows,
  limit_standard_metric_rows,
}
use chaindash.Widgets.Chart.Trends.{average_recent_nonzero_rounded, recent_window_trend_symbol}
use chaindash.Widgets.Chart.Trends.Sums.{IsBounded, average-some, trend-some}
use chaindash.Widgets.Chart.Blocks.{
  ChartFloats, ChartStyles, with_averages, panel_for, draw_limited, render_chart, render_txs,
  render_time,
}

clamp-cases :
    (n : ℕ) → (clamp n 1 4 ≡ 1) ⊎ ((clamp n 1 4 ≡ 2) ⊎ ((clamp n 1 4 ≡ 3) ⊎ (clamp n 1 4 ≡ 4)))
clamp-cases zero = inl refl
clamp-cases (suc zero) = inl refl
clamp-cases (suc (suc zero)) = inr (inl refl)
clamp-cases (suc (suc (suc zero))) = inr (inr (inl refl))
clamp-cases (suc (suc (suc (suc n)))) = inr (inr (inr (ground arith)))

-- The rows of a chart are four and its grid is two by two, so that no index is out of range; at most
-- four rows remain.
limit-standard :
    (labels : Text × Text × Text × Text) (figures : StandardMetricValues)
    (palette : StandardMetricPalette) (n : ℕ)
    → (rows : List LabeledBoxRow) × (grid : List SegmentGridRow) × (limit_standard_metric_rows
          (standard_metric_rows labels figures palette).0
          (standard_metric_rows labels figures palette).1
          n
        ≡ some (rows, grid))
      × (length rows ≤ 4)
unfolding limit_standard_metric_rows standard_metric_rows
limit-standard labels figures palette n = elim (clamp-cases n) [
  | inl one ↦ rw (one, limit_standard_metric_rows) (_, _, refl, omega arith)
  | inr (inl two) ↦ rw (two, limit_standard_metric_rows) (_, _, refl, omega arith)
  | inr (inr (inl three)) ↦ rw (three, limit_standard_metric_rows) (_, _, refl, omega arith)
  | inr (inr (inr four)) ↦ rw (four, limit_standard_metric_rows) (_, _, refl, omega arith)
]

module _ {F : Type 0} (ops : ChartFloats F) (width : Text → ℕ) (p : Panels)
    (styles : ChartStyles) where
  -- The chart is drawn, and each write is in the area.
  abbrev pub IsDrawnIn : Rect → Option (List Mark) → Type 0
  IsDrawnIn area none = ⊥
  IsDrawnIn area (some marks) = All (IsInArea width area) marks

  chart-IsDrawnIn :
      (area : Rect) (series : List F) (outer_title box_title : Text) (y_max : F) (top_label : Text)
      (band_rows : Option ℕ) (figures : StandardMetricValues)
      → IsWithin area (p.inner area)
      → width (codes " " ++ (box_title ++ codes " ")) ≡ width box_title + 2
      → area.width < 2 ^ 16
      → IsDrawnIn area (
          render_chart ops width p styles area series outer_title box_title y_max top_label
            band_rows figures)
  unfolding render_chart
  chart-IsDrawnIn area series outer_title box_title y_max top_label band_rows figures inside pads
        w =
      let (rows, grid, limited, few) =
        limit-standard (info_labels area.width) figures styles.palette
          (clamp (area.height - 6) 1 4) in
      subst
        (λ o. IsDrawnIn area (
          draw_limited ops width p styles area series outer_title box_title y_max top_label
            band_rows o))
        (sym limited)
        (render_metric_panel-IsInArea ops.plot width p styles.frame_style styles.axis_style area
          series
          (panel_for ops width p styles outer_title box_title y_max top_label band_rows rows grid)
          inside pads w (omega arith))

  averages-IsDrawnIn :
      (area : Rect) (values : List F) (draw : ℕ → Text → Option (List Mark))
      → IsBounded ops.series values
      → ((avg : ℕ) (avg_trend : Text) → IsDrawnIn area (draw avg avg_trend))
      → IsDrawnIn area (
          with_averages ops width p styles
            (average_recent_nonzero_rounded ops.series values 10)
            (recent_window_trend_symbol ops.series values 10)
            draw)
  averages-IsDrawnIn area values draw bounded h =
      let (avg, e) = average-some ops.series values bounded in
      let (avg_trend, k) = trend-some ops.series values bounded in rw (e, k) (h avg avg_trend)

  -- Both charts are drawn without a panic, whatever their figures are and whatever series they have
  -- whose values round to at most a tenth of the largest `u64`; and every cell that they write inside
  -- their block lies in their area.
  pub charts-IsDrawnIn :
      (txs : TxsWidget F) (time : TimeWidget F) (area : Rect)
      → IsBounded ops.series (map (λ point. point.1) txs.series)
      → IsBounded ops.series (map (λ point. point.1) time.series)
      → IsWithin area (p.inner area)
      → ((s : Text) → width (codes " " ++ (s ++ codes " ")) ≡ width s + 2)
      → area.width < 2 ^ 16
      → IsDrawnIn area (render_txs ops width p styles txs area)
        × IsDrawnIn area (render_time ops width p styles time area)
  unfolding render_txs render_time
  charts-IsDrawnIn txs time area txs_bounded time_bounded inside pads w = (
    averages-IsDrawnIn area _ _ txs_bounded λ avg avg_trend.
        chart-IsDrawnIn area _ (codes " Block Transactions ") (codes "txs") _ _ none _ inside
          (pads (codes "txs")) w,
    averages-IsDrawnIn area _ _ time_bounded λ avg avg_trend.
        chart-IsDrawnIn area _ (codes " Block Time ") (codes "time") _ _
          (some (lighter_band_rows (area.height - 2))) _ inside (pads (codes "time")) w,
  )
