-- ===== src/Widgets/Chart/Panel/Inside.antt =====
-- A chart writes into its area only, so that no write is outside the buffer.
use chaindash.Base.{
  ◌==◌, Bool-cases, Option-cases, length, All, All-append, Text, codes, values, ℕ, ◌+◌, ◌^◌, ◌<◌,
  ◌≡◌, inl, inr, ◌||◌, List, arith,
}
use chaindash.Widgets.Countries.{Rect}
use chaindash.Widgets.Lines.{Style, Panels}
use chaindash.Widgets.Chart.Marks.{IsWithin, IsInArea, IsInArea-larger}
use chaindash.Widgets.Chart.Boxes.{title_text, render_labeled_box}
use chaindash.Widgets.Chart.Boxes.Inside.{render_labeled_box-IsInArea}
use chaindash.Widgets.Chart.Grid.{render_segment_grid}
use chaindash.Widgets.Chart.Grid.Inside.{grid-IsInArea}
use chaindash.Widgets.Chart.Plot.{PlotFloats, render_left_axis_labels}
use chaindash.Widgets.Chart.Plot.Inside.{axis-IsInArea, plot-IsInArea}
use chaindash.Widgets.Chart.Panel.{
  MetricPanel, box_or_grid, inner_marks, render_metric_panel, or_lower,
}

module _ {F : Type 0} (ops : PlotFloats F) (width : Text → ℕ) (p : Panels)
    (frame_style axis_style : Style) where
  box-IsInArea :
      (inner : Rect) (m : MetricPanel F)
      → width (title_text width m.box_options) ≡ width m.box_options.title + 2
      → inner.width < 2 ^ 16
      → length m.box_rows + 2 < 2 ^ 16
      → All (IsInArea width inner) (
          box_or_grid
            (render_labeled_box width m.box_options inner m.box_rows)
            (render_segment_grid width frame_style inner 0 m.fallback_rows 2))
  box-IsInArea inner m pads w n =
      elim (Option-cases (render_labeled_box width m.box_options inner m.box_rows)) [
        | inl no_room ↦ rw no_room (grid-IsInArea width frame_style inner 0 m.fallback_rows 2)
        | inr (marks, drawn) ↦
            rw drawn
              (render_labeled_box-IsInArea width m.box_options inner m.box_rows marks pads w n
                drawn).0
      ]

  inner-IsInArea :
      (inner : Rect) (values : List F) (m : MetricPanel F)
      → width (title_text width m.box_options) ≡ width m.box_options.title + 2
      → inner.width < 2 ^ 16
      → length m.box_rows + 2 < 2 ^ 16
      → All (IsInArea width inner) (inner_marks ops width p frame_style axis_style inner values m)
  unfolding inner_marks
  inner-IsInArea inner values m pads w n =
      let axis = render_left_axis_labels width inner m.top_label (codes "0") axis_style in
      let within = axis-IsInArea width inner m.top_label (codes "0") axis_style w in
      (
        omega arith,
        All-append (IsInArea width inner) _ _ within.0 (
            All-append (IsInArea width inner) _ _
              (IsInArea-larger width inner axis.1 _ within.1 (
                plot-IsInArea width ops axis.1 values m.y_max (or_lower m.band_rows axis.1.height)
                  m.plot_fill_style m.plot_crest_style))
              (box-IsInArea inner m pads w n)),
      )

  -- Whatever the values and the figures are: every cell that a chart writes inside its block lies in
  -- the area of the chart, be it the axis, the plot, the box with the figures or the grid.
  pub render_metric_panel-IsInArea :
      (area : Rect) (values : List F) (m : MetricPanel F)
      → IsWithin area (p.inner area)
      → width (title_text width m.box_options) ≡ width m.box_options.title + 2
      → area.width < 2 ^ 16
      → length m.box_rows + 2 < 2 ^ 16
      → All
          (IsInArea width area)
          (render_metric_panel ops width p frame_style axis_style area values m)
  unfolding render_metric_panel
  render_metric_panel-IsInArea area values m inside pads w n =
      elim (Bool-cases ((p.inner area).width == 0 || (p.inner area).height == 0)) [
        | inl blank ↦ rw blank tt
        | inr room ↦ rw room (
            IsInArea-larger width area (p.inner area)
              (inner_marks ops width p frame_style axis_style (p.inner area) values m) inside
              (inner-IsInArea (p.inner area) values m pads (omega arith) n))
      ]
