-- ===== src/Widgets/Chart/Panel.antt =====
-- `render_metric_panel` of src/widgets/chart.rs: the plot with its axis, and over it the box with the
-- figures, or the grid of them where the box does not fit.
pub mod Inside
use chaindash.Base.{
  ◌==◌, if◌then◌else◌, Text, codes, values, ℕ, ◌||◌, Option, none, some, List, [], ◌∷◌, ◌++◌,
}
use chaindash.Widgets.Countries.{Rect}
use chaindash.Widgets.Lines.{Style, Span, Panels, content_style, muted_style, header_style}
use chaindash.Widgets.Chart.Marks.{Mark, fill}
use chaindash.Widgets.Chart.Boxes.{LabeledBoxRow, LabeledBoxOptions, render_labeled_box}
use chaindash.Widgets.Chart.Grid.{SegmentGridRow, render_segment_grid}
use chaindash.Widgets.Chart.Plot.{
  PlotFloats, lower_band_rows, render_left_axis_labels, render_bottom_band_dotted_plot,
}

pub record MetricPanel (F : Type 0) : Type 0 where
  pub outer_title : Text
  pub y_max : F
  pub top_label : Text
  pub box_rows : List LabeledBoxRow
  pub box_options : LabeledBoxOptions
  pub fallback_rows : List SegmentGridRow
  pub plot_fill_style : Style
  pub plot_crest_style : Style
  pub band_rows : Option ℕ

abbrev or_lower : Option ℕ → ℕ → ℕ
or_lower none height = lower_band_rows height
or_lower (some band_rows) height = band_rows

-- The box, or what stands in for it.
abbrev pub box_or_grid : Option (List Mark) → List Mark → List Mark
box_or_grid none grid = grid
box_or_grid (some marks) grid = marks

-- `frame_style` and `axis_style` are the colours of frames and of axis labels.
module _ {F : Type 0} (ops : PlotFloats F) (width : Text → ℕ) (p : Panels)
    (frame_style axis_style : Style) where
  abbrev pub plot_marks : Rect → List F → MetricPanel F → List Mark
  plot_marks plot_area values m =
      render_bottom_band_dotted_plot ops plot_area values m.y_max
        (or_lower m.band_rows plot_area.height) m.plot_fill_style m.plot_crest_style

  -- What is written inside the block, in order.
  unfoldable pub inner_marks : Rect → List F → MetricPanel F → List Mark
  inner_marks inner values m =
      let axis = render_left_axis_labels width inner m.top_label (codes "0") axis_style in
      fill inner (codes " ") content_style
      ∷ (axis.0
          ++ (plot_marks axis.1 values m
              ++ box_or_grid (render_labeled_box width m.box_options inner m.box_rows)
                  (render_segment_grid width frame_style inner 0 m.fallback_rows 2)))

  -- The block around them is drawn by ratatui.
  unfoldable pub render_metric_panel : Rect → List F → MetricPanel F → List Mark
  unfolding inner_marks
  render_metric_panel area values m =
      let inner = p.inner area in
      if inner.width == 0 || inner.height == 0 then [] else inner_marks inner values m
