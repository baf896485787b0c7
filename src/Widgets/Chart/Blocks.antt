-- ===== src/Widgets/Chart/Blocks.antt =====
-- The charts of src/widgets/txs.rs and src/widgets/time.rs, as they are drawn. `F` stands for `f64`.
pub mod Inside
use chaindash.Base.{
  ltb, if◌then◌else◌, length, count, Text, codes, values, ℕ, zero, suc, ◌-◌, ◌/◌, max, Bool, Option,
  none, some, List, [], ◌∷◌, ◌++◌, map,
}
use chaindash.App.{TxsWidget, TimeWidget}
use chaindash.Opts.Number.{decimal}
use chaindash.Widgets.Countries.{Rect}
use chaindash.Widgets.Helpers.{format_grouped_u64}
use chaindash.Widgets.Lines.{Style, Panels, header_style, content_style}
use chaindash.Widgets.Nodes.{clamp}
use chaindash.Widgets.Chart.Marks.{Mark}
use chaindash.Widgets.Chart.Boxes.{LabeledBoxRow, LabeledBoxOptions}
use chaindash.Widgets.Chart.Grid.{SegmentGridRow}
use chaindash.Widgets.Chart.Plot.{PlotFloats, lighter_band_rows}
use chaindash.Widgets.Chart.Panel.{MetricPanel, render_metric_panel}
use chaindash.Widgets.Chart.Trends.{
  SeriesFloats, average_recent_nonzero_rounded, recent_trend_symbol, recent_window_trend_symbol,
  y_axis_upper_bound,
}
use chaindash.Widgets.Chart.Figures.{
  StandardMetricPalette, StandardMetricValues, narrow_chart_width, info_labels,
  standard_metric_rows, limit_standard_metric_rows,
}

-- What the charts use of `f64`, and their constants of that type.
pub record ChartFloats (F : Type 0) : Type 0 where
  pub plot : PlotFloats F
  pub series : SeriesFloats F
  -- `format!("{:.1}", value as f64 / divisor)`
  pub one_decimal : ℕ → ℕ → Text
  -- `ms as f64 / 1000.0 < bound`, and `format!("{seconds:.decimals$}")` with a number of decimals
  pub seconds_below : ℕ → ℕ → Bool
  pub seconds_text : ℕ → ℕ → Text
  pub min_y_axis_max_txs : F
  pub y_axis_steps_txs : List (F × F)
  pub min_y_axis_max_ms : F
  pub y_axis_steps_ms : List (F × F)

-- The colours of a chart.
pub record ChartStyles : Type 0 where
  pub palette : StandardMetricPalette
  pub plot_fill_style : Style
  pub plot_crest_style : Style
  pub frame_style : Style
  pub axis_style : Style

abbrev pub average_window_data_points : ℕ
average_window_data_points = 10

abbrev pub spaces : ℕ → Text
spaces zero = []
spaces (suc n) = b' ' ∷ spaces n

-- `{:>n}`
unfoldable pub pad_left : ℕ → Text → Text
pad_left n s = spaces (n - length s) ++ s

-- `default_labeled_box_options`, with the offset that both charts set.
abbrev pub labeled_box_options : Text → Style → LabeledBoxOptions
labeled_box_options title frame_style = record {
  start_y_offset = 1;
  title = title;
  title_style = header_style;
  frame_style = frame_style;
  background_style = content_style;
  column_gap = 2;
  right_inset = 2;
}

module _ {F : Type 0} (ops : ChartFloats F) where
  unfoldable pub format_tx_count : ℕ → Text
  unfolding decimal
  format_tx_count value =
      if ltb value 1000
      then decimal value
      else if ltb value 10000
      then ops.one_decimal value 1000 ++ codes "k"
      else if ltb value 1_000_000
      then decimal (value / 1000) ++ codes "k"
      else ops.one_decimal value 1_000_000 ++ codes "m"

  unfoldable pub format_block_time : ℕ → Text
  unfolding decimal
  format_block_time ms =
      if ltb ms 1000
      then decimal ms ++ codes "ms"
      else if ops.seconds_below ms 10
      then ops.seconds_text 2 ms ++ codes "s"
      else if ops.seconds_below ms 100
      then ops.seconds_text 1 ms ++ codes "s"
      else ops.seconds_text 0 ms ++ codes "s"

  unfoldable pub format_max_txs : ℕ → ℕ → ℕ → Text → Text
  unfolding format_tx_count pad_left
  format_max_txs max_txs max_block_number area_width max_label =
      let count = max_label ++ (codes " " ++ pad_left 7 (format_tx_count max_txs)) in
      if ltb area_width narrow_chart_width
      then count
      else count ++ (codes " #" ++ decimal max_block_number)

  unfoldable pub format_max_txs_box : ℕ → ℕ → ℕ → Text
  unfolding format_tx_count format_grouped_u64
  format_max_txs_box max_txs max_block_number area_width =
      if ltb area_width narrow_chart_width
      then format_tx_count max_txs
      else format_tx_count max_txs ++ (codes " #" ++ format_grouped_u64 max_block_number)

  -- `TxsWidget::metric_rows`
  unfoldable pub txs_metric_values :
      TxsWidget F → Text × Text × Text × Text → Text → Text → ℕ → ℕ → StandardMetricValues
  unfolding format_tx_count format_max_txs format_max_txs_box pad_left
  txs_metric_values w (cur_label, max_label, avg_label, blk_label) trend avg_trend avg_txs
        area_width =
      record {
        trend = trend;
        current_box_value = codes " " ++ format_tx_count w.cur_txs;
        current_fallback_value = codes " " ++ pad_left 7 (format_tx_count w.cur_txs);
        top_box_value = format_max_txs_box w.max w.max_block_number area_width;
        top_fallback = format_max_txs w.max w.max_block_number area_width max_label;
        avg_trend = avg_trend;
        avg_box_value = codes " " ++ format_tx_count avg_txs;
        avg_fallback_value = codes " " ++ pad_left 7 (format_tx_count avg_txs);
        block_box_value = format_grouped_u64 w.cur_num;
        block_fallback = blk_label ++ (codes " " ++ pad_left 12 (format_grouped_u64 w.cur_num));
      }

  -- `TimeWidget::metric_rows`
  unfoldable pub time_metric_values :
      TimeWidget F → Text × Text × Text × Text → Text → Text → ℕ → StandardMetricValues
  unfolding format_block_time pad_left
  time_metric_values w (cur_label, max_label, avg_label, blk_label) trend avg_trend avg_time =
      record {
        trend = trend;
        current_box_value = codes " " ++ format_block_time w.cur_time;
        current_fallback_value = codes " " ++ pad_left 7 (format_block_time w.cur_time);
        top_box_value = format_block_time w.max_time;
        top_fallback = max_label ++ (codes " " ++ pad_left 7 (format_block_time w.max_time));
        avg_trend = avg_trend;
        avg_box_value = codes " " ++ format_block_time avg_time;
        avg_fallback_value = codes " " ++ pad_left 7 (format_block_time avg_time);
        block_box_value = format_grouped_u64 w.cur_num;
        block_fallback = blk_label ++ (codes " " ++ pad_left 12 (format_grouped_u64 w.cur_num));
      }

  module _ (width : Text → ℕ) (p : Panels) (styles : ChartStyles) where
    abbrev pub panel_for :
        Text → Text → F → Text → Option ℕ → List LabeledBoxRow → List SegmentGridRow → MetricPanel F
    panel_for outer_title box_title y_max top_label band_rows box_rows fallback_rows = record {
      outer_title = outer_title;
      y_max = y_max;
      top_label = top_label;
      box_rows = box_rows;
      box_options = labeled_box_options box_title styles.frame_style;
      fallback_rows = fallback_rows;
      plot_fill_style = styles.plot_fill_style;
      plot_crest_style = styles.plot_crest_style;
      band_rows = band_rows;
    }

    abbrev pub draw_limited :
        Rect
        → List F
        → Text
        → Text
        → F
        → Text
        → Option ℕ
        → Option (List LabeledBoxRow × List SegmentGridRow)
        → Option (List Mark)
    draw_limited area values outer_title box_title y_max top_label band_rows none = none
    draw_limited area values outer_title box_title y_max top_label band_rows
          (some (box_rows, fallback_rows)) =
        some (
          render_metric_panel ops.plot width p styles.frame_style styles.axis_style area values
            (panel_for outer_title box_title y_max top_label band_rows box_rows fallback_rows))

    -- The panel, drawn with the figures that there is room for.
    unfoldable pub render_chart :
        Rect
        → List F
        → Text
        → Text
        → F
        → Text
        → Option ℕ
        → StandardMetricValues
        → Option (List Mark)
    unfolding standard_metric_rows limit_standard_metric_rows render_metric_panel info_labels
    render_chart area values outer_title box_title y_max top_label band_rows figures =
        let rows = standard_metric_rows (info_labels area.width) figures styles.palette in
        draw_limited area values outer_title box_title y_max top_label band_rows
          (limit_standard_metric_rows rows.0 rows.1 (clamp (area.height - 6) 1 4))

    -- With both averages over the last data points, unless a sum has overflowed.
    abbrev pub with_averages :
        Option ℕ → Option Text → (ℕ → Text → Option (List Mark)) → Option (List Mark)
    with_averages none avg_trend draw = none
    with_averages (some avg) none draw = none
    with_averages (some avg) (some avg_trend) draw = draw avg avg_trend

    -- `TxsWidget::render`; `none` stands for a panic.
    unfoldable pub render_txs : TxsWidget F → Rect → Option (List Mark)
    unfolding txs_metric_values format_tx_count render_chart
    render_txs w area =
        let values = map (λ point. point.1) w.series in
        let y_max =
          y_axis_upper_bound ops.series values ops.min_y_axis_max_txs ops.y_axis_steps_txs in
        with_averages (average_recent_nonzero_rounded ops.series values average_window_data_points)
          (recent_window_trend_symbol ops.series values average_window_data_points)
          (λ avg_txs avg_trend.
            render_chart area values (codes " Block Transactions ") (codes "txs") y_max
              (format_tx_count (ops.series.round_u64 y_max)) none
              (txs_metric_values w (info_labels area.width) (recent_trend_symbol ops.series values)
                avg_trend avg_txs area.width))

    -- `TimeWidget::render`
    unfoldable pub render_time : TimeWidget F → Rect → Option (List Mark)
    unfolding time_metric_values format_block_time render_chart
    render_time w area =
        let values = map (λ point. point.1) w.series in
        let y_max =
          y_axis_upper_bound ops.series values ops.min_y_axis_max_ms ops.y_axis_steps_ms in
        with_averages (average_recent_nonzero_rounded ops.series values average_window_data_points)
          (recent_window_trend_symbol ops.series values average_window_data_points)
          (λ avg_time avg_trend.
            render_chart area values (codes " Block Time ") (codes "time") y_max
              (format_block_time (ops.series.round_u64 y_max))
              (some (lighter_band_rows (area.height - 2)))
              (time_metric_values w (info_labels area.width) (recent_trend_symbol ops.series values)
                avg_trend avg_time))
