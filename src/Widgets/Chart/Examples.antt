-- ===== src/Widgets/Chart/Examples.antt =====
-- Both charts in small areas, with whole numbers for `f64`.
use chaindash.Base.{
  ltb, leb, ◌==◌, length, length-append, All, Text, codes, ℕ, ◌+◌, ◌-◌, ◌*◌, ◌/◌, min, max, ◌≡◌,
  refl, Option, none, some, List, [], ◌∷◌, ◌++◌, arith,
}
use chaindash.App.{TxsWidget, TimeWidget}
use chaindash.Data.Chain.{u64_max}
use chaindash.Widgets.Countries.{Rect}
use chaindash.Widgets.Lines.{Panels, plain, styled}
use chaindash.Widgets.Chart.Marks.{Mark, IsInArea}
use chaindash.Widgets.Chart.Boxes.{LabeledBoxRow, LabeledBoxOptions, render_labeled_box}
use chaindash.Widgets.Chart.Boxes.Apart.{AreWritten}
use chaindash.Widgets.Chart.Boxes.Inside.{render_labeled_box-IsInArea}
use chaindash.Widgets.Chart.Trends.{recent_trend_symbol, average_recent_nonzero_rounded}
use chaindash.Widgets.Chart.Blocks.{
  ChartFloats, ChartStyles, labeled_box_options, render_txs, render_time,
}
use chaindash.Widgets.Chart.Blocks.Inside.{IsDrawnIn, charts-IsDrawnIn}

-- A text takes as many columns as it has characters.
abbrev columns_of : Text → ℕ
columns_of s = length s

abbrev area : Rect
area = record { x = 3; y = 1; width = 40; height = 12 }

abbrev panels : Panels
panels = record {
  inner = λ r. record { x = r.x + 1; y = r.y + 1; width = r.width - 2; height = r.height - 2 };
  two_columns = λ a b r. (r, r);
  three_columns = λ a b c r. (r, r, r);
}

abbrev rows : List LabeledBoxRow
rows =
    record { label = codes "now:"; label_style = plain; value = styled (codes "12") plain ∷ [] }
    ∷ record { label = codes "top:"; label_style = plain; value = styled (codes "4.2k") plain ∷ [] }
    ∷ []

abbrev options : LabeledBoxOptions
options = labeled_box_options (codes "txs") plain

abbrev drawn : Option (List Mark) → List Mark
drawn none = []
drawn (some marks) = marks

abbrev box : List Mark
box = drawn (render_labeled_box columns_of options area rows)

box_fits : render_labeled_box columns_of options area rows ≡ some box
unfolding render_labeled_box
box_fits = refl

render_labeled_box-IsInArea_example :
    All (IsInArea columns_of area) box × AreWritten columns_of options box 3 rows
render_labeled_box-IsInArea_example =
    render_labeled_box-IsInArea columns_of options area rows box refl (omega arith) (omega arith)
      box_fits

abbrev floats : ChartFloats ℕ
floats = record {
  plot = record {
    is_positive = λ n. ltb 0 n;
    at_most_zero = λ n. n == 0;
    smoothed = λ a b c top. min ((a + b * 2 + c) / 4) top;
    units = λ n top count. n * count / (top + 1);
  };
  series = record {
    is_positive = λ n. ltb 0 n;
    round_u64 = λ n. n;
    zero_f64 = 0;
    one_f64 = 1;
    max_f64 = λ a b. max a b;
    le = λ a b. leb a b;
    with_headroom = λ n. n * 11 / 10;
    round_up = λ n step. n;
  };
  one_decimal = λ n d. [];
  seconds_below = λ ms bound. ltb ms (bound * 1000);
  seconds_text = λ n ms. [];
  min_y_axis_max_txs = 10;
  y_axis_steps_txs = (100, 10) ∷ [];
  min_y_axis_max_ms = 1000;
  y_axis_steps_ms = (5000, 500) ∷ [];
}

rising : recent_trend_symbol floats.series (4 ∷ 7 ∷ 0 ∷ []) ≡ codes "↑"
unfolding recent_trend_symbol
rising = refl

-- The largest interval beside another one.
too_large : average_recent_nonzero_rounded floats.series (u64_max ∷ 5 ∷ []) 10 ≡ none
unfolding average_recent_nonzero_rounded
too_large = refl

abbrev chart_styles : ChartStyles
chart_styles = record {
  palette = record {
    trend_style = λ trend. plain;
    current_box_style = plain;
    current_fallback_style = plain;
    top_box_style = plain;
    top_fallback_style = plain;
    avg_style = plain;
    block_style = plain;
    label_style = plain;
  };
  plot_fill_style = plain;
  plot_crest_style = plain;
  frame_style = plain;
  axis_style = plain;
}

abbrev txs_widget : TxsWidget ℕ
txs_widget = record {
  update_count = 3;
  cur_num = 145333141;
  cur_txs = 7;
  max = 4200;
  max_block_number = 145333100;
  series = (0, 0) ∷ (1, 4) ∷ (2, 7) ∷ [];
}

abbrev time_widget : TimeWidget ℕ
time_widget = record {
  update_count = 2;
  cur_num = 145333141;
  cur_time = 980;
  max_time = 2100;
  series = (0, 0) ∷ (1, 980) ∷ [];
}

columns_of_padded : (s : Text) → columns_of (codes " " ++ (s ++ codes " ")) ≡ columns_of s + 2
columns_of_padded s = omega (arith, length-append s (codes " "))

charts-IsDrawnIn_example :
    IsDrawnIn floats columns_of panels chart_styles area
      (render_txs floats columns_of panels chart_styles txs_widget area)
    × IsDrawnIn floats columns_of panels chart_styles area
        (render_time floats columns_of panels chart_styles time_widget area)
charts-IsDrawnIn_example =
    charts-IsDrawnIn floats columns_of panels chart_styles txs_widget time_widget area
      (omega arith, (omega arith, (omega arith, tt))) (omega arith, (omega arith, tt)) (omega arith)
      columns_of_padded (omega arith)
