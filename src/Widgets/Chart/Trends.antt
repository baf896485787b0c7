-- ===== src/Widgets/Chart/Trends.antt =====
-- What src/widgets/chart.rs computes from a series: averages and trends. `F` stands for `f64`.
pub mod Sums
use chaindash.Base.{
  ltb, leb, ◌==◌, if◌then◌else◌, length, drop, take, Text, codes, values, ℕ, ◌+◌, ◌-◌, ◌*◌, ◌/◌,
  Bool, ◌||◌, Option, none, some, List, [], ◌∷◌, reverse,
}
use chaindash.Data.Chain.{u64_max}

-- What these functions use of `f64`.
pub record SeriesFloats (F : Type 0) : Type 0 where
  pub is_positive : F → Bool
  -- `value.round() as u64`
  pub round_u64 : F → ℕ
  pub zero_f64 : F
  pub one_f64 : F
  -- `f64::max`
  pub max_f64 : F → F → F
  -- `a <= b`
  pub le : F → F → Bool
  -- `max_value * 1.1`
  pub with_headroom : F → F
  -- `(value / step).ceil() * step`
  pub round_up : F → F → F

unfoldable pub sum : List ℕ → ℕ
sum [] = 0
sum (n ∷ ns) = n + sum ns

-- `iter().sum::<u64>()`; `none` stands for the overflow, which panics where overflow is checked.
unfoldable pub sum_u64 : List ℕ → Option ℕ
unfolding sum
sum_u64 ns = if leb (sum ns) u64_max then some (sum ns) else none

abbrev pub divided : ℕ → Option ℕ → Option ℕ
divided count none = none
divided count (some total) = some (total / count)

module _ {F : Type 0} (ops : SeriesFloats F) where
  unfoldable pub rounded_nonzero_values : List F → List ℕ
  rounded_nonzero_values [] = []
  rounded_nonzero_values (value ∷ values) =
      let rest = rounded_nonzero_values values in
      if ops.is_positive value then ops.round_u64 value ∷ rest else rest

  abbrev pub mean_of : List ℕ → Option ℕ
  mean_of [] = some 0
  mean_of (n ∷ ns) = divided (length (n ∷ ns)) (sum_u64 (n ∷ ns))

  unfoldable pub average_recent_nonzero_rounded : List F → ℕ → Option ℕ
  unfolding rounded_nonzero_values sum_u64
  average_recent_nonzero_rounded values sample_count =
      mean_of (take sample_count (reverse (rounded_nonzero_values values)))

  -- Which way from the second number to the first.
  abbrev pub arrow : ℕ → ℕ → Text
  arrow recent previous =
      if ltb previous recent
      then codes "↑"
      else if ltb recent previous
      then codes "↓"
      else codes "→"

  abbrev pub last_two : List ℕ → Text
  last_two [] = codes "→"
  last_two (a ∷ []) = codes "→"
  last_two (a ∷ b ∷ rest) = arrow a b

  unfoldable pub recent_trend_symbol : List F → Text
  unfolding rounded_nonzero_values
  recent_trend_symbol values = last_two (reverse (rounded_nonzero_values values))

  -- Which way from the second average to the first, unless a sum has overflowed.
  abbrev pub arrow_between : Option ℕ → Option ℕ → Option Text
  arrow_between none previous = none
  arrow_between (some recent) none = none
  arrow_between (some recent) (some previous) = some (arrow recent previous)

  unfoldable pub recent_window_trend_symbol : List F → ℕ → Option Text
  unfolding rounded_nonzero_values sum_u64
  recent_window_trend_symbol values sample_count =
      let rounded = rounded_nonzero_values values in
      let recent = drop (length rounded - sample_count) rounded in
      let previous = take sample_count (drop (length rounded - sample_count * 2) rounded) in
      if sample_count == 0 || ltb (length rounded) (sample_count * 2)
      then some (codes "→")
      else arrow_between (divided sample_count (sum_u64 recent))
          (divided sample_count (sum_u64 previous))

  unfoldable pub largest : List F → F → F
  largest [] acc = acc
  largest (value ∷ values) acc = largest values (ops.max_f64 acc value)

  -- The step of the first threshold that is not exceeded, or the last step.
  unfoldable pub step_for : F → List (F × F) → F
  step_for value [] = ops.one_f64
  step_for value ((threshold, step) ∷ []) = step
  step_for value ((threshold, step) ∷ next ∷ steps) =
      let later = step_for value (next ∷ steps) in if ops.le value threshold then step else later

  unfoldable pub y_axis_upper_bound : List F → F → List (F × F) → F
  unfolding largest step_for
  y_axis_upper_bound values min_y_axis_max steps =
      let max_value = largest values ops.zero_f64 in
      let value_with_headroom = ops.with_headroom max_value in
      if ops.le max_value min_y_axis_max
      then min_y_axis_max
      else ops.round_up value_with_headroom (step_for value_with_headroom steps)
