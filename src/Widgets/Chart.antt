-- ===== src/Widgets/Chart.antt =====
-- The series of a chart: `trim_data_points` and `append_u64_samples` of src/widgets/chart.rs. `F`
-- stands for `f64` and `to_f64` for the cast to it.
pub mod Marks
pub mod Boxes
pub mod Plot
pub mod Grid
pub mod Panel
pub mod Trends
pub mod Figures
pub mod Blocks
mod Examples
use chaindash.Base.{ltb, if◌then◌else◌, length, drop, ℕ, ◌+◌, ◌-◌, List, [], ◌∷◌, ◌++◌}

abbrev pub max_data_points : ℕ
max_data_points = 200

-- `data.drain(0..data.len() - max)` if there are more than `max`.
unfoldable pub trim_data_points {ℓ} : {A : Type ℓ} → List A → ℕ → List A
trim_data_points series max_points =
    if ltb max_points (length series) then drop (length series - max_points) series else series

module _ {F : Type 0} (to_f64 : ℕ → F) where
  -- The samples at the positions that follow `update_count`.
  unfoldable pub points : ℕ → List ℕ → List (F × F)
  points update_count [] = []
  points update_count (sample ∷ samples) =
      (to_f64 update_count, to_f64 sample) ∷ points (update_count + 1) samples

  -- The new series, and the new count of samples.
  unfoldable pub append_u64_samples : List (F × F) → ℕ → List ℕ → List (F × F) × ℕ
  unfolding trim_data_points points
  append_u64_samples series update_count samples = (
    trim_data_points (series ++ points update_count samples) max_data_points,
    update_count + length samples,
  )
