-- ===== src/Data/System.antt =====
-- `SystemStats` and `SystemState` of src/collect/data.rs. `F` stands for the floating-point type
-- and `D` for `DiskDetail`, whose values this store only keeps.
pub mod Selection
pub mod Cycle
use chaindash.Base.{
  leb, ◌==◌, if◌then◌else◌, length, ℕ, ◌+◌, ◌-◌, ◌%◌, min, Bool, true, false, List, [], ◌∷◌,
}

pub record SystemStats (F D : Type 0) : Type 0 where
  pub cpu_usage : F
  pub memory_used : ℕ
  pub memory_total : ℕ
  pub memory_usage_percent : F
  pub network_rx : ℕ
  pub network_tx : ℕ
  pub disk_used : ℕ
  pub disk_total : ℕ
  pub disk_usage_percent : F
  pub disk_details : List D
  pub current_disk_index : ℕ
  pub alert_threshold : F
  pub has_disk_alerts : Bool
  pub auto_discovery_enabled : Bool

module _ {D : Type 0} where
  -- `if details.is_empty() { 0 } else { index.min(details.len().saturating_sub(1)) }`
  unfoldable pub clamp_index : ℕ → List D → ℕ
  clamp_index index [] = 0
  clamp_index index (d ∷ ds) = min index (length ds)

module _ {F D : Type 0} where
  -- The new state, and whether there was an alert before.
  unfoldable pub replace_stats : SystemStats F D → SystemStats F D → SystemStats F D × Bool
  unfolding clamp_index
  replace_stats s new = (
    record new { current_disk_index = clamp_index s.current_disk_index new.disk_details },
    s.has_disk_alerts,
  )

  unfoldable pub update_disk_index : SystemStats F D → ℕ → SystemStats F D
  unfolding clamp_index
  update_disk_index s new_index = record s {
    current_disk_index = clamp_index new_index s.disk_details;
  }

  -- `switch_disk_selection` of src/app.rs: whether the selection changed, and the new state.
  unfoldable pub switch_disk_selection : SystemStats F D → (ℕ → ℕ → ℕ) → SystemStats F D × Bool
  unfolding update_disk_index
  switch_disk_selection s next_index =
      let disk_count = length s.disk_details in
      let next = next_index s.current_disk_index disk_count in
      if leb disk_count 1
      then (s, false)
      else if next == s.current_disk_index
      then (s, false)
      else (update_disk_index s next, true)

  -- `handle_tab_key` and `handle_shift_tab_key`
  unfoldable pub handle_tab_key : SystemStats F D → SystemStats F D × Bool
  handle_tab_key s =
      switch_disk_selection s (λ current_index disk_count. (current_index + 1) % disk_count)

  unfoldable pub handle_shift_tab_key : SystemStats F D → SystemStats F D × Bool
  handle_shift_tab_key s =
      switch_disk_selection s (λ current_index disk_count.
        if current_index == 0 then disk_count - 1 else current_index - 1)
