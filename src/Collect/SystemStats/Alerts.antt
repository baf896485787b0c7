-- ===== src/Collect/SystemStats/Alerts.antt =====
-- A sample of `collect_system_stats` in src/collect/system_stats.rs, from the readings to the shared
-- data, and the messages about alerts.
pub mod Reports
use chaindash.Base.{
  length, filter, count, Text, codes, ℕ, Bool, true, false, Option, none, some, List, [], ◌∷◌, ◌++◌,
}
use chaindash.Data.System.{SystemStats}
use chaindash.Collect.SystemStats.{
  info, decimal, warning, set_status_message, perform, Data, Percentages, NetworkSample,
  compute_network_rates, saturating_add, Disk, DiskDetail, DiskTally, no_disks, tally_disks,
  percent_of,
}
use chaindash.Opts.Number.{decimal}
use chaindash.Data.Status.{info, warning}
use chaindash.Data.Store.{Data, perform, replace_system_stats, set_status_message}

-- What sysinfo says, and when the message is written.
pub record Readings (F : Type 0) : Type 0 where
  pub cpu_usage : F
  pub memory_used : ℕ
  pub memory_total : ℕ
  pub networks : List (ℕ × ℕ)
  pub disks : List Disk
  pub collected_at : ℕ
  pub mount_points : List Text
  pub at : ℕ

-- The two sums over the networks.
unfoldable pub network_totals : ℕ × ℕ → List (ℕ × ℕ) → ℕ × ℕ
unfolding saturating_add
network_totals totals [] = totals
network_totals (rx, tx) ((received, transmitted) ∷ rest) =
    network_totals (saturating_add rx received, saturating_add tx transmitted) rest

-- Whether a sample reports an alert, or the end of one.
abbrev pub announcement : Bool → Bool → Option Bool
announcement true false = some true
announcement false true = some false
announcement has_disk_alerts previous_alert = none

module _ {F : Type 0} (floats : Percentages F) (to_lowercase : Text → Text) (rate : ℕ → ℕ → ℕ)
    (threshold : F) (auto_discovery_enabled : Bool) where
  abbrev network_sample : Readings F → NetworkSample
  network_sample r =
      let (rx, tx) = network_totals (0, 0) r.networks in
      record { rx_total = rx; tx_total = tx; collected_at = r.collected_at }

  abbrev pub disk_tally : Readings F → DiskTally F
  disk_tally r = tally_disks floats to_lowercase threshold r.mount_points no_disks r.disks

  unfoldable pub sample_stats : Option NetworkSample → Readings F → SystemStats F (DiskDetail F)
  unfolding network_totals compute_network_rates tally_disks percent_of
  sample_stats previous r =
      let tally = disk_tally r in
      let (current, rx, tx) = compute_network_rates rate previous (network_sample r) in
      record {
        cpu_usage = r.cpu_usage;
        memory_used = r.memory_used;
        memory_total = r.memory_total;
        memory_usage_percent = percent_of floats r.memory_used r.memory_total;
        network_rx = rx;
        network_tx = tx;
        disk_used = tally.disk_used;
        disk_total = tally.disk_total;
        disk_usage_percent = percent_of floats tally.disk_used tally.disk_total;
        disk_details = tally.disk_details;
        current_disk_index = 0;
        alert_threshold = threshold;
        has_disk_alerts = tally.has_disk_alerts;
        auto_discovery_enabled = auto_discovery_enabled;
      }

  abbrev alert_count : List (DiskDetail F) → ℕ
  alert_count details = length (filter (λ (disk : DiskDetail F). disk.is_alert) details)

  abbrev pub tell : Data F (DiskDetail F) → Option Bool → ℕ → ℕ → Data F (DiskDetail F)
  tell d none count at = d
  tell d (some true) count at = perform d (
      set_status_message warning
        (decimal count
          ++ (codes " disk(s) exceed " ++ (floats.rounded threshold ++ codes "% usage threshold")))
        at)
  tell d (some false) count at =
      perform d (set_status_message info (codes "Disk usage returned below alert threshold") at)

  -- One turn of the loop: the data, and the sample of the network for the next one.
  unfoldable pub collect_sample :
      Data F (DiskDetail F)
      → Option NetworkSample
      → Readings F
      → Data F (DiskDetail F) × NetworkSample
  unfolding perform sample_stats
  collect_sample d previous r =
      let stats = sample_stats previous r in
      (
        tell (perform d (replace_system_stats stats))
            (announcement stats.has_disk_alerts d.system.has_disk_alerts)
            (alert_count stats.disk_details) r.at,
        network_sample r,
      )

  -- The data after each turn of a run.
  unfoldable pub collect_system_stats :
      Data F (DiskDetail F)
      → Option NetworkSample
      → List (Readings F)
      → List (Data F (DiskDetail F))
  unfolding collect_sample
  collect_system_stats d previous [] = []
  collect_system_stats d previous (r ∷ rs) =
      let (next, sample) = collect_sample d previous r in
      next ∷ collect_system_stats next (some sample) rs
