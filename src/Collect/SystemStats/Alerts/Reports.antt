-- ===== src/Collect/SystemStats/Alerts/Reports.antt =====
-- What the status says about alerts.
use chaindash.Base.{
  length, filter, Text, codes, ℕ, ◌≡◌, Bool, true, false, some, List, [], ◌∷◌, ◌++◌,
}
use chaindash.Opts.Number.{decimal}
use chaindash.Data.Status.{UiStatusStore, info, warning}
use chaindash.Data.Status.Lifetime.{read}
use chaindash.Data.Store.{Data}
use chaindash.Collect.SystemStats.{Percentages, DiskDetail}
use chaindash.Collect.SystemStats.Alerts.{Readings, disk_tally}
use chaindash.Data.System.{SystemStats}

module _ {F : Type 0} (floats : Percentages F) (to_lowercase : Text → Text) (rate : ℕ → ℕ → ℕ)
    (threshold : F) (auto_discovery_enabled : Bool) where
  -- Whether a sample has an alert.
  abbrev pub alert_in : Readings F → Bool
  alert_in r =
      (disk_tally floats to_lowercase rate threshold auto_discovery_enabled r).has_disk_alerts

  -- The disks in the data that have an alert.
  abbrev pub alerts : Data F (DiskDetail F) → ℕ
  alerts d = length (filter (λ (disk : DiskDetail F). disk.is_alert) d.system.disk_details)

  -- The status after a turn: a warning with the number of disks where an alert begins, the all-clear
  -- where it ends, and else the status from before.
  abbrev pub IsTold : Bool → Bool → UiStatusStore → Data F (DiskDetail F) → Type 0
  IsTold false true status d =
      read d.status.status_message
      ≡ some (
        warning,
        decimal (alerts d)
            ++ (codes " disk(s) exceed "
                ++ (floats.rounded threshold ++ codes "% usage threshold")),
      )
  IsTold true false status d =
      read d.status.status_message ≡ some (info, codes "Disk usage returned below alert threshold")
  IsTold was now status d = d.status ≡ status

  -- So it is after each turn of a run, and the data have an alert exactly if the sample has one.
  abbrev pub AreTold :
      Bool → UiStatusStore → List (Readings F) → List (Data F (DiskDetail F)) → Type 0
  AreTold was status [] [] = Unit
  AreTold was status [] (d ∷ ds) = ⊥
  AreTold was status (r ∷ rs) [] = ⊥
  AreTold was status (r ∷ rs) (d ∷ ds) =
      (d.system.has_disk_alerts ≡ alert_in r)
      × IsTold was (alert_in r) status d
      × AreTold (alert_in r) d.status rs ds
