-- ===== src/Collect/SystemStats/Examples.antt =====
-- Two disks, one of them full. Percentages are natural numbers here.
use chaindash.Base.{leb, codes, ℕ, ◌*◌, ◌/◌, ◌≤◌, ◌≡◌, true, false, List, [], ◌∷◌}
use chaindash.Data.Store.{Data, default_data}
use chaindash.Collect.SystemStats.{Percentages, Disk, DiskDetail, no_disks, tally_disks}
use chaindash.Collect.SystemStats.Totals.{IsTally, details_at, tally_disks-IsTally}
use chaindash.Collect.SystemStats.Alerts.{Readings}

abbrev percentages : Percentages ℕ
percentages = record {
  percent = λ a b. a * 100 / b;
  zero_percent = 0;
  is_at_least = λ a b. leb b a;
  rounded = λ x. [];
}

abbrev disks : List Disk
disks =
    record {
      mount_point = codes "/";
      filesystem = codes "ext4";
      total_space = 100;
      available_space = 4;
      name = codes "sda";
      read_at = 1;
    }
    ∷ record {
      mount_point = codes "/mnt";
      filesystem = codes "nfs";
      total_space = 50;
      available_space = 60;
      name = codes "nas";
      read_at = 2;
    }
    ∷ []

tally_disks-IsTally_example :
    let t = tally_disks percentages (λ s. s) 90 (codes "/" ∷ []) no_disks disks in
    IsTally t
    × (t.disk_details ≡ details_at percentages (λ s. s) 90 (codes "/" ∷ []) disks)
    × (t.disk_used ≤ t.disk_total)
tally_disks-IsTally_example = tally_disks-IsTally percentages (λ s. s) 90 (codes "/" ∷ []) disks

abbrev full_disk : Readings ℕ
full_disk = record {
  cpu_usage = 1;
  memory_used = 2;
  memory_total = 4;
  networks = (10, 20) ∷ [];
  disks = disks;
  collected_at = 5;
  mount_points = codes "/" ∷ [];
  at = 6;
}

abbrev no_disk : Readings ℕ
no_disk = record full_disk { disks = []; collected_at = 7 }

abbrev quiet_data : Data ℕ (DiskDetail ℕ)
quiet_data = default_data (record {
  cpu_usage = 0;
  memory_used = 0;
  memory_total = 0;
  memory_usage_percent = 0;
  network_rx = 0;
  network_tx = 0;
  disk_used = 0;
  disk_total = 0;
  disk_usage_percent = 0;
  disk_details = [];
  current_disk_index = 0;
  alert_threshold = 90;
  has_disk_alerts = false;
  auto_discovery_enabled = true;
})
