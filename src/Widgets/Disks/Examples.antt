-- ===== src/Widgets/Disks/Examples.antt =====
-- An index beyond the last of two disks.
use chaindash.Base.{
  if◌then◌else◌, length, Text, codes, ℕ, ◌+◌, ◌-◌, ◌<◌, min, ◌≡◌, refl, true, false, some, List, [],
  ◌∷◌, ◌++◌, arith,
}
use chaindash.Collect.SystemStats.{DiskDetail}
use chaindash.Data.System.{SystemStats}
use chaindash.Widgets.Countries.{Rect}
use chaindash.Widgets.Lines.{Panels}
use chaindash.Widgets.Disks.{SizeTexts, below_first, disk_title, render}
use chaindash.Widgets.Disks.Selected.{is_small, disk_panel, disk_table, render-selected}

abbrev texts : SizeTexts ℕ
texts = record { one_decimal = λ bytes unit. []; percent = λ n. [] }

abbrev disk_at : Text → DiskDetail ℕ
disk_at mount_point = record {
  mount_point = mount_point;
  filesystem = codes "ext4";
  total = 2000;
  used = 500;
  available = 1500;
  usage_percent = 25;
  device = codes "/dev/sda1";
  is_alert = false;
  is_network = false;
  last_updated = 0;
}

abbrev two_disks : SystemStats ℕ (DiskDetail ℕ)
two_disks = record {
  cpu_usage = 0;
  memory_used = 0;
  memory_total = 0;
  memory_usage_percent = 0;
  network_rx = 0;
  network_tx = 0;
  disk_used = 1000;
  disk_total = 4000;
  disk_usage_percent = 25;
  disk_details = disk_at (codes "/") ∷ disk_at (codes "/opt") ∷ [];
  current_disk_index = 7;
  alert_threshold = 80;
  has_disk_alerts = false;
  auto_discovery_enabled = true;
}

abbrev panels : Panels
panels = record {
  inner = λ r. record { x = r.x + 1; y = r.y + 1; width = r.width - 2; height = r.height - 2 };
  two_columns = λ a b r. (r, r);
  three_columns = λ a b c r. (r, r, r);
}

abbrev wide_area : Rect
wide_area = record { x = 0; y = 0; width = 80; height = 8 }

title_of_two : disk_title texts two_disks ≡ codes " Disk Details [2/2] (Tab to switch) "
unfolding disk_title
title_of_two = refl

render-selected_example :
    (pre : List (DiskDetail ℕ)) × (disk : DiskDetail ℕ) × (post : List (DiskDetail ℕ))
    × (two_disks.disk_details ≡ pre ++ disk ∷ post)
    × (length pre ≡ min two_disks.current_disk_index (length two_disks.disk_details - 1))
    × (0 < (below_first (panels.inner wide_area)).height)
    × (0 < (below_first (panels.inner wide_area)).width)
    × (render texts panels two_disks wide_area
        ≡ some (
            if is_small texts panels wide_area
            then disk_panel texts panels wide_area (disk_title texts two_disks) disk
            else disk_table texts panels wide_area (disk_title texts two_disks) pre disk post))
render-selected_example =
    render-selected texts panels two_disks wide_area (omega arith) (omega arith) (refl, refl)
      (omega arith)
