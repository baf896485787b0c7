-- ===== src/Collect/SystemStats.antt =====
-- src/collect/system_stats.rs: what a sample makes of the readings of sysinfo, which are arguments.
-- `F` stands for `f32`, whose operations are a parameter, and so are `to_lowercase`, which is
-- Unicode's, and the rates, which go through `f64`.
pub mod Totals
pub mod Alerts
mod Examples
use chaindash.Base.{
  ltb, ◌==◌, if◌then◌else◌, Text, codes, is_whitespace, starts_with, has_part, contains, ℕ, ◌+◌,
  ◌-◌, ◌^◌, min, Bool, true, false, ◌||◌, Option, none, some, List, [], ◌∷◌, ◌++◌,
}
use chaindash.Opts.Number.{decimal}
use chaindash.Data.Status.{info, warning}
use chaindash.Data.System.{SystemStats}
use chaindash.Data.Store.{Data, perform, replace_system_stats, set_status_message}

pub record Percentages (F : Type 0) : Type 0 where
  -- `a as f32 / b as f32 * 100.0`
  pub percent : ℕ → ℕ → F
  pub zero_percent : F
  pub is_at_least : F → F → Bool
  -- `format!("{:.0}", x)`
  pub rounded : F → Text

abbrev pub u64_max : ℕ
u64_max = 2 ^ 64 - 1

-- `u64::saturating_add`
unfoldable pub saturating_add : ℕ → ℕ → ℕ
saturating_add a b = min (a + b) u64_max

-- Instants are in nanoseconds.
pub record NetworkSample : Type 0 where
  pub rx_total : ℕ
  pub tx_total : ℕ
  pub collected_at : ℕ

-- `rate delta elapsed` is `(delta as f64 / elapsed_secs) as u64`. Seconds are at most `f64::EPSILON`
-- only where there are no nanoseconds.
unfoldable pub compute_network_rates :
    (ℕ → ℕ → ℕ) → Option NetworkSample → NetworkSample → NetworkSample × ℕ × ℕ
compute_network_rates rate none current = (current, 0, 0)
compute_network_rates rate (some previous) current =
    let elapsed = current.collected_at - previous.collected_at in
    if elapsed == 0 then (current, 0, 0) else (
      current,
      rate (current.rx_total - previous.rx_total) elapsed,
      rate (current.tx_total - previous.tx_total) elapsed,
    )

-- The points of the options that were not discovered, after those that were.
unfoldable pub merge_points : List Text → List Text → List Text
unfolding contains
merge_points all_points [] = all_points
merge_points all_points (point ∷ points) =
    merge_points (if contains all_points point then all_points else all_points ++ point ∷ []) points

unfoldable pub mount_points_to_monitor : Bool → List Text → List Text → List Text
unfolding merge_points
mount_points_to_monitor auto_discovery discovered disk_mount_points =
    if auto_discovery then merge_points discovered disk_mount_points else disk_mount_points

abbrev special_names : List Text
special_names =
    codes "proc"
    ∷ codes "sysfs"
    ∷ codes "tmpfs"
    ∷ codes "devtmpfs"
    ∷ codes "cgroup"
    ∷ codes "cgroup2"
    ∷ codes "overlay"
    ∷ codes "devpts"
    ∷ codes "mqueue"
    ∷ codes "hugetlbfs"
    ∷ codes "securityfs"
    ∷ codes "pstore"
    ∷ codes "debugfs"
    ∷ codes "tracefs"
    ∷ codes "fusectl"
    ∷ codes "configfs"
    ∷ codes "binfmt_misc"
    ∷ codes "autofs"
    ∷ codes "rpc_pipefs"
    ∷ codes "efivarfs"
    ∷ codes "bpf"
    ∷ []

-- `str::split_whitespace`: the word that is read so far, and the rest.
abbrev push_word : Text → List Text → List Text
push_word [] words = words
push_word (c ∷ word) words = (c ∷ word) ∷ words

unfoldable pub split_words : Text → Text → List Text
unfolding is_whitespace
split_words word [] = push_word word []
split_words word (c ∷ s) =
    let next = split_words [] s in
    let longer = split_words (word ++ c ∷ []) s in
    if is_whitespace c then push_word word next else longer

module _ (to_lowercase : Text → Text) where
  unfoldable pub is_network_filesystem : Text → Bool
  unfolding has_part
  is_network_filesystem filesystem =
      let fs = to_lowercase filesystem in
      has_part (codes "nfs") fs || has_part (codes "smb") fs || has_part (codes "cifs") fs

  unfoldable pub is_special_filesystem : Text → Bool
  unfolding contains has_part starts_with
  is_special_filesystem filesystem =
      let fs = to_lowercase filesystem in
      contains special_names fs || has_part (codes "fuse") fs || starts_with (codes "cgroup") fs

  -- A line of /proc/mounts, given its parts.
  abbrev mount_of : List Text → List Text → List Text
  mount_of (device ∷ mount_point ∷ filesystem ∷ parts) rest =
      if is_special_filesystem filesystem then rest else mount_point ∷ rest
  mount_of parts rest = rest

  -- `discover_mount_points`, with the lines of the file.
  unfoldable pub discover_mount_points : List Text → List Text
  unfolding split_words is_special_filesystem
  discover_mount_points [] = []
  discover_mount_points (line ∷ lines) =
      mount_of (split_words [] line) (discover_mount_points lines)

pub record DiskDetail (F : Type 0) : Type 0 where
  pub mount_point : Text
  pub filesystem : Text
  pub total : ℕ
  pub used : ℕ
  pub available : ℕ
  pub usage_percent : F
  pub device : Text
  pub is_alert : Bool
  pub is_network : Bool
  pub last_updated : ℕ

-- What sysinfo says of a disk, and when the loop comes to it.
pub record Disk : Type 0 where
  pub mount_point : Text
  pub filesystem : Text
  pub total_space : ℕ
  pub available_space : ℕ
  pub name : Text
  pub read_at : ℕ

-- What the loop over the disks carries.
pub record DiskTally (F : Type 0) : Type 0 where
  pub disk_used : ℕ
  pub disk_total : ℕ
  pub disk_details : List (DiskDetail F)
  pub has_disk_alerts : Bool

abbrev pub no_disks : {F : Type 0} → DiskTally F
no_disks = record { disk_used = 0; disk_total = 0; disk_details = []; has_disk_alerts = false }

module _ {F : Type 0} where
  unfoldable pub add_disk : DiskTally F → DiskDetail F → DiskTally F
  unfolding saturating_add
  add_disk t d = record {
    disk_used = saturating_add t.disk_used d.used;
    disk_total = saturating_add t.disk_total d.total;
    disk_details = t.disk_details ++ d ∷ [];
    has_disk_alerts = t.has_disk_alerts || d.is_alert;
  }

  -- A disk at another mount point is passed over.
  abbrev pub add_if : Bool → DiskTally F → DiskDetail F → DiskTally F
  add_if true t d = add_disk t d
  add_if false t d = t

module _ {F : Type 0} (floats : Percentages F) where
  -- 0.0 where there is nothing to divide by.
  unfoldable pub percent_of : ℕ → ℕ → F
  percent_of used total = if ltb 0 total then floats.percent used total else floats.zero_percent

module _ {F : Type 0} (floats : Percentages F) (to_lowercase : Text → Text) (threshold : F) where
  unfoldable pub disk_detail : Disk → DiskDetail F
  unfolding percent_of is_network_filesystem
  disk_detail disk =
      let used = disk.total_space - disk.available_space in
      record {
        mount_point = disk.mount_point;
        filesystem = disk.filesystem;
        total = disk.total_space;
        used = used;
        available = disk.available_space;
        usage_percent = percent_of floats used disk.total_space;
        device = disk.name;
        is_alert = floats.is_at_least (percent_of floats used disk.total_space) threshold;
        is_network = is_network_filesystem to_lowercase disk.filesystem;
        last_updated = disk.read_at;
      }

  -- The loop over the disks.
  unfoldable pub tally_disks : List Text → DiskTally F → List Disk → DiskTally F
  tally_disks mount_points t [] = t
  tally_disks mount_points t (disk ∷ disks) =
      tally_disks mount_points
        (add_if (contains mount_points disk.mount_point) t (disk_detail disk)) disks
