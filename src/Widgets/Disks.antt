-- ===== src/Widgets/Disks.antt =====
-- The panel of src/widgets/disk_list.rs. `F` stands for `f32`.
pub mod Selected
mod Examples
use chaindash.Base.{
  ltb, leb, ◌==◌, if◌then◌else◌, length, get_elem?, Text, codes, bytes, ℕ, ◌+◌, ◌-◌, ◌/◌, ◌^◌, min,
  max, Bool, true, false, ◌||◌, Option, none, some, List, [], ◌∷◌, ◌++◌,
}
use chaindash.Collect.SystemStats.{DiskDetail}
use chaindash.Data.System.{SystemStats}
use chaindash.Opts.Number.{decimal}
use chaindash.Widgets.Countries.{Rect}
use chaindash.Widgets.Nodes.Drawing.{is_blank}
use chaindash.Widgets.Lines.{
  Drawing, panel, paragraph, table, Panels, Line, Span, Style, styled, raw, plain, content_style,
  muted_style, highlight_style, accent_style, bold, accent_warn, metric_positive, metric_primary,
  empty_state_style,
}

-- What the panel uses of floating-point numbers.
pub record SizeTexts (F : Type 0) : Type 0 where
  -- `format!("{:.1}", bytes as f64 / unit)`
  pub one_decimal : ℕ → ℕ → Text
  -- `format!("{:.1}%", percent)`
  pub percent : F → Text

abbrev pub summary_width : ℕ
summary_width = 72

abbrev pub summary_height : ℕ
summary_height = 6

abbrev pub mount_value_style : Bool → Style
mount_value_style is_selected = if is_selected then bold highlight_style else bold content_style

abbrev pub size_value_style : Style
size_value_style = accent_style metric_primary

abbrev pub available_value_style : Style
available_value_style = accent_style metric_positive

abbrev pub percent_value_style : Bool → Style
percent_value_style is_alert = accent_style (if is_alert then accent_warn else metric_positive)

unfoldable pub mount_column_width : ℕ → ℕ
mount_column_width area_width = max (area_width - 2 - 41) 14

-- One row less at the top.
abbrev pub below_first : Rect → Rect
below_first inner = record inner { y = min (inner.y + 1) 65535; height = inner.height - 1 }

abbrev pub selected_index : {F : Type 0} → SystemStats F (DiskDetail F) → ℕ
selected_index stats = min stats.current_disk_index (length stats.disk_details - 1)

module _ {F : Type 0} (ops : SizeTexts F) where
  -- The units are powers of two, which `f64` has exactly, so that the comparisons are those of numbers.
  unfoldable pub format_size : ℕ → Text
  unfolding decimal
  format_size bytes =
      if leb (2 ^ 40) bytes
      then ops.one_decimal bytes (2 ^ 40) ++ codes "T"
      else if leb (2 ^ 30) bytes
      then ops.one_decimal bytes (2 ^ 30) ++ codes "G"
      else if leb (2 ^ 20) bytes
      then ops.one_decimal bytes (2 ^ 20) ++ codes "M"
      else if leb (2 ^ 10) bytes
      then ops.one_decimal bytes (2 ^ 10) ++ codes "K"
      else decimal bytes ++ codes "B"

  -- A row of the table.
  unfoldable pub disk_row : Bool → DiskDetail F → List Span
  unfolding format_size
  disk_row is_selected disk =
      styled ((if is_selected then codes "> " else codes "  ") ++ disk.mount_point)
        (mount_value_style is_selected)
      ∷ styled (format_size disk.total) size_value_style
      ∷ styled (format_size disk.used) size_value_style
      ∷ styled (format_size disk.available) available_value_style
      ∷ styled (ops.percent disk.usage_percent) (percent_value_style disk.is_alert)
      ∷ []

  -- The rows from an index on.
  unfoldable pub disk_rows : ℕ → ℕ → List (DiskDetail F) → List (List Span)
  unfolding disk_row
  disk_rows current_index index [] = []
  disk_rows current_index index (disk ∷ disks) =
      disk_row (index == current_index) disk ∷ disk_rows current_index (index + 1) disks

  unfoldable pub summary_lines : DiskDetail F → List Line
  unfolding format_size
  summary_lines disk =
      (styled (codes "Mount: ") muted_style
        ∷ styled disk.mount_point (mount_value_style true)
        ∷ (if disk.is_network then styled (codes " [net]") (accent_style accent_warn) ∷ [] else []))
      ∷ (styled (codes "Used: ") muted_style
          ∷ styled (format_size disk.used) size_value_style
          ∷ styled (codes " / ") muted_style
          ∷ styled (format_size disk.total) size_value_style
          ∷ styled (codes " · ") muted_style
          ∷ styled (ops.percent disk.usage_percent) (percent_value_style disk.is_alert)
          ∷ (if disk.is_alert
              then styled (codes " [alert]") (percent_value_style true) ∷ []
              else []))
      ∷ (styled (codes "Free: ") muted_style
          ∷ styled (format_size disk.available) available_value_style
          ∷ styled (codes " · FS ") muted_style
          ∷ styled disk.filesystem highlight_style
          ∷ [])
      ∷ []

  unfoldable pub disk_title : SystemStats F (DiskDetail F) → Text
  unfolding decimal
  disk_title stats =
      if ltb 1 (length stats.disk_details)
      then codes " Disk Details ["
        ++ (decimal (selected_index stats + 1)
            ++ (codes "/" ++ (decimal (length stats.disk_details) ++ codes "] (Tab to switch) ")))
      else codes " Disk Details "

  module _ (p : Panels) where
    -- The selected disk; `none` where the index names no disk, which panics in the source.
    unfoldable pub render_selected_disk_summary :
        Rect → Text → Option (DiskDetail F) → Option (List Drawing)
    unfolding summary_lines
    render_selected_disk_summary area title none = none
    render_selected_disk_summary area title (some disk) = some (
        panel area title
        ∷ (if is_blank (p.inner area)
            then []
            else paragraph (below_first (p.inner area)) plain (summary_lines disk) ∷ []))

    abbrev pub no_disks : List (DiskDetail F) → Bool
    no_disks [] = true
    no_disks (disk ∷ disks) = false

    unfoldable pub render_disk_list : SystemStats F (DiskDetail F) → Rect → Option (List Drawing)
    unfolding disk_rows disk_title
    render_disk_list stats area =
        let inner = p.inner area in
        if no_disks stats.disk_details
        then some (
            panel area (codes " Disk Details ")
            ∷ (if is_blank inner
                then []
                else paragraph (below_first inner) empty_state_style
                    ((raw (codes "No disk mount points found") ∷ []) ∷ [])
                  ∷ []))
        else if ltb area.width summary_width || leb area.height summary_height
        then render_selected_disk_summary area (disk_title stats)
            (get_elem? stats.disk_details (selected_index stats))
        else some (
            table area (disk_title stats) (mount_column_width area.width ∷ 10 ∷ 10 ∷ 10 ∷ 7 ∷ [])
              (codes "Mounted on" ∷ codes "Size" ∷ codes "Used" ∷ codes "Avail" ∷ codes "Use%" ∷ [])
              (disk_rows (selected_index stats) 0 stats.disk_details)
            ∷ [])

    unfoldable pub render : SystemStats F (DiskDetail F) → Rect → Option (List Drawing)
    unfolding render_disk_list
    render stats area = if ltb area.height 3 then some [] else render_disk_list stats area
