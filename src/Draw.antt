-- ===== src/Draw.antt =====
-- The layout of the screen: src/draw.rs. Where a layout of ratatui puts its parts is a parameter.
pub mod Complete
mod Examples
use chaindash.Base.{
  ltb, leb, if◌then◌else◌, Text, codes, ℕ, ◌-◌, ◌*◌, ◌/◌, ◌%◌, ◌^◌, min, max, Option, none, some,
  List, [], ◌∷◌, ◌++◌,
}
use chaindash.Data.Status.{StatusMessage, StatusLevel, info, warning, error}
use chaindash.Widgets.Countries.{Rect}

abbrev pub auxiliary_row_height : ℕ
auxiliary_row_height = 6

abbrev pub min_panel_height : ℕ
min_panel_height = 3

pub data Panel : Type 0 where
  status_bar system_summary disk_list peer_countries time txs node node_details : Panel

-- A panel and the area that it is drawn in.
pub record Placed : Type 0 where
  pub panel : Panel
  pub area : Rect

pub data DashboardMode : Type 0 where
  unix non_unix : DashboardMode

pub record DashboardRows : Type 0 where
  pub auxiliary : Rect
  pub charts : Rect
  pub bottom : Rect

-- The layouts of ratatui that the screen uses.
pub record Layouts : Type 0 where
  -- vertical, `Length(a)`, `Length(b)`, `Length(c)`
  pub three_rows : ℕ → ℕ → ℕ → Rect → DashboardRows
  -- vertical, `Length(3)`, `Min(1)`
  pub status_and_rest : Rect → Rect × Rect
  -- horizontal, two halves, and a half with two quarters
  pub halves : Rect → Rect × Rect
  pub half_and_quarters : Rect → Rect × Rect × Rect

-- `remaining * 2` is a `u16`.
unfoldable pub preferred_bottom : ℕ → ℕ
preferred_bottom remaining =
    if leb 28 remaining then (remaining * 2) % 2 ^ 16 / 5 else if leb 22 remaining then 10 else 8

unfoldable pub content_row_heights : ℕ → ℕ → ℕ × ℕ
unfolding preferred_bottom
content_row_heights total_height auxiliary_height =
    let remaining = total_height - auxiliary_height in
    let bottom = max (min (preferred_bottom remaining) (remaining - 8)) 8 in
    if leb remaining 16
    then (remaining - remaining / 2, remaining / 2)
    else (remaining - bottom, bottom)

abbrev pub place : Panel → Rect → Placed
place panel area = record { panel = panel; area = area }

module _ (l : Layouts) where
  unfoldable pub split_dashboard_rows : Rect → ℕ → DashboardRows
  unfolding content_row_heights
  split_dashboard_rows area auxiliary_height =
      let auxiliary_height = min auxiliary_height area.height in
      let heights = content_row_heights area.height auxiliary_height in
      l.three_rows auxiliary_height heights.0 heights.1 area

  unfoldable pub draw_system_row_split : Rect → List Placed
  draw_system_row_split area =
      let chunks = l.half_and_quarters area in
      place system_summary chunks.0 ∷ place disk_list chunks.1 ∷ place peer_countries chunks.2 ∷ []

  unfoldable pub draw_top_row : Rect → List Placed
  draw_top_row area =
      let columns = l.halves area in
      if ltb area.height min_panel_height
      then []
      else place time columns.0 ∷ place txs columns.1 ∷ []

  unfoldable pub draw_bottom_section : Rect → List Placed
  draw_bottom_section area =
      let chunks = l.halves area in
      if ltb area.height min_panel_height
      then []
      else place node chunks.0 ∷ place node_details chunks.1 ∷ []

  abbrev pub draw_auxiliary : DashboardMode → Rect → List Placed
  draw_auxiliary unix area = draw_system_row_split area
  draw_auxiliary non_unix area = place peer_countries area ∷ []

  unfoldable pub draw_widgets_for_mode : Rect → DashboardMode → List Placed
  unfolding draw_system_row_split draw_top_row draw_bottom_section
  draw_widgets_for_mode area mode =
      let rows = split_dashboard_rows area auxiliary_row_height in
      (if leb min_panel_height rows.auxiliary.height
        then draw_auxiliary mode rows.auxiliary
        else [])
      ++ (draw_top_row rows.charts ++ draw_bottom_section rows.bottom)

  -- The whole screen, with the status bar above the panels if there is a message.
  unfoldable pub draw : Option StatusMessage → DashboardMode → Rect → List Placed
  draw none mode area = draw_widgets_for_mode area mode
  draw (some message) mode area =
      let parts = l.status_and_rest area in
      place status_bar parts.0 ∷ draw_widgets_for_mode parts.1 mode

unfoldable pub status_level_label : StatusLevel → Text
status_level_label info = codes "INFO"
status_level_label warning = codes "WARN"
status_level_label error = codes "ERROR"
