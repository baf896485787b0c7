-- ===== src/Draw/Complete.antt =====
-- With rows enough every panel is drawn, high enough to show something.
use chaindash.Base.{
  ltb, leb, all, All, ℕ, ◌+◌, ◌-◌, ◌/◌, ◌^◌, ◌≤◌, ◌<◌, min, ◌≡◌, refl, ap, true, false, Option,
  none, some, List, [], ◌∷◌, ◌++◌, map, arith,
}
use chaindash.Data.Status.{StatusMessage}
use chaindash.Widgets.Countries.{Rect}
use chaindash.Draw.{
  DashboardRows, place, draw_auxiliary, draw_system_row_split, draw_top_row, draw_bottom_section,
  draw_widgets_for_mode, draw, auxiliary_row_height, status_bar, Layouts, Panel, Placed,
  DashboardMode, unix, non_unix, min_panel_height, system_summary, disk_list, peer_countries, time,
  txs, node, node_details, content_row_heights, preferred_bottom, split_dashboard_rows,
}

-- What ratatui documents: lengths that fill the area exactly are kept, a split to the right keeps the
-- height, and a bar of three rows leaves the rest.
pub record KeepsLengths (l : Layouts) : Type 0 where
  pub rows :
      (a b c : ℕ) (r : Rect)
      → a + b + c ≡ r.height
      → ((l.three_rows a b c r).auxiliary.height ≡ a)
        × ((l.three_rows a b c r).charts.height ≡ b)
        × ((l.three_rows a b c r).bottom.height ≡ c)
  pub rest :
      (r : Rect)
      → 4 ≤ r.height
      → ((l.status_and_rest r).0.height ≡ 3) × ((l.status_and_rest r).1.height + 3 ≡ r.height)
  pub halves : (r : Rect) → ((l.halves r).0.height ≡ r.height) × ((l.halves r).1.height ≡ r.height)
  pub quarters :
      (r : Rect)
      → ((l.half_and_quarters r).0.height ≡ r.height)
        × ((l.half_and_quarters r).1.height ≡ r.height)
        × ((l.half_and_quarters r).2.height ≡ r.height)

-- The two heights fill what the auxiliary row leaves. Both have half of up to 16 rows; of more, each
-- has 8 or more.
pub content_row_heights-fill :
    (total auxiliary : ℕ)
    → total < 2 ^ 15
    → ((content_row_heights total auxiliary).0 + (content_row_heights total auxiliary).1
        ≡ total - auxiliary)
      × (min 8 ((total - auxiliary) / 2) ≤ (content_row_heights total auxiliary).0)
      × (min 8 ((total - auxiliary) / 2) ≤ (content_row_heights total auxiliary).1)
unfolding content_row_heights preferred_bottom
content_row_heights-fill total auxiliary h = ground arith

-- The panels of the dashboard, in the order in which they are drawn.
abbrev pub all_panels : DashboardMode → List Panel
all_panels unix =
    system_summary ∷ disk_list ∷ peer_countries ∷ time ∷ txs ∷ node ∷ node_details ∷ []
all_panels non_unix = peer_countries ∷ time ∷ txs ∷ node ∷ node_details ∷ []

abbrev pub bar : Option StatusMessage → List Panel
bar none = []
bar (some message) = status_bar ∷ []

abbrev bar_rows : Option StatusMessage → ℕ
bar_rows none = 0
bar_rows (some message) = 3

-- Each one is high enough.
abbrev pub IsHigh : Placed → Type 0
IsHigh p = min_panel_height ≤ p.area.height

module _ (l : Layouts) (keeps : KeepsLengths l) where
  rows-heights :
      (area : Rect)
      → 12 ≤ area.height
      → area.height < 2 ^ 15
      → (3 ≤ (split_dashboard_rows l area 6).auxiliary.height)
        × (3 ≤ (split_dashboard_rows l area 6).charts.height)
        × (3 ≤ (split_dashboard_rows l area 6).bottom.height)
  unfolding split_dashboard_rows
  rows-heights area h k =
      let heights = content_row_heights area.height (min 6 area.height) in
      omega (
        arith,
        content_row_heights-fill area.height (min 6 area.height) k,
        keeps.rows (min 6 area.height) heights.0 heights.1 area
            (omega (arith, content_row_heights-fill area.height (min 6 area.height) k)),
      )

  -- The charts and the nodes.
  abbrev all_below : DashboardRows → List Placed
  all_below rows =
      place time (l.halves rows.charts).0
      ∷ place txs (l.halves rows.charts).1
      ∷ place node (l.halves rows.bottom).0
      ∷ place node_details (l.halves rows.bottom).1
      ∷ []

  in_order :
      (mode : DashboardMode) (rows : DashboardRows)
      → 3 ≤ rows.auxiliary.height
      → 3 ≤ rows.charts.height
      → 3 ≤ rows.bottom.height
      → (map (λ p. p.panel) (draw_auxiliary l mode rows.auxiliary ++ all_below rows)
          ≡ all_panels mode)
        × All IsHigh (draw_auxiliary l mode rows.auxiliary ++ all_below rows)
  unfolding draw_system_row_split
  in_order unix rows h k m = (
    refl,
    omega
        (arith, keeps.quarters rows.auxiliary, keeps.halves rows.charts, keeps.halves rows.bottom),
  )
  in_order non_unix rows h k m =
      (refl, omega (arith, keeps.halves rows.charts, keeps.halves rows.bottom))

  -- The panels in rows that are high enough.
  placed :
      (mode : DashboardMode) (rows : DashboardRows)
      → 3 ≤ rows.auxiliary.height
      → 3 ≤ rows.charts.height
      → 3 ≤ rows.bottom.height
      → (map
            (λ p. p.panel)
            (draw_auxiliary l mode rows.auxiliary
              ++ (draw_top_row l rows.charts ++ draw_bottom_section l rows.bottom))
          ≡ all_panels mode)
        × All IsHigh (
            draw_auxiliary l mode rows.auxiliary
            ++ (draw_top_row l rows.charts ++ draw_bottom_section l rows.bottom))
  unfolding draw_system_row_split draw_top_row draw_bottom_section
  placed mode rows h k m =
      let no_charts : ltb rows.charts.height min_panel_height ≡ false = ground arith in
      let no_bottom : ltb rows.bottom.height min_panel_height ≡ false = ground arith in
      rw (no_charts, no_bottom) (in_order mode rows h k m)

  -- What is drawn in an area of 12 rows or more.
  dashboard :
      (area : Rect) (mode : DashboardMode)
      → 12 ≤ area.height
      → area.height < 2 ^ 15
      → (map (λ p. p.panel) (draw_widgets_for_mode l area mode) ≡ all_panels mode)
        × All IsHigh (draw_widgets_for_mode l area mode)
  unfolding draw_widgets_for_mode
  dashboard area mode h k =
      let rows = split_dashboard_rows l area auxiliary_row_height in
      let (high, charts, bottom) = rows-heights area h k in
      let auxiliary : leb min_panel_height rows.auxiliary.height ≡ true = ground arith in
      rw auxiliary (placed mode rows high charts bottom)

  -- With 12 rows, or 15 if there is a message: the status bar is drawn if there is one, then every
  -- panel of the platform, each once and in its order, and each of them has three rows or more.
  pub draw-all_panels :
      (message : Option StatusMessage) (mode : DashboardMode) (area : Rect)
      → 12 + bar_rows message ≤ area.height
      → area.height < 2 ^ 15
      → (map (λ p. p.panel) (draw l message mode area) ≡ bar message ++ all_panels mode)
        × All IsHigh (draw l message mode area)
  unfolding draw
  draw-all_panels none mode area h k = dashboard area mode (omega arith) k
  draw-all_panels (some message) mode area h k =
      let parts = keeps.rest area (omega arith) in
      let (all, high) = dashboard (l.status_and_rest area).1 mode (omega arith) (omega arith) in
      (ap (λ ps. status_bar ∷ ps) all, (omega arith, high))
