-- ===== src/Widgets/Countries/Drawing.antt =====
-- `PeerCountriesWidget::render_content` of src/widgets/countries.rs: the texts that it draws, in order.
use chaindash.Base.{
  ltb, ◌==◌, if◌then◌else◌, not, length, take, Text, codes, ℕ, ◌+◌, ◌-◌, ◌*◌, ◌/◌, ◌%◌, ◌^◌, min,
  Bool, ◌||◌, List, [], ◌∷◌, ◌++◌,
}
use chaindash.Geo.Snapshot.{CountryCount}
use chaindash.Widgets.Countries.{
  Rect, Drawn, PeerCountriesWidget, CountryRowMode, summary_only, country_flag,
  country_column_count, country_column_gap, content_row_count, summary_row_index,
  unknown_country_flag, unknown_country_code, render_country_row, render_summary, country_row_mode,
  country_row_width,
}

-- `Rect::right`
abbrev right : Rect → ℕ
right area = min (area.x + area.width) 65535

-- The area of the item with an index.
unfoldable pub cell : Rect → ℕ → ℕ → ℕ → Rect
cell area column_count column_width index =
    let x = area.x + (index % column_count * (column_width + country_column_gap)) % 2 ^ 16 in
    record {
      x = x;
      y = area.y + (index / column_count) % 2 ^ 16;
      width = min (right area - x) (column_width % 2 ^ 16);
      height = 1;
    }

abbrev pub summary_visible : Rect → Bool
summary_visible area = ltb summary_row_index (min area.height content_row_count)

abbrev pub data_rows : Rect → ℕ
data_rows area =
    if summary_visible area then summary_row_index else min area.height content_row_count

abbrev pub unknown_present : PeerCountriesWidget → ℕ
unknown_present w = if ltb 0 w.snapshot.unknown_country_count then 1 else 0

abbrev pub rows_limit : CountryRowMode → ℕ → ℕ
rows_limit summary_only limit = 0
rows_limit mode limit = limit

abbrev pub row_area : Rect → ℕ → Rect
row_area area index = record { x = area.x; y = area.y + index; width = area.width; height = 1 }

module _ (width : Text → ℕ) where
  abbrev pub columns : PeerCountriesWidget → Rect → ℕ
  columns w area =
      country_column_count area.width
        (country_row_width width w (country_row_mode width w area.width))

  -- How many of the countries are shown.
  unfoldable pub known_rows : PeerCountriesWidget → Rect → ℕ
  known_rows w area =
      rows_limit (country_row_mode width w area.width) (
        min (length w.snapshot.country_counts)
          (data_rows area * columns w area - unknown_present w))

  -- The loop over the countries, from an index on.
  unfoldable pub draw_known : Rect → ℕ → ℕ → CountryRowMode → ℕ → List CountryCount → List Drawn
  unfolding render_country_row cell country_flag
  draw_known area column_count column_width mode index [] = []
  draw_known area column_count column_width mode index (c ∷ cs) =
      render_country_row width (cell area column_count column_width index) mode
        (country_flag c.country_code) c.country_code c.peer_count
      ++ draw_known area column_count column_width mode (index + 1) cs

  unfoldable pub draw_unknown : PeerCountriesWidget → Rect → List Drawn
  draw_unknown w area =
      let mode = country_row_mode width w area.width in
      if ltb 0 w.snapshot.unknown_country_count
      then render_country_row width
          (cell area (columns w area) (country_row_width width w mode) (known_rows w area)) mode
          unknown_country_flag unknown_country_code w.snapshot.unknown_country_count
      else []

  -- The first rows of the countries.
  unfoldable pub draw_countries : PeerCountriesWidget → Rect → List Drawn
  draw_countries w area =
      draw_known area (columns w area)
        (country_row_width width w (country_row_mode width w area.width))
        (country_row_mode width w area.width) 0 (take (known_rows w area) w.snapshot.country_counts)

  -- The summary with the number of countries that are not shown, from four rows on.
  unfoldable pub draw_summary : PeerCountriesWidget → Rect → List Drawn
  draw_summary w area =
      if summary_visible area
      then render_summary width (row_area area summary_row_index) (length w.snapshot.country_counts)
          (length w.snapshot.country_counts - known_rows w area) w.snapshot.total_peers
      else []

  unfoldable pub render_content : PeerCountriesWidget → Rect → List Drawn
  render_content w area =
      let message : Drawn = record { area = row_area area 0; text = codes "No peers" } in
      let summary = render_summary width (row_area area summary_row_index) 0 0 0 in
      if area.width == 0 || area.height == 0
      then []
      else if not w.snapshot_loaded
      then record { area = row_area area 0; text = codes "Geo data unavailable" } ∷ []
      else if w.snapshot.total_peers == 0
      then message ∷ (if ltb summary_row_index area.height then summary else [])
      else draw_countries w area ++ (draw_unknown w area ++ draw_summary w area)
