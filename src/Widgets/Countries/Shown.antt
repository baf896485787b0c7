-- ===== src/Widgets/Countries/Shown.antt =====
-- Every row that the panel makes room for is drawn.
use chaindash.Base.{ltb, if◌then◌else◌, take, Text, ℕ, ◌≤◌, ◌<◌, ◌≡◌, ◌⊎◌, List, []}
use chaindash.Widgets.Countries.{
  country_row_mode, Rect, Drawn, PeerCountriesWidget, CountryRowMode, summary_only,
  unknown_country_flag, unknown_country_code, country_row_width,
}
use chaindash.Widgets.Countries.Drawing.{known_rows, columns, cell}
use chaindash.Widgets.Countries.Rows.{row_in, rows_from}

module _ (width : Text → ℕ) where
  -- The mode has no rows, or its rows are not empty and fit into the columns.
  abbrev HasRoom : CountryRowMode → ℕ → ℕ → Type 0
  HasRoom mode cw aw = (mode ≡ summary_only) ⊎ ((0 < cw) × (cw ≤ aw))

  -- The row of the unknown countries, where there are any, after the known ones.
  abbrev pub unknown_row : PeerCountriesWidget → Rect → List Drawn
  unknown_row w area =
      let mode = country_row_mode width w area.width in
      if ltb 0 w.snapshot.unknown_country_count
      then row_in
          (cell area (columns width w area) (country_row_width width w mode)
            (known_rows width w area))
          mode unknown_country_flag unknown_country_code w.snapshot.unknown_country_count
      else []

  -- The rows of the countries that there is room for.
  abbrev pub country_rows : PeerCountriesWidget → Rect → List Drawn
  country_rows w area =
      let mode = country_row_mode width w area.width in
      rows_from area (columns width w area) (country_row_width width w mode) mode 0
        (take (known_rows width w area) w.snapshot.country_counts)
