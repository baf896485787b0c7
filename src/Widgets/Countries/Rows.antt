-- ===== src/Widgets/Countries/Rows.antt =====
-- A row that has its columns is drawn, and the widths leave every country its columns.
use chaindash.Base.{
  ltb, ◌==◌, Bool-cases, length, take, All, Text, ℕ, zero, suc, ◌+◌, ◌*◌, ◌≤◌, ◌<◌, ◌≡◌, refl, inl,
  inr, false, List, [], ◌∷◌, ◌++◌, arith,
}
use chaindash.Geo.Snapshot.{CountryCount}
use chaindash.Widgets.Countries.{
  Rect, Drawn, PeerCountriesWidget, CountryRowMode, flag_and_code, code_and_count, summary_only,
  country_flag, country_column_count, unknown_country_flag, unknown_country_code, row_text,
  row_width, country_row_widths, known_widths, country_widths, wider, render_country_row,
  country_row_width,
}
use chaindash.Widgets.Countries.Drawing.{cell, draw_known}
use chaindash.Widgets.Countries.Layout.{OnScreen, cell-fits}

-- A row in its area, in a mode that has rows.
abbrev pub row_in : Rect → CountryRowMode → Text → Text → ℕ → List Drawn
row_in area summary_only flag code count = []
row_in area flag_and_code flag code count =
    record { area = area; text = row_text flag_and_code flag code count } ∷ []
row_in area code_and_count flag code count =
    record { area = area; text = row_text code_and_count flag code count } ∷ []

-- The rows of countries from an index on, each in its cell.
unfoldable pub rows_from : Rect → ℕ → ℕ → CountryRowMode → ℕ → List CountryCount → List Drawn
rows_from area column_count column_width mode index [] = []
rows_from area column_count column_width mode index (c ∷ cs) =
    row_in (cell area column_count column_width index) mode (country_flag c.country_code)
      c.country_code c.peer_count
    ++ rows_from area column_count column_width mode (index + 1) cs

module _ (width : Text → ℕ) where
  pub cell-height : (area : Rect) (cc cw index : ℕ) → 0 < (cell area cc cw index).height
  unfolding cell
  cell-height area cc cw index = omega arith

  pub row-drawn :
      (area : Rect) (mode : CountryRowMode) (flag code : Text) (count : ℕ)
      → 0 < area.width
      → 0 < area.height
      → row_width width mode (country_row_widths width flag code count) ≤ area.width
      → render_country_row width area mode flag code count ≡ row_in area mode flag code count
  unfolding render_country_row country_row_widths
  row-drawn area flag_and_code flag code count h k l =
      let wide : (area.width == 0) ≡ false = ground (arith, h) in
      let tall : (area.height == 0) ≡ false = ground (arith, k) in
      let fits : ltb area.width
            (row_width width flag_and_code (country_row_widths width flag code count))
          ≡ false =
        ground (arith, l) in
      rw (wide, tall, fits) refl
  row-drawn area code_and_count flag code count h k l =
      let wide : (area.width == 0) ≡ false = ground (arith, h) in
      let tall : (area.height == 0) ≡ false = ground (arith, k) in
      let fits : ltb area.width
            (row_width width code_and_count (country_row_widths width flag code count))
          ≡ false =
        ground (arith, l) in
      rw (wide, tall, fits) refl
  row-drawn area summary_only flag code count h k l = refl

  -- The row of a country takes at most so many columns.
  abbrev pub Fits : CountryRowMode → ℕ → CountryCount → Type 0
  Fits mode limit c =
      row_width width mode
        (country_row_widths width (country_flag c.country_code) c.country_code c.peer_count)
      ≤ limit

  pub row_width-wider :
      (mode : CountryRowMode) (a b : ℕ × ℕ)
      → (row_width width mode a ≤ row_width width mode (wider width a b))
        × (row_width width mode b ≤ row_width width mode (wider width a b))
  row_width-wider flag_and_code (a, b) (c, d) = (omega arith, omega arith)
  row_width-wider code_and_count (a, b) (c, d) = (omega arith, omega arith)
  row_width-wider summary_only (a, b) (c, d) = (omega arith, omega arith)

  All-Fits :
      (mode : CountryRowMode) (m n : ℕ) (cs : List CountryCount)
      → m ≤ n
      → All (Fits mode m) cs
      → All (Fits mode n) cs
  All-Fits mode m n [] h a = tt
  All-Fits mode m n (c ∷ cs) h a = (omega (arith, h, a.0), All-Fits mode m n cs h a.1)

  known-Fits :
      (mode : CountryRowMode) (cs : List CountryCount)
      → All (Fits mode (row_width width mode (known_widths width cs))) cs
  unfolding known_widths
  known-Fits mode [] = tt
  known-Fits mode (c ∷ cs) =
      let both =
        row_width-wider mode
          (country_row_widths width (country_flag c.country_code) c.country_code c.peer_count)
          (known_widths width cs) in
      (both.0, All-Fits mode _ _ cs both.1 (known-Fits mode cs))

  pub widget-Fits :
      (w : PeerCountriesWidget) (mode : CountryRowMode)
      → All (Fits mode (country_row_width width w mode)) w.snapshot.country_counts
  unfolding country_row_width country_widths
  widget-Fits w mode = elim (Bool-cases (ltb 0 w.snapshot.unknown_country_count)) [
    | inl unknown ↦ rw unknown (
        All-Fits mode _ _ w.snapshot.country_counts
          (row_width-wider mode
            (country_row_widths width unknown_country_flag unknown_country_code
              w.snapshot.unknown_country_count)
            (known_widths width w.snapshot.country_counts)).1
          (known-Fits mode w.snapshot.country_counts))
    | inr all_known ↦ rw all_known (known-Fits mode w.snapshot.country_counts)
  ]

  pub take-Fits :
      (mode : CountryRowMode) (limit n : ℕ) (cs : List CountryCount)
      → All (Fits mode limit) cs
      → All (Fits mode limit) (take n cs)
  take-Fits mode limit zero cs a = tt
  take-Fits mode limit (suc n) [] a = tt
  take-Fits mode limit (suc n) (c ∷ cs) a = (a.0, take-Fits mode limit n cs a.1)

  pub draw_known-rows :
      (area : Rect) (cw rows : ℕ) (mode : CountryRowMode) (index : ℕ) (cs : List CountryCount)
      → OnScreen area
      → 0 < cw
      → cw ≤ area.width
      → rows ≤ area.height
      → index + length cs ≤ rows * country_column_count area.width cw
      → All (Fits mode cw) cs
      → draw_known width area (country_column_count area.width cw) cw mode index cs
        ≡ rows_from area (country_column_count area.width cw) cw mode index cs
  unfolding draw_known rows_from
  draw_known-rows area cw rows mode index [] s h k r i a = refl
  draw_known-rows area cw rows mode index (c ∷ cs) s h k r i a =
      let fit = cell-fits area cw rows index s h k r (omega (arith, i)) in
      let drawn =
        row-drawn (cell area (country_column_count area.width cw) cw index) mode
          (country_flag c.country_code) c.country_code c.peer_count (omega (arith, fit.2, h))
          (cell-height area (country_column_count area.width cw) cw index)
          (omega (arith, fit.2, a.0)) in
      rw (drawn, draw_known-rows area cw rows mode (index + 1) cs s h k r (omega (arith, i)) a.1)
        refl
