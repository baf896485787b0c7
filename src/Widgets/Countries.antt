-- ===== src/Widgets/Countries.antt =====
-- The panel of src/widgets/countries.rs: what it draws, and where. `width` is the number of columns
-- that a text takes, which ratatui computes; a line takes those of its spans together. A `u16` that
-- comes from a cast is taken modulo 2 ^ 16.
pub mod Drawing
pub mod Layout
pub mod Rows
pub mod Shown
use chaindash.Base.{
  ltb, leb, ◌==◌, if◌then◌else◌, not, length, all, Text, codes, ascii_lower, bytes, starts_with, ℕ,
  ◌+◌, ◌-◌, ◌/◌, min, max, Bool, true, false, ◌&&◌, ◌||◌, Option, none, some, List, [], ◌∷◌, ◌++◌,
  map,
}
use chaindash.Opts.Number.{decimal}
use chaindash.Geo.Snapshot.{CountryCount, GeoViewSnapshot}

abbrev pub content_row_count : ℕ
content_row_count = 4

abbrev pub summary_row_index : ℕ
summary_row_index = 3

abbrev pub country_column_gap : ℕ
country_column_gap = 2

abbrev pub max_country_columns : ℕ
max_country_columns = 5

pub data CountryRowMode : Type 0 where
  flag_and_code code_and_count summary_only : CountryRowMode

pub record Rect : Type 0 where
  pub x : ℕ
  pub y : ℕ
  pub width : ℕ
  pub height : ℕ

-- A text that is drawn from the left end of an area, in at most as many columns as the area has.
pub record Drawn : Type 0 where
  pub area : Rect
  pub text : Text

pub record PeerCountriesWidget : Type 0 where
  pub snapshot : GeoViewSnapshot
  pub snapshot_loaded : Bool
  pub show_country_flags : Bool

-- `to_ascii_lowercase` and `starts_with`
unfoldable pub terminal_name_supports_country_flags : Text → Bool
unfolding ascii_lower starts_with
terminal_name_supports_country_flags term =
    let term = map ascii_lower term in
    not (starts_with (codes "tmux") term) && not (starts_with (codes "screen") term)

abbrev is_ascii_uppercase : ℕ → Bool
is_ascii_uppercase letter = leb b'A' letter && leb letter b'Z'

-- Two regional indicators; the bytes of a text of two capital letters are these letters.
unfoldable pub country_flag : Text → Text
unfolding bytes all
country_flag country_code =
    if not (length (bytes country_code) == 2) || not (all is_ascii_uppercase (bytes country_code))
    then []
    else map (λ letter. 0x1F1E6 + (letter - b'A')) (bytes country_code)

unfoldable pub country_column_count : ℕ → ℕ → ℕ
country_column_count area_width column_width =
    if column_width == 0
    then 1
    else max 1 (
        min ((area_width + country_column_gap) / (column_width + country_column_gap))
          max_country_columns)

unfoldable pub summary_texts : ℕ → ℕ → ℕ → Text × Text
unfolding decimal
summary_texts known_country_count hidden_known_country_count total_peer_count =
    let displayed =
      if ltb 0 hidden_known_country_count
      then hidden_known_country_count
      else known_country_count in
    let prefix = if ltb 0 hidden_known_country_count then codes "+" else [] in
    let country_label = if displayed == 1 then codes "country" else codes "countries" in
    let peer_label = if total_peer_count == 1 then codes "peer" else codes "peers" in
    (
      prefix
          ++ (decimal displayed
              ++ (codes " "
                  ++ (country_label
                      ++ (codes " · "
                          ++ (decimal total_peer_count ++ (codes " " ++ peer_label)))))),
      prefix ++ (decimal displayed ++ (codes "c · " ++ (decimal total_peer_count ++ codes "p"))),
    )

abbrev pub unknown_country_flag : Text
unknown_country_flag = codes "🌐"

abbrev pub unknown_country_code : Text
unknown_country_code = codes "--"

-- `self.store.geo_view_snapshot()`, and whether it was read.
unfoldable pub refresh_snapshot :
    PeerCountriesWidget → Option GeoViewSnapshot → PeerCountriesWidget × Bool
refresh_snapshot w none = (w, false)
refresh_snapshot w (some snapshot) =
    (record w { snapshot = snapshot; snapshot_loaded = true }, true)

abbrev pub row_text : CountryRowMode → Text → Text → ℕ → Text
row_text flag_and_code flag code count =
    flag ++ (codes " " ++ (code ++ (codes " [" ++ (decimal count ++ codes "]"))))
row_text code_and_count flag code count = code ++ (codes " [" ++ (decimal count ++ codes "]"))
row_text summary_only flag code count = []

-- The tests of `country_row_mode`, given both widths.
abbrev pub mode_for : Bool → ℕ × ℕ → ℕ → CountryRowMode
mode_for show_country_flags (full, code_only) area_width =
    if show_country_flags && ltb 0 full && leb full area_width
    then flag_and_code
    else if ltb 0 code_only && leb code_only area_width
    then code_and_count
    else summary_only

module _ (width : Text → ℕ) where
  unfoldable pub country_row_widths : Text → Text → ℕ → ℕ × ℕ
  unfolding decimal
  country_row_widths flag country_code peer_count =
      let code_only =
        width country_code + width (codes " [") + width (decimal peer_count) + width (codes "]") in
      (width flag + width (codes " ") + code_only, code_only)

  -- The columns of a row, by its mode.
  abbrev pub row_width : CountryRowMode → ℕ × ℕ → ℕ
  row_width flag_and_code (full, code_only) = full
  row_width code_and_count (full, code_only) = code_only
  row_width summary_only widths = 0

  unfoldable pub render_country_row : Rect → CountryRowMode → Text → Text → ℕ → List Drawn
  unfolding country_row_widths
  render_country_row area summary_only flag code count = []
  render_country_row area mode flag code count =
      if area.width == 0 || area.height == 0
      then []
      else if ltb area.width (row_width mode (country_row_widths flag code count))
      then []
      else record { area = area; text = row_text mode flag code count } ∷ []

  unfoldable pub render_summary : Rect → ℕ → ℕ → ℕ → List Drawn
  unfolding summary_texts
  render_summary area known hidden total =
      let (full, compact) = summary_texts known hidden total in
      if area.width == 0 || area.height == 0
      then []
      else if leb (width full) area.width
      then record { area = record area { width = width full }; text = full } ∷ []
      else if leb (width compact) area.width
      then record { area = record area { width = width compact }; text = compact } ∷ []
      else []

  -- The largest widths, by both modes.
  abbrev pub wider : ℕ × ℕ → ℕ × ℕ → ℕ × ℕ
  wider (a, b) (c, d) = (max a c, max b d)

  unfoldable pub known_widths : List CountryCount → ℕ × ℕ
  unfolding country_row_widths country_flag
  known_widths [] = (0, 0)
  known_widths (c ∷ cs) =
      wider (country_row_widths (country_flag c.country_code) c.country_code c.peer_count)
        (known_widths cs)

  unfoldable pub country_widths : PeerCountriesWidget → ℕ × ℕ
  unfolding known_widths country_row_widths
  country_widths w =
      if ltb 0 w.snapshot.unknown_country_count
      then wider
          (country_row_widths unknown_country_flag unknown_country_code
            w.snapshot.unknown_country_count)
          (known_widths w.snapshot.country_counts)
      else known_widths w.snapshot.country_counts

  unfoldable pub country_row_mode : PeerCountriesWidget → ℕ → CountryRowMode
  unfolding country_widths
  country_row_mode w area_width = mode_for w.show_country_flags (country_widths w) area_width

  unfoldable pub country_row_width : PeerCountriesWidget → CountryRowMode → ℕ
  unfolding country_widths
  country_row_width w mode = row_width mode (country_widths w)
