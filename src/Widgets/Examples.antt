-- ===== src/Widgets/Examples.antt =====
-- A number of seven digits, a node name that is cut, and a panel of four rows.
use chaindash.Base.{
  length, Text, codes, ℕ, ◌+◌, ◌≤◌, ◌<◌, ◌≡◌, refl, ◌⊎◌, true, false, [], ◌∷◌, arith,
}
use chaindash.Widgets.Helpers.{format_grouped_u64}
use chaindash.Widgets.Countries.{PeerCountriesWidget, Rect, country_column_count}
use chaindash.Widgets.Countries.Drawing.{cell}
use chaindash.Widgets.Countries.Layout.{OnScreen, IsInside, cell-apart}

grouped : format_grouped_u64 1234567 ≡ codes "1,234,567"
unfolding format_grouped_u64
grouped = refl

-- A text takes as many columns as it has characters.
abbrev columns_of : Text → ℕ
columns_of s = length s

abbrev widget : PeerCountriesWidget
widget = record {
  snapshot = record {
    total_peers = 9;
    unique_countries = 2;
    country_counts =
        record { country_code = codes "DE"; peer_count = 5 }
        ∷ record { country_code = codes "SG"; peer_count = 3 }
        ∷ [];
    unknown_country_count = 1;
  };
  snapshot_loaded = true;
  show_country_flags = false;
}

abbrev area : Rect
area = record { x = 1; y = 1; width = 20; height = 4 }

area-OnScreen : OnScreen area
area-OnScreen = (omega arith, omega arith)

cell-apart_example :
    let first = cell area (country_column_count 20 6) 6 1 in
    let second = cell area (country_column_count 20 6) 6 2 in
    IsInside area 6 3 first
    × IsInside area 6 3 second
    × ((first.y < second.y) ⊎ ((first.y ≡ second.y) × (first.x + 6 + 2 ≤ second.x)))
cell-apart_example =
    cell-apart area 6 3 1 2 area-OnScreen (omega arith) (omega arith) (omega arith)
      (unfold country_column_count in omega arith) (omega arith)
