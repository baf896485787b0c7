-- ===== src/Geo/Snapshot.antt =====
-- src/geo/snapshot.rs.
pub mod Counts
pub mod Codes
pub mod Order
use chaindash.Base.{
  leb, ◌==◌, if◌then◌else◌, not, length, all, Text, text_eq, text_leb, trim, ascii_upper, bytes,
  Map, then_with, sort_by, contains, ℕ, ◌+◌, Bool, ◌&&◌, ◌||◌, Option, none, some, List, [], ◌∷◌,
  map,
}

pub record CountryCount : Type 0 where
  pub country_code : Text
  pub peer_count : ℕ

pub record GeoViewSnapshot : Type 0 where
  pub total_peers : ℕ
  pub unique_countries : ℕ
  pub country_counts : List CountryCount
  pub unknown_country_count : ℕ

-- `u8::is_ascii_alphabetic`
abbrev pub is_ascii_alphabetic : ℕ → Bool
is_ascii_alphabetic b = (leb b'a' b && leb b b'z') || (leb b'A' b && leb b b'Z')

unfoldable pub normalize_country_code : Text → Option Text
unfolding trim bytes all ascii_upper
normalize_country_code country =
    let country = trim country in
    if not (length (bytes country) == 2) || not (all is_ascii_alphabetic (bytes country))
    then none
    else some (map ascii_upper country)

-- What the loop of `assemble_snapshot` carries.
pub record Tally : Type 0 where
  pub seen_ips : List Text
  pub country_totals : Map ℕ
  pub unknown_country_count : ℕ

-- `*country_totals.entry(country_code).or_insert(0) += 1`
unfoldable pub add_one : Text → Map ℕ → Map ℕ
add_one code [] = (code, 1) ∷ []
add_one code ((j, n) ∷ m) =
    let rest = add_one code m in if text_eq j code then (j, n + 1) ∷ m else (j, n) ∷ rest

unfoldable pub count_country : Tally → Option Text → Tally
unfolding add_one
count_country t none = record t { unknown_country_count = t.unknown_country_count + 1 }
count_country t (some code) = record t { country_totals = add_one code t.country_totals }

unfoldable pub count_row : Tally → Text × Text → Tally
unfolding count_country normalize_country_code contains
count_row t (ip, country) =
    if contains t.seen_ips ip
    then t
    else count_country (record t { seen_ips = ip ∷ t.seen_ips }) (normalize_country_code country)

unfoldable pub count_rows : Tally → List (Text × Text) → Tally
unfolding count_row
count_rows t [] = t
count_rows t (row ∷ rows) = count_rows (count_row t row) rows

abbrev pub no_rows : Tally
no_rows = record { seen_ips = []; country_totals = []; unknown_country_count = 0 }

-- By peer count, the most first, and then by code.
abbrev pub count_leb : CountryCount → CountryCount → Bool
count_leb l r =
    then_with (l.peer_count == r.peer_count) (leb r.peer_count l.peer_count)
      (text_leb l.country_code r.country_code)

-- The order in which a `BTreeMap` gives its entries.
abbrev pub key_leb : Text × ℕ → Text × ℕ → Bool
key_leb l r = text_leb l.0 r.0

abbrev pub country_count : Text × ℕ → CountryCount
country_count (code, n) = record { country_code = code; peer_count = n }

unfoldable pub country_counts_of : Map ℕ → List CountryCount
unfolding sort_by text_leb
country_counts_of totals = sort_by count_leb (map country_count (sort_by key_leb totals))

unfoldable pub assemble_snapshot : List (Text × Text) → GeoViewSnapshot
unfolding count_rows country_counts_of
assemble_snapshot rows =
    let t = count_rows no_rows rows in
    let counts = country_counts_of t.country_totals in
    record {
      total_peers = length t.seen_ips;
      unique_countries = length counts;
      country_counts = counts;
      unknown_country_count = t.unknown_country_count;
    }
