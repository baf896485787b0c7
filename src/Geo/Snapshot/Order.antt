-- ===== src/Geo/Snapshot/Order.antt =====
-- The order of the countries.
use chaindash.Base.{
  length, Text, text_leb_total, text_leb_trans, sort_by, IsSortedBy, IsOrder, sort_by-IsSortedBy,
  ◌≡◌, refl, List, map, arith,
}
use chaindash.Geo.Snapshot.{
  country_count, key_leb, count_rows, no_rows, assemble_snapshot, count_leb, country_counts_of,
}

count-IsOrder : IsOrder count_leb
count-IsOrder = record {
  total = λ a b. ground (arith, text_leb_total a.country_code b.country_code);
  trans = λ a b c. ground (arith, text_leb_trans a.country_code b.country_code c.country_code);
}

-- The countries are listed by their counts, the largest first, and those with one count by code;
-- `unique_countries` is their number.
pub assemble_snapshot-IsSortedBy :
    (rows : List (Text × Text))
    → IsSortedBy count_leb (assemble_snapshot rows).country_counts
      × ((assemble_snapshot rows).unique_countries ≡ length (assemble_snapshot rows).country_counts)
unfolding assemble_snapshot country_counts_of
assemble_snapshot-IsSortedBy rows = (
  sort_by-IsSortedBy count-IsOrder
      (map country_count (sort_by key_leb (count_rows no_rows rows).country_totals)),
  refl,
)
