-- ===== src/Geo/Examples.antt =====
-- Three addresses, two of them in one country.
use chaindash.Base.{
  length, Text, codes, text_eq, Map, lookup, contains, IsStrict, ℕ, ◌+◌, ◌≡◌, refl, inr, false,
  ◌&&◌, none, some, List, [], ◌∷◌,
}
use chaindash.Geo.Snapshot.{CountryCount, assemble_snapshot, normalize_country_code}
use chaindash.Geo.Snapshot.Counts.{
  sum_of, first_rows, in_country, peers_at, total-assemble_snapshot, peers_at-assemble_snapshot,
}
use chaindash.Geo.Peers
use chaindash.Geo.Peers.{NodeResult, merge_node_results}
use chaindash.Geo.Peers.Merge.{first_failure, lists, merge_node_results-ok}
use chaindash.Geo.Store.{
  Database, Location, LocationEntry, ok, keys, is_stale, replace_peer_snapshot_tx, upsert_locations,
  Worker,
}
use chaindash.Geo.Store.Peers.{replace_peer_snapshot_tx-ok}
use chaindash.Geo.Store.Locations.{lookup-upsert_locations}

abbrev rows : List (Text × Text)
rows =
    (codes "1.1.1.1", codes "cn")
    ∷ (codes "2.2.2.2", codes " US")
    ∷ (codes "1.1.1.1", codes "DE")
    ∷ (codes "3.3.3.3", codes "CN")
    ∷ (codes "4.4.4.4", codes "?")
    ∷ []

total-assemble_snapshot_example :
    ((assemble_snapshot rows).total_peers ≡ length (first_rows [] rows))
    × ((assemble_snapshot rows).total_peers
        ≡ sum_of (λ (c : CountryCount). c.peer_count) (assemble_snapshot rows).country_counts
          + (assemble_snapshot rows).unknown_country_count)
total-assemble_snapshot_example = total-assemble_snapshot rows

peers_at-assemble_snapshot_example :
    sum_of (peers_at (codes "CN")) (assemble_snapshot rows).country_counts
    ≡ sum_of
        (λ (r : Text × Text). in_country (codes "CN") (normalize_country_code (r.1)))
        (first_rows [] rows)
peers_at-assemble_snapshot_example = peers_at-assemble_snapshot (codes "CN") rows

cn-accepted : normalize_country_code (codes " cn ") ≡ some (codes "CN")
unfolding normalize_country_code
cn-accepted = refl

abbrev found : Location
found = record { country = codes "CN"; loc = codes "1,2"; refreshed_at = 100; last_error = [] }

abbrev db : Database
db = record { current_peers = []; location_cache = (codes "1.1.1.1", found) ∷ [] }

abbrev addresses : List Text
addresses = codes "2.2.2.2" ∷ codes "1.1.1.1" ∷ codes "2.2.2.2" ∷ []

replace_peer_snapshot_tx-ok_example :
    (peers : Map ℕ) × (asked : List Text) × (replace_peer_snapshot_tx db addresses 200 none
      ≡ (record db { current_peers = peers }, ok asked))
    × ((ip : Text) → contains (keys peers) ip ≡ contains addresses ip)
    × ((ip : Text)
        → contains asked ip ≡ (contains addresses ip && is_stale (lookup ip db.location_cache) 200))
replace_peer_snapshot_tx-ok_example = replace_peer_snapshot_tx-ok db addresses 200

abbrev failure : Text → LocationEntry
failure ip = record { ip = ip; country = none; loc = none; error = some (codes "timeout") }

found-there : lookup (codes "1.1.1.1") db.location_cache ≡ some found
unfolding lookup text_eq
found-there = refl

lookup-upsert_locations_example :
    (error : Text) × (lookup (codes "1.1.1.1") (
        upsert_locations db.location_cache
          (failure (codes "1.1.1.1") ∷ failure (codes "3.3.3.3") ∷ [])
          300)
      ≡ some (record found { last_error = error }))
lookup-upsert_locations_example =
    lookup-upsert_locations db.location_cache
      (failure (codes "1.1.1.1") ∷ failure (codes "3.3.3.3") ∷ []) 300 (codes "1.1.1.1") found
      found-there (inr (codes "timeout", refl), (inr (codes "timeout", refl), tt))

abbrev worker : Worker
worker = record { db = db; wake = false }

-- Addresses are texts here, and print as they are.
abbrev answers : List (NodeResult (List Text))
answers = Peers.ok (codes "2.2.2.2" ∷ codes "1.1.1.1" ∷ []) ∷ Peers.ok (codes "1.1.1.1" ∷ []) ∷ []

answers_complete : first_failure (λ (ip : Text). ip) answers ≡ none
unfolding first_failure
answers_complete = refl

merge_node_results-ok_example :
    (ips : List Text) × (merge_node_results (λ ip. ip) answers ≡ Peers.ok ips)
    × IsStrict ips
    × ((ip : Text) → contains ips ip ≡ lists (λ (ip : Text). ip) answers ip)
merge_node_results-ok_example = merge_node_results-ok (λ ip. ip) answers answers_complete

abbrev outage : List (NodeResult (List Text))
outage = Peers.ok (codes "1.1.1.1" ∷ []) ∷ Peers.err (codes "timeout") ∷ []

outage_failure : first_failure (λ (ip : Text). ip) outage ≡ some (codes "timeout")
unfolding first_failure
outage_failure = refl
