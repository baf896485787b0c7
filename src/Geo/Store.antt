-- ===== src/Geo/Store.antt =====
-- src/geo/store.rs: the two tables, the transactions on them and the worker that runs these one after
-- the other. A table with a primary key `ip` is a list of rows under their keys.
--
-- SQLite is not modelled: a `Fault` is an error that it reports in a transaction, which is rolled
-- back then. `now` is the clock's reading in seconds. The clock never reads below 0, so that
-- `refreshed_at < now - TTL` is `refreshed_at + TTL < now`.
pub mod Peers
pub mod Locations
pub mod Turns
use chaindash.Base.{
  ltb, filter, Text, text_leb, Map, lookup, insert, sort_by, sorted_set, ℕ, ◌+◌, ◌*◌, Bool, true,
  false, ◌||◌, Option, none, some, List, [], ◌∷◌,
}
use chaindash.Geo.Snapshot.{GeoViewSnapshot, assemble_snapshot}

abbrev pub location_cache_ttl_seconds : ℕ
location_cache_ttl_seconds = 24 * 60 * 60

pub record LocationEntry : Type 0 where
  pub ip : Text
  pub country : Option Text
  pub loc : Option Text
  pub error : Option Text

-- A row of `location_cache`.
pub record Location : Type 0 where
  pub country : Text
  pub loc : Text
  pub refreshed_at : ℕ
  pub last_error : Text

-- `current_peers` holds `updated_at`.
pub record Database : Type 0 where
  pub current_peers : Map ℕ
  pub location_cache : Map Location

pub data StoreError : Type 0 where
  sqlite : Text → StoreError
  -- `INSERT` of a key that is there.
  primary_key : Text → StoreError
  unavailable : Text → StoreError

pub data Result (A : Type 0) : Type 0 where
  ok : A → Result A
  err : StoreError → Result A

abbrev pub Fault : Type 0
Fault = Option Text

-- `INSERT INTO current_peers`, given the row with the same key.
abbrev pub insert_new : Option ℕ → Text → ℕ → Map ℕ → Result (Map ℕ)
insert_new (some there) ip now peers = err (primary_key ip)
insert_new none ip now peers = ok ((ip, now) ∷ peers)

unfoldable pub insert_peer : Text → ℕ → Map ℕ → Result (Map ℕ)
unfolding lookup
insert_peer ip now peers = insert_new (lookup ip peers) ip now peers

abbrev pub and_then : {A B : Type 0} → Result A → (A → Result B) → Result B
and_then (ok a) f = f a
and_then (err e) f = err e

unfoldable pub insert_peers : List Text → ℕ → Map ℕ → Result (Map ℕ)
unfolding insert_peer
insert_peers [] now peers = ok peers
insert_peers (ip ∷ ips) now peers = and_then (insert_peer ip now peers) (insert_peers ips now)

unfoldable pub keys {ℓ} : {V : Type ℓ} → Map V → List Text
keys [] = []
keys ((k, v) ∷ m) = k ∷ keys m

-- `l.ip IS NULL OR l.refreshed_at < now - TTL`
abbrev pub is_stale : Option Location → ℕ → Bool
is_stale none now = true
is_stale (some l) now = ltb (l.refreshed_at + location_cache_ttl_seconds) now

unfoldable pub needs_enrichment : Map Location → ℕ → List Text → List Text
unfolding sort_by filter lookup text_leb
needs_enrichment cache now peers =
    sort_by text_leb (filter (λ ip. is_stale (lookup ip cache) now) peers)

-- What follows the insertions.
unfoldable pub commit_peers : Database → ℕ → Result (Map ℕ) → Database × Result (List Text)
unfolding needs_enrichment keys
commit_peers db now (err e) = (db, err e)
commit_peers db now (ok peers) =
    (record db { current_peers = peers }, ok (needs_enrichment db.location_cache now (keys peers)))

-- The new state, and the addresses that need enrichment.
unfoldable pub replace_peer_snapshot_tx :
    Database → List Text → ℕ → Fault → Database × Result (List Text)
unfolding sorted_set insert_peers commit_peers
replace_peer_snapshot_tx db ips now (some fault) = (db, err (sqlite fault))
replace_peer_snapshot_tx db ips now none =
    commit_peers db now (insert_peers (sorted_set ips) now [])

-- `unwrap_or("")`
abbrev pub or_empty : Option Text → Text
or_empty none = []
or_empty (some s) = s

-- `ON CONFLICT(ip) DO UPDATE SET last_error = excluded.last_error`
abbrev pub failed_location : Text → Option Location → Location
failed_location error none = record { country = []; loc = []; refreshed_at = 0; last_error = error }
failed_location error (some l) = record l { last_error = error }

unfoldable pub location_of : Option Location → LocationEntry → Option Text → ℕ → Location
location_of old entry (some error) now = failed_location error old
location_of old entry none now = record {
  country = or_empty entry.country;
  loc = or_empty entry.loc;
  refreshed_at = now;
  last_error = [];
}

unfoldable pub upsert_location : Map Location → LocationEntry → ℕ → Map Location
unfolding insert lookup location_of
upsert_location cache entry now =
    insert entry.ip (location_of (lookup entry.ip cache) entry entry.error now) cache

unfoldable pub upsert_locations : Map Location → List LocationEntry → ℕ → Map Location
unfolding upsert_location
upsert_locations cache [] now = cache
upsert_locations cache (entry ∷ entries) now =
    upsert_locations (upsert_location cache entry now) entries now

unfoldable pub update_location_cache_tx :
    Database → List LocationEntry → ℕ → Fault → Database × Result Unit
unfolding upsert_locations
update_location_cache_tx db entries now (some fault) = (db, err (sqlite fault))
update_location_cache_tx db entries now none =
    (record db { location_cache = upsert_locations db.location_cache entries now }, ok tt)

-- `COALESCE(l.country, '')`
abbrev pub country_or_empty : Option Location → Text
country_or_empty none = []
country_or_empty (some l) = l.country

-- `LEFT JOIN location_cache`
unfoldable pub join_rows : Map Location → List Text → List (Text × Text)
unfolding lookup
join_rows cache [] = []
join_rows cache (ip ∷ ips) = (ip, country_or_empty (lookup ip cache)) ∷ join_rows cache ips

unfoldable pub build_geo_view_snapshot : Database → Fault → Result GeoViewSnapshot
unfolding assemble_snapshot join_rows sort_by text_leb keys
build_geo_view_snapshot db (some fault) = err (sqlite fault)
build_geo_view_snapshot db none =
    ok (assemble_snapshot (join_rows db.location_cache (sort_by text_leb (keys db.current_peers))))

pub data StoreCommand : Type 0 where
  replace_snapshot : List Text → StoreCommand
  update_locations : List LocationEntry → StoreCommand
  snapshot : StoreCommand

pub data Reply : Type 0 where
  enrich : Result (List Text) → Reply
  updated : Result Unit → Reply
  view : Result GeoViewSnapshot → Reply

abbrev pub is_ok : {A : Type 0} → Result A → Bool
is_ok (ok a) = true
is_ok (err e) = false

-- The worker: the database, and whether the wake channel, which is `bounded(1)`, holds its message.
pub record Worker : Type 0 where
  pub db : Database
  pub wake : Bool

-- One turn of `worker_loop`. `Shutdown` ends the loop, and has no turn.
unfoldable pub worker_turn : Worker → StoreCommand → ℕ → Fault → Worker × Reply
unfolding replace_peer_snapshot_tx update_location_cache_tx build_geo_view_snapshot
worker_turn w (replace_snapshot ips) now fault =
    let (db, result) = replace_peer_snapshot_tx w.db ips now fault in
    (record { db = db; wake = is_ok result || w.wake }, enrich result)
worker_turn w (update_locations entries) now fault =
    let (db, result) = update_location_cache_tx w.db entries now fault in
    (record { db = db; wake = is_ok result || w.wake }, updated result)
worker_turn w snapshot now fault = (w, view (build_geo_view_snapshot w.db fault))

-- `NullPeerGeoStore`: every operation reports the error with which the database did not open.
unfoldable pub null_turn : Text → StoreCommand → Reply
null_turn error (replace_snapshot ips) = enrich (err (unavailable error))
null_turn error (update_locations entries) = updated (err (unavailable error))
null_turn error snapshot = view (err (unavailable error))
