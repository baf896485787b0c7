-- ===== src/Geo/Store/Peers.antt =====
-- The Peer Snapshot that a transaction writes, and the addresses that it asks to enrich.
use chaindash.Base.{
  Bool-cases, filter, All, Text, text_eq, text_leb, text_eq→eq, Map, lookup, any-sort_by,
  sorted_set, contains, Below, IsStrict, contains-any, contains-sorted_set, sorted_set-IsStrict, ℕ,
  ◌≡◌, refl, sym, ap, ◌∙◌, inl, inr, Bool, false, ◌&&◌, ◌||◌, none, List, [], ◌∷◌, arith,
}
use chaindash.Geo.Store.{
  insert_new, commit_peers, Database, Location, ok, and_then, insert_peer, insert_peers, keys,
  is_stale, needs_enrichment, replace_peer_snapshot_tx,
}

-- The rows of the addresses, with no regard to keys that are there.
unfoldable pub rows_of : List Text → ℕ → Map ℕ → Map ℕ
rows_of [] now peers = peers
rows_of (ip ∷ ips) now peers = rows_of ips now ((ip, now) ∷ peers)

absent-cons :
    (x : Text) (now : ℕ) (peers : Map ℕ) (ys : List Text)
    → All (Below x) ys
    → All (λ y. lookup y peers ≡ none) ys
    → All (λ y. lookup y ((x, now) ∷ peers) ≡ none) ys
unfolding lookup
absent-cons x now peers [] below absent = tt
absent-cons x now peers (y ∷ ys) below absent =
    (rw (below.0.1) (absent.0), absent-cons x now peers ys below.1 absent.1)

-- No key is there twice.
insert_peers-rows_of :
    (ips : List Text) (now : ℕ) (peers : Map ℕ)
    → IsStrict ips
    → All (λ ip. lookup ip peers ≡ none) ips
    → insert_peers ips now peers ≡ ok (rows_of ips now peers)
unfolding insert_peers insert_peer rows_of
insert_peers-rows_of [] now peers strict absent = refl
insert_peers-rows_of (ip ∷ ips) now peers strict absent =
    ap (λ found. and_then (insert_new found ip now peers) (insert_peers ips now)) (absent.0)
    ∙ insert_peers-rows_of ips now ((ip, now) ∷ peers) strict.1
        (absent-cons ip now peers ips strict.0 absent.1)

contains-rows_of :
    (ips : List Text) (now : ℕ) (peers : Map ℕ) (ip : Text)
    → contains (keys (rows_of ips now peers)) ip ≡ (contains ips ip || contains (keys peers) ip)
unfolding rows_of contains keys
contains-rows_of [] now peers ip = refl
contains-rows_of (x ∷ xs) now peers ip =
    ground (arith, contains-rows_of xs now ((x, now) ∷ peers) ip)

nothing-absent : (ips : List Text) → All (λ (ip : Text). lookup {V = ℕ} ip [] ≡ none) ips
unfolding lookup
nothing-absent [] = tt
nothing-absent (ip ∷ ips) = (refl, nothing-absent ips)

or_false : (b : Bool) → (b || false) ≡ b
or_false b = ground arith

-- The Peer Snapshot that is written.
abbrev pub written : List Text → ℕ → Map ℕ
written ips now = rows_of (sorted_set ips) now []

-- Where SQLite reports no error the transaction succeeds for all addresses, with repetitions too: no
-- row violates the primary key.
replace-ok :
    (db : Database) (ips : List Text) (now : ℕ)
    → replace_peer_snapshot_tx db ips now none ≡ (
      record db { current_peers = written ips now },
      ok (needs_enrichment db.location_cache now (keys (written ips now))),
    )
unfolding replace_peer_snapshot_tx
replace-ok db ips now =
    ap (commit_peers db now) (
      insert_peers-rows_of (sorted_set ips) now [] (sorted_set-IsStrict ips)
        (nothing-absent (sorted_set ips)))
    ∙ unfold commit_peers in refl

contains-written :
    (ips : List Text) (now : ℕ) (ip : Text) → contains (keys (written ips now)) ip ≡ contains ips ip
contains-written ips now ip =
    contains-rows_of (sorted_set ips) now [] ip
    ∙ unfold keys contains in or_false (contains (sorted_set ips) ip) ∙ contains-sorted_set ips ip

contains-filter :
    (p : Text → Bool) (xs : List Text) (x : Text)
    → contains (filter p xs) x ≡ (contains xs x && p x)
unfolding contains filter
contains-filter p [] x = refl
contains-filter p (y ∷ ys) x = elim (Bool-cases (text_eq y x)) [
  | inl same ↦ ground (arith, contains-filter p ys x, text_eq→eq y x, same)
  | inr other ↦ ground (arith, contains-filter p ys x, other)
]

contains-needs_enrichment :
    (cache : Map Location) (now : ℕ) (peers : List Text) (ip : Text)
    → contains (needs_enrichment cache now peers) ip
      ≡ (contains peers ip && is_stale (lookup ip cache) now)
unfolding needs_enrichment
contains-needs_enrichment cache now peers ip =
    contains-any (needs_enrichment cache now peers) ip
    ∙ any-sort_by text_leb (λ y. text_eq y ip) (filter (λ y. is_stale (lookup y cache) now) peers)
    ∙ sym (contains-any (filter (λ y. is_stale (lookup y cache) now) peers) ip)
    ∙ contains-filter (λ y. is_stale (lookup y cache) now) peers ip

-- Where SQLite reports no error the transaction succeeds, whatever the addresses are and however
-- often each of them occurs. The Peer Snapshot then holds these addresses and no other; the ones to
-- enrich are those that the cache has no row for, or one that is older than 24 hours.
pub replace_peer_snapshot_tx-ok :
    (db : Database) (ips : List Text) (now : ℕ)
    → (peers : Map ℕ) × (asked : List Text) × (replace_peer_snapshot_tx db ips now none
        ≡ (record db { current_peers = peers }, ok asked))
      × ((ip : Text) → contains (keys peers) ip ≡ contains ips ip)
      × ((ip : Text)
          → contains asked ip ≡ (contains ips ip && is_stale (lookup ip db.location_cache) now))
replace_peer_snapshot_tx-ok db ips now = (
  written ips now,
  needs_enrichment db.location_cache now (keys (written ips now)),
  replace-ok db ips now,
  contains-written ips now,
  λ ip.
      contains-needs_enrichment db.location_cache now (keys (written ips now)) ip
      ∙ ap (λ b. b && is_stale (lookup ip db.location_cache) now) (contains-written ips now ip),
)
