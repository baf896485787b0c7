-- ===== src/Geo/Store/Turns.antt =====
-- The turns of the worker.
use chaindash.Base.{
  Text, Map, sorted_set, ℕ, ◌≡◌, refl, ◌⊎◌, inl, inr, true, ◌||◌, none, some, List, [],
}
use chaindash.Geo.Store.{
  commit_peers, Worker, StoreCommand, replace_snapshot, update_locations, snapshot, Fault,
  worker_turn, replace_peer_snapshot_tx, update_location_cache_tx, is_ok, Result, ok, err, Database,
  insert_peers,
}

abbrev worker_after : Worker → Database × Result (List Text) → Worker
worker_after w (db, result) = record { db = db; wake = is_ok result || w.wake }

commit-wakes :
    (w : Worker) (now : ℕ) (r : Result (Map ℕ))
    → (worker_after w (commit_peers w.db now r) ≡ w)
      ⊎ ((worker_after w (commit_peers w.db now r)).wake ≡ true)
unfolding commit_peers
commit-wakes w now (err e) = inl refl
commit-wakes w now (ok peers) = inr refl

-- After a turn the worker is as it was, or the wake message is there: no commit goes unnoticed, and
-- what fails changes nothing.
pub worker_turn-wakes :
    (w : Worker) (c : StoreCommand) (now : ℕ) (fault : Fault)
    → ((worker_turn w c now fault).0 ≡ w) ⊎ ((worker_turn w c now fault).0.wake ≡ true)
unfolding worker_turn replace_peer_snapshot_tx update_location_cache_tx
worker_turn-wakes w (replace_snapshot ips) now (some fault) = inl refl
worker_turn-wakes w (replace_snapshot ips) now none =
    commit-wakes w now (insert_peers (sorted_set ips) now [])
worker_turn-wakes w (update_locations entries) now (some fault) = inl refl
worker_turn-wakes w (update_locations entries) now none = inr refl
worker_turn-wakes w snapshot now fault = inl refl
