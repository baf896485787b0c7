-- ===== src/Collect/Snapshots/Lookup.antt =====
-- The stored snapshots as a map from dates, which forgets the oldest one when it is full.
use chaindash.Base.{
  ltb, leb, if◌then◌else◌, Bool-cases, length, drop, find, length-append, length-drop, Text,
  text_eq, text_eq_iff, text_leb_total, text_leb_trans, IsSortedBy, length-sort_by, drop-IsSortedBy,
  IsOrder, sort_by-IsSortedBy, find_key, IsKeyed, without, length-without, find_key-missing,
  find_key-sort_by, sort_by-IsKeyed, has_key-without_self, without-IsKeyed, append_new-IsKeyed,
  drop-IsKeyed, find_key-set, suc, ◌-◌, ◌≤◌, ◌≡◌, refl, ◌∙◌, inl, inr, Bool, false, ◌&&◌, none,
  some, List, [], ◌∷◌, ◌++◌, arith,
}
use chaindash.Collect.Snapshots.{
  StoredDailyNodeSnapshot, StoredDailyNodeSnapshotStore, daily_node_snapshot_history_limit,
  snapshot_for, date_leb, upsert, prune, save_to,
}

module _ {F : Type 0} where
  abbrev pub date_of : StoredDailyNodeSnapshot F → Text
  date_of snapshot = snapshot.date

  -- The snapshots are sorted by date, no date occurs twice, and there are at most 32 of them.
  abbrev pub IsHistory : StoredDailyNodeSnapshotStore F → Type 0
  IsHistory s =
      IsSortedBy date_leb s.snapshots
      × IsKeyed date_of s.snapshots
      × (length s.snapshots ≤ daily_node_snapshot_history_limit)

  date-IsOrder : IsOrder (date_leb {F = F})
  date-IsOrder = record {
    total = λ a b. text_leb_total a.date b.date;
    trans = λ a b c. text_leb_trans a.date b.date c.date;
  }

  set-IsKeyed :
      (s : StoredDailyNodeSnapshotStore F) (x : StoredDailyNodeSnapshot F)
      → IsKeyed date_of s.snapshots
      → IsKeyed date_of (without date_of x.date s.snapshots ++ x ∷ [])
  set-IsKeyed s x h =
      append_new-IsKeyed date_of (without date_of x.date s.snapshots) x
        (without-IsKeyed date_of x.date s.snapshots h)
        (has_key-without_self date_of x.date s.snapshots)

  upsert-IsKeyed :
      (s : StoredDailyNodeSnapshotStore F) (x : StoredDailyNodeSnapshot F)
      → IsKeyed date_of s.snapshots
      → IsKeyed date_of (upsert s x).snapshots
  unfolding upsert
  upsert-IsKeyed s x h = sort_by-IsKeyed date_of date_leb _ (set-IsKeyed s x h)

  upsert-IsSortedBy :
      (s : StoredDailyNodeSnapshotStore F) (x : StoredDailyNodeSnapshot F)
      → IsSortedBy date_leb (upsert s x).snapshots
  unfolding upsert
  upsert-IsSortedBy s x =
      sort_by-IsSortedBy date-IsOrder (without date_of x.date s.snapshots ++ x ∷ [])

  length-upsert :
      (s : StoredDailyNodeSnapshotStore F) (x : StoredDailyNodeSnapshot F)
      → length (upsert s x).snapshots ≤ suc (length s.snapshots)
  unfolding upsert
  length-upsert s x = omega (
    arith,
    length-sort_by date_leb (without date_of x.date s.snapshots ++ x ∷ []),
    length-append (without date_of x.date s.snapshots) (x ∷ []),
    length-without date_of x.date s.snapshots,
  )

  prune-IsHistory :
      (s : StoredDailyNodeSnapshotStore F)
      → IsSortedBy date_leb s.snapshots
      → IsKeyed date_of s.snapshots
      → IsHistory (prune s)
  unfolding prune
  prune-IsHistory s h k = elim (Bool-cases (leb (length s.snapshots) 32)) [
    | inl fits ↦ rw fits (h, k, ground (arith, fits))
    | inr over ↦ rw over (
      drop-IsSortedBy date_leb (length s.snapshots - 32) s.snapshots h,
      drop-IsKeyed date_of (length s.snapshots - 32) s.snapshots k,
      ground (arith, over, length-drop (length s.snapshots - 32) s.snapshots),
    )
  ]

  -- Whatever store it was, sorted or not: what is saved has at most 32 snapshots, sorted by date,
  -- and no date twice if none was there twice.
  pub save_to-IsHistory :
      (s : StoredDailyNodeSnapshotStore F) (x : StoredDailyNodeSnapshot F)
      → IsKeyed date_of s.snapshots
      → IsHistory (save_to s x)
  save_to-IsHistory s x h =
      prune-IsHistory (upsert s x) (upsert-IsSortedBy s x) (upsert-IsKeyed s x h)

  -- The date is that of the first snapshot of more than 32.
  abbrev pub is_first : Text → List (StoredDailyNodeSnapshot F) → Bool
  is_first date [] = false
  is_first date (x ∷ xs) = text_eq x.date date

  abbrev pub is_pruned : StoredDailyNodeSnapshotStore F → Text → Bool
  is_pruned s date =
      ltb daily_node_snapshot_history_limit (length s.snapshots) && is_first date s.snapshots

  snapshot_for-drop :
      (xs : List (StoredDailyNodeSnapshot F)) (date : Text)
      → IsKeyed date_of xs
      → find_key date_of date (drop 1 xs)
        ≡ (if is_first date xs then none else find_key date_of date xs)
  unfolding find
  snapshot_for-drop [] date h = refl
  snapshot_for-drop (x ∷ xs) date h =
      ground (arith, text_eq_iff x.date date, find_key-missing date_of date xs, h.0)

  snapshot_for-prune :
      (s : StoredDailyNodeSnapshotStore F) (date : Text)
      → IsKeyed date_of s.snapshots
      → length s.snapshots ≤ 33
      → snapshot_for (prune s) date ≡ (if is_pruned s date then none else snapshot_for s date)
  unfolding snapshot_for prune
  snapshot_for-prune s date h k = elim (Bool-cases (leb (length s.snapshots) 32)) [
    | inl fits ↦
        let room : ltb 32 (length s.snapshots) ≡ false = ground (arith, fits) in
        rw (fits, room) refl
    | inr over ↦
        let full : length s.snapshots ≡ 33 = ground (arith, over, k) in
        rw full (snapshot_for-drop s.snapshots date h)
  ]

  snapshot_for-upsert :
      (s : StoredDailyNodeSnapshotStore F) (x : StoredDailyNodeSnapshot F) (date : Text)
      → IsKeyed date_of s.snapshots
      → snapshot_for (upsert s x) date
        ≡ (if text_eq x.date date then some x else snapshot_for s date)
  unfolding snapshot_for upsert
  snapshot_for-upsert s x date h =
      find_key-sort_by date_of date_leb _ date (set-IsKeyed s x h)
      ∙ find_key-set date_of s.snapshots x date

  -- After a save a date is looked up as in a map in which the snapshot was set, except that the
  -- first date is gone if there were more than 32 with it.
  pub snapshot_for-save_to :
      (s : StoredDailyNodeSnapshotStore F) (x : StoredDailyNodeSnapshot F) (date : Text)
      → IsHistory s
      → snapshot_for (save_to s x) date ≡ (
          if is_pruned (upsert s x) date
          then none
          else if text_eq x.date date
          then some x
          else snapshot_for s date)
  snapshot_for-save_to s x date h =
      rw
        (
          snapshot_for-prune (upsert s x) date (upsert-IsKeyed s x h.1)
              (omega (arith, length-upsert s x, h.2)),
          snapshot_for-upsert s x date h.1,
        )
        refl
