-- ===== src/Collect/Snapshots/Deltas.antt =====
-- The daily summary after the snapshot of the day before.
use mathlib.Core.Option
use chaindash.Base.{
  if◌then◌else◌, find, All, Text, text_eq, text_eq_refl, text_eq_iff, is_empty, ℕ, ◌-◌, ◌≡◌, refl,
  sym, ◌⊎◌, inl, inr, Bool, false, Option, none, some, List, [], ◌∷◌, map, arith,
}
use chaindash.Data.NodeDetails.{NodeDetail}
use chaindash.Collect.Snapshots.{
  snapshot_at, summary_detail, or_else, stored_detail, find_by, Floats, Calendar,
  StoredDailyNodeSnapshot, StoredDailyNodeSnapshotStore, DailyNodeSummaryDetail,
  StoredDailyNodeSnapshotDetail, from_node_details, find_snapshot_detail, snapshot_for, save_to,
  upsert, daily_summary_details, build_daily_summary_details,
}
use chaindash.Collect.Snapshots.Lookup.{IsHistory, is_pruned, snapshot_for-save_to}

module _ {F : Type 0} where
  -- The quantity of the first detail with the id.
  unfoldable pub quantity_of : Text → List (NodeDetail F) → Option ℕ
  unfolding text_eq
  quantity_of node_id [] = none
  quantity_of node_id (d ∷ ds) =
      let rest = quantity_of node_id ds in
      if text_eq d.node_id node_id then some d.block_qty else rest

  -- The blocks since then, of each node that was there under its id.
  abbrev pub IsDelta : List (NodeDetail F) → NodeDetail F → DailyNodeSummaryDetail F → Type 0
  IsDelta before d summary =
      (summary.node_id ≡ d.node_id)
      × ((quantity_of d.node_id before ≡ none)
          ⊎ ((q : ℕ) × (quantity_of d.node_id before ≡ some q)
              × (summary.daily_block_qty ≡ some (d.block_qty - q))))

  -- Item by item.
  abbrev pub AllDeltas :
      List (NodeDetail F) → List (NodeDetail F) → List (DailyNodeSummaryDetail F) → Type 0
  AllDeltas before [] [] = Unit
  AllDeltas before [] (s ∷ ss) = ⊥
  AllDeltas before (d ∷ ds) [] = ⊥
  AllDeltas before (d ∷ ds) (s ∷ ss) = IsDelta before d s × AllDeltas before ds ss

  abbrev pub HasId : NodeDetail F → Type 0
  HasId d = is_empty d.node_id ≡ false

  find-quantity :
      (node_id : Text) (before : List (NodeDetail F))
      → is_empty node_id ≡ false
      → Option.map
          (λ (c : StoredDailyNodeSnapshotDetail F). c.block_qty)
          (find_by
            (λ (c : StoredDailyNodeSnapshotDetail F). c.node_id)
            node_id
            (map stored_detail before))
        ≡ quantity_of node_id before
  unfolding quantity_of find
  find-quantity node_id [] h = rw h refl
  find-quantity node_id (d ∷ ds) h =
      rw h (ground (arith, text_eq_iff d.node_id node_id, rw h at (find-quantity node_id ds h)))

  daily_quantity :
      (found other : Option (StoredDailyNodeSnapshotDetail F)) (quantity : Option ℕ) (now : ℕ)
      → Option.map (λ (c : StoredDailyNodeSnapshotDetail F). c.block_qty) found ≡ quantity
      → (quantity ≡ none)
        ⊎ ((q : ℕ) × (quantity ≡ some q)
            × (Option.map
                  (λ (c : StoredDailyNodeSnapshotDetail F). now - c.block_qty)
                  (or_else found other)
                ≡ some (now - q)))
  daily_quantity none other quantity now e = inl (sym e)
  daily_quantity (some c) other quantity now e = inr (c.block_qty, sym e, refl)

module _ {F Date : Type 0} (floats : Floats F) (calendar : Calendar Date) where
  summary-IsDelta :
      (date : Text) (before : List (NodeDetail F)) (monthly : Option (StoredDailyNodeSnapshot F))
      (show : Bool) (d : NodeDetail F)
      → HasId d
      → IsDelta before d
          (summary_detail floats (some (from_node_details date before)) monthly show d)
  unfolding find_snapshot_detail from_node_details
  summary-IsDelta date before monthly show d h = (
    refl,
    daily_quantity
        (find_by (λ (c : StoredDailyNodeSnapshotDetail F). c.node_id) d.node_id
          (map stored_detail before))
        _ (quantity_of d.node_id before) d.block_qty (find-quantity d.node_id before h),
  )

  build-AllDeltas :
      (date : Text) (before : List (NodeDetail F)) (monthly : Option (StoredDailyNodeSnapshot F))
      (show : Bool) (details : List (NodeDetail F))
      → All HasId details
      → AllDeltas before details (
          build_daily_summary_details floats details
            (some (from_node_details date before))
            monthly
            show)
  unfolding build_daily_summary_details
  build-AllDeltas date before monthly show [] h = tt
  build-AllDeltas date before monthly show (d ∷ ds) h = (
    summary-IsDelta date before monthly show d h.0,
    build-AllDeltas date before monthly show ds h.1,
  )

  saved_snapshot :
      (s : StoredDailyNodeSnapshotStore F) (date : Text) (before : List (NodeDetail F))
      → IsHistory s
      → is_pruned (upsert s (from_node_details date before)) date ≡ false
      → snapshot_for (save_to s (from_node_details date before)) date
        ≡ some (from_node_details date before)
  unfolding from_node_details
  saved_snapshot s date before h kept =
      rw (snapshot_for-save_to s (from_node_details date before) date h, kept, text_eq_refl date)
        refl

  previous_snapshot :
      (s : StoredDailyNodeSnapshotStore F) (yesterday : Date) (before : List (NodeDetail F))
      (day : Option Date)
      → IsHistory s
      → day ≡ some yesterday
      → is_pruned
          (upsert s (from_node_details (calendar.to_string yesterday) before))
          (calendar.to_string yesterday)
        ≡ false
      → snapshot_at calendar
          (save_to s (from_node_details (calendar.to_string yesterday) before))
          day
        ≡ some (from_node_details (calendar.to_string yesterday) before)
  previous_snapshot s yesterday before day h e kept =
      rw e (saved_snapshot s (calendar.to_string yesterday) before h kept)

  -- After the snapshot of the day before was saved into a store as the saves leave it, where it is not
  -- the one that is dropped: the summary lists the nodes in order, and says for each one that was in the snapshot, under its id,
  -- how many blocks it has more than there, or 0 if it has fewer. Every node has an id.
  pub daily_summary_details-save_to :
      (s : StoredDailyNodeSnapshotStore F) (yesterday today : Date)
      (before details : List (NodeDetail F))
      → IsHistory s
      → calendar.pred_opt today ≡ some yesterday
      → is_pruned
          (upsert s (from_node_details (calendar.to_string yesterday) before))
          (calendar.to_string yesterday)
        ≡ false
      → All HasId details
      → AllDeltas before details (
          daily_summary_details floats calendar
            (save_to s (from_node_details (calendar.to_string yesterday) before))
            today
            details)
  unfolding daily_summary_details
  daily_summary_details-save_to s yesterday today before details h e kept ids =
      rw (previous_snapshot s yesterday before (calendar.pred_opt today) h e kept)
        (build-AllDeltas (calendar.to_string yesterday) before _ _ details ids)
