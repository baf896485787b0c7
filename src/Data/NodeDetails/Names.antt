-- ===== src/Data/NodeDetails/Names.antt =====
-- What every stored detail keeps to.
use chaindash.Base.{
  Option-cases, Text, is_empty, Map, lookup, AllValues, AllValues-insert, AllValues-remove,
  AllValues-lookup, ℤ, ◌≡◌, inl, inr, Bool, true, Option, none, some, List, [], ◌∷◌, arith,
}
use chaindash.Data.NodeDetails.{
  target_id, adopt_id, NodeDetail, NodeDetailStore, name_by_id, with_ranking, completed,
  update_node_detail, merge_node_ranking, merge_node_ranking_for, merge_node_detail,
  merge_node_detail_for, remove_node_detail, mark_loaded, node_detail_key,
}

-- The calls that change the store.
pub data Change (F : Type 0) : Type 0 where
  update : Option (NodeDetail F) → Change F
  merge_ranking : Option ℤ → Change F
  merge_ranking_for : Text → Option ℤ → Change F
  merge_detail : Option (NodeDetail F) → Change F
  merge_detail_for : Text → Option (NodeDetail F) → Change F
  remove_for : Text → Change F
  loaded : Change F

module _ {F : Type 0} where
  unfoldable pub apply : NodeDetailStore F → Change F → NodeDetailStore F
  apply s (update detail) = update_node_detail s detail
  apply s (merge_ranking ranking) = merge_node_ranking s ranking
  apply s (merge_ranking_for node_id ranking) = merge_node_ranking_for s node_id ranking
  apply s (merge_detail detail) = merge_node_detail s detail
  apply s (merge_detail_for node_id detail) = merge_node_detail_for s node_id detail
  apply s (remove_for node_id) = remove_node_detail s node_id
  apply s loaded = mark_loaded s

  unfoldable pub apply_all : NodeDetailStore F → List (Change F) → NodeDetailStore F
  apply_all s [] = s
  apply_all s (c ∷ cs) = apply_all (apply s c) cs

  -- A detail with an id has a name.
  abbrev pub IsNamed : NodeDetail F → Type 0
  IsNamed d = is_empty d.node_name ≡ true → is_empty d.node_id ≡ true

  abbrev pub AllNamed : NodeDetailStore F → Type 0
  AllNamed s = AllValues IsNamed s.details

  IsNamed-name_by_id : (d : NodeDetail F) → IsNamed (name_by_id d)
  unfolding name_by_id
  IsNamed-name_by_id d = ground arith

  IsNamed-with_ranking :
      (node_id : Text) (ranking : ℤ) (d : NodeDetail F)
      → IsNamed d
      → IsNamed (with_ranking node_id ranking d)
  unfolding with_ranking
  IsNamed-with_ranking node_id ranking d h = ground arith

  IsNamed-completed :
      (node_id : Text) (existing : Option (NodeDetail F)) (d : NodeDetail F)
      → IsNamed (completed node_id existing d)
  unfolding completed
  IsNamed-completed node_id existing d = IsNamed-name_by_id _

  update-AllNamed :
      (s : NodeDetailStore F) (detail : Option (NodeDetail F))
      → AllNamed (update_node_detail s detail)
  unfolding update_node_detail
  update-AllNamed s none = tt
  update-AllNamed s (some d) = (IsNamed-name_by_id d, tt)

  merge_node_ranking_for-AllNamed :
      (s : NodeDetailStore F) (node_id : Text) (ranking : Option ℤ)
      → AllNamed s
      → AllNamed (merge_node_ranking_for s node_id ranking)
  unfolding merge_node_ranking_for
  merge_node_ranking_for-AllNamed s node_id none h = h
  merge_node_ranking_for-AllNamed s node_id (some ranking) h =
      elim (Option-cases (lookup (node_detail_key node_id) s.details)) [
        | inl missing ↦ rw missing h
        | inr (d, found) ↦ rw found (
            AllValues-insert IsNamed (node_detail_key node_id) (with_ranking node_id ranking d)
              s.details
              (IsNamed-with_ranking node_id ranking d
                (AllValues-lookup IsNamed (node_detail_key node_id) s.details h found))
              h)
      ]

  merge_node_detail_for-AllNamed :
      (s : NodeDetailStore F) (node_id : Text) (detail : Option (NodeDetail F))
      → AllNamed s
      → AllNamed (merge_node_detail_for s node_id detail)
  unfolding merge_node_detail_for
  merge_node_detail_for-AllNamed s node_id none h = h
  merge_node_detail_for-AllNamed s node_id (some d) h =
      AllValues-insert IsNamed (node_detail_key node_id) _ s.details
        (IsNamed-completed node_id (lookup (node_detail_key node_id) s.details) d) h

  -- The map is matched, since the call distinguishes a map of length 1.
  merge_node_ranking-AllNamed :
      (m : Map (NodeDetail F)) (is_loaded : Bool) (ranking : Option ℤ)
      → AllValues IsNamed m
      → AllNamed (merge_node_ranking (record { details = m; loaded = is_loaded }) ranking)
  unfolding merge_node_ranking
  merge_node_ranking-AllNamed m is_loaded none h = h
  merge_node_ranking-AllNamed [] is_loaded (some ranking) h =
      merge_node_ranking_for-AllNamed (record { details = []; loaded = is_loaded }) []
        (some ranking) h
  merge_node_ranking-AllNamed ((k, d) ∷ []) is_loaded (some ranking) h = h
  merge_node_ranking-AllNamed (e ∷ e' ∷ m) is_loaded (some ranking) h =
      merge_node_ranking_for-AllNamed (record { details = e ∷ e' ∷ m; loaded = is_loaded }) []
        (some ranking) h

  merge_node_detail-AllNamed :
      (s : NodeDetailStore F) (detail : Option (NodeDetail F))
      → AllNamed s
      → AllNamed (merge_node_detail s detail)
  unfolding merge_node_detail
  merge_node_detail-AllNamed s none h = h
  merge_node_detail-AllNamed s (some d) h =
      merge_node_detail_for-AllNamed s (target_id s d) (some (adopt_id (target_id s d) d)) h

  apply-AllNamed : (s : NodeDetailStore F) (c : Change F) → AllNamed s → AllNamed (apply s c)
  unfolding apply
  apply-AllNamed s (update detail) h = update-AllNamed s detail
  apply-AllNamed s (merge_ranking ranking) h =
      merge_node_ranking-AllNamed s.details s.loaded ranking h
  apply-AllNamed s (merge_ranking_for node_id ranking) h =
      merge_node_ranking_for-AllNamed s node_id ranking h
  apply-AllNamed s (merge_detail detail) h = merge_node_detail-AllNamed s detail h
  apply-AllNamed s (merge_detail_for node_id detail) h =
      merge_node_detail_for-AllNamed s node_id detail h
  apply-AllNamed s (remove_for node_id) h =
      unfold remove_node_detail in AllValues-remove IsNamed (node_detail_key node_id) s.details h
  apply-AllNamed s loaded h = unfold mark_loaded in h

  -- Whatever calls change the store: if every stored detail with an id has a name before them, it
  -- has one after them.
  pub apply_all-AllNamed :
      (s : NodeDetailStore F) (cs : List (Change F)) → AllNamed s → AllNamed (apply_all s cs)
  unfolding apply_all
  apply_all-AllNamed s [] h = h
  apply_all-AllNamed s (c ∷ cs) h = apply_all-AllNamed (apply s c) cs (apply-AllNamed s c h)
