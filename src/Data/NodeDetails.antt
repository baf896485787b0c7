-- ===== src/Data/NodeDetails.antt =====
-- `NodeDetail` and `NodeDetailStore` of src/collect/data.rs. `F` stands for the floating-point
-- type, whose values the store only keeps.
pub mod Names
pub mod Rankings
pub mod Order
use chaindash.Base.{
  if◌then◌else◌, not, Text, codes, text_eq, text_leb, is_empty, Map, lookup, insert, remove, values,
  then_with, sort_by, ℤ, leb_ℤ, ℕ, Bool, true, ◌&&◌, Option, none, some, List, [], ◌∷◌,
}

pub record NodeDetail (F : Type 0) : Type 0 where
  pub node_id : Text
  pub node_name : Text
  pub ranking : ℤ
  pub block_qty : ℕ
  pub block_rate : Text
  pub daily_block_rate : Text
  pub reward_per : F
  pub reward_value : F
  pub reward_address : Text
  pub verifier_time : ℕ
  pub last_updated_at : Option ℕ

pub record NodeDetailStore (F : Type 0) : Type 0 where
  pub details : Map (NodeDetail F)
  pub loaded : Bool

abbrev pub default_node_detail_key : Text
default_node_detail_key = codes "__default__"

unfoldable pub node_detail_key : Text → Text
unfolding is_empty
node_detail_key node_id = if is_empty node_id then default_node_detail_key else node_id

module _ {F : Type 0} where
  -- The order of `sorted`: by name, then by id, then by ranking.
  abbrev pub detail_leb : NodeDetail F → NodeDetail F → Bool
  detail_leb l r = then_with (text_eq l.node_name r.node_name) (text_leb l.node_name r.node_name) (
      then_with (text_eq l.node_id r.node_id) (text_leb l.node_id r.node_id)
        (leb_ℤ l.ranking r.ranking))

  unfoldable pub sorted : NodeDetailStore F → List (NodeDetail F)
  unfolding values sort_by text_eq text_leb
  sorted s = sort_by detail_leb (values s.details)

  abbrev head : List (NodeDetail F) → Option (NodeDetail F)
  head [] = none
  head (d ∷ ds) = some d

  unfoldable pub first : NodeDetailStore F → Option (NodeDetail F)
  unfolding sorted
  first s = head (sorted s)

  unfoldable pub get : NodeDetailStore F → Text → Option (NodeDetail F)
  unfolding node_detail_key
  get s node_id = lookup (node_detail_key node_id) s.details

  -- A detail with an id and without a name is named by its id.
  unfoldable pub name_by_id : NodeDetail F → NodeDetail F
  unfolding is_empty
  name_by_id d =
      if is_empty d.node_name && not (is_empty d.node_id)
      then record d { node_name = d.node_id }
      else d

  unfoldable pub update_node_detail : NodeDetailStore F → Option (NodeDetail F) → NodeDetailStore F
  unfolding node_detail_key name_by_id insert
  update_node_detail s none = record s { details = [] }
  update_node_detail s (some detail) = record {
    details = insert (node_detail_key detail.node_id) (name_by_id detail) [];
    loaded = true;
  }

  -- What the ranking of `node_id` changes in its entry.
  unfoldable pub with_ranking : Text → ℤ → NodeDetail F → NodeDetail F
  unfolding is_empty
  with_ranking node_id ranking d = record d {
    ranking = ranking;
    node_id = if is_empty d.node_id && not (is_empty node_id) then node_id else d.node_id;
    node_name = if is_empty d.node_name && not (is_empty node_id) then node_id else d.node_name;
  }

  abbrev merge_ranking_at : NodeDetailStore F → Text → ℤ → Option (NodeDetail F) → NodeDetailStore F
  merge_ranking_at s node_id ranking none = s
  merge_ranking_at s node_id ranking (some d) = record s {
    details = insert (node_detail_key node_id) (with_ranking node_id ranking d) s.details;
  }

  unfoldable pub merge_node_ranking_for : NodeDetailStore F → Text → Option ℤ → NodeDetailStore F
  unfolding node_detail_key with_ranking
  merge_node_ranking_for s node_id none = s
  merge_node_ranking_for s node_id (some ranking) =
      merge_ranking_at s node_id ranking (lookup (node_detail_key node_id) s.details)

  -- `values_mut().next()` on a map of length 1.
  abbrev merge_only : NodeDetailStore F → ℤ → Map (NodeDetail F) → NodeDetailStore F
  merge_only s ranking ((key, d) ∷ []) = record s {
    details = (key, record d { ranking = ranking }) ∷ [];
  }
  merge_only s ranking m = merge_node_ranking_for s [] (some ranking)

  unfoldable pub merge_node_ranking : NodeDetailStore F → Option ℤ → NodeDetailStore F
  unfolding merge_node_ranking_for
  merge_node_ranking s none = s
  merge_node_ranking s (some ranking) = merge_only s ranking s.details

  -- The detail that is stored for `node_id` in place of `existing`.
  unfoldable pub completed : Text → Option (NodeDetail F) → NodeDetail F → NodeDetail F
  unfolding name_by_id
  completed node_id existing d = name_by_id (record d {
    node_id = if is_empty d.node_id then node_id else d.node_id;
    ranking = elim existing [ none ↦ d.ranking | some e ↦ e.ranking ];
  })

  unfoldable pub merge_node_detail_for :
      NodeDetailStore F → Text → Option (NodeDetail F) → NodeDetailStore F
  unfolding node_detail_key completed
  merge_node_detail_for s node_id none = s
  merge_node_detail_for s node_id (some detail) =
      let key = node_detail_key node_id in
      record {
        details = insert key (completed node_id (lookup key s.details) detail) s.details;
        loaded = true;
      }

  -- `keys().next()` on a map of length 1.
  abbrev only_key : Map (NodeDetail F) → Text → Text
  only_key ((key, d) ∷ []) node_id = key
  only_key m node_id = node_id

  -- The id that a detail is merged for.
  abbrev pub target_id : NodeDetailStore F → NodeDetail F → Text
  target_id s d = if is_empty d.node_id then only_key s.details d.node_id else d.node_id

  abbrev pub adopt_id : Text → NodeDetail F → NodeDetail F
  adopt_id node_id d =
      if is_empty d.node_id && not (text_eq node_id default_node_detail_key)
      then record d { node_id = node_id }
      else d

  unfoldable pub merge_node_detail : NodeDetailStore F → Option (NodeDetail F) → NodeDetailStore F
  unfolding merge_node_detail_for
  merge_node_detail s none = s
  merge_node_detail s (some detail) =
      merge_node_detail_for s (target_id s detail) (some (adopt_id (target_id s detail) detail))

  unfoldable pub remove_node_detail : NodeDetailStore F → Text → NodeDetailStore F
  unfolding node_detail_key
  remove_node_detail s node_id = record {
    details = remove (node_detail_key node_id) s.details;
    loaded = true;
  }

  unfoldable pub mark_loaded : NodeDetailStore F → NodeDetailStore F
  mark_loaded s = record s { loaded = true }
