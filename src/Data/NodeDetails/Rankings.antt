-- ===== src/Data/NodeDetails/Rankings.antt =====
-- Rankings and details come from two requests: neither undoes what the other stored.
use mathlib.Core.Option
use chaindash.Base.{
  if◌then◌else◌, Bool-cases, Option-cases, Text, text_eq, text_eq→eq, lookup, lookup-insert, ℤ, ◌≡◌,
  ap, inl, inr, Bool, true, Option, none, some, List, [], ◌∷◌, arith,
}
use chaindash.Data.NodeDetails.{
  NodeDetail, NodeDetailStore, get, with_ranking, completed, merge_node_ranking_for,
  merge_node_detail_for, node_detail_key,
}

-- One entry of the map is the entry of both ids.
abbrev pub same_entry : Text → Text → Bool
same_entry a b = text_eq (node_detail_key a) (node_detail_key b)

module _ {F : Type 0} where
  ranking-completed :
      (node_id : Text) (existing d : NodeDetail F)
      → (completed node_id (some existing) d).ranking ≡ existing.ranking
  unfolding completed
  ranking-completed node_id existing d = ground arith

  -- A detail that is merged for one id takes over the ranking of the entry that it replaces, and
  -- changes the entry of no other id.
  pub get-merge_node_detail_for :
      (s : NodeDetailStore F) (a b : Text) (d : NodeDetail F)
      → get (merge_node_detail_for s a (some d)) b
        ≡ (if same_entry a b then some (completed a (get s a) d) else get s b)
  unfolding get merge_node_detail_for
  get-merge_node_detail_for s a b d =
      lookup-insert (node_detail_key a) (node_detail_key b) _ s.details

  -- The ranking that the store holds for an id.
  abbrev pub ranking_of : NodeDetailStore F → Text → Option ℤ
  ranking_of s node_id = Option.map (λ (d : NodeDetail F). d.ranking) (get s node_id)

  unfoldable pub merge_all : NodeDetailStore F → List (Text × NodeDetail F) → NodeDetailStore F
  merge_all s [] = s
  merge_all s ((node_id, d) ∷ rest) = merge_all (merge_node_detail_for s node_id (some d)) rest

  pub get_same : (s : NodeDetailStore F) (a b : Text) → same_entry a b ≡ true → get s a ≡ get s b
  unfolding get
  get_same s a b h =
      ap (λ k. lookup k s.details) (text_eq→eq (node_detail_key a) (node_detail_key b) h)

  ranking_kept :
      (a : Text) (d : NodeDetail F) (existing : Option (NodeDetail F)) {r : ℤ}
      → Option.map (λ (e : NodeDetail F). e.ranking) existing ≡ some r
      → Option.map (λ (e : NodeDetail F). e.ranking) (some (completed a existing d)) ≡ some r
  ranking_kept a d none h = cc
  ranking_kept a d (some e) h = rw (ranking-completed a e d) h

  ranking_of-merge :
      (s : NodeDetailStore F) (a b : Text) (d : NodeDetail F) (r : ℤ)
      → ranking_of s b ≡ some r
      → ranking_of (merge_node_detail_for s a (some d)) b ≡ some r
  ranking_of-merge s a b d r h = elim (Bool-cases (same_entry a b)) [
    | inl same ↦
        rw (get-merge_node_detail_for s a b d, same, get_same s a b same)
          (ranking_kept a d (get s b) h)
    | inr other ↦ rw (get-merge_node_detail_for s a b d, other) h
  ]

  -- However many details are merged, for any ids: the ranking that is stored for an id stays.
  pub ranking_of-merge_all :
      (s : NodeDetailStore F) (merged : List (Text × NodeDetail F)) (node_id : Text) (r : ℤ)
      → ranking_of s node_id ≡ some r
      → ranking_of (merge_all s merged) node_id ≡ some r
  unfolding merge_all
  ranking_of-merge_all s [] node_id r h = h
  ranking_of-merge_all s ((a, d) ∷ rest) node_id r h =
      ranking_of-merge_all (merge_node_detail_for s a (some d)) rest node_id r
        (ranking_of-merge s a node_id d r h)

  -- A ranking that is merged for one id changes the ranking of its entry if there is one, names
  -- what has no name, creates no entry, and changes the entry of no other id.
  pub get-merge_node_ranking_for :
      (s : NodeDetailStore F) (a b : Text) (r : ℤ)
      → get (merge_node_ranking_for s a (some r)) b
        ≡ (if same_entry a b then Option.map (with_ranking a r) (get s b) else get s b)
  unfolding get merge_node_ranking_for
  get-merge_node_ranking_for s a b r = elim (Option-cases (lookup (node_detail_key a) s.details)) [
    | inl missing ↦ rw missing (ground (arith, get_same s a b))
    | inr (d, found) ↦ rw found (
        ground (
          arith,
          get_same s a b,
          lookup-insert (node_detail_key a) (node_detail_key b) (with_ranking a r d) s.details,
        ))
  ]
