-- ===== src/Geo/Peers/Merge.antt =====
-- All nodes answer, or there is no snapshot.
use chaindash.Base.{
  Text, codes, sorted_set, contains, IsStrict, contains-sorted_set, sorted_set-IsStrict,
  contains-append, ◌≡◌, refl, ap, ◌∙◌, Bool, false, ◌||◌, Option, none, some, List, [], ◌∷◌, ◌++◌,
  map, arith,
}
use chaindash.Geo.Peers.{sort_dedup, NodeResult, ok, err, collect_ips, merge_node_results}

module _ {Ip : Type 0} (to_string : Ip → Text) where
  -- A peer of some node.
  unfoldable pub lists : List (NodeResult (List Ip)) → Text → Bool
  lists [] ip = false
  lists (err e ∷ results) ip = lists results ip
  lists (ok node_ips ∷ results) ip = contains (map to_string node_ips) ip || lists results ip

  -- The first failure.
  unfoldable pub first_failure : List (NodeResult (List Ip)) → Option Text
  first_failure [] = none
  first_failure (err e ∷ results) = some e
  first_failure (ok node_ips ∷ results) = first_failure results

  -- What is collected from results that do not fail.
  IsCollected : List Text → List (NodeResult (List Ip)) → Type 0
  IsCollected ips results =
      (all_ips : List Text) × (collect_ips to_string ips results ≡ ok all_ips)
      × ((ip : Text) → contains all_ips ip ≡ (contains ips ip || lists results ip))

  collect_ips-ok :
      (ips : List Text) (results : List (NodeResult (List Ip)))
      → first_failure results ≡ none
      → IsCollected ips results
  unfolding IsCollected collect_ips first_failure lists
  collect_ips-ok ips [] h = (ips, refl, λ ip. ground arith)
  collect_ips-ok ips (err e ∷ results) h = cc
  collect_ips-ok ips (ok node_ips ∷ results) h =
      let (all_ips, e, members) = collect_ips-ok (ips ++ map to_string node_ips) results h in
      (
        all_ips,
        e,
        λ ip. members ip ∙ ground (arith, contains-append ips (map to_string node_ips) ip),
      )

  collect_ips-err :
      (ips : List Text) (results : List (NodeResult (List Ip))) (e : Text)
      → first_failure results ≡ some e
      → collect_ips to_string ips results ≡ err (codes "admin_peers failed: " ++ e)
  unfolding collect_ips first_failure
  collect_ips-err ips [] e h = cc
  collect_ips-err ips (err d ∷ results) e h = ground arith
  collect_ips-err ips (ok node_ips ∷ results) e h =
      collect_ips-err (ips ++ map to_string node_ips) results e h

  -- If every node answers the snapshot lists the peers of all nodes and no others, in order and each
  -- of them once.
  pub merge_node_results-ok :
      (results : List (NodeResult (List Ip)))
      → first_failure results ≡ none
      → (ips : List Text) × (merge_node_results to_string results ≡ ok ips)
        × IsStrict ips
        × ((ip : Text) → contains ips ip ≡ lists results ip)
  unfolding merge_node_results IsCollected
  merge_node_results-ok results h =
      let (all_ips, e, members) = collect_ips-ok [] results h in
      (
        sorted_set all_ips,
        ap sort_dedup e,
        sorted_set-IsStrict all_ips,
        λ ip. contains-sorted_set all_ips ip ∙ members ip ∙ unfold contains in refl,
      )

  -- If a node fails there is no snapshot, and the error is that of the first node that fails.
  pub merge_node_results-err :
      (results : List (NodeResult (List Ip))) (e : Text)
      → first_failure results ≡ some e
      → merge_node_results to_string results ≡ err (codes "admin_peers failed: " ++ e)
  unfolding merge_node_results
  merge_node_results-err results e h = ap sort_dedup (collect_ips-err [] results e h)
