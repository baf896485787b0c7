-- ===== src/Data/NodeDetails/Order.antt =====
-- `sorted` lists what is stored, in order.
use mathlib.Core.List.{Perm}
use chaindash.Base.{
  values, IsSortedBy, sort_by-perm, IsOrder, sort_by-IsSortedBy, then_with-IsOrder, leb_ℤ, arith,
}
use chaindash.Data.NodeDetails.{NodeDetail, NodeDetailStore, detail_leb, sorted}

module _ {F : Type 0} where
  ranking-IsOrder : IsOrder (λ (l r : NodeDetail F). leb_ℤ l.ranking r.ranking)
  ranking-IsOrder = record { total = λ a b. ground arith; trans = λ a b c. ground arith }

  detail-IsOrder : IsOrder (detail_leb {F = F})
  detail-IsOrder =
      then_with-IsOrder (λ (d : NodeDetail F). d.node_name)
        (then_with-IsOrder (λ (d : NodeDetail F). d.node_id) ranking-IsOrder)

  -- The details are listed by name, then id, then ranking, and they are those of the map, each as
  -- often as there.
  pub sorted-IsSortedBy :
      (s : NodeDetailStore F)
      → IsSortedBy detail_leb (sorted s) × Perm (sorted s) (values s.details)
  unfolding sorted
  sorted-IsSortedBy s = (
    sort_by-IsSortedBy detail-IsOrder (values s.details),
    sort_by-perm detail_leb (values s.details),
  )
