-- ===== src/Data/NodeStates/Order.antt =====
-- `sorted` lists what is stored, in order.
use mathlib.Core.List.{Perm}
use chaindash.Base.{
  leb, values, IsSortedBy, sort_by-perm, IsOrder, sort_by-IsSortedBy, then_with-IsOrder, arith,
}
use chaindash.Data.NodeStates.{ConsensusState, NodeStateStore, state_leb, sorted}

number-IsOrder : IsOrder (λ (l r : ConsensusState). leb l.current_number r.current_number)
number-IsOrder = record { total = λ a b. ground arith; trans = λ a b c. ground arith }

state-IsOrder : IsOrder state_leb
state-IsOrder =
    then_with-IsOrder (λ (s : ConsensusState). s.name)
      (then_with-IsOrder (λ (s : ConsensusState). s.host) number-IsOrder)

-- The states are listed by name, then host, then block number, and they are those of the map,
-- each as often as there.
pub states-IsSortedBy :
    (s : NodeStateStore) → IsSortedBy state_leb (sorted s) × Perm (sorted s) (values s.states)
unfolding sorted
states-IsSortedBy s =
    (sort_by-IsSortedBy state-IsOrder (values s.states), sort_by-perm state_leb (values s.states))
