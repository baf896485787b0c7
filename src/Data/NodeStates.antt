-- ===== src/Data/NodeStates.antt =====
-- `ConsensusState` and `NodeStateStore` of src/collect/data.rs.
pub mod Order
use chaindash.Base.{
  leb, Text, text_eq, text_leb, Map, insert, values, then_with, sort_by, ℕ, Bool, List,
}

pub record ConsensusState : Type 0 where
  pub name : Text
  pub host : Text
  pub current_number : ℕ
  pub epoch : ℕ
  pub view : ℕ
  pub committed : ℕ
  pub locked : ℕ
  pub qc : ℕ
  pub validator : Bool

pub record NodeStateStore : Type 0 where
  pub states : Map ConsensusState

abbrev pub state_leb : ConsensusState → ConsensusState → Bool
state_leb l r = then_with (text_eq l.name r.name) (text_leb l.name r.name) (
    then_with (text_eq l.host r.host) (text_leb l.host r.host)
      (leb l.current_number r.current_number))

unfoldable pub sorted : NodeStateStore → List ConsensusState
unfolding values sort_by text_eq text_leb
sorted s = sort_by state_leb (values s.states)

unfoldable pub update : NodeStateStore → Text → ConsensusState → NodeStateStore
unfolding insert
update s name state = record { states = insert name state s.states }
