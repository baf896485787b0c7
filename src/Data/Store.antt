-- ===== src/Data/Store.antt =====
-- `UiDirtyState` and `Data` of src/collect/data.rs: the stores behind one lock, the flags that say
-- which of them changed since the interface last looked, and the channel that wakes it.
--
-- `ui_waker` says whether a sender is installed. Its channel is `bounded(1)`, and the interface
-- holds the receiver as long as it runs, so that `try_send` puts the one message in or finds it
-- there: `ui_wake` says whether the channel holds it.
pub mod Marks
use chaindash.Base.{Text, ℤ, ℕ, Bool, true, false, ◌&&◌, ◌||◌, Option, none, []}
use chaindash.Data.Chain.{ChainStats, default_chain, record_block_sample}
use chaindash.Data.NodeDetails.{NodeDetail, NodeDetailStore}
use chaindash.Data.NodeDetails
use chaindash.Data.NodeStates.{ConsensusState, NodeStateStore}
use chaindash.Data.NodeStates
use chaindash.Data.Status.{UiStatusStore, StatusLevel}
use chaindash.Data.Status
use chaindash.Data.System.{SystemStats, replace_stats}

pub record UiDirtyState : Type 0 where
  pub chain : Bool
  pub node_state : Bool
  pub node_details : Bool
  pub status : Bool
  pub system : Bool

abbrev pub clean : UiDirtyState
clean = record {
  chain = false;
  node_state = false;
  node_details = false;
  status = false;
  system = false;
}

-- `UiDirtyState::any`
abbrev pub any_dirty : UiDirtyState → Bool
any_dirty d = d.chain || d.node_state || d.node_details || d.status || d.system

pub record Data (F D : Type 0) : Type 0 where
  pub chain : ChainStats
  pub node_state : NodeStateStore
  pub node_details : NodeDetailStore F
  pub status : UiStatusStore
  pub ui_dirty : UiDirtyState
  pub ui_waker : Bool
  pub ui_wake : Bool
  pub system : SystemStats F D

-- What a collector or a key writes, with the arguments of the method that does it.
pub data Write (F D : Type 0) : Type 0 where
  update_node_detail : Option (NodeDetail F) → Write F D
  merge_node_ranking : Option ℤ → Write F D
  merge_node_ranking_for : Text → Option ℤ → Write F D
  merge_node_detail : Option (NodeDetail F) → Write F D
  merge_node_detail_for : Text → Option (NodeDetail F) → Write F D
  remove_node_detail : Text → Write F D
  mark_node_details_loaded : Write F D
  block_sample : ℕ → ℕ → ℕ → Write F D
  update_consensus_state : Text → ConsensusState → Write F D
  replace_system_stats : SystemStats F D → Write F D
  set_status_message : StatusLevel → Text → ℕ → Write F D
  clear_status_message : Write F D
  expire_status_message : ℕ → Write F D

module _ {F D : Type 0} where
  unfoldable pub notify_ui_if_needed : Data F D → Data F D
  notify_ui_if_needed d = record d { ui_wake = any_dirty d.ui_dirty && d.ui_waker || d.ui_wake }

  unfoldable pub mark_chain_dirty : Data F D → Data F D
  unfolding notify_ui_if_needed
  mark_chain_dirty d =
      notify_ui_if_needed (record d { ui_dirty = record d.ui_dirty { chain = true } })

  unfoldable pub mark_node_state_dirty : Data F D → Data F D
  unfolding notify_ui_if_needed
  mark_node_state_dirty d =
      notify_ui_if_needed (record d { ui_dirty = record d.ui_dirty { node_state = true } })

  unfoldable pub mark_node_details_dirty : Data F D → Data F D
  unfolding notify_ui_if_needed
  mark_node_details_dirty d =
      notify_ui_if_needed (record d { ui_dirty = record d.ui_dirty { node_details = true } })

  unfoldable pub mark_status_dirty : Data F D → Data F D
  unfolding notify_ui_if_needed
  mark_status_dirty d =
      notify_ui_if_needed (record d { ui_dirty = record d.ui_dirty { status = true } })

  unfoldable pub mark_system_dirty : Data F D → Data F D
  unfolding notify_ui_if_needed
  mark_system_dirty d =
      notify_ui_if_needed (record d { ui_dirty = record d.ui_dirty { system = true } })

  unfoldable pub set_ui_waker : Data F D → Data F D
  set_ui_waker d = record d { ui_waker = true }

  -- `std::mem::take`
  unfoldable pub take_ui_dirty : Data F D → Data F D × UiDirtyState
  take_ui_dirty d = (record d { ui_dirty = clean }, d.ui_dirty)

  unfoldable pub with_node_details : Data F D → NodeDetailStore F → Data F D
  unfolding mark_node_details_dirty
  with_node_details d s = mark_node_details_dirty (record d { node_details = s })

  -- `if self.status.set(…) { self.mark_status_dirty() }`
  unfoldable pub with_status : Data F D → UiStatusStore × Bool → Data F D
  unfolding mark_status_dirty
  with_status d (status, true) = mark_status_dirty (record d { status = status })
  with_status d (status, false) = record d { status = status }

  -- The methods of `Data` that write.
  unfoldable pub perform : Data F D → Write F D → Data F D
  unfolding with_status mark_chain_dirty mark_node_state_dirty mark_status_dirty mark_system_dirty
      with_node_details
  perform d (update_node_detail detail) =
      with_node_details d (NodeDetails.update_node_detail d.node_details detail)
  perform d (merge_node_ranking ranking) =
      with_node_details d (NodeDetails.merge_node_ranking d.node_details ranking)
  perform d (merge_node_ranking_for node_id ranking) =
      with_node_details d (NodeDetails.merge_node_ranking_for d.node_details node_id ranking)
  perform d (merge_node_detail detail) =
      with_node_details d (NodeDetails.merge_node_detail d.node_details detail)
  perform d (merge_node_detail_for node_id detail) =
      with_node_details d (NodeDetails.merge_node_detail_for d.node_details node_id detail)
  perform d (remove_node_detail node_id) =
      with_node_details d (NodeDetails.remove_node_detail d.node_details node_id)
  perform d mark_node_details_loaded = with_node_details d (NodeDetails.mark_loaded d.node_details)
  perform d (block_sample block_number block_timestamp txs) =
      mark_chain_dirty
        (record d { chain = record_block_sample d.chain block_number block_timestamp txs })
  perform d (update_consensus_state name state) =
      mark_node_state_dirty (record d { node_state = NodeStates.update d.node_state name state })
  perform d (replace_system_stats stats) =
      mark_system_dirty (record d { system = (replace_stats d.system stats).0 })
  perform d (set_status_message level text now) = with_status d (Status.set d.status level text now)
  perform d clear_status_message = with_status d (Status.clear d.status)
  perform d (expire_status_message now) = record d { status = Status.expire_if_needed d.status now }

  -- `Data::default` around the given `SystemStats::default()`.
  abbrev pub default_data : SystemStats F D → Data F D
  default_data stats = record {
    chain = default_chain;
    node_state = record { states = [] };
    node_details = record { details = []; loaded = false };
    status = record { status_message = none };
    ui_dirty = clean;
    ui_waker = false;
    ui_wake = false;
    system = stats;
  }
