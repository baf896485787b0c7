-- ===== src/Data/Store/Marks.antt =====
-- A write leaves a store as it was, with its flag, or sets the flag.
use chaindash.Base.{◌≡◌, refl, ◌⊎◌, inl, inr, Bool, true, false}
use chaindash.Data.Status.{UiStatusStore}
use chaindash.Data.Status
use chaindash.Data.Store.{
  Data, UiDirtyState, Write, perform, with_status, with_node_details, mark_chain_dirty,
  mark_node_state_dirty, mark_node_details_dirty, mark_status_dirty, mark_system_dirty,
  notify_ui_if_needed, update_node_detail, merge_node_ranking, merge_node_ranking_for,
  merge_node_detail, merge_node_detail_for, remove_node_detail, mark_node_details_loaded,
  block_sample, update_consensus_state, replace_system_stats, set_status_message,
  clear_status_message, expire_status_message,
}

module _ {F D : Type 0} where
  -- One store and its flag: both unchanged, or the flag is set.
  abbrev pub Marks :
      {S : Type 0} → (Data F D → S) → (UiDirtyState → Bool) → Data F D → Data F D → Type 0
  Marks store flag d d' =
      ((store d' ≡ store d) × (flag d'.ui_dirty ≡ flag d.ui_dirty)) ⊎ (flag d'.ui_dirty ≡ true)

  status-chain :
      (d : Data F D) (r : UiStatusStore × Bool)
      → Marks (λ d. d.chain) (λ f. f.chain) d (with_status d r)
  unfolding with_status mark_status_dirty notify_ui_if_needed
  status-chain d (status, true) = inl (refl, refl)
  status-chain d (status, false) = inl (refl, refl)

  pub perform-chain :
      (d : Data F D) (c : Write F D) → Marks (λ d. d.chain) (λ f. f.chain) d (perform d c)
  unfolding perform with_node_details mark_chain_dirty mark_node_state_dirty mark_node_details_dirty
      mark_system_dirty notify_ui_if_needed
  perform-chain d (update_node_detail x) = inl (refl, refl)
  perform-chain d (merge_node_ranking x) = inl (refl, refl)
  perform-chain d (merge_node_ranking_for x y) = inl (refl, refl)
  perform-chain d (merge_node_detail x) = inl (refl, refl)
  perform-chain d (merge_node_detail_for x y) = inl (refl, refl)
  perform-chain d (remove_node_detail x) = inl (refl, refl)
  perform-chain d mark_node_details_loaded = inl (refl, refl)
  perform-chain d (block_sample x y z) = inr refl
  perform-chain d (update_consensus_state x y) = inl (refl, refl)
  perform-chain d (replace_system_stats x) = inl (refl, refl)
  perform-chain d (set_status_message x y z) = status-chain d (Status.set d.status x y z)
  perform-chain d clear_status_message = status-chain d (Status.clear d.status)
  perform-chain d (expire_status_message x) = inl (refl, refl)

  status-node_state :
      (d : Data F D) (r : UiStatusStore × Bool)
      → Marks (λ d. d.node_state) (λ f. f.node_state) d (with_status d r)
  unfolding with_status mark_status_dirty notify_ui_if_needed
  status-node_state d (status, true) = inl (refl, refl)
  status-node_state d (status, false) = inl (refl, refl)

  pub perform-node_state :
      (d : Data F D) (c : Write F D) → Marks (λ d. d.node_state) (λ f. f.node_state) d (perform d c)
  unfolding perform with_node_details mark_chain_dirty mark_node_state_dirty mark_node_details_dirty
      mark_system_dirty notify_ui_if_needed
  perform-node_state d (update_node_detail x) = inl (refl, refl)
  perform-node_state d (merge_node_ranking x) = inl (refl, refl)
  perform-node_state d (merge_node_ranking_for x y) = inl (refl, refl)
  perform-node_state d (merge_node_detail x) = inl (refl, refl)
  perform-node_state d (merge_node_detail_for x y) = inl (refl, refl)
  perform-node_state d (remove_node_detail x) = inl (refl, refl)
  perform-node_state d mark_node_details_loaded = inl (refl, refl)
  perform-node_state d (block_sample x y z) = inl (refl, refl)
  perform-node_state d (update_consensus_state x y) = inr refl
  perform-node_state d (replace_system_stats x) = inl (refl, refl)
  perform-node_state d (set_status_message x y z) = status-node_state d (Status.set d.status x y z)
  perform-node_state d clear_status_message = status-node_state d (Status.clear d.status)
  perform-node_state d (expire_status_message x) = inl (refl, refl)

  status-node_details :
      (d : Data F D) (r : UiStatusStore × Bool)
      → Marks (λ d. d.node_details) (λ f. f.node_details) d (with_status d r)
  unfolding with_status mark_status_dirty notify_ui_if_needed
  status-node_details d (status, true) = inl (refl, refl)
  status-node_details d (status, false) = inl (refl, refl)

  pub perform-node_details :
      (d : Data F D) (c : Write F D)
      → Marks (λ d. d.node_details) (λ f. f.node_details) d (perform d c)
  unfolding perform with_node_details mark_chain_dirty mark_node_state_dirty mark_node_details_dirty
      mark_system_dirty notify_ui_if_needed
  perform-node_details d (update_node_detail x) = inr refl
  perform-node_details d (merge_node_ranking x) = inr refl
  perform-node_details d (merge_node_ranking_for x y) = inr refl
  perform-node_details d (merge_node_detail x) = inr refl
  perform-node_details d (merge_node_detail_for x y) = inr refl
  perform-node_details d (remove_node_detail x) = inr refl
  perform-node_details d mark_node_details_loaded = inr refl
  perform-node_details d (block_sample x y z) = inl (refl, refl)
  perform-node_details d (update_consensus_state x y) = inl (refl, refl)
  perform-node_details d (replace_system_stats x) = inl (refl, refl)
  perform-node_details d (set_status_message x y z) =
      status-node_details d (Status.set d.status x y z)
  perform-node_details d clear_status_message = status-node_details d (Status.clear d.status)
  perform-node_details d (expire_status_message x) = inl (refl, refl)

  status-system :
      (d : Data F D) (r : UiStatusStore × Bool)
      → Marks (λ d. d.system) (λ f. f.system) d (with_status d r)
  unfolding with_status mark_status_dirty notify_ui_if_needed
  status-system d (status, true) = inl (refl, refl)
  status-system d (status, false) = inl (refl, refl)

  pub perform-system :
      (d : Data F D) (c : Write F D) → Marks (λ d. d.system) (λ f. f.system) d (perform d c)
  unfolding perform with_node_details mark_chain_dirty mark_node_state_dirty mark_node_details_dirty
      mark_system_dirty notify_ui_if_needed
  perform-system d (update_node_detail x) = inl (refl, refl)
  perform-system d (merge_node_ranking x) = inl (refl, refl)
  perform-system d (merge_node_ranking_for x y) = inl (refl, refl)
  perform-system d (merge_node_detail x) = inl (refl, refl)
  perform-system d (merge_node_detail_for x y) = inl (refl, refl)
  perform-system d (remove_node_detail x) = inl (refl, refl)
  perform-system d mark_node_details_loaded = inl (refl, refl)
  perform-system d (block_sample x y z) = inl (refl, refl)
  perform-system d (update_consensus_state x y) = inl (refl, refl)
  perform-system d (replace_system_stats x) = inr refl
  perform-system d (set_status_message x y z) = status-system d (Status.set d.status x y z)
  perform-system d clear_status_message = status-system d (Status.clear d.status)
  perform-system d (expire_status_message x) = inl (refl, refl)
