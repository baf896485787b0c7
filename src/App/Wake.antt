-- ===== src/App/Wake.antt =====
-- No wake-up is lost.
use chaindash.Base.{ℕ, ◌≡◌, Bool, true, false, ◌||◌, List, arith}
use chaindash.Data.System.{handle_shift_tab_key, handle_tab_key, SystemStats}
use chaindash.Data.Store.{
  take_ui_dirty, with_node_details, mark_chain_dirty, mark_node_state_dirty,
  mark_node_details_dirty, mark_status_dirty, mark_system_dirty, notify_ui_if_needed,
  update_node_detail, merge_node_ranking, merge_node_ranking_for, merge_node_detail,
  merge_node_detail_for, remove_node_detail, mark_node_details_loaded, block_sample,
  update_consensus_state, replace_system_stats, set_status_message, clear_status_message,
  expire_status_message, Write, perform, any_dirty,
}
use chaindash.App.{
  update_widget, WidgetKind, txs, time, node, node_details, system_summary, disk_list, update_txs,
  update_time,
}
use chaindash.App.Loop.{
  select_disk, Step, Steps, write, receive, take_flags, update, tab, shift_tab, done, next, World,
}

module _ {F D : Type 0} where
  -- There is a waker, and where a store is dirty the interface is woken or will be.
  abbrev pub IsAwake : World F D → Type 0
  IsAwake w =
      (w.shared.ui_waker ≡ true)
      × (any_dirty w.shared.ui_dirty ≡ true → (w.shared.ui_wake || w.woken) ≡ true)

  write-IsAwake :
      (w : World F D) (c : Write F D)
      → IsAwake w
      → IsAwake (record w { shared = perform w.shared c })
  unfolding perform with_node_details mark_chain_dirty mark_node_state_dirty mark_node_details_dirty
      mark_status_dirty mark_system_dirty notify_ui_if_needed
  write-IsAwake w (update_node_detail x) h = ground arith
  write-IsAwake w (merge_node_ranking x) h = ground arith
  write-IsAwake w (merge_node_ranking_for x y) h = ground arith
  write-IsAwake w (merge_node_detail x) h = ground arith
  write-IsAwake w (merge_node_detail_for x y) h = ground arith
  write-IsAwake w (remove_node_detail x) h = ground arith
  write-IsAwake w mark_node_details_loaded h = ground arith
  write-IsAwake w (block_sample x y z) h = ground arith
  write-IsAwake w (update_consensus_state x y) h = ground arith
  write-IsAwake w (replace_system_stats x) h = ground arith
  write-IsAwake w (set_status_message x y z) h = ground arith
  write-IsAwake w clear_status_message h = ground arith
  write-IsAwake w (expire_status_message x) h = h

  select_disk-IsAwake :
      (w : World F D) (r : SystemStats F D × Bool) → IsAwake w → IsAwake (select_disk w r)
  select_disk-IsAwake w (system, true) h = h
  select_disk-IsAwake w (system, false) h = h

module _ {F D : Type 0} (to_f64 : ℕ → F) where
  update-IsAwake :
      (w : World F D) (k : WidgetKind) (ks : List WidgetKind)
      → IsAwake w
      → IsAwake (record w {
        shared = (update_widget to_f64 k w.widgets w.shared).1;
        widgets = (update_widget to_f64 k w.widgets w.shared).0;
        pending = ks;
      })
  unfolding update_widget update_txs update_time
  update-IsAwake w txs ks h = h
  update-IsAwake w time ks h = h
  update-IsAwake w node ks h = h
  update-IsAwake w node_details ks h = h
  update-IsAwake w system_summary ks h = h
  update-IsAwake w disk_list ks h = h

  step-IsAwake : {v w : World F D} → Step to_f64 v w → IsAwake v → IsAwake w
  step-IsAwake (write v c) h = write-IsAwake v c h
  step-IsAwake (receive v token idle nothing) h = (h.0, λ dirty. ground arith)
  step-IsAwake (take_flags v woken nothing) h = unfold take_ui_dirty in (h.0, λ dirty. cc)
  step-IsAwake (update v k ks e) h = update-IsAwake v k ks h
  step-IsAwake (tab v idle nothing) h = select_disk-IsAwake v (handle_tab_key v.shared.system) h
  step-IsAwake (shift_tab v idle nothing) h =
      select_disk-IsAwake v (handle_shift_tab_key v.shared.system) h

  -- No wake-up is lost: from a state in which the interface is woken if anything is dirty, every
  -- run of the collectors and the interface leads to such a state.
  pub Steps-IsAwake : {v w : World F D} → Steps to_f64 v w → IsAwake v → IsAwake w
  Steps-IsAwake (done w) h = h
  Steps-IsAwake (next ss s) h = step-IsAwake s (Steps-IsAwake ss h)
