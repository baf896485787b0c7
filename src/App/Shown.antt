-- ===== src/App/Shown.antt =====
-- What a widget shows when it is up to date, and when it will be.
use chaindash.Base.{◌≡◌, ◌⊎◌, Bool, true, false, ◌||◌, List, [], ◌∷◌}
use chaindash.Data.NodeStates
use chaindash.Data.System.{SystemStats}
use chaindash.Data.Store.{Data, UiDirtyState}
use chaindash.App.{
  Widgets, WidgetKind, txs, time, node, node_details, system_summary, disk_list,
  update_node_details,
}
use chaindash.App.Loop.{World}

abbrev pub flag_of : WidgetKind → UiDirtyState → Bool
flag_of txs dirty = dirty.chain
flag_of time dirty = dirty.chain
flag_of node dirty = dirty.node_state
flag_of node_details dirty = dirty.node_details
flag_of system_summary dirty = dirty.system
flag_of disk_list dirty = dirty.system

abbrev pub same_widget : WidgetKind → WidgetKind → Bool
same_widget txs txs = true
same_widget time time = true
same_widget node node = true
same_widget node_details node_details = true
same_widget system_summary system_summary = true
same_widget disk_list disk_list = true
same_widget k j = false

unfoldable pub waits : WidgetKind → List WidgetKind → Bool
waits k [] = false
waits k (j ∷ js) = same_widget j k || waits k js

module _ {F D : Type 0} where
  -- The summary shows no selection.
  abbrev pub unselected : SystemStats F D → SystemStats F D
  unselected stats = record stats { current_disk_index = 0 }

  -- The widget agrees with the data that it shows.
  abbrev pub Shows : WidgetKind → Widgets F D → Data F D → Type 0
  Shows txs w d =
      (w.txs.cur_num ≡ d.chain.cur_block_number)
      × (w.txs.cur_txs ≡ d.chain.cur_txs)
      × (w.txs.max ≡ d.chain.max_txs)
      × (w.txs.max_block_number ≡ d.chain.max_txs_block_number)
  Shows time w d =
      (w.time.cur_num ≡ d.chain.cur_block_number)
      × (w.time.cur_time ≡ d.chain.cur_interval)
      × (w.time.max_time ≡ d.chain.max_interval)
  Shows node w d = w.node ≡ NodeStates.sorted d.node_state
  Shows node_details w d = w.node_details ≡ update_node_details d.node_details
  Shows system_summary w d = unselected w.system_summary ≡ unselected d.system
  Shows disk_list w d = w.disk_list ≡ d.system

  -- The widget agrees with the data, or is to be updated: it waits, or its flag is set.
  abbrev pub IsFresh : WidgetKind → World F D → Type 0
  IsFresh k w =
      Shows k w.widgets w.shared ⊎ ((flag_of k w.shared.ui_dirty || waits k w.pending) ≡ true)
