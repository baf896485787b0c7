-- ===== src/App.antt =====
-- src/app.rs, with the `update` of each widget of src/widgets that shows a part of `Data`.
--
-- A widget keeps a copy of what it shows. `F` stands for `f64`, `to_f64` for the cast to it and `D`
-- for `DiskDetail`.
pub mod Loop
pub mod Wake
pub mod Shown
pub mod Fresh
pub mod Rest
pub mod Settles
mod Examples
use chaindash.Base.{if◌then◌else◌, not, ℕ, max, Bool, true, false, ◌&&◌, ◌||◌, List, [], ◌∷◌, ◌++◌}
use chaindash.Data.Chain.{txns_and_clear, intervals_and_clear}
use chaindash.Data.NodeDetails.{NodeDetail}
use chaindash.Data.NodeDetails
use chaindash.Data.NodeStates.{ConsensusState}
use chaindash.Data.NodeStates
use chaindash.Data.System.{SystemStats}
use chaindash.Data.Store.{Data, UiDirtyState, take_ui_dirty}
use chaindash.Widgets.Chart.{append_u64_samples}

pub record TxsWidget (F : Type 0) : Type 0 where
  pub update_count : ℕ
  pub cur_num : ℕ
  pub cur_txs : ℕ
  pub max : ℕ
  pub max_block_number : ℕ
  pub series : List (F × F)

pub record TimeWidget (F : Type 0) : Type 0 where
  pub update_count : ℕ
  pub cur_num : ℕ
  pub cur_time : ℕ
  pub max_time : ℕ
  pub series : List (F × F)

pub record NodeDetailWidget (F : Type 0) : Type 0 where
  pub loading : Bool
  pub node_details : List (NodeDetail F)

pub record Widgets (F D : Type 0) : Type 0 where
  pub txs : TxsWidget F
  pub time : TimeWidget F
  pub node : List ConsensusState
  pub node_details : NodeDetailWidget F
  pub system_summary : SystemStats F D
  pub disk_list : SystemStats F D

pub data WidgetKind : Type 0 where
  txs time node node_details system_summary disk_list : WidgetKind

abbrev pub no_details : {F : Type 0} → List (NodeDetail F) → Bool
no_details [] = true
no_details (d ∷ ds) = false

-- `NodeDetailWidget::update`
unfoldable pub update_node_details :
    {F : Type 0} → NodeDetails.NodeDetailStore F → NodeDetailWidget F
update_node_details s = record {
  loading = no_details (NodeDetails.sorted s) && not s.loaded;
  node_details = NodeDetails.sorted s;
}

module _ {F D : Type 0} (to_f64 : ℕ → F) where
  -- `TxsWidget::update`
  unfoldable pub update_txs : TxsWidget F → Data F D → TxsWidget F × Data F D
  unfolding txns_and_clear append_u64_samples
  update_txs w d =
      let (chain, drained) = txns_and_clear d.chain in
      let (series, count) = append_u64_samples to_f64 w.series w.update_count drained in
      (
        record {
          update_count = count;
          cur_num = d.chain.cur_block_number;
          cur_txs = d.chain.cur_txs;
          max = d.chain.max_txs;
          max_block_number = d.chain.max_txs_block_number;
          series = series;
        },
        record d { chain = chain },
      )

  -- `TimeWidget::update`
  unfoldable pub update_time : TimeWidget F → Data F D → TimeWidget F × Data F D
  unfolding intervals_and_clear append_u64_samples
  update_time w d =
      let (chain, drained) = intervals_and_clear d.chain in
      let (series, count) = append_u64_samples to_f64 w.series w.update_count drained in
      (
        record {
          update_count = count;
          cur_num = d.chain.cur_block_number;
          cur_time = d.chain.cur_interval;
          max_time = d.chain.max_interval;
          series = series;
        },
        record d { chain = chain },
      )

  -- The `update` of one widget.
  unfoldable pub update_widget : WidgetKind → Widgets F D → Data F D → Widgets F D × Data F D
  unfolding update_txs update_time update_node_details
  update_widget txs w d = let (widget, d') = update_txs w.txs d in (record w { txs = widget }, d')
  update_widget time w d =
      let (widget, d') = update_time w.time d in (record w { time = widget }, d')
  update_widget node w d = (record w { node = NodeStates.sorted d.node_state }, d)
  update_widget node_details w d =
      (record w { node_details = update_node_details d.node_details }, d)
  update_widget system_summary w d = (record w { system_summary = d.system }, d)
  update_widget disk_list w d = (record w { disk_list = d.system }, d)

  unfoldable pub update_all : List WidgetKind → Widgets F D → Data F D → Widgets F D × Data F D
  unfolding update_widget
  update_all [] w d = (w, d)
  update_all (k ∷ ks) w d = let (w', d') = update_widget k w d in update_all ks w' d'

-- The widgets that `refresh_dirty_widgets` updates, in its order.
unfoldable pub dirty_widgets : UiDirtyState → List WidgetKind
dirty_widgets dirty =
    (if dirty.chain then txs ∷ time ∷ [] else [])
    ++ (if dirty.node_state then node ∷ [] else [])
    ++ (if dirty.node_details then node_details ∷ [] else [])
    ++ (if dirty.system then system_summary ∷ disk_list ∷ [] else [])

module _ {F D : Type 0} (to_f64 : ℕ → F) where
  -- The new state, and `should_redraw`.
  unfoldable pub refresh_dirty_widgets : Widgets F D → Data F D → (Widgets F D × Data F D) × Bool
  unfolding take_ui_dirty update_all dirty_widgets
  refresh_dirty_widgets w d =
      let (d', dirty) = take_ui_dirty d in
      (
        update_all to_f64 (dirty_widgets dirty) w d',
        dirty.status || dirty.chain || dirty.node_state || dirty.node_details || dirty.system,
      )
