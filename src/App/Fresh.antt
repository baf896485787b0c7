-- ===== src/App/Fresh.antt =====
-- Every step keeps every widget up to date, or to be updated.
pub mod Updates
pub mod Runs
use chaindash.Base.{
  leb, ◌==◌, Bool-cases, length, ℕ, max, ◌≡◌, refl, sym, ◌⊎◌, inl, inr, Bool, true, false, ◌||◌, [],
  arith,
}
use chaindash.Data.NodeStates
use chaindash.Data.System.{switch_disk_selection, update_disk_index, SystemStats}
use chaindash.Data.Chain.{txns_and_clear, intervals_and_clear}
use chaindash.Data.Store.{Data, UiDirtyState, Write, perform}
use chaindash.Data.Store.Marks.{
  Marks, perform-chain, perform-node_state, perform-node_details, perform-system,
}
use chaindash.App.{
  Widgets, update_widget, update_txs, update_time, dirty_widgets, WidgetKind, txs, time, node,
  node_details, system_summary, disk_list, update_node_details,
}
use chaindash.App.Loop.{select_disk, World}
use chaindash.App.Shown.{same_widget, Shows, flag_of, waits, IsFresh, unselected}
use mathlib.Core.Path.{subst}

pub or-false : {b : Bool} → (b || false) ≡ true → b ≡ true
or-false {b} h = ground arith

module _ {F D : Type 0} where
  -- What the widget shows lies in one store.
  Marks-IsFresh :
      {S : Type 0} (store : Data F D → S) (flag : UiDirtyState → Bool) (View : S → Type 0)
      (d d' : Data F D) (waiting : Bool)
      → Marks store flag d d'
      → View (store d) ⊎ ((flag d.ui_dirty || waiting) ≡ true)
      → View (store d') ⊎ ((flag d'.ui_dirty || waiting) ≡ true)
  Marks-IsFresh store flag View d d' waiting (inl (same, flags)) (inl shows) =
      inl (subst View (sym same) shows)
  Marks-IsFresh store flag View d d' waiting (inl (same, flags)) (inr due) = inr (rw flags due)
  Marks-IsFresh store flag View d d' waiting (inr set) h = inr (rw set refl)

  pub write-IsFresh :
      (k : WidgetKind) (w : World F D) (c : Write F D)
      → IsFresh k w
      → IsFresh k (record w { shared = perform w.shared c })
  write-IsFresh txs w c h =
      Marks-IsFresh (λ d. d.chain) (λ f. f.chain)
        (λ s.
          (w.widgets.txs.cur_num ≡ s.cur_block_number)
          × (w.widgets.txs.cur_txs ≡ s.cur_txs)
          × (w.widgets.txs.max ≡ s.max_txs)
          × (w.widgets.txs.max_block_number ≡ s.max_txs_block_number))
        w.shared (perform w.shared c) (waits txs w.pending) (perform-chain w.shared c) h
  write-IsFresh time w c h =
      Marks-IsFresh (λ d. d.chain) (λ f. f.chain)
        (λ s.
          (w.widgets.time.cur_num ≡ s.cur_block_number)
          × (w.widgets.time.cur_time ≡ s.cur_interval)
          × (w.widgets.time.max_time ≡ s.max_interval))
        w.shared (perform w.shared c) (waits time w.pending) (perform-chain w.shared c) h
  write-IsFresh node w c h =
      Marks-IsFresh (λ d. d.node_state) (λ f. f.node_state)
        (λ s. w.widgets.node ≡ NodeStates.sorted s) w.shared (perform w.shared c)
        (waits node w.pending) (perform-node_state w.shared c) h
  write-IsFresh node_details w c h =
      Marks-IsFresh (λ d. d.node_details) (λ f. f.node_details)
        (λ s. w.widgets.node_details ≡ update_node_details s) w.shared (perform w.shared c)
        (waits node_details w.pending) (perform-node_details w.shared c) h
  write-IsFresh system_summary w c h =
      Marks-IsFresh (λ d. d.system) (λ f. f.system)
        (λ s. unselected w.widgets.system_summary ≡ unselected s) w.shared (perform w.shared c)
        (waits system_summary w.pending) (perform-system w.shared c) h
  write-IsFresh disk_list w c h =
      Marks-IsFresh (λ d. d.system) (λ f. f.system) (λ s. w.widgets.disk_list ≡ s) w.shared
        (perform w.shared c) (waits disk_list w.pending) (perform-system w.shared c) h

  switch-cases :
      (s : SystemStats F D) (next_index : ℕ → ℕ → ℕ)
      → (switch_disk_selection s next_index ≡ (s, false))
        ⊎ (switch_disk_selection s next_index
            ≡ (update_disk_index s (next_index s.current_disk_index (length s.disk_details)), true))
  unfolding switch_disk_selection
  switch-cases s next_index = elim (Bool-cases (leb (length s.disk_details) 1)) [
    | inl few ↦ inl (rw few refl)
    | inr many ↦
        elim (Bool-cases
          (next_index s.current_disk_index (length s.disk_details) == s.current_disk_index)) [
            | inl same ↦ inl (rw (many, same) refl)
            | inr other ↦ inr (rw (many, other) refl)
          ]
  ]

  pub idle-flag :
      (k : WidgetKind) (w : World F D)
      → w.pending ≡ []
      → (flag_of k w.shared.ui_dirty || waits k w.pending) ≡ true
      → flag_of k w.shared.ui_dirty ≡ true
  unfolding waits
  idle-flag k w nothing due =
      or-false (subst (λ l. (flag_of k w.shared.ui_dirty || waits k l) ≡ true) nothing due)

  selected-IsFresh :
      (k : WidgetKind) (w : World F D) (index : ℕ)
      → w.pending ≡ []
      → IsFresh k w
      → IsFresh k (select_disk w (update_disk_index w.shared.system index, true))
  unfolding waits update_disk_index
  selected-IsFresh txs w index nothing (inl shows) = inl shows
  selected-IsFresh txs w index nothing (inr due) = inr (rw (idle-flag txs w nothing due) refl)
  selected-IsFresh time w index nothing (inl shows) = inl shows
  selected-IsFresh time w index nothing (inr due) = inr (rw (idle-flag time w nothing due) refl)
  selected-IsFresh node w index nothing (inl shows) = inl shows
  selected-IsFresh node w index nothing (inr due) = inr (rw (idle-flag node w nothing due) refl)
  selected-IsFresh node_details w index nothing (inl shows) = inl shows
  selected-IsFresh node_details w index nothing (inr due) =
      inr (rw (idle-flag node_details w nothing due) refl)
  selected-IsFresh system_summary w index nothing (inl shows) = inl shows
  selected-IsFresh system_summary w index nothing (inr due) =
      inr (rw (idle-flag system_summary w nothing due) refl)
  selected-IsFresh disk_list w index nothing h = inr (ground arith)

  pub select-IsFresh :
      (k : WidgetKind) (w : World F D) (next_index : ℕ → ℕ → ℕ)
      → w.pending ≡ []
      → IsFresh k w
      → IsFresh k (select_disk w (switch_disk_selection w.shared.system next_index))
  select-IsFresh k w next_index nothing h = elim (switch-cases w.shared.system next_index) [
    | inl same ↦ rw same h
    | inr moved ↦ rw moved (selected-IsFresh k w _ nothing h)
  ]

-- The flags go into the list of widgets to update.
pub waits-dirty_widgets :
    (k : WidgetKind) (f : UiDirtyState) → waits k (dirty_widgets f) ≡ flag_of k f
unfolding waits dirty_widgets
waits-dirty_widgets txs f = ground arith
waits-dirty_widgets time f = ground arith
waits-dirty_widgets node f = ground arith
waits-dirty_widgets node_details f = ground arith
waits-dirty_widgets system_summary f = ground arith
waits-dirty_widgets disk_list f = ground arith
