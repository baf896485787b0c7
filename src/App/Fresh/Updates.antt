-- ===== src/App/Fresh/Updates.antt =====
-- The update of a widget.
use chaindash.Base.{
  Bool-cases, ℕ, ◌≡◌, refl, ◌⊎◌, inl, inr, Bool, true, false, ◌||◌, List, ◌∷◌, arith,
}
use chaindash.Data.Chain.{txns_and_clear, intervals_and_clear}
use chaindash.Data.Store.{Data, UiDirtyState}
use chaindash.App.{
  Widgets, update_widget, update_txs, update_time, WidgetKind, txs, time, node, node_details,
  system_summary, disk_list,
}
use chaindash.App.Loop.{World}
use chaindash.App.Shown.{same_widget, Shows, flag_of, waits, IsFresh}
use mathlib.Core.Path.{subst}

module _ {F D : Type 0} where
  -- The flags and the wake message are not shown.
  pub flags-Shows :
      (k : WidgetKind) (w : Widgets F D) (d : Data F D) (dirty : UiDirtyState) (wake : Bool)
      → Shows k w d
      → Shows k w (record d { ui_dirty = dirty; ui_wake = wake })
  flags-Shows txs w d dirty wake shows = shows
  flags-Shows time w d dirty wake shows = shows
  flags-Shows node w d dirty wake shows = shows
  flags-Shows node_details w d dirty wake shows = shows
  flags-Shows system_summary w d dirty wake shows = shows
  flags-Shows disk_list w d dirty wake shows = shows

other_waits :
    (j k : WidgetKind) (ks : List WidgetKind) (flag : Bool)
    → same_widget k j ≡ false
    → (flag || waits j (k ∷ ks)) ≡ true
    → (flag || waits j ks) ≡ true
unfolding waits
other_waits j k ks flag other due = ground arith

keep {ℓ} : {A : Type ℓ} → A ⊎ (false ≡ true) → A
keep (inl a) = a
keep (inr h) = cc

module _ {F D : Type 0} where
  still_due :
      (j k : WidgetKind) (ks : List WidgetKind) (w : World F D)
      → w.pending ≡ k ∷ ks
      → same_widget k j ≡ false
      → (flag_of j w.shared.ui_dirty || waits j w.pending) ≡ true
      → (flag_of j w.shared.ui_dirty || waits j ks) ≡ true
  still_due j k ks w e other due =
      other_waits j k ks (flag_of j w.shared.ui_dirty) other
        (subst (λ l. (flag_of j w.shared.ui_dirty || waits j l) ≡ true) e due)

module _ {F D : Type 0} (to_f64 : ℕ → F) where
  -- A widget that is updated shows the data, and the others show what they showed.
  update-Shows :
      (j k : WidgetKind) (w : Widgets F D) (d : Data F D)
      → Shows j w d ⊎ (same_widget k j ≡ true)
      → Shows j (update_widget to_f64 k w d).0 (update_widget to_f64 k w d).1
  unfolding update_widget update_txs update_time txns_and_clear intervals_and_clear
  update-Shows txs txs w d h = (refl, refl, refl, refl)
  update-Shows txs time w d h = keep h
  update-Shows txs node w d h = keep h
  update-Shows txs node_details w d h = keep h
  update-Shows txs system_summary w d h = keep h
  update-Shows txs disk_list w d h = keep h
  update-Shows time txs w d h = keep h
  update-Shows time time w d h = (refl, refl, refl)
  update-Shows time node w d h = keep h
  update-Shows time node_details w d h = keep h
  update-Shows time system_summary w d h = keep h
  update-Shows time disk_list w d h = keep h
  update-Shows node txs w d h = keep h
  update-Shows node time w d h = keep h
  update-Shows node node w d h = refl
  update-Shows node node_details w d h = keep h
  update-Shows node system_summary w d h = keep h
  update-Shows node disk_list w d h = keep h
  update-Shows node_details txs w d h = keep h
  update-Shows node_details time w d h = keep h
  update-Shows node_details node w d h = keep h
  update-Shows node_details node_details w d h = refl
  update-Shows node_details system_summary w d h = keep h
  update-Shows node_details disk_list w d h = keep h
  update-Shows system_summary txs w d h = keep h
  update-Shows system_summary time w d h = keep h
  update-Shows system_summary node w d h = keep h
  update-Shows system_summary node_details w d h = keep h
  update-Shows system_summary system_summary w d h = refl
  update-Shows system_summary disk_list w d h = keep h
  update-Shows disk_list txs w d h = keep h
  update-Shows disk_list time w d h = keep h
  update-Shows disk_list node w d h = keep h
  update-Shows disk_list node_details w d h = keep h
  update-Shows disk_list system_summary w d h = keep h
  update-Shows disk_list disk_list w d h = refl

  dirty-update_widget :
      (k : WidgetKind) (w : Widgets F D) (d : Data F D)
      → (update_widget to_f64 k w d).1.ui_dirty ≡ d.ui_dirty
  unfolding update_widget update_txs update_time
  dirty-update_widget txs w d = refl
  dirty-update_widget time w d = refl
  dirty-update_widget node w d = refl
  dirty-update_widget node_details w d = refl
  dirty-update_widget system_summary w d = refl
  dirty-update_widget disk_list w d = refl

  -- The next widget is updated: it is up to date, and the others as before.
  pub update-IsFresh :
      (j k : WidgetKind) (ks : List WidgetKind) (w : World F D)
      → w.pending ≡ k ∷ ks
      → IsFresh j w
      → IsFresh j (record w {
        shared = (update_widget to_f64 k w.widgets w.shared).1;
        widgets = (update_widget to_f64 k w.widgets w.shared).0;
        pending = ks;
      })
  update-IsFresh j k ks w e (inl shows) = inl (update-Shows j k w.widgets w.shared (inl shows))
  update-IsFresh j k ks w e (inr due) = elim (Bool-cases (same_widget k j)) [
    | inl same ↦ inl (update-Shows j k w.widgets w.shared (inr same))
    | inr other ↦
        inr (rw (dirty-update_widget k w.widgets w.shared) (still_due j k ks w e other due))
  ]
