-- ===== src/App/Fresh/Runs.antt =====
-- The event loop brings every widget up to date.
use chaindash.Base.{ℕ, ◌≡◌, ◌∙◌, inl, inr, Bool, true, false, ◌||◌, [], arith}
use chaindash.Data.System.{
  handle_tab_key, handle_shift_tab_key, handle_shift_tab_key, handle_tab_key,
}
use chaindash.Data.Store.{take_ui_dirty, clean}
use chaindash.App.{take_ui_dirty, dirty_widgets, WidgetKind}
use chaindash.App.Loop.{Steps, Step, World}
use chaindash.App.Shown.{flag_of, IsFresh}
use chaindash.App.Fresh.{write-IsFresh, select-IsFresh, waits-dirty_widgets, idle-flag}
use chaindash.App.Fresh.Updates.{update-IsFresh, flags-Shows}
use chaindash.App.Loop.{done, next, write, receive, take_flags, update, tab, shift_tab}

or-true : (a : Bool) {b : Bool} → b ≡ true → (a || b) ≡ true
or-true a {b} h = ground arith

module _ {F D : Type 0} where
  receive-IsFresh :
      (k : WidgetKind) (w : World F D)
      → IsFresh k w
      → IsFresh k (record w { shared = record w.shared { ui_wake = false }; woken = true })
  receive-IsFresh k w (inl shows) =
      inl (flags-Shows k w.widgets w.shared w.shared.ui_dirty false shows)
  receive-IsFresh k w (inr due) = inr due

  take-IsFresh :
      (k : WidgetKind) (w : World F D)
      → w.pending ≡ []
      → IsFresh k w
      → IsFresh k (record w {
        shared = (take_ui_dirty w.shared).0;
        woken = false;
        pending = dirty_widgets (take_ui_dirty w.shared).1;
      })
  unfolding take_ui_dirty
  take-IsFresh k w nothing (inl shows) =
      inl (flags-Shows k w.widgets w.shared clean w.shared.ui_wake shows)
  take-IsFresh k w nothing (inr due) = inr (
      or-true (flag_of k clean)
        (waits-dirty_widgets k w.shared.ui_dirty ∙ idle-flag k w nothing due))

module _ {F D : Type 0} (to_f64 : ℕ → F) where
  step-IsFresh : {v w : World F D} (k : WidgetKind) → Step to_f64 v w → IsFresh k v → IsFresh k w
  step-IsFresh k (write v c) h = write-IsFresh k v c h
  step-IsFresh k (receive v token idle nothing) h = receive-IsFresh k v h
  step-IsFresh k (take_flags v woken nothing) h = take-IsFresh k v nothing h
  step-IsFresh k (update v j ks e) h = update-IsFresh to_f64 k j ks v e h
  step-IsFresh k (tab v idle nothing) h = unfold handle_tab_key in select-IsFresh k v _ nothing h
  step-IsFresh k (shift_tab v idle nothing) h =
      unfold handle_shift_tab_key in select-IsFresh k v _ nothing h

  -- Whatever the collectors write and whichever keys are pressed, in any order: a widget that agrees
  -- with the data, or waits for its update, or whose flag is set, stays one of these.
  pub Steps-IsFresh :
      {v w : World F D} (k : WidgetKind) → Steps to_f64 v w → IsFresh k v → IsFresh k w
  Steps-IsFresh k (done w) h = h
  Steps-IsFresh k (next ss s) h = step-IsFresh k s (Steps-IsFresh k ss h)
