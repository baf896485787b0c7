-- ===== src/App/Settles.antt =====
-- The event loop comes to rest, and then every widget shows the data.
use chaindash.Base.{
  values, sort_by, ℕ, ◌≡◌, refl, ◌⊎◌, inl, inr, Bool, true, false, ◌||◌, List, arith,
}
use mathlib.Core.Path.{subst}
use chaindash.Data.NodeDetails
use chaindash.Data.NodeStates
use chaindash.Data.System.{SystemStats}
use chaindash.App.{
  WidgetKind, txs, time, node, node_details, system_summary, disk_list, update_node_details,
}
use chaindash.App.Shown.{Shows, IsFresh, flag_of, waits}
use chaindash.App.Fresh.Runs.{Steps-IsFresh}
use chaindash.App.Loop.{start, World, Steps}
use chaindash.App.Wake.{Steps-IsAwake, IsAwake}
use chaindash.App.Rest.{IsQuiet, IsKept, IsAlone, trans, settles}

module _ {F D : Type 0} where
  -- Where the flags and the wake message are clean nothing waits to be shown.
  quiet-clean :
      (k : WidgetKind) (w : World F D) → IsAwake w → IsQuiet w → flag_of k w.shared.ui_dirty ≡ false
  quiet-clean txs w awake quiet = ground arith
  quiet-clean time w awake quiet = ground arith
  quiet-clean node w awake quiet = ground arith
  quiet-clean node_details w awake quiet = ground arith
  quiet-clean system_summary w awake quiet = ground arith
  quiet-clean disk_list w awake quiet = ground arith

module _ {F D : Type 0} (stats : SystemStats F D) (to_f64 : ℕ → F) (due : List WidgetKind) where
  start-IsFresh : (k : WidgetKind) → IsFresh k (start stats to_f64 due)
  unfolding NodeStates.sorted NodeDetails.sorted update_node_details values sort_by
  start-IsFresh txs = inl (refl, refl, refl, refl)
  start-IsFresh time = inl (refl, refl, refl)
  start-IsFresh node = inl refl
  start-IsFresh node_details = inl refl
  start-IsFresh system_summary = inl refl
  start-IsFresh disk_list = inl refl

  start-IsAwake : IsAwake (start stats to_f64 due)
  start-IsAwake = (refl, λ h. cc)

  settled : {A : Type 0} (flag : Bool) → flag ≡ false → A ⊎ ((flag || false) ≡ true) → A
  settled flag clean (inl a) = a
  settled flag clean (inr h) = cc

  fresh-quiet :
      (k : WidgetKind) (w : World F D)
      → IsAwake w
      → IsQuiet w
      → IsFresh k w
      → Shows k w.widgets w.shared
  unfolding waits
  fresh-quiet k w awake quiet fresh =
      settled (flag_of k w.shared.ui_dirty) (quiet-clean k w awake quiet) (
        subst
          (λ l. Shows k w.widgets w.shared ⊎ ((flag_of k w.shared.ui_dirty || waits k l) ≡ true))
          quiet.0 fresh)

  -- After any run of the collectors and the interface, whichever widgets are due at its start:
  -- where the interface waits and no wake message is there, each of the six widgets that show the
  -- data agrees with them: both charts in their numbers, the system summary but for the selected
  -- disk.
  pub quiet-Shows :
      (w : World F D)
      → Steps to_f64 (start stats to_f64 due) w
      → IsQuiet w
      → (k : WidgetKind) → Shows k w.widgets w.shared
  quiet-Shows w run quiet k =
      fresh-quiet k w (Steps-IsAwake to_f64 run start-IsAwake) quiet
        (Steps-IsFresh to_f64 k run (start-IsFresh k))

  -- After any run of the collectors and the interface, the interface alone comes to rest: it has a
  -- run of its own steps, after which it waits with no wake message there, the data are what they were but for what
  -- the charts drained, and each of the six widgets that show them agrees with them: both charts
  -- in their numbers, the system summary but for the selected disk.
  pub settles-Shows :
      (w : World F D)
      → Steps to_f64 (start stats to_f64 due) w
      → (w' : World F D) × (rest : Steps to_f64 w w') × IsAlone to_f64 rest
        × IsQuiet w'
        × IsKept w.shared w'.shared
        × ((k : WidgetKind) → Shows k w'.widgets w'.shared)
  settles-Shows w run =
      let (w', rest, alone, quiet, kept) = settles to_f64 w in
      (w', rest, alone, quiet, kept, λ k. quiet-Shows w' (trans to_f64 run rest) quiet k)
