-- ===== src/App/Rest.antt =====
-- The interface alone comes to rest: it takes the wake message, the flags, and every widget that is due.
use chaindash.Base.{Bool-cases, ℕ, ◌≡◌, refl, ◌∙◌, inl, inr, true, false, List, [], ◌∷◌}
use chaindash.Data.Chain.{ChainStats, txns_and_clear, intervals_and_clear}
use chaindash.Data.Store.{Data, take_ui_dirty}
use chaindash.App.{
  WidgetKind, txs, time, node, node_details, system_summary, disk_list, update_widget,
  dirty_widgets, update_txs, update_time,
}
use chaindash.App.Loop.{
  World, Step, Steps, done, next, write, receive, take_flags, update, tab, shift_tab,
}

abbrev pub undrained : ChainStats → ChainStats
undrained c = record c { txns = []; intervals = [] }

module _ {F D : Type 0} where
  -- The interface waits, and no wake message is there.
  abbrev pub IsQuiet : World F D → Type 0
  IsQuiet w = (w.pending ≡ []) × (w.woken ≡ false) × (w.shared.ui_wake ≡ false)

  -- The same data, but for what the charts drain.
  abbrev pub IsKept : Data F D → Data F D → Type 0
  IsKept d d' =
      (undrained d'.chain ≡ undrained d.chain)
      × (d'.node_state ≡ d.node_state)
      × (d'.node_details ≡ d.node_details)
      × (d'.status ≡ d.status)
      × (d'.system ≡ d.system)

  IsKept-refl : (d : Data F D) → IsKept d d
  IsKept-refl d = (refl, refl, refl, refl, refl)

  IsKept-trans : (a b c : Data F D) → IsKept a b → IsKept b c → IsKept a c
  IsKept-trans a b c h k = (k.0 ∙ h.0, k.1 ∙ h.1, k.2 ∙ h.2, k.3 ∙ h.3, k.4 ∙ h.4)

module _ {F D : Type 0} (to_f64 : ℕ → F) where
  pub trans : {a b c : World F D} → Steps to_f64 a b → Steps to_f64 b c → Steps to_f64 a c
  trans s (done w) = s
  trans s (next ss t) = next (trans s ss) t

  -- The step is one of the interface, which no collector and no key takes part in.
  abbrev pub IsOwn : {a b : World F D} → Step to_f64 a b → Type 0
  IsOwn (write w c) = ⊥
  IsOwn (receive w token idle nothing) = Unit
  IsOwn (take_flags w woken nothing) = Unit
  IsOwn (update w k ks e) = Unit
  IsOwn (tab w idle nothing) = ⊥
  IsOwn (shift_tab w idle nothing) = ⊥

  -- So is each step of the run.
  abbrev pub IsAlone : {a b : World F D} → Steps to_f64 a b → Type 0
  IsAlone (done w) = Unit
  IsAlone (next ss t) = IsAlone ss × IsOwn t

  trans-IsAlone :
      {a b c : World F D} (s : Steps to_f64 a b) (t : Steps to_f64 b c)
      → IsAlone s
      → IsAlone t
      → IsAlone (trans s t)
  unfolding trans
  trans-IsAlone s (done w) h k = h
  trans-IsAlone s (next ss t) h k = (trans-IsAlone s ss h k.0, k.1)

  -- A run of the interface alone that ends with no widget pending.
  abbrev Drains : World F D → Type 0
  Drains w =
      (w' : World F D) × (run : Steps to_f64 w w') × IsAlone run
      × (w'.pending ≡ [])
      × (w'.woken ≡ w.woken)
      × (w'.shared.ui_wake ≡ w.shared.ui_wake)
      × IsKept w.shared w'.shared

  updated : World F D → WidgetKind → List WidgetKind → World F D
  updated w k ks = record w {
    shared = (update_widget to_f64 k w.widgets w.shared).1;
    widgets = (update_widget to_f64 k w.widgets w.shared).0;
    pending = ks;
  }

  IsKept-updated :
      (w : World F D) (k : WidgetKind) (ks : List WidgetKind)
      → ((updated w k ks).shared.ui_wake ≡ w.shared.ui_wake)
        × IsKept w.shared (updated w k ks).shared
  unfolding updated update_widget update_txs update_time txns_and_clear intervals_and_clear
  IsKept-updated w txs ks = (refl, IsKept-refl w.shared)
  IsKept-updated w time ks = (refl, IsKept-refl w.shared)
  IsKept-updated w node ks = (refl, IsKept-refl w.shared)
  IsKept-updated w node_details ks = (refl, IsKept-refl w.shared)
  IsKept-updated w system_summary ks = (refl, IsKept-refl w.shared)
  IsKept-updated w disk_list ks = (refl, IsKept-refl w.shared)

  drain : (ks : List WidgetKind) (w : World F D) → w.pending ≡ ks → Drains w
  unfolding updated
  drain [] w e = (w, done w, tt, e, refl, refl, IsKept-refl w.shared)
  drain (k ∷ ks) w e =
      let u : World F D = updated w k ks in
      let (w', run, alone, nothing, woken, wake, kept) = drain ks u refl in
      (
        w',
        trans (next (done w) (update w k ks e)) run,
        trans-IsAlone (next (done w) (update w k ks e)) run (tt, tt) alone,
        nothing,
        woken,
        wake ∙ (IsKept-updated w k ks).0,
        IsKept-trans w.shared u.shared w'.shared (IsKept-updated w k ks).1 kept,
      )

  -- A run of the interface alone to rest.
  abbrev pub Settles : World F D → Type 0
  Settles w =
      (w' : World F D) × (run : Steps to_f64 w w') × IsAlone run
      × IsQuiet w'
      × IsKept w.shared w'.shared

  taken : World F D → World F D
  taken w = record w {
    shared = (take_ui_dirty w.shared).0;
    woken = false;
    pending = dirty_widgets (take_ui_dirty w.shared).1;
  }

  IsKept-taken :
      (w : World F D)
      → ((taken w).shared.ui_wake ≡ w.shared.ui_wake) × IsKept w.shared (taken w).shared
  unfolding taken take_ui_dirty
  IsKept-taken w = (refl, IsKept-refl w.shared)

  settle-woken :
      (w : World F D) → w.pending ≡ [] → w.woken ≡ true → w.shared.ui_wake ≡ false → Settles w
  unfolding taken
  settle-woken w nothing woken asleep =
      let t : World F D = taken w in
      let (w', run, alone, nothing', woken', wake, kept) = drain t.pending t refl in
      (
        w',
        trans (next (done w) (take_flags w woken nothing)) run,
        trans-IsAlone (next (done w) (take_flags w woken nothing)) run (tt, tt) alone,
        (nothing', woken', wake ∙ (IsKept-taken w).0 ∙ asleep),
        IsKept-trans w.shared t.shared w'.shared (IsKept-taken w).1 kept,
      )

  received : World F D → World F D
  received w = record w { shared = record w.shared { ui_wake = false }; woken = true }

  settle-idle : (w : World F D) → w.pending ≡ [] → w.woken ≡ false → Settles w
  unfolding received
  settle-idle w nothing idle = elim (Bool-cases w.shared.ui_wake) [
    | inl token ↦
        let (w', run, alone, quiet, kept) = settle-woken (received w) nothing refl refl in
        (
          w',
          trans (next (done w) (receive w token idle nothing)) run,
          trans-IsAlone (next (done w) (receive w token idle nothing)) run (tt, tt) alone,
          quiet,
          kept,
        )
    | inr asleep ↦ (w, done w, tt, (nothing, idle, asleep), IsKept-refl w.shared)
  ]

  then-Settles :
      {v w : World F D} (run : Steps to_f64 v w)
      → IsAlone run
      → IsKept v.shared w.shared
      → Settles w
      → Settles v
  then-Settles {v} {w} run alone kept (w', run', alone', quiet, kept') = (
    w',
    trans run run',
    trans-IsAlone run run' alone alone',
    quiet,
    IsKept-trans v.shared w.shared w'.shared kept kept',
  )

  settle-drained : (w : World F D) → w.pending ≡ [] → Settles w
  unfolding taken
  settle-drained w nothing = elim (Bool-cases w.woken) [
    | inl woken ↦
        let t : World F D = taken w in
        let (w', run, alone, nothing', idle, wake, kept) = drain t.pending t refl in
        then-Settles (trans (next (done w) (take_flags w woken nothing)) run)
          (trans-IsAlone (next (done w) (take_flags w woken nothing)) run (tt, tt) alone)
          (IsKept-trans w.shared t.shared w'.shared (IsKept-taken w).1 kept)
          (settle-idle w' nothing' idle)
    | inr idle ↦ settle-idle w nothing idle
  ]

  pub settles : (w : World F D) → Settles w
  settles w =
      let (w', run, alone, nothing, woken, wake, kept) = drain w.pending w refl in
      then-Settles run alone kept (settle-drained w' nothing)
