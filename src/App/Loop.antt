-- ===== src/App/Loop.antt =====
-- The event loop of src/main.rs and the collectors that run beside it, as a step relation.
--
-- Each step is what happens under one lock of `Data`, so that a collector can write between any
-- two steps of the interface: between the wake message and `take_ui_dirty`, and between
-- `take_ui_dirty` and the `update` of each widget that it asks for.
use chaindash.Base.{ℕ, ◌≡◌, Bool, true, false, List, [], ◌∷◌}
use chaindash.Data.System.{SystemStats, handle_tab_key, handle_shift_tab_key}
use chaindash.Data.Store.{Data, Write, perform, take_ui_dirty, default_data}
use chaindash.App.{disk_list, Widgets, WidgetKind, update_widget, dirty_widgets}

pub record World (F D : Type 0) : Type 0 where
  pub shared : Data F D
  pub widgets : Widgets F D
  -- The wake message is received, and the flags are not yet taken.
  pub woken : Bool
  -- The widgets still to be updated.
  pub pending : List WidgetKind

-- A key that changed the selection: the list of disks is updated next.
abbrev pub select_disk : {F D : Type 0} → World F D → SystemStats F D × Bool → World F D
select_disk w (system, true) = record w {
  shared = record w.shared { system = system };
  pending = disk_list ∷ [];
}
select_disk w (system, false) = record w { shared = record w.shared { system = system } }

module _ {F D : Type 0} (to_f64 : ℕ → F) where
  pub data Step : World F D → World F D → Type 0 where
    -- A collector writes, or the interface a status.
    write : (w : World F D) (c : Write F D) → Step w (record w { shared = perform w.shared c })
    -- `recv(ui_refresh_receiver)`
    receive :
        (w : World F D)
        → w.shared.ui_wake ≡ true
        → w.woken ≡ false
        → w.pending ≡ []
        → Step w (record w { shared = record w.shared { ui_wake = false }; woken = true })
    -- The flags are taken.
    take_flags :
        (w : World F D)
        → w.woken ≡ true
        → w.pending ≡ []
        → Step w (record w {
          shared = (take_ui_dirty w.shared).0;
          woken = false;
          pending = dirty_widgets (take_ui_dirty w.shared).1;
        })
    -- The next widget is updated.
    update :
        (w : World F D) (k : WidgetKind) (ks : List WidgetKind)
        → w.pending ≡ k ∷ ks
        → Step w (record w {
          shared = (update_widget to_f64 k w.widgets w.shared).1;
          widgets = (update_widget to_f64 k w.widgets w.shared).0;
          pending = ks;
        })
    -- Tab and Shift-Tab.
    tab :
        (w : World F D)
        → w.woken ≡ false
        → w.pending ≡ []
        → Step w (select_disk w (handle_tab_key w.shared.system))
    shift_tab :
        (w : World F D)
        → w.woken ≡ false
        → w.pending ≡ []
        → Step w (select_disk w (handle_shift_tab_key w.shared.system))

  pub data Steps : World F D → World F D → Type 0 where
    done : (w : World F D) → Steps w w
    next : {v w u : World F D} → Steps v w → Step w u → Steps v u

module _ {F D : Type 0} (stats : SystemStats F D) (to_f64 : ℕ → F) where
  -- The widgets as their `new` makes them.
  abbrev pub new_widgets : Widgets F D
  new_widgets = record {
    txs = record {
      update_count = 0;
      cur_num = 0;
      cur_txs = 0;
      max = 0;
      max_block_number = 0;
      series = (to_f64 0, to_f64 0) ∷ [];
    };
    time = record {
      update_count = 0;
      cur_num = 0;
      cur_time = 0;
      max_time = 0;
      series = (to_f64 0, to_f64 0) ∷ [];
    };
    node = [];
    node_details = record { loading = true; node_details = [] };
    system_summary = stats;
    disk_list = stats;
  }

  -- The program when the loop begins: the waker is installed, and the widgets that are due at second
  -- 0 are still to be updated.
  abbrev pub start : List WidgetKind → World F D
  start due = record {
    shared = record (default_data stats) { ui_waker = true };
    widgets = new_widgets;
    woken = false;
    pending = due;
  }
