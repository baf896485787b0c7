-- ===== src/App/Examples.antt =====
-- A consensus state arrives, and the interface shows it. The floating-point numbers and the disks
-- are counted here.
use chaindash.Base.{codes, ℕ, refl, true, false, []}
use chaindash.Data.System.{SystemStats}
use chaindash.Data.Store.{
  notify_ui_if_needed, mark_node_state_dirty, Write, update_consensus_state, perform, take_ui_dirty,
}
use chaindash.App.{dirty_widgets, WidgetKind, node, update_widget}
use chaindash.App.Loop.{World, Steps, done, next, write, receive, take_flags, update, start}
use chaindash.App.Shown.{Shows}
use chaindash.App.Rest.{IsAlone, IsQuiet, IsKept}
use chaindash.App.Settles.{quiet-Shows, settles-Shows}

abbrev no_stats : SystemStats ℕ ℕ
no_stats = record {
  cpu_usage = 0;
  memory_used = 0;
  memory_total = 0;
  memory_usage_percent = 0;
  network_rx = 0;
  network_tx = 0;
  disk_used = 0;
  disk_total = 0;
  disk_usage_percent = 0;
  disk_details = [];
  current_disk_index = 0;
  alert_threshold = 90;
  has_disk_alerts = false;
  auto_discovery_enabled = true;
}

abbrev cast : ℕ → ℕ
cast n = n

abbrev begin : World ℕ ℕ
begin = start no_stats cast []

abbrev arrival : Write ℕ ℕ
arrival = update_consensus_state (codes "a") (record {
  name = codes "a";
  host = codes "127.0.0.1";
  current_number = 7;
  epoch = 1;
  view = 2;
  committed = 6;
  locked = 7;
  qc = 7;
  validator = true;
})

abbrev arrived : World ℕ ℕ
arrived = record begin { shared = perform begin.shared arrival }

abbrev woken : World ℕ ℕ
woken = record arrived { shared = record arrived.shared { ui_wake = false }; woken = true }

abbrev taken : World ℕ ℕ
taken = record woken {
  shared = (take_ui_dirty woken.shared).0;
  woken = false;
  pending = dirty_widgets (take_ui_dirty woken.shared).1;
}

abbrev rest : World ℕ ℕ
rest = record taken {
  shared = (update_widget cast node taken.widgets taken.shared).1;
  widgets = (update_widget cast node taken.widgets taken.shared).0;
  pending = [];
}

to_woken : Steps cast begin woken
unfolding perform mark_node_state_dirty notify_ui_if_needed
to_woken = next (next (done begin) (write begin arrival)) (receive arrived refl refl refl)

to_rest : Steps cast begin rest
unfolding perform mark_node_state_dirty notify_ui_if_needed take_ui_dirty dirty_widgets
to_rest = next (next to_woken (take_flags woken refl refl)) (update taken node [] refl)

rest-IsQuiet : IsQuiet rest
unfolding perform mark_node_state_dirty notify_ui_if_needed take_ui_dirty dirty_widgets
    update_widget
rest-IsQuiet = (refl, refl, refl)

quiet-Shows_example : Shows node rest.widgets rest.shared
quiet-Shows_example = quiet-Shows no_stats cast [] rest to_rest rest-IsQuiet node

settles-Shows_example :
    (w' : World ℕ ℕ) × (rest : Steps cast woken w') × IsAlone cast rest
    × IsQuiet w'
    × IsKept woken.shared w'.shared
    × ((k : WidgetKind) → Shows k w'.widgets w'.shared)
settles-Shows_example = settles-Shows no_stats cast [] woken to_woken
