-- ===== src/Notify/Filter.antt =====
-- `NotificationEventKind` and `TelegramNotificationFilter` of src/notify.rs.
pub mod Allows
use chaindash.Base.{filter, Bool, true, false, List, [], ◌∷◌}
use chaindash.Opts.NotifyEvent.{NotifyEvent, all_events, connection, ranking, daily}
use chaindash.Opts.NotifyEvent

pub data EventKind : Type 0 where
  connection_failed connection_recovered ranking_changed daily_summary : EventKind

pub record NotificationFilter : Type 0 where
  pub connection_failed : Bool
  pub connection_recovered : Bool
  pub ranking_changed : Bool
  pub daily_summary : Bool

abbrev pub all_kinds : NotificationFilter
all_kinds = record {
  connection_failed = true;
  connection_recovered = true;
  ranking_changed = true;
  daily_summary = true;
}

abbrev pub no_kinds : NotificationFilter
no_kinds = record {
  connection_failed = false;
  connection_recovered = false;
  ranking_changed = false;
  daily_summary = false;
}

-- One turn of the loop of `from_opts`.
unfoldable pub enable : NotificationFilter → NotifyEvent → NotificationFilter
enable filter all_events = all_kinds
enable filter connection = record filter { connection_failed = true; connection_recovered = true }
enable filter NotifyEvent.connection_failed = record filter { connection_failed = true }
enable filter NotifyEvent.connection_recovered = record filter { connection_recovered = true }
enable filter ranking = record filter { ranking_changed = true }
enable filter NotifyEvent.ranking_changed = record filter { ranking_changed = true }
enable filter daily = record filter { daily_summary = true }
enable filter NotifyEvent.daily_summary = record filter { daily_summary = true }

unfoldable pub enable_each : NotificationFilter → List NotifyEvent → NotificationFilter
enable_each filter [] = filter
enable_each filter (event ∷ events) = enable_each (enable filter event) events

unfoldable pub from_opts : List NotifyEvent → NotificationFilter
from_opts [] = all_kinds
from_opts (event ∷ events) = enable_each no_kinds (event ∷ events)

unfoldable pub allows : NotificationFilter → EventKind → Bool
allows filter connection_failed = filter.connection_failed
allows filter connection_recovered = filter.connection_recovered
allows filter ranking_changed = filter.ranking_changed
allows filter daily_summary = filter.daily_summary
