-- ===== src/Notify/Filter/Allows.antt =====
-- Which events a filter lets through.
use chaindash.Base.{filter, any, ◌≡◌, Bool, true, false, ◌||◌, List, [], ◌∷◌, arith}
use chaindash.Opts.NotifyEvent.{NotifyEvent, all_events, connection, ranking, daily}
use chaindash.Notify.Filter.{
  EventKind, NotificationFilter, connection_failed, connection_recovered, ranking_changed,
  daily_summary, enable, enable_each, from_opts, allows, no_kinds,
}

-- What the option's documentation says of a name: the kinds of event that it stands for.
unfoldable pub covers : EventKind → NotifyEvent → Bool
covers kind all_events = true
covers connection_failed connection = true
covers connection_recovered connection = true
covers connection_failed NotifyEvent.connection_failed = true
covers connection_recovered NotifyEvent.connection_recovered = true
covers ranking_changed ranking = true
covers ranking_changed NotifyEvent.ranking_changed = true
covers daily_summary daily = true
covers daily_summary NotifyEvent.daily_summary = true
covers kind event = false

allows-enable :
    (filter : NotificationFilter) (event : NotifyEvent) (kind : EventKind)
    → allows (enable filter event) kind ≡ (allows filter kind || covers kind event)
unfolding allows enable covers
allows-enable filter event kind = ground arith

allows-enable_each :
    (filter : NotificationFilter) (events : List NotifyEvent) (kind : EventKind)
    → allows (enable_each filter events) kind ≡ (allows filter kind || any (covers kind) events)
unfolding enable_each any
allows-enable_each filter [] kind = ground arith
allows-enable_each filter (event ∷ events) kind =
    ground
      (arith, allows-enable_each (enable filter event) events kind, allows-enable filter event kind)

-- With no names given every kind of event is allowed; otherwise a kind is allowed exactly when
-- one of the names covers it.
pub allows-from_opts :
    (events : List NotifyEvent) (kind : EventKind)
    → allows (from_opts events) kind
      ≡ elim events [ [] ↦ true | event ∷ rest ↦ any (covers kind) (event ∷ rest) ]
unfolding from_opts allows
allows-from_opts [] kind = ground arith
allows-from_opts (event ∷ events) kind =
    ground (arith, allows-enable_each no_kinds (event ∷ events) kind)
