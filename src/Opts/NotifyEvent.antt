-- ===== src/Opts/NotifyEvent.antt =====
-- `TelegramNotifyEvent` and `parse_telegram_notify_event` of src/opts.rs. The error holds the
-- value that the program's message quotes.
use chaindash.Base.{Text, codes, text_eq, trim, ascii_lower, lookup, none, some, List, [], ◌∷◌, map}

pub data NotifyEvent : Type 0 where
  all_events connection connection_failed connection_recovered : NotifyEvent
  ranking ranking_changed daily daily_summary : NotifyEvent

pub data Parsed : Type 0 where
  ok : NotifyEvent → Parsed
  invalid : Text → Parsed

-- The arms of the `match`, in their order.
abbrev pub arms : List (Text × NotifyEvent)
arms =
    (codes "all", all_events)
    ∷ (codes "connection", connection)
    ∷ (codes "connection-failed", connection_failed)
    ∷ (codes "connection_failed", connection_failed)
    ∷ (codes "connection-recovered", connection_recovered)
    ∷ (codes "connection_recovered", connection_recovered)
    ∷ (codes "ranking", ranking)
    ∷ (codes "ranking-changed", ranking_changed)
    ∷ (codes "ranking_changed", ranking_changed)
    ∷ (codes "daily", daily)
    ∷ (codes "daily-summary", daily_summary)
    ∷ (codes "daily_summary", daily_summary)
    ∷ []

unfoldable pub parse_notify_event : Text → Parsed
unfolding trim ascii_lower lookup text_eq
parse_notify_event value = elim (lookup (map ascii_lower (trim value)) arms) [
  | none ↦ invalid value
  | some e ↦ ok e
]
