-- ===== src/Notify/Examples.antt =====
-- Two nodes, a night of quiet hours and a rate limit of a minute.
use chaindash.Base.{Text, codes, ◌≡◌, true, false, some, List, [], ◌∷◌, arith, pos}
use chaindash.Opts.NotifyEvent.{NotifyEvent}
use chaindash.Notify.Filter.{connection_failed, ranking_changed, all_kinds}
use chaindash.Notify.Summary.{empty_buffer, record_event}
use chaindash.Notify.Summary.Counts.{IsConsistent, IsConsistent-empty, record_event-IsConsistent}
use chaindash.Notify.Config.{TelegramConfig, TelegramTemplates, from_secs}
use chaindash.Notify.State.{initial}
use chaindash.Notify.State.Connection
use chaindash.Notify.State.Connection.{Alternates, last_or, reported-Alternates}
use chaindash.Notify.State.Ranking
use chaindash.Notify.State.Ranking.{rankings_of, changes_of, steps, reported-steps}
use chaindash.Notify.State.RateLimit.{Attempt, accepted, times_of, thin, accepted-thin}
use chaindash.Notify.Delivery.{Now}
use chaindash.Notify.Delivery.Conservation.{Call, AreReported, decide_all, held_back-AreReported}

abbrev node_a : Text
node_a = codes "a"

abbrev node_b : Text
node_b = codes "b"

abbrev events : List NotifyEvent
events = NotifyEvent.connection ∷ NotifyEvent.daily ∷ []

abbrev flapping : List Connection.Observation
flapping = (node_a, true) ∷ (node_a, true) ∷ (node_b, false) ∷ (node_a, false) ∷ (node_b, true) ∷ []

reported-Alternates_example :
    Alternates false (Connection.about node_a (Connection.reported initial flapping))
    × (last_or false (Connection.about node_a (Connection.reported initial flapping))
        ≡ last_or false (Connection.about node_a flapping))
reported-Alternates_example = reported-Alternates flapping node_a

abbrev rankings : List Ranking.Observation
rankings =
    (node_a, pos 3) ∷ (node_b, pos 9) ∷ (node_a, pos 0) ∷ (node_a, pos 5) ∷ (node_a, pos 5) ∷ []

reported-steps_example :
    changes_of node_a (Ranking.reported initial rankings) ≡ steps (rankings_of node_a rankings)
reported-steps_example = reported-steps rankings node_a

abbrev attempts : List Attempt
attempts = (node_a, 0) ∷ (node_a, 40) ∷ (node_b, 50) ∷ (node_a, 60) ∷ []

accepted-thin_example :
    times_of node_a (accepted 60 initial attempts) ≡ thin 60 (times_of node_a attempts)
accepted-thin_example = accepted-thin 60 attempts node_a (omega arith)

record_event-IsConsistent_example :
    IsConsistent (record_event empty_buffer connection_failed node_a)
record_event-IsConsistent_example =
    record_event-IsConsistent empty_buffer connection_failed node_a IsConsistent-empty (λ e. cc)

abbrev templates : TelegramTemplates
templates = record {
  connection_failed = codes "{node} down";
  connection_recovered = codes "{node} up";
  ranking_changed = codes "{node} {delta_text}";
  quiet_summary = codes "{count}";
  daily_summary = codes "{details}";
}

abbrev config : TelegramConfig
config = record {
  bot_token = codes "t";
  chat_ids = codes "1" ∷ codes "2" ∷ [];
  enabled_events = all_kinds;
  quiet_hours = some (record { start_minutes = 1380; end_minutes = 480 });
  rate_limit = from_secs 60;
  templates = templates;
  api_url = codes "https://api";
}

abbrev midnight : Now
midnight = record { instant = 0; hour = 0; minute = 0 }

abbrev noon : Now
noon = record { instant = from_secs 43200; hour = 12; minute = 0 }

abbrev night : List Call
night =
    record { now = midnight; event = connection_failed; key = node_a; subject = node_a }
    ∷ record { now = noon; event = ranking_changed; key = node_b; subject = node_b }
    ∷ []

held_back-AreReported_example :
    AreReported [] night (decide_all config initial night).1 (decide_all config initial night).0
held_back-AreReported_example = held_back-AreReported config night
