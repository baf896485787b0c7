-- ===== src/Notify/State.antt =====
-- `ConnectionState`, `RankingChange` and `NotificationState` of src/notify.rs. An `Instant` is its
-- distance from the start in nanoseconds, and so is a `Duration`.
pub mod Connection
pub mod Ranking
pub mod RateLimit
use chaindash.Base.{
  ltb, ◌==◌, if◌then◌else◌, not, Text, Map, lookup, insert, ℤ, leb_ℤ, eqb_ℤ, is_positive, ℕ, ◌-◌,
  Bool, true, false, Option, none, some, [], pos,
}
use chaindash.Notify.Filter.{EventKind}
use chaindash.Notify.Summary.{
  QuietSummaryBuffer, QuietSummarySnapshot, empty_buffer, record_event, take_snapshot,
}

pub data ConnectionState : Type 0 where
  healthy unhealthy : ConnectionState

pub record RankingChange : Type 0 where
  pub previous : ℤ
  pub current : ℤ

pub record NotificationState : Type 0 where
  pub connection_states : Map ConnectionState
  pub last_rankings : Map ℤ
  pub last_sent_at : Map ℕ
  pub quiet_summary : QuietSummaryBuffer

abbrev pub initial : NotificationState
initial = record {
  connection_states = [];
  last_rankings = [];
  last_sent_at = [];
  quiet_summary = empty_buffer;
}

-- `matches!(…, Some(ConnectionState::Unhealthy))`
abbrev pub was_unhealthy : Option ConnectionState → Bool
was_unhealthy none = false
was_unhealthy (some healthy) = false
was_unhealthy (some unhealthy) = true

unfoldable pub mark_connection_failed : NotificationState → Text → NotificationState × Bool
mark_connection_failed s key = (
  record s { connection_states = insert key unhealthy s.connection_states },
  not (was_unhealthy (lookup key s.connection_states)),
)

unfoldable pub mark_connection_recovered : NotificationState → Text → NotificationState × Bool
mark_connection_recovered s key = (
  record s { connection_states = insert key healthy s.connection_states },
  was_unhealthy (lookup key s.connection_states),
)

-- What is reported when `ranking` replaces the stored value: `filter`, `?` and the test.
unfoldable pub ranking_change : Option ℤ → ℤ → Option RankingChange
ranking_change none ranking = none
ranking_change (some previous) ranking =
    if is_positive previous
    then if eqb_ℤ previous ranking
      then none
      else some (record { previous = previous; current = ranking })
    else none

unfoldable pub plan_ranking_change :
    NotificationState → Text → ℤ → NotificationState × Option RankingChange
plan_ranking_change s node_id ranking = if leb_ℤ ranking (pos 0) then (s, none) else (
  record s { last_rankings = insert node_id ranking s.last_rankings },
  ranking_change (lookup node_id s.last_rankings) ranking,
)

-- `is_some_and(|last_sent_at| now.saturating_duration_since(*last_sent_at) < rate_limit)`
abbrev pub too_soon : Option ℕ → ℕ → ℕ → Bool
too_soon none now rate_limit = false
too_soon (some last) now rate_limit = ltb (now - last) rate_limit

unfoldable pub allow_delivery : NotificationState → Text → ℕ → ℕ → NotificationState × Bool
allow_delivery s rate_limit_key now rate_limit =
    if rate_limit == 0
    then (s, true)
    else if too_soon (lookup rate_limit_key s.last_sent_at) now rate_limit
    then (s, false)
    else (record s { last_sent_at = insert rate_limit_key now s.last_sent_at }, true)

unfoldable pub record_quiet_summary : NotificationState → EventKind → Text → NotificationState
record_quiet_summary s event subject = record s {
  quiet_summary = record_event s.quiet_summary event subject;
}

unfoldable pub take_quiet_summary_snapshot :
    NotificationState → NotificationState × Option QuietSummarySnapshot
take_quiet_summary_snapshot s =
    let (buffer, snapshot) = take_snapshot s.quiet_summary in
    (record s { quiet_summary = buffer }, snapshot)
