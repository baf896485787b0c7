-- ===== src/Notify/Delivery.antt =====
-- `TelegramNotifier` of src/notify.rs: what happens between an event and the messages that are
-- handed to the HTTP client, `send_message_to_chat`. A call runs under the lock of the notifier's
-- state from its decision on, so calls are a sequence.
pub mod Conservation
use chaindash.Base.{
  if◌then◌else◌, not, Text, codes, ℤ, ltb_ℤ, abs_diff, ℕ, ◌+◌, Bool, true, false, ◌&&◌, Option,
  none, some, List, [], ◌∷◌, ◌++◌, map, pos, negsuc,
}
use chaindash.Opts.Number.{decimal}
use chaindash.Notify.Filter.{
  EventKind, connection_failed, connection_recovered, ranking_changed, daily_summary, allows,
}
use chaindash.Notify.Config.{TelegramConfig, is_quiet_time}
use chaindash.Notify.Template.{render_template, display_node_name}
use chaindash.Notify.Summary.{QuietSummarySnapshot}
use chaindash.Notify.State.{
  NotificationState, RankingChange, mark_connection_failed, mark_connection_recovered,
  plan_ranking_change, allow_delivery, record_quiet_summary, take_quiet_summary_snapshot,
}

-- What the clocks show: the monotonic one, and the hour and the minute of the local one.
pub record Now : Type 0 where
  pub instant : ℕ
  pub hour : ℕ
  pub minute : ℕ

pub data SendDecision : Type 0 where
  suppressed_by_rate_limit : SendDecision
  suppressed_by_quiet_hours : SendDecision
  send : Option QuietSummarySnapshot → SendDecision

-- A text for one chat.
abbrev pub Message : Type 0
Message = Text × Text

abbrev pub message_prefix : Text
message_prefix = codes "[chaindash]"

abbrev pub is_daily_summary : EventKind → Bool
is_daily_summary daily_summary = true
is_daily_summary kind = false

-- The block of `send_if_enabled` that holds the lock.
unfoldable pub decide :
    TelegramConfig
    → Now
    → EventKind
    → Text
    → Text
    → NotificationState
    → NotificationState × SendDecision
decide config now event rate_limit_key subject s =
    let (s', allowed) = allow_delivery s rate_limit_key now.instant config.rate_limit in
    let (flushed, quiet_summary) = take_quiet_summary_snapshot s' in
    if not allowed
    then (s', suppressed_by_rate_limit)
    else if not (is_daily_summary event) && is_quiet_time config now.hour now.minute
    then (record_quiet_summary s' event subject, suppressed_by_quiet_hours)
    else (flushed, send quiet_summary)

unfoldable pub render_quiet_summary_message : TelegramConfig → QuietSummarySnapshot → Text
render_quiet_summary_message config summary = render_template config.templates.quiet_summary (
    (codes "prefix", message_prefix)
    ∷ (codes "count", decimal summary.total_count)
    ∷ (codes "details", summary.details)
    ∷ [])

-- `send_message`: the loop over the chats.
unfoldable pub send_message : TelegramConfig → Text → List Message
send_message config text = map (λ chat_id. (chat_id, text)) config.chat_ids

-- The `match` on the decision.
unfoldable pub deliver : TelegramConfig → SendDecision → Text → List Message
unfolding send_message render_quiet_summary_message
deliver config suppressed_by_rate_limit message = []
deliver config suppressed_by_quiet_hours message = []
deliver config (send none) message = send_message config message
deliver config (send (some quiet_summary)) message =
    send_message config (render_quiet_summary_message config quiet_summary)
    ++ send_message config message

unfoldable pub send_if_enabled :
    TelegramConfig
    → Now
    → EventKind
    → Text
    → Text
    → Text
    → NotificationState
    → NotificationState × List Message
unfolding deliver
send_if_enabled config now event rate_limit_key subject message s =
    let (s', decision) = decide config now event rate_limit_key subject s in
    if allows config.enabled_events event then (s', deliver config decision message) else (s, [])

abbrev pub connection_key : Text → Text → Text
connection_key node_name node_url = node_name ++ (codes "@" ++ node_url)

unfoldable pub render_connection_failed_message : TelegramConfig → Text → Text → Text
render_connection_failed_message config node_name reason =
    render_template config.templates.connection_failed (
      (codes "prefix", message_prefix)
      ∷ (codes "node", display_node_name node_name)
      ∷ (codes "reason", reason)
      ∷ [])

unfoldable pub render_connection_recovered_message : TelegramConfig → Text → Text
render_connection_recovered_message config node_name =
    render_template config.templates.connection_recovered
      ((codes "prefix", message_prefix) ∷ (codes "node", display_node_name node_name) ∷ [])

-- `i32::to_string`
unfoldable pub decimal_ℤ : ℤ → Text
decimal_ℤ (pos n) = decimal n
decimal_ℤ (negsuc n) = b'-' ∷ decimal (n + 1)

unfoldable pub render_ranking_changed_message : TelegramConfig → Text → RankingChange → Text
unfolding decimal_ℤ
render_ranking_changed_message config node_name change =
    let delta = decimal (abs_diff change.previous change.current) in
    let up = ltb_ℤ change.current change.previous in
    render_template config.templates.ranking_changed (
      (codes "prefix", message_prefix)
      ∷ (codes "icon", if up then codes "📈" else codes "📉")
      ∷ (codes "node", display_node_name node_name)
      ∷ (codes "previous", decimal_ℤ change.previous)
      ∷ (codes "current", decimal_ℤ change.current)
      ∷ (codes "delta", delta)
      ∷ (codes "delta_text", if up then b'+' ∷ delta else b'-' ∷ delta)
      ∷ (codes "direction", if up then codes "up" else codes "down")
      ∷ [])

unfoldable pub notify_node_connection_failed :
    TelegramConfig → Now → Text → Text → Text → NotificationState → NotificationState × List Message
notify_node_connection_failed config now node_name node_url reason s =
    let key = connection_key node_name node_url in
    let (s', should_notify) = mark_connection_failed s key in
    if should_notify
    then send_if_enabled config now connection_failed (codes "connection-failed:" ++ key)
        (display_node_name node_name) (render_connection_failed_message config node_name reason) s'
    else (s', [])

unfoldable pub notify_node_connection_recovered :
    TelegramConfig → Now → Text → Text → NotificationState → NotificationState × List Message
notify_node_connection_recovered config now node_name node_url s =
    let key = connection_key node_name node_url in
    let (s', should_notify) = mark_connection_recovered s key in
    if should_notify
    then send_if_enabled config now connection_recovered (codes "connection-recovered:" ++ key)
        (display_node_name node_name) (render_connection_recovered_message config node_name) s'
    else (s', [])

abbrev pub report_change :
    TelegramConfig
    → Now
    → Text
    → Text
    → NotificationState × Option RankingChange
    → NotificationState × List Message
report_change config now node_id node_name (s, none) = (s, [])
report_change config now node_id node_name (s, some change) =
    send_if_enabled config now ranking_changed (codes "ranking-changed:" ++ node_id)
      (display_node_name node_name) (render_ranking_changed_message config node_name change) s

unfoldable pub notify_node_ranking_change :
    TelegramConfig → Now → Text → Text → ℤ → NotificationState → NotificationState × List Message
notify_node_ranking_change config now node_id node_name ranking s =
    report_change config now node_id node_name (plan_ranking_change s node_id ranking)
