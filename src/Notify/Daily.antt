-- ===== src/Notify/Daily.antt =====
-- The daily summary of src/notify.rs, and what it says of an error of Telegram. `F` stands for `f64`,
-- `format_4` for `format!("{value:.4}")`, and `is_first_of_month` for the parser of dates.
use chaindash.Base.{
  if◌then◌else◌, length, any, Text, codes, text_eq, text_leb, trim, ascii_lower, has_part, join,
  then_with, sort_by, leb_ℤ, ℕ, Bool, ◌||◌, Option, none, some, List, [], ◌∷◌, ◌++◌, map,
}
use chaindash.Opts.Number.{decimal}
use chaindash.Notify.Filter.{daily_summary}
use chaindash.Notify.Config.{TelegramConfig}
use chaindash.Notify.Template.{render_template, display_node_name, strip_decimals}
use chaindash.Notify.State.{NotificationState}
use chaindash.Notify.Delivery.{Now, Message, message_prefix, send_if_enabled}
use chaindash.Collect.Snapshots.{DailyNodeSummaryDetail}

unfoldable pub format_optional_daily_count : Option ℕ → Text
unfolding decimal
format_optional_daily_count none = codes "-"
format_optional_daily_count (some value) = decimal value

abbrev newline : Text
newline = 10 ∷ []

module _ {F : Type 0} (format_4 : F → Text) where
  unfoldable pub format_optional_reward_value : Option F → Text
  unfolding strip_decimals
  format_optional_reward_value none = codes "-"
  format_optional_reward_value (some value) = strip_decimals (format_4 value)

  unfoldable pub render_daily_summary_detail : DailyNodeSummaryDetail F → Text
  unfolding format_optional_daily_count format_optional_reward_value join display_node_name
  render_daily_summary_detail detail =
      let lines =
        (codes "🔹 " ++ display_node_name detail.node_name)
        ∷ (codes "  🧱 累计出块：" ++ decimal detail.block_qty)
        ∷ (codes "  💰 累计系统奖励：" ++ strip_decimals (format_4 detail.reward_value))
        ∷ (codes "  📅 当天出块：" ++ format_optional_daily_count detail.daily_block_qty)
        ∷ (codes "  🎁 当天系统奖励：" ++ format_optional_reward_value detail.daily_reward_value)
        ∷ [] in
      let monthly =
        (codes "  🗓"
          ++ (0xfe0f ∷ codes " 上月总出块：" ++ format_optional_daily_count detail.monthly_block_qty))
        ∷ (codes "  🏆 上月总系统奖励：" ++ format_optional_reward_value detail.monthly_reward_value)
        ∷ [] in
      join newline (if detail.show_monthly_totals then lines ++ monthly else lines)

  -- By name, then by id, then by ranking.
  abbrev summary_leb : DailyNodeSummaryDetail F → DailyNodeSummaryDetail F → Bool
  summary_leb l r = then_with (text_eq l.node_name r.node_name) (text_leb l.node_name r.node_name) (
      then_with (text_eq l.node_id r.node_id) (text_leb l.node_id r.node_id)
        (leb_ℤ l.ranking r.ranking))

  abbrev details_text : List (DailyNodeSummaryDetail F) → Text
  details_text [] = codes "📭 暂无可用节点详情"
  details_text (d ∷ ds) =
      join (newline ++ newline) (map render_daily_summary_detail (sort_by summary_leb (d ∷ ds)))

  unfoldable pub resolve_daily_summary_title :
      (Text → Bool) → Text → List (DailyNodeSummaryDetail F) → Text
  unfolding any
  resolve_daily_summary_title is_first_of_month date node_details =
      if any (λ (detail : DailyNodeSummaryDetail F). detail.show_monthly_totals) node_details
        || is_first_of_month date
      then codes "📅 月度节点简报"
      else codes "📊 每日节点快照"

  unfoldable pub render_daily_summary_message :
      (Text → Bool) → TelegramConfig → Text → List (DailyNodeSummaryDetail F) → Text
  unfolding resolve_daily_summary_title render_daily_summary_detail decimal
  render_daily_summary_message is_first_of_month config date node_details =
      render_template config.templates.daily_summary (
        (codes "prefix", message_prefix)
        ∷ (codes "title", resolve_daily_summary_title is_first_of_month date node_details)
        ∷ (codes "date", date)
        ∷ (codes "count", decimal (length node_details))
        ∷ (codes "details", details_text node_details)
        ∷ [])

  unfoldable pub notify_daily_node_snapshot :
      (Text → Bool)
      → TelegramConfig
      → Now
      → Text
      → List (DailyNodeSummaryDetail F)
      → NotificationState
      → NotificationState × List Message
  notify_daily_node_snapshot is_first_of_month config now date node_details s =
      send_if_enabled config now daily_summary (codes "daily-summary:" ++ date) date
        (render_daily_summary_message is_first_of_month config date node_details) s

-- What a known part of a description means; the first one that occurs counts.
abbrev known_errors : List (Text × Text)
known_errors =
    (codes "chat not found", codes "chat_id 无效，或目标会话不存在 / bot 不在该会话中")
    ∷ (
      codes "bot can't initiate conversation with a user",
      codes "Bot 不能主动向用户发起会话，请先给 bot 发送 /start",
    )
    ∷ (codes "bot was blocked by the user", codes "Bot 已被目标用户拉黑")
    ∷ (codes "user is deactivated", codes "目标用户已停用")
    ∷ (codes "chat is deactivated", codes "目标会话已停用")
    ∷ (codes "group chat was upgraded to a supergroup chat", codes "群组已升级为超级群，请更新为新的 chat_id")
    ∷ (codes "not enough rights to send text messages to the chat", codes "Bot 在目标会话中没有发送文本消息的权限")
    ∷ (codes "have no rights to send a message", codes "Bot 在目标会话中没有发送消息的权限")
    ∷ []

unfoldable pub translation : Text → List (Text × Text) → Option Text
unfolding has_part
translation normalized [] = none
translation normalized ((part, meaning) ∷ rest) =
    let other = translation normalized rest in
    if has_part part normalized then some meaning else other

unfoldable pub describe_telegram_error : Text → Text
unfolding trim ascii_lower translation
describe_telegram_error description =
    let trimmed = trim description in
    elim (translation (map ascii_lower trimmed) known_errors) [
      | none ↦ trimmed
      | some translated ↦ translated ++ (codes "（原始错误: " ++ (trimmed ++ codes "）"))
    ]
