-- ===== src/Notify/Config.antt =====
-- `TelegramTemplates` and `TelegramConfig` of src/notify.rs, and the options of src/opts.rs that
-- they are made from.
use chaindash.Base.{
  ◌==◌, if◌then◌else◌, Text, codes, is_empty, trim, ℕ, ◌+◌, ◌*◌, ◌%◌, Bool, false, Option, none,
  some, List, [], ◌∷◌, ◌++◌, reverse,
}
use chaindash.Opts.QuietHours.{QuietHours, contains_minutes_since_midnight}
use chaindash.Opts.NotifyEvent.{NotifyEvent}
use chaindash.Notify.Filter
use chaindash.Notify.Filter.{NotificationFilter}
use chaindash.Notify.Template.{trimmed_option, trimmed_values, normalize_template}

-- The `telegram_…` fields of `Opts`.
pub record TelegramOpts : Type 0 where
  pub bot_token : Option Text
  pub chat_id : List Text
  pub notify_events : List NotifyEvent
  pub quiet_hours : Option QuietHours
  pub rate_limit_seconds : ℕ
  pub template_connection_failed : Option Text
  pub template_connection_recovered : Option Text
  pub template_ranking_changed : Option Text
  pub template_quiet_summary : Option Text
  pub template_daily_summary : Option Text
  pub api_url : Text

pub record TelegramTemplates : Type 0 where
  pub connection_failed : Text
  pub connection_recovered : Text
  pub ranking_changed : Text
  pub quiet_summary : Text
  pub daily_summary : Text

abbrev pub default_connection_failed : Text
default_connection_failed = codes "🚨 节点连接异常\n🔹 节点：{node}\n📝 原因：{reason}"

abbrev pub default_connection_recovered : Text
default_connection_recovered = codes "✅ 节点连接已恢复\n🔹 节点：{node}"

abbrev pub default_ranking_changed : Text
default_ranking_changed =
    codes "{icon} 节点排名变动\n🔹 节点：{node}\n📍 排名：{previous} → {current}（{delta_text}）"

abbrev pub default_quiet_summary : Text
default_quiet_summary = codes "🌙 静默期摘要\n🧾 共 {count} 条\n{details}"

abbrev pub default_daily_summary : Text
default_daily_summary = codes "{title}（{date}）\n🧾 节点数：{count}\n{details}"

-- `unwrap_or`
abbrev pub unwrap_or {ℓ} : {A : Type ℓ} → Option A → A → A
unwrap_or none d = d
unwrap_or (some a) d = a

unfoldable pub templates_from_opts : TelegramOpts → TelegramTemplates
unfolding normalize_template
templates_from_opts opts = record {
  connection_failed =
      normalize_template (unwrap_or opts.template_connection_failed default_connection_failed);
  connection_recovered =
      normalize_template
        (unwrap_or opts.template_connection_recovered default_connection_recovered);
  ranking_changed =
      normalize_template (unwrap_or opts.template_ranking_changed default_ranking_changed);
  quiet_summary = normalize_template (unwrap_or opts.template_quiet_summary default_quiet_summary);
  daily_summary = normalize_template (unwrap_or opts.template_daily_summary default_daily_summary);
}

pub record TelegramConfig : Type 0 where
  pub bot_token : Text
  pub chat_ids : List Text
  pub enabled_events : NotificationFilter
  pub quiet_hours : Option QuietHours
  pub rate_limit : ℕ
  pub templates : TelegramTemplates
  pub api_url : Text

pub data ConfigError : Type 0 where
  chat_id_required bot_token_required api_url_empty : ConfigError

pub data Configured : Type 0 where
  ok : Option TelegramConfig → Configured
  err : ConfigError → Configured

abbrev drop_slashes : Text → Text
drop_slashes [] = []
drop_slashes (c ∷ s) = let rest = drop_slashes s in if c == b'/' then rest else c ∷ s

-- `trim_end_matches('/')`
abbrev pub trim_end_slashes : Text → Text
trim_end_slashes s = reverse (drop_slashes (reverse s))

-- `Duration::from_secs`, in nanoseconds.
abbrev pub from_secs : ℕ → ℕ
from_secs n = n * 1_000_000_000

abbrev with_api_url : TelegramOpts → Text → List Text → Text → Configured
with_api_url opts bot_token chat_ids api_url =
    if is_empty api_url
    then err api_url_empty
    else ok (
        some (record {
          bot_token = bot_token;
          chat_ids = chat_ids;
          enabled_events = Filter.from_opts opts.notify_events;
          quiet_hours = opts.quiet_hours;
          rate_limit = from_secs opts.rate_limit_seconds;
          templates = templates_from_opts opts;
          api_url = api_url;
        }))

-- The `match` on the token and on the chats.
abbrev from_parts : TelegramOpts → Option Text → List Text → Configured
from_parts opts none [] = ok none
from_parts opts (some bot_token) [] = err chat_id_required
from_parts opts none (chat ∷ chats) = err bot_token_required
from_parts opts (some bot_token) (chat ∷ chats) =
    with_api_url opts bot_token (chat ∷ chats) (trim_end_slashes (trim opts.api_url))

unfoldable pub config_from_opts : TelegramOpts → Configured
config_from_opts opts =
    from_parts opts (trimmed_option opts.bot_token) (trimmed_values opts.chat_id)

-- `send_message_url`
unfoldable pub send_message_url : TelegramConfig → Text
send_message_url config =
    config.api_url ++ (codes "/bot" ++ (config.bot_token ++ codes "/sendMessage"))

-- `is_quiet_time_now`, at the given hour and minute of the local clock.
unfoldable pub is_quiet_time : TelegramConfig → ℕ → ℕ → Bool
unfolding contains_minutes_since_midnight
is_quiet_time config hour minute = elim config.quiet_hours [
  | none ↦ false
  | some quiet_hours ↦ contains_minutes_since_midnight quiet_hours ((hour * 60 + minute) % 65536)
]
