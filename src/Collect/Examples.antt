-- ===== src/Collect/Examples.antt =====
-- Two nodes and one endpoint for each, and the lookups of two rounds.
use chaindash.Collect.Endpoints.{websocket_host}
use chaindash.Collect.Endpoints.Hosts.{copies, websocket_host-stops}
use chaindash.Base.{
  if◌then◌else◌, not, Text, codes, text_eq, starts_with, lookup, ℕ, ◌≡◌, true, false, none, some,
  List, [], ◌∷◌, ◌++◌, pos,
}
use chaindash.Data.System.{SystemStats}
use chaindash.Data.Store.{Data, default_data}
use chaindash.Notify.Filter.{all_kinds}
use chaindash.Notify.Config.{TelegramConfig, TelegramTemplates}
use chaindash.Notify.State.{initial}
use chaindash.Notify.Delivery.{Now, connection_key}
use chaindash.Collect.Types.{FloatText, ExplorerDetail, NodeInfo}
use chaindash.Collect.Details.{Request, response, timed_out}
use chaindash.Collect.Details.Rankings.{merge_rankings, notify_rankings}
use chaindash.Collect.Details.Rankings.Again.{notify_rankings-again}
use chaindash.Collect.Subscription.{
  Endpoint, not_connected, subscribed, stream_ended, no_body, head, StreamEvent, subscription_round,
}
use chaindash.Collect.Subscription.Samples.{
  any_subscribed, record_all, received, chain-subscription_round,
}
use chaindash.Collect.NodeState.{Turn, polled, status_failed, collect_node_state}
use chaindash.Collect.NodeState.Latest.{latest_state, latest_connection, collect_node_state-latest}
use chaindash.Collect.PeerGeo.{Lookups, no_lookups, spawn_lookups, here, then_step, round}
use chaindash.Collect.PeerGeo.Single.{IsTracked, Steps-IsTracked}

-- Floating-point numbers of the explorer; only their types matter.
abbrev float_text : FloatText ℕ
float_text = record {
  parse_f64 = λ s. none;
  to_string = λ x. [];
  as_i64 = λ x. pos x;
  percentage = λ a b. [];
  zero_f64 = 0;
}

abbrev explorer_detail : ExplorerDetail
explorer_detail = record {
  node_name = codes "alpha";
  block_qty = pos 12;
  expect_block_qty = pos 12;
  gen_blocks_rate = [];
  reward_per = [];
  reward_value = [];
  benefit_addr = [];
  verifier_time = pos 1;
}

abbrev answered : Request
answered = record {
  node_id = codes "a";
  answer = response (record { err_msg = []; code = pos 0; content = some explorer_detail });
  at = 7;
}

abbrev late : Request
late = record { node_id = codes "b"; answer = timed_out (codes "deadline has elapsed"); at = 9 }

abbrev no_stats : SystemStats ℕ ℕ
no_stats = record {
  cpu_usage = 0;
  memory_used = 0;
  memory_total = 0;
  memory_usage_percent = 0;
  network_rx = 0;
  network_tx = 0;
  disk_used = 0;
  disk_total = 0;
  disk_usage_percent = 0;
  disk_details = [];
  current_disk_index = 0;
  alert_threshold = 90;
  has_disk_alerts = false;
  auto_discovery_enabled = true;
}

abbrev no_data : Data ℕ ℕ
no_data = default_data no_stats

abbrev infos : List NodeInfo
infos =
    record { node_id = codes "a"; ranking = pos 4 }
    ∷ record { node_id = codes "b"; ranking = pos 0 }
    ∷ []

abbrev templates : TelegramTemplates
templates = record {
  connection_failed = codes "{node} down";
  connection_recovered = codes "{node} up";
  ranking_changed = codes "{node} {delta_text}";
  quiet_summary = codes "{count}";
  daily_summary = codes "{details}";
}

abbrev config : TelegramConfig
config = record {
  bot_token = codes "t";
  chat_ids = codes "1" ∷ [];
  enabled_events = all_kinds;
  quiet_hours = none;
  rate_limit = 0;
  templates = templates;
  api_url = codes "https://api";
}

abbrev noon : Now
noon = record { instant = 0; hour = 12; minute = 0 }

notify_rankings-again_example :
    let observed = (merge_rankings infos (codes "a" ∷ codes "b" ∷ []) no_data).1 in
    let notified = (notify_rankings config (λ id. noon) observed initial).0 in
    notify_rankings config (λ id. noon) observed notified ≡ (notified, [])
notify_rankings-again_example =
    notify_rankings-again infos (codes "a" ∷ codes "b" ∷ []) no_data no_data config (λ id. noon)
      (λ id. noon) initial

abbrev node_a : Text × Text
node_a = (codes "a", codes "ws://h:1")

abbrev node_b : Text × Text
node_b = (codes "b", codes "wss://i@2")

abbrev endpoints : List Endpoint
endpoints =
    (codes "a", codes "ws://h:1", 1, not_connected (codes "refused"))
    ∷ (codes "b", codes "ws://i:2", 2, subscribed)
    ∷ []

abbrev stream_events : List StreamEvent
stream_events =
    head (record { number = 1; timestamp = 10; txs = 4 })
    ∷ no_body 2
    ∷ head (record { number = 3; timestamp = 12; txs = 9 })
    ∷ stream_ended
    ∷ []

chain-subscription_round_example :
    (subscription_round endpoints 5 stream_events no_data).0.chain ≡ (
      if any_subscribed endpoints
      then record_all no_data.chain (received stream_events)
      else no_data.chain)
chain-subscription_round_example = chain-subscription_round endpoints 5 stream_events no_data

abbrev turns : List Turn
turns =
    record { now = noon; at = 1; poll = status_failed (codes "closed") }
    ∷ record {
      now = noon;
      at = 2;
      poll =
          polled
            (record {
              view = none;
              highest_commit_block = some 8;
              highest_lock_block = some 9;
              highest_qc_block = some 10;
              validator = true;
            })
            11;
    }
    ∷ []

collect_node_state-latest_example :
    let after =
      collect_node_state (some config) (codes "a") (codes "ws://h:1") turns no_data initial in
    (lookup (codes "a") after.0.node_state.states
      ≡ latest_state (codes "a") (codes "ws://h:1") turns none)
    × (lookup (connection_key (codes "a") (codes "ws://h:1")) after.1.connection_states
        ≡ latest_connection turns none)
unfolding lookup
collect_node_state-latest_example =
    collect_node_state-latest config (codes "a") (codes "ws://h:1") turns no_data initial

abbrev wanted : List Text
wanted = codes "1.1.1.1" ∷ codes "10.0.0.1" ∷ codes "1.1.1.1" ∷ []

-- What the rounds find is found again by the next one, while the lookups run.
abbrev two_rounds : Lookups
two_rounds =
    spawn_lookups (λ ip. not (text_eq ip (codes "10.0.0.1"))) wanted
      (spawn_lookups (λ ip. not (text_eq ip (codes "10.0.0.1"))) wanted no_lookups)

Steps-IsTracked_example : IsTracked two_rounds
Steps-IsTracked_example =
    Steps-IsTracked (λ ip. not (text_eq ip (codes "10.0.0.1"))) two_rounds
      (then_step (then_step here (round wanted)) (round wanted))

websocket_host-stops_example :
    (n m : ℕ) × (codes "ws://ws://a:1"
      ≡ copies n (codes "ws://")
        ++ (copies m (codes "wss://") ++ websocket_host (codes "ws://ws://a:1")))
    × (starts_with (codes "wss://") (websocket_host (codes "ws://ws://a:1")) ≡ false)
    × (starts_with
          (codes "ws://")
          (copies m (codes "wss://") ++ websocket_host (codes "ws://ws://a:1"))
        ≡ false)
websocket_host-stops_example = websocket_host-stops (codes "ws://ws://a:1")
