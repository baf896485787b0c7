-- ===== src/Collect/NodeState.antt =====
-- `collect_node_state` of src/collect/node_state.rs: a turn is a connection that fails, or one pass
-- of the inner loop. The answers of the node are arguments; errors come with the text that they
-- print. The notifier of a program without a bot is `none`.
pub mod Latest
use chaindash.Base.{Text, codes, ℕ, Bool, Option, none, some, List, [], ◌∷◌, ◌++◌}
use chaindash.Data.NodeStates.{ConsensusState}
use chaindash.Data.Status.{warning}
use chaindash.Data.Store.{Data, perform, update_consensus_state, set_status_message}
use chaindash.Notify.Config.{TelegramConfig}
use chaindash.Notify.State.{NotificationState}
use chaindash.Notify.Delivery.{
  Now, Message, notify_node_connection_failed, notify_node_connection_recovered,
}
use chaindash.Collect.Endpoints.{websocket_host}

pub record ViewStatus : Type 0 where
  pub epoch : ℕ
  pub view_number : Option ℕ

-- What `debug_consensus_status` answers, as far as it is used; of a block it is the number.
pub record ConsensusStatus : Type 0 where
  pub view : Option ViewStatus
  pub highest_commit_block : Option ℕ
  pub highest_lock_block : Option ℕ
  pub highest_qc_block : Option ℕ
  pub validator : Bool

pub data Poll : Type 0 where
  not_connected : Text → Poll
  status_failed : Text → Poll
  number_failed : Text → Poll
  polled : ConsensusStatus → ℕ → Poll

-- A turn, with the time of the clocks and that of the status message.
pub record Turn : Type 0 where
  pub now : Now
  pub at : ℕ
  pub poll : Poll

abbrev or_zero : Option ℕ → ℕ
or_zero none = 0
or_zero (some n) = n

abbrev epoch_of : Option ViewStatus → ℕ
epoch_of none = 0
epoch_of (some v) = v.epoch

abbrev view_of : Option ViewStatus → ℕ
view_of none = 0
view_of (some v) = or_zero v.view_number

unfoldable pub consensus_state : Text → Text → ConsensusStatus → ℕ → ConsensusState
unfolding websocket_host
consensus_state name url status cur_number = record {
  name = name;
  host = websocket_host url;
  current_number = cur_number;
  epoch = epoch_of status.view;
  view = view_of status.view;
  committed = or_zero status.highest_commit_block;
  locked = or_zero status.highest_lock_block;
  qc = or_zero status.highest_qc_block;
  validator = status.validator;
}

abbrev pub notify_failed :
    Option TelegramConfig
    → Text
    → Text
    → Now
    → Text
    → NotificationState
    → NotificationState × List Message
notify_failed none name url now reason s = (s, [])
notify_failed (some config) name url now reason s =
    notify_node_connection_failed config now name url reason s

abbrev pub notify_recovered :
    Option TelegramConfig → Text → Text → Now → NotificationState → NotificationState × List Message
notify_recovered none name url now s = (s, [])
notify_recovered (some config) name url now s =
    notify_node_connection_recovered config now name url s

-- What the turn tells the notifier.
unfoldable pub notify_poll :
    Option TelegramConfig
    → Text
    → Text
    → Now
    → Poll
    → NotificationState
    → NotificationState × List Message
unfolding notify_node_connection_failed notify_node_connection_recovered
notify_poll config name url now (not_connected err) s =
    notify_failed config name url now (codes "建立 WebSocket 连接失败: " ++ err) s
notify_poll config name url now (status_failed err) s =
    notify_failed config name url now (codes "debug_consensus_status 调用失败: " ++ err) s
notify_poll config name url now (number_failed err) s =
    notify_failed config name url now (codes "eth_blockNumber 调用失败: " ++ err) s
notify_poll config name url now (polled status cur_number) s =
    notify_recovered config name url now s

module _ {F D : Type 0} where
  -- What the turn writes.
  unfoldable pub write_poll : Text → Text → ℕ → Poll → Data F D → Data F D
  unfolding perform consensus_state
  write_poll name url at (not_connected err) d = perform d (
      set_status_message warning
        (codes "Failed to connect node state collector for "
          ++ (name ++ (codes " at " ++ (url ++ (codes ": " ++ err)))))
        at)
  write_poll name url at (status_failed err) d = perform d (
      set_status_message warning
        (codes "Node state RPC failed for "
          ++ (name ++ (codes ": " ++ (err ++ codes ". Reconnecting soon"))))
        at)
  write_poll name url at (number_failed err) d = perform d (
      set_status_message warning
        (codes "Node block number RPC failed for "
          ++ (name ++ (codes ": " ++ (err ++ codes ". Reconnecting soon"))))
        at)
  write_poll name url at (polled status cur_number) d =
      perform d (update_consensus_state name (consensus_state name url status cur_number))

  -- The turns of one collector, until it is stopped.
  unfoldable pub collect_node_state :
      Option TelegramConfig
      → Text
      → Text
      → List Turn
      → Data F D
      → NotificationState
      → Data F D × NotificationState × List Message
  unfolding notify_poll write_poll
  collect_node_state config name url [] d s = (d, s, [])
  collect_node_state config name url (t ∷ ts) d s =
      let (s', sent) = notify_poll config name url t.now t.poll s in
      let (d', s'', rest) =
        collect_node_state config name url ts (write_poll name url t.at t.poll d) s' in
      (d', s'', sent ++ rest)
