-- ===== src/Collect/NodeState/Latest.antt =====
-- What a run of turns leaves: the latest state of the node, and how its connection is.
use chaindash.Base.{
  if◌then◌else◌, Text, Map, lookup, insert, lookup-insert_self, ℕ, ◌≡◌, refl, ap, ◌∙◌, Bool, true,
  false, Option, some, List, [], ◌∷◌, arith,
}
use chaindash.Data.NodeStates.{ConsensusState}
use chaindash.Data.NodeStates
use chaindash.Data.Status.{UiStatusStore}
use chaindash.Data.Store.{
  Data, perform, with_status, mark_status_dirty, mark_node_state_dirty, notify_ui_if_needed,
}
use chaindash.Notify.Config.{TelegramConfig}
use chaindash.Notify.Filter.{EventKind}
use chaindash.Notify.State.{
  NotificationState, ConnectionState, healthy, unhealthy, mark_connection_failed,
  mark_connection_recovered, allow_delivery, record_quiet_summary, take_quiet_summary_snapshot,
}
use chaindash.Notify.Delivery.{
  Message, Now, decide, send_if_enabled, connection_key, notify_node_connection_failed,
  notify_node_connection_recovered,
}
use chaindash.Collect.NodeState.{
  Turn, Poll, not_connected, status_failed, number_failed, polled, consensus_state, notify_poll,
  write_poll, collect_node_state,
}

abbrev pub state_of : Text → Text → Option ConsensusState → Poll → Option ConsensusState
state_of name url before (polled status cur_number) =
    some (consensus_state name url status cur_number)
state_of name url before poll = before

abbrev pub connection_of : Poll → ConnectionState
connection_of (polled status cur_number) = healthy
connection_of poll = unhealthy

-- The state that the last successful turn brings.
unfoldable pub latest_state :
    Text → Text → List Turn → Option ConsensusState → Option ConsensusState
latest_state name url [] before = before
latest_state name url (t ∷ ts) before = latest_state name url ts (elim t.poll [
  | polled status cur_number ↦ some (consensus_state name url status cur_number)
  | _ ↦ before
])

-- How the last turn found the connection.
unfoldable pub latest_connection : List Turn → Option ConnectionState → Option ConnectionState
latest_connection [] before = before
latest_connection (t ∷ ts) before =
    latest_connection ts (some (elim t.poll [ polled status cur_number ↦ healthy | _ ↦ unhealthy ]))

connections-decide :
    (config : TelegramConfig) (now : Now) (event : EventKind) (key subject : Text)
    (s : NotificationState)
    → (decide config now event key subject s).0.connection_states ≡ s.connection_states
unfolding decide allow_delivery record_quiet_summary take_quiet_summary_snapshot
connections-decide config now event key subject s = ground arith

connections-send :
    (config : TelegramConfig) (now : Now) (event : EventKind) (key subject message : Text)
    (s : NotificationState)
    → (send_if_enabled config now event key subject message s).0.connection_states
      ≡ s.connection_states
unfolding send_if_enabled
connections-send config now event key subject message s =
    ground (arith, connections-decide config now event key subject s)

connections-if :
    (b : Bool) (x y : NotificationState × List Message) (m : Map ConnectionState)
    → x.0.connection_states ≡ m
    → y.0.connection_states ≡ m
    → (if b then x else y).0.connection_states ≡ m
connections-if true x y m h k = h
connections-if false x y m h k = k

connections-failed :
    (config : TelegramConfig) (now : Now) (name url reason : Text) (s : NotificationState)
    → (notify_node_connection_failed config now name url reason s).0.connection_states
      ≡ insert (connection_key name url) unhealthy s.connection_states
unfolding notify_node_connection_failed mark_connection_failed
connections-failed config now name url reason s =
    connections-if _ _ _ _ (connections-send config now _ _ _ _ _) refl

connections-recovered :
    (config : TelegramConfig) (now : Now) (name url : Text) (s : NotificationState)
    → (notify_node_connection_recovered config now name url s).0.connection_states
      ≡ insert (connection_key name url) healthy s.connection_states
unfolding notify_node_connection_recovered mark_connection_recovered
connections-recovered config now name url s =
    connections-if _ _ _ _ (connections-send config now _ _ _ _ _) refl

connection-notify_poll :
    (config : TelegramConfig) (name url : Text) (now : Now) (poll : Poll) (s : NotificationState)
    → lookup
        (connection_key name url)
        (notify_poll (some config) name url now poll s).0.connection_states
      ≡ some (connection_of poll)
unfolding notify_poll
connection-notify_poll config name url now (not_connected err) s =
    rw (connections-failed config now name url _ s) (lookup-insert_self _ _ _)
connection-notify_poll config name url now (status_failed err) s =
    rw (connections-failed config now name url _ s) (lookup-insert_self _ _ _)
connection-notify_poll config name url now (number_failed err) s =
    rw (connections-failed config now name url _ s) (lookup-insert_self _ _ _)
connection-notify_poll config name url now (polled status cur_number) s =
    rw (connections-recovered config now name url s) (lookup-insert_self _ _ _)

module _ {F D : Type 0} where
  states-with_status :
      (d : Data F D) (r : UiStatusStore × Bool) → (with_status d r).node_state ≡ d.node_state
  unfolding with_status mark_status_dirty notify_ui_if_needed
  states-with_status d (status, true) = refl
  states-with_status d (status, false) = refl

  state-write_poll :
      (name url : Text) (at : ℕ) (poll : Poll) (d : Data F D)
      → lookup name (write_poll name url at poll d).node_state.states
        ≡ state_of name url (lookup name d.node_state.states) poll
  unfolding write_poll perform mark_node_state_dirty notify_ui_if_needed
  state-write_poll name url at (not_connected err) d = rw (states-with_status d _) refl
  state-write_poll name url at (status_failed err) d = rw (states-with_status d _) refl
  state-write_poll name url at (number_failed err) d = rw (states-with_status d _) refl
  state-write_poll name url at (polled status cur_number) d =
      unfold NodeStates.update in
      lookup-insert_self name (consensus_state name url status cur_number) d.node_state.states

  -- After every run of turns of a node's collector: the state that is stored under its name is that
  -- of its last successful turn, or the one from before, and the notifier counts its connection as
  -- the last turn found it, or as it did before.
  pub collect_node_state-latest :
      (config : TelegramConfig) (name url : Text) (ts : List Turn) (d : Data F D)
      (s : NotificationState)
      → (lookup name (collect_node_state (some config) name url ts d s).0.node_state.states
          ≡ latest_state name url ts (lookup name d.node_state.states))
        × (lookup
              (connection_key name url)
              (collect_node_state (some config) name url ts d s).1.connection_states
            ≡ latest_connection ts (lookup (connection_key name url) s.connection_states))
  unfolding collect_node_state latest_state latest_connection
  collect_node_state-latest config name url [] d s = (refl, refl)
  collect_node_state-latest config name url (t ∷ ts) d s =
      let s' = (notify_poll (some config) name url t.now t.poll s).0 in
      let d' = write_poll name url t.at t.poll d in
      let rest = collect_node_state-latest config name url ts d' s' in
      (
        rest.0 ∙ ap (latest_state name url ts) (state-write_poll name url t.at t.poll d),
        rest.1 ∙ ap (latest_connection ts) (connection-notify_poll config name url t.now t.poll s),
      )
