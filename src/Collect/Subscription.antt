-- ===== src/Collect/Subscription.antt =====
-- `run_block_subscription_loop` of src/collect/block_subscription.rs: one round of its outer loop.
-- What the nodes answer is an argument; the errors come with the text that they print. The stop flag
-- is an event of the stream, and so is a pause of the length of the retry delay.
pub mod Samples
use chaindash.Base.{Text, codes, ℕ, Bool, true, false, Option, none, some, List, [], ◌∷◌, ◌++◌}
use chaindash.Opts.Number.{decimal}
use chaindash.Data.Status.{info, warning}
use chaindash.Data.Store.{Data, perform, block_sample, set_status_message}

-- What becomes of a connection.
pub data Attempt : Type 0 where
  not_connected : Text → Attempt
  not_subscribed : Text → Attempt
  subscribed : Attempt

-- The name and the URL of an endpoint, and what becomes of the connection, and when.
abbrev pub Endpoint : Type 0
Endpoint = Text × Text × ℕ × Attempt

pub record Block : Type 0 where
  pub number : ℕ
  pub timestamp : ℕ
  pub txs : ℕ

pub data StreamEvent : Type 0 where
  stop_flag : StreamEvent
  pause : StreamEvent
  stream_ended : StreamEvent
  not_fetched : ℕ → Text → StreamEvent
  no_body : ℕ → StreamEvent
  head : Block → StreamEvent

module _ {F D : Type 0} where
  abbrev pub warn_with_status : Data F D → Text → ℕ → Data F D
  warn_with_status d text now = perform d (set_status_message warning text now)

  -- The endpoints in turn, until one is connected: its name.
  unfoldable pub connect : List Endpoint → Data F D → Data F D × Option Text
  unfolding perform
  connect [] d = (d, none)
  connect ((name, url, at, not_connected err) ∷ es) d = connect es (
      warn_with_status d
        (codes "Failed to connect block subscription for "
          ++ (name ++ (codes " at " ++ (url ++ (codes ": " ++ err)))))
        at)
  connect ((name, url, at, not_subscribed err) ∷ es) d = connect es (
      warn_with_status d
        (codes "Failed to subscribe to blocks for "
          ++ (name ++ (codes " at " ++ (url ++ (codes ": " ++ err)))))
        at)
  connect ((name, url, at, subscribed) ∷ es) d = (
    perform d (set_status_message info (codes "Block subscription connected via " ++ name) at),
    some name,
  )

  -- The inner loop: the flag says whether to reconnect. A message is only written at its end.
  unfoldable pub stream : Text → ℕ → List StreamEvent → Data F D → Data F D × Bool
  unfolding perform decimal
  stream name now [] d = (d, false)
  stream name now (stop_flag ∷ es) d = (d, false)
  stream name now (pause ∷ es) d = stream name now es d
  stream name now (stream_ended ∷ es) d = (
    warn_with_status d
        (codes "Block subscription stream ended for " ++ (name ++ codes ". Reconnecting soon")) now,
    true,
  )
  stream name now (not_fetched number err ∷ es) d = (
    warn_with_status d
        (codes "Failed to fetch block "
          ++ (decimal number
              ++ (codes " via " ++ (name ++ (codes ": " ++ (err ++ codes ". Reconnecting soon"))))))
        now,
    true,
  )
  stream name now (no_body number ∷ es) d = stream name now es d
  stream name now (head block ∷ es) d =
      stream name now es (perform d (block_sample block.number block.timestamp block.txs))

  abbrev pub stream_via : ℕ → List StreamEvent → Data F D × Option Text → Data F D × Bool
  stream_via now es (d, none) = (d, true)
  stream_via now es (d, some name) = stream name now es d

  -- One round: a connection, and its stream. The flag says whether another round follows after the
  -- retry delay.
  unfoldable pub subscription_round :
      List Endpoint → ℕ → List StreamEvent → Data F D → Data F D × Bool
  unfolding connect stream
  subscription_round endpoints now es d = stream_via now es (connect endpoints d)
