-- ===== src/Collect/Subscription/Samples.antt =====
-- Which blocks a round records.
use chaindash.Base.{if◌then◌else◌, Text, ℕ, ◌≡◌, refl, Bool, true, false, List, [], ◌∷◌}
use chaindash.Data.Chain.{ChainStats, record_block_sample}
use chaindash.Data.Status.{UiStatusStore}
use chaindash.Data.Status
use chaindash.Data.Store.{
  Data, perform, with_status, mark_status_dirty, mark_chain_dirty, notify_ui_if_needed,
}
use chaindash.Collect.Subscription.{
  Endpoint, Block, StreamEvent, not_connected, not_subscribed, subscribed, stop_flag, pause,
  stream_ended, not_fetched, no_body, head, connect, stream, stream_via, subscription_round,
}

-- Some endpoint can be subscribed to.
unfoldable pub any_subscribed : List Endpoint → Bool
any_subscribed [] = false
any_subscribed ((name, url, at, not_connected err) ∷ es) = any_subscribed es
any_subscribed ((name, url, at, not_subscribed err) ∷ es) = any_subscribed es
any_subscribed ((name, url, at, subscribed) ∷ es) = true

-- The blocks that come before the stream ends, a block is not fetched, or the program stops.
unfoldable pub received : List StreamEvent → List Block
received [] = []
received (stop_flag ∷ es) = []
received (pause ∷ es) = received es
received (stream_ended ∷ es) = []
received (not_fetched number err ∷ es) = []
received (no_body number ∷ es) = received es
received (head block ∷ es) = block ∷ received es

unfoldable pub record_all : ChainStats → List Block → ChainStats
record_all c [] = c
record_all c (b ∷ bs) = record_all (record_block_sample c b.number b.timestamp b.txs) bs

module _ {F D : Type 0} where
  chain-with_status : (d : Data F D) (r : UiStatusStore × Bool) → (with_status d r).chain ≡ d.chain
  unfolding with_status mark_status_dirty notify_ui_if_needed
  chain-with_status d (status, true) = refl
  chain-with_status d (status, false) = refl

  chain-stream :
      (name : Text) (now : ℕ) (es : List StreamEvent) (d : Data F D)
      → (stream name now es d).0.chain ≡ record_all d.chain (received es)
  unfolding stream received record_all perform mark_chain_dirty notify_ui_if_needed
  chain-stream name now [] d = refl
  chain-stream name now (stop_flag ∷ es) d = refl
  chain-stream name now (pause ∷ es) d = chain-stream name now es d
  chain-stream name now (stream_ended ∷ es) d = chain-with_status d (Status.set d.status _ _ now)
  chain-stream name now (not_fetched number err ∷ es) d =
      chain-with_status d (Status.set d.status _ _ now)
  chain-stream name now (no_body number ∷ es) d = chain-stream name now es d
  chain-stream name now (head block ∷ es) d = chain-stream name now es _

  chain-stream_via :
      (now : ℕ) (es : List StreamEvent) (eps : List Endpoint) (d : Data F D)
      → (stream_via now es (connect eps d)).0.chain
        ≡ (if any_subscribed eps then record_all d.chain (received es) else d.chain)
  unfolding connect any_subscribed perform
  chain-stream_via now es [] d = refl
  chain-stream_via now es ((name, url, at, not_connected err) ∷ eps) d =
      rw (chain-stream_via now es eps _, chain-with_status d _) refl
  chain-stream_via now es ((name, url, at, not_subscribed err) ∷ eps) d =
      rw (chain-stream_via now es eps _, chain-with_status d _) refl
  chain-stream_via now es ((name, url, at, subscribed) ∷ eps) d =
      rw (chain-stream name now es _, chain-with_status d _) refl

  -- If an endpoint can be subscribed to, a round adds to the chain statistics the blocks that its
  -- stream brings, in order and each of them once, up to where the stream ends, a block is not
  -- fetched or the program stops, without those that have no body; otherwise it adds none.
  pub chain-subscription_round :
      (endpoints : List Endpoint) (now : ℕ) (es : List StreamEvent) (d : Data F D)
      → (subscription_round endpoints now es d).0.chain
        ≡ (if any_subscribed endpoints then record_all d.chain (received es) else d.chain)
  unfolding subscription_round
  chain-subscription_round endpoints now es d = chain-stream_via now es endpoints d
