-- ===== src/Data/Chain/Samples.antt =====
-- What the chain statistics hold after any blocks and any reads by the widgets.
use chaindash.Base.{
  ℕ, ◌≡◌, refl, sym, ap, ◌∙◌, List, [], ◌∷◌, ◌++◌, map, append-nil, append_assoc, map-append, arith,
}
use chaindash.Data.Chain.{
  ChainStats, default_chain, record_block_sample, txns_and_clear, intervals_and_clear,
}

pub record Block : Type 0 where
  pub number : ℕ
  pub timestamp : ℕ
  pub txs : ℕ

-- A block arrives, or a widget drains one of the lists.
pub data Event : Type 0 where
  sample : Block → Event
  drain_txns : Event
  drain_intervals : Event

-- The state after some events, and all that was drained of each list.
pub record Run : Type 0 where
  pub chain : ChainStats
  pub txns : List ℕ
  pub intervals : List ℕ

abbrev pub start : Run
start = record { chain = default_chain; txns = []; intervals = [] }

unfoldable pub step : Run → Event → Run
step r (sample b) = record r { chain = record_block_sample r.chain b.number b.timestamp b.txs }
step r drain_txns =
    let (c, drained) = txns_and_clear r.chain in record r { chain = c; txns = r.txns ++ drained }
step r drain_intervals =
    let (c, drained) = intervals_and_clear r.chain in
    record r { chain = c; intervals = r.intervals ++ drained }

unfoldable pub run : Run → List Event → Run
run r [] = r
run r (e ∷ es) = run (step r e) es

unfoldable pub blocks : List Event → List Block
blocks [] = []
blocks (sample b ∷ es) = b ∷ blocks es
blocks (drain_txns ∷ es) = blocks es
blocks (drain_intervals ∷ es) = blocks es

unfoldable pub tx_counts : List Block → List ℕ
tx_counts = map (λ b. b.txs)

unfoldable pub all_txns : Run → List ℕ
all_txns r = r.txns ++ r.chain.txns

unfoldable pub all_intervals : Run → List ℕ
all_intervals r = r.intervals ++ r.chain.intervals

txns-record_block_sample :
    (c : ChainStats) (n t x : ℕ) → (record_block_sample c n t x).txns ≡ c.txns ++ x ∷ []
unfolding record_block_sample
txns-record_block_sample c n t x = ground arith

txns-step : (r : Run) (e : Event) → all_txns (step r e) ≡ all_txns r ++ tx_counts (blocks (e ∷ []))
unfolding all_txns step blocks tx_counts
txns-step r (sample b) =
    rw (txns-record_block_sample r.chain b.number b.timestamp b.txs)
      (rw (append_assoc r.txns r.chain.txns (b.txs ∷ [])) refl)
txns-step r drain_txns = unfold txns_and_clear in refl
txns-step r drain_intervals = unfold intervals_and_clear in simp append-nil

pub blocks-cons : (e : Event) (es : List Event) → blocks (e ∷ es) ≡ blocks (e ∷ []) ++ blocks es
unfolding blocks
blocks-cons (sample b) es = refl
blocks-cons drain_txns es = refl
blocks-cons drain_intervals es = refl

txns-run : (r : Run) (es : List Event) → all_txns (run r es) ≡ all_txns r ++ tx_counts (blocks es)
unfolding run tx_counts
txns-run r [] = unfold blocks in simp append-nil
txns-run r (e ∷ es) =
    txns-run (step r e) es
    ∙ ap (λ l. l ++ tx_counts (blocks es)) (txns-step r e)
    ∙ append_assoc (all_txns r) (tx_counts (blocks (e ∷ []))) (tx_counts (blocks es))
    ∙ ap (λ l. all_txns r ++ l)
        (sym (map-append (λ (b : Block). b.txs) (blocks (e ∷ [])) (blocks es))
          ∙ ap tx_counts (sym (blocks-cons e es)))

-- In every run from the start, the transaction counts that the widget drained, followed by those
-- that wait, are a zero and then those of the blocks, in their order: none is lost or repeated.
pub txns_conserved : (es : List Event) → all_txns (run start es) ≡ 0 ∷ tx_counts (blocks es)
txns_conserved es = txns-run start es ∙ unfold all_txns in refl
