-- ===== src/Data/Chain/Peaks.antt =====
-- The largest transaction count, and the block that had it.
use chaindash.Base.{ltb, if◌then◌else◌, ◌≡◌, refl, List, [], ◌∷◌, arith}
use chaindash.Data.Chain.{ChainStats, record_block_sample, txns_and_clear, intervals_and_clear}
use chaindash.Data.Chain.Samples.{
  Block, Event, sample, drain_txns, drain_intervals, Run, start, step, run, blocks,
}

-- The first block of the largest count above `best.txs`, or else `best`.
unfoldable pub busiest : Block → List Block → Block
busiest best [] = best
busiest best (b ∷ bs) = busiest (if ltb best.txs b.txs then b else best) bs

abbrev pub no_block : Block
no_block = record { number = 0; timestamp = 0; txs = 0 }

abbrev Records : ChainStats → Block → Type 0
Records c b = (c.max_txs ≡ b.txs) × (c.max_txs_block_number ≡ b.number)

Records-step :
    (c : ChainStats) (best b : Block)
    → Records c best
    → Records
        (record_block_sample c b.number b.timestamp b.txs)
        (if ltb best.txs b.txs then b else best)
unfolding record_block_sample
Records-step c best b h = ground arith

Records-run :
    (r : Run) (best : Block) (es : List Event)
    → Records r.chain best
    → Records (run r es).chain (busiest best (blocks es))
unfolding run step blocks busiest
Records-run r best [] h = h
Records-run r best (sample b ∷ es) h =
    Records-run (step r (sample b)) (if ltb best.txs b.txs then b else best) es
      (Records-step r.chain best b h)
Records-run r best (drain_txns ∷ es) h =
    Records-run (step r drain_txns) best es (unfold txns_and_clear in h)
Records-run r best (drain_intervals ∷ es) h =
    Records-run (step r drain_intervals) best es (unfold intervals_and_clear in h)

-- After every run from the start, the maximum and its block number are those of the first block
-- that has the most transactions; both are 0 if no block has any.
pub max_txs-busiest :
    (es : List Event)
    → ((run start es).chain.max_txs ≡ (busiest no_block (blocks es)).txs)
      × ((run start es).chain.max_txs_block_number ≡ (busiest no_block (blocks es)).number)
max_txs-busiest es = Records-run start no_block es (refl, refl)
