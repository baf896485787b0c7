-- ===== src/Data/Chain/Intervals.antt =====
-- The intervals between blocks, and the largest values.
use chaindash.Base.{
  ltb, if◌then◌else◌, All, ℕ, ◌-◌, ◌<◌, ◌≡◌, refl, sym, ap, ◌∙◌, List, [], ◌∷◌, ◌++◌, append-nil,
  append_assoc, arith,
}
use chaindash.Data.Chain.{
  ChainStats, to_millis, record_block_sample, txns_and_clear, intervals_and_clear,
}
use chaindash.Data.Chain.Samples.{
  Block, Event, sample, drain_txns, drain_intervals, Run, start, step, run, blocks, all_intervals,
  blocks-cons,
}

-- The interval that a block adds behind one of time `cur`; a time of 0 stands for no block yet.
abbrev gap : ℕ → ℕ → List ℕ
gap cur t = if ltb 0 cur then to_millis (t - cur) ∷ [] else []

-- The milliseconds between neighbouring blocks, not below 0 and not above the largest `u64`.
pub gaps_from : ℕ → List Block → List ℕ
gaps_from cur [] = []
gaps_from cur (b ∷ bs) = gap cur b.timestamp ++ gaps_from b.timestamp bs

abbrev pub HasTime : Block → Type 0
HasTime b = 0 < b.timestamp

-- No block yet.
abbrev IsFresh : ChainStats → Type 0
IsFresh c = c.cur_block_time ≡ 0 → c.prev_block_time ≡ 0

module _ (c : ChainStats) (n t x : ℕ) (fresh : IsFresh c) where
  intervals-record_block_sample :
      (record_block_sample c n t x).intervals ≡ c.intervals ++ gap c.cur_block_time t
  unfolding record_block_sample
  intervals-record_block_sample = ground (arith, append-nil c.intervals)

  cur_block_time-record_block_sample : (record_block_sample c n t x).cur_block_time ≡ t
  unfolding record_block_sample
  cur_block_time-record_block_sample = ground arith

intervals-step :
    (r : Run) (e : Event) (rest : List Block)
    → IsFresh r.chain
    → all_intervals (step r e) ++ gaps_from (step r e).chain.cur_block_time rest
      ≡ all_intervals r ++ gaps_from r.chain.cur_block_time (blocks (e ∷ []) ++ rest)
unfolding all_intervals step blocks gaps_from
intervals-step r (sample b) rest fresh =
    rw
      (
        intervals-record_block_sample r.chain b.number b.timestamp b.txs fresh,
        cur_block_time-record_block_sample r.chain b.number b.timestamp b.txs fresh,
      )
      (simp append_assoc)
intervals-step r drain_txns rest fresh = unfold txns_and_clear in refl
intervals-step r drain_intervals rest fresh = unfold intervals_and_clear in simp append-nil

IsFresh-step :
    (r : Run) (e : Event)
    → All HasTime (blocks (e ∷ []))
    → IsFresh r.chain
    → IsFresh (step r e).chain
unfolding step blocks txns_and_clear intervals_and_clear
IsFresh-step r (sample b) h fresh =
    rw (cur_block_time-record_block_sample r.chain b.number b.timestamp b.txs fresh)
      (λ e. absurd (omega (arith, h.0)))
IsFresh-step r drain_txns h fresh = fresh
IsFresh-step r drain_intervals h fresh = fresh

All-blocks :
    (e : Event) (es : List Event)
    → All HasTime (blocks (e ∷ es))
    → All HasTime (blocks (e ∷ [])) × All HasTime (blocks es)
unfolding blocks
All-blocks (sample b) es h = ((h.0, tt), h.1)
All-blocks drain_txns es h = (tt, h)
All-blocks drain_intervals es h = (tt, h)

intervals-run :
    (r : Run) (es : List Event)
    → All HasTime (blocks es)
    → IsFresh r.chain
    → all_intervals (run r es) ≡ all_intervals r ++ gaps_from r.chain.cur_block_time (blocks es)
unfolding run
intervals-run r [] h fresh = unfold blocks gaps_from in simp append-nil
intervals-run r (e ∷ es) h fresh =
    let (now, later) = All-blocks e es h in
    intervals-run (step r e) es later (IsFresh-step r e now fresh)
    ∙ intervals-step r e (blocks es) fresh
    ∙ ap (λ bs. all_intervals r ++ gaps_from r.chain.cur_block_time bs) (sym (blocks-cons e es))

-- In every run from the start over blocks with timestamps above 0, the intervals that the widget
-- drained, followed by those that wait, are a zero and then the milliseconds between each block
-- and the one before it: a block that is older than the one before it counts as 0.
pub intervals_conserved :
    (es : List Event)
    → All HasTime (blocks es)
    → all_intervals (run start es) ≡ 0 ∷ gaps_from 0 (blocks es)
intervals_conserved es h = intervals-run start es h (λ e. refl) ∙ unfold all_intervals in refl
