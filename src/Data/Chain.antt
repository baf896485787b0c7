-- ===== src/Data/Chain.antt =====
-- `ChainStats` of src/collect/data.rs. Its numbers are `u64`.
pub mod Samples
pub mod Intervals
pub mod Peaks
use chaindash.Base.{ltb, if◌then◌else◌, ℕ, ◌-◌, ◌*◌, ◌^◌, min, List, [], ◌∷◌, ◌++◌}

abbrev pub u64_max : ℕ
u64_max = 2 ^ 64 - 1

pub record ChainStats : Type 0 where
  pub cur_block_number : ℕ
  pub cur_block_time : ℕ
  pub prev_block_time : ℕ
  pub cur_txs : ℕ
  pub max_txs : ℕ
  pub max_txs_block_number : ℕ
  pub txns : List ℕ
  pub intervals : List ℕ
  pub cur_interval : ℕ
  pub max_interval : ℕ

abbrev pub default_chain : ChainStats
default_chain = record {
  cur_block_number = 0;
  cur_block_time = 0;
  prev_block_time = 0;
  cur_txs = 0;
  max_txs = 0;
  max_txs_block_number = 0;
  txns = 0 ∷ [];
  intervals = 0 ∷ [];
  cur_interval = 0;
  max_interval = 0;
}

-- `saturating_mul(1000)`
abbrev pub to_millis : ℕ → ℕ
to_millis seconds = min (seconds * 1000) u64_max

-- The first four assignments.
unfoldable pub set_current : ChainStats → ℕ → ℕ → ℕ → ChainStats
set_current c block_number block_timestamp txs = record c {
  cur_block_number = block_number;
  prev_block_time = if ltb 0 c.cur_block_time then c.cur_block_time else c.prev_block_time;
  cur_block_time = block_timestamp;
  cur_txs = txs;
}

unfoldable pub record_txs : ChainStats → ℕ → ℕ → ChainStats
record_txs c block_number txs =
    if ltb c.max_txs txs
    then record c { max_txs = txs; max_txs_block_number = block_number; txns = c.txns ++ txs ∷ [] }
    else record c { txns = c.txns ++ txs ∷ [] }

unfoldable pub record_interval : ChainStats → ChainStats
record_interval c =
    let interval_ms = to_millis (c.cur_block_time - c.prev_block_time) in
    if ltb 0 c.prev_block_time
    then record c {
      cur_interval = interval_ms;
      max_interval = if ltb c.max_interval interval_ms then interval_ms else c.max_interval;
      intervals = c.intervals ++ interval_ms ∷ [];
    }
    else c

unfoldable pub record_block_sample : ChainStats → ℕ → ℕ → ℕ → ChainStats
unfolding set_current record_txs record_interval
record_block_sample c block_number block_timestamp txs =
    record_interval (record_txs (set_current c block_number block_timestamp txs) block_number txs)

-- `txns_and_clear` and `intervals_and_clear`: `std::mem::take` leaves an empty list.
unfoldable pub txns_and_clear : ChainStats → ChainStats × List ℕ
txns_and_clear c = (record c { txns = [] }, c.txns)

unfoldable pub intervals_and_clear : ChainStats → ChainStats × List ℕ
intervals_and_clear c = (record c { intervals = [] }, c.intervals)
