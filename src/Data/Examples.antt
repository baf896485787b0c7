-- ===== src/Data/Examples.antt =====
-- Three blocks, two nodes, a status message and three disks.
use chaindash.Base.{
  if◌then◌else◌, All, Text, codes, is_empty, ℤ, ℕ, ◌+◌, ◌≡◌, refl, true, false, none, some, List,
  [], ◌∷◌, map, arith, pos,
}
use chaindash.Data.Chain.Samples.{
  Event, sample, drain_txns, drain_intervals, run, start, all_txns, all_intervals, blocks,
  tx_counts, txns_conserved,
}
use chaindash.Data.Chain.Intervals.{HasTime, gaps_from, intervals_conserved}
use chaindash.Data.Chain.Peaks.{busiest, no_block, max_txs-busiest}
use chaindash.Data.NodeDetails.{NodeDetail, NodeDetailStore}
use chaindash.Data.NodeDetails.Names.{Change, AllNamed, apply_all-AllNamed}
use chaindash.Data.NodeDetails.Names
use chaindash.Data.Status.{info, set, expire_if_needed, expire_message}
use chaindash.Data.Status.Lifetime.{shown, read, stands, set_again, shown-set_again}
use chaindash.Data.System.{SystemStats}

abbrev events : List Event
events =
    sample (record { number = 1; timestamp = 10; txs = 4 })
    ∷ drain_txns
    ∷ sample (record { number = 2; timestamp = 12; txs = 9 })
    ∷ drain_intervals
    ∷ sample (record { number = 3; timestamp = 13; txs = 9 })
    ∷ []

events-HasTime : All HasTime (blocks events)
unfolding blocks
events-HasTime = (omega arith, (omega arith, (omega arith, tt)))

txns_conserved_example : all_txns (run start events) ≡ 0 ∷ tx_counts (blocks events)
txns_conserved_example = txns_conserved events

intervals_conserved_example : all_intervals (run start events) ≡ 0 ∷ gaps_from 0 (blocks events)
intervals_conserved_example = intervals_conserved events events-HasTime

max_txs-busiest_example :
    ((run start events).chain.max_txs ≡ (busiest no_block (blocks events)).txs)
    × ((run start events).chain.max_txs_block_number ≡ (busiest no_block (blocks events)).number)
max_txs-busiest_example = max_txs-busiest events

-- `reward_per` and `reward_value` are counted here, as they are only kept.
abbrev detail : Text → Text → ℤ → NodeDetail ℕ
detail id name rank = record {
  node_id = id;
  node_name = name;
  ranking = rank;
  block_qty = 7;
  block_rate = [];
  daily_block_rate = [];
  reward_per = 2;
  reward_value = 3;
  reward_address = [];
  verifier_time = 0;
  last_updated_at = none;
}

abbrev two_nodes : NodeDetailStore ℕ
two_nodes = record {
  details =
      (codes "b", detail (codes "b") (codes "beta") (pos 4))
      ∷ (codes "a", detail (codes "a") (codes "alpha") (pos 2))
      ∷ [];
  loaded = true;
}

abbrev changes : List (Change ℕ)
changes =
    Names.merge_detail_for (codes "a") (some (detail [] [] (pos 0)))
    ∷ Names.merge_ranking_for (codes "b") (some (pos 1))
    ∷ Names.remove_for (codes "a")
    ∷ []

two_nodes-AllNamed : AllNamed two_nodes
unfolding is_empty
two_nodes-AllNamed = ((λ h. cc), ((λ h. cc), tt))

apply_all-AllNamed_example : AllNamed (Names.apply_all two_nodes changes)
apply_all-AllNamed_example = apply_all-AllNamed two_nodes changes two_nodes-AllNamed

abbrev merged : List (Text × NodeDetail ℕ)
merged = (codes "b", detail (codes "b") [] (pos 0)) ∷ (codes "c", detail [] [] (pos 8)) ∷ []

abbrev message : Text
message = codes "rpc failed"

-- Set at 100, and again after 3 seconds.
shown-set_again_example :
    read (
      shown
        (set_again
          (set (record { status_message = none }) info message 100).0
          info
          message
          (map (λ d. 100 + d) (3_000_000_000 ∷ [])))
        (100 + 4_000_000_000))
    ≡ (if stands info 4_000_000_000 then some (info, message) else none)
unfolding expire_if_needed expire_message
shown-set_again_example =
    shown-set_again (record { status_message = none }) info message 100 4_000_000_000
      (3_000_000_000 ∷ []) (λ h. cc) (refl, tt)

-- The disks are named by numbers.
abbrev three_disks : SystemStats ℕ ℕ
three_disks = record {
  cpu_usage = 5;
  memory_used = 10;
  memory_total = 20;
  memory_usage_percent = 50;
  network_rx = 1;
  network_tx = 2;
  disk_used = 3;
  disk_total = 4;
  disk_usage_percent = 75;
  disk_details = 11 ∷ 12 ∷ 13 ∷ [];
  current_disk_index = 2;
  alert_threshold = 90;
  has_disk_alerts = false;
  auto_discovery_enabled = true;
}
