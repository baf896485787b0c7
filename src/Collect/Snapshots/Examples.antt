-- ===== src/Collect/Snapshots/Examples.antt =====
-- Two nodes over a few days. Floating-point numbers are counted here, and a date is a digit.
use chaindash.Base.{
  ltb, any, Text, codes, text_eq, text_leb, is_empty, is_whitespace, trim, ℕ, zero, suc, ◌+◌, ◌-◌,
  ◌≡◌, refl, ◌⊎◌, false, Option, none, some, List, [], ◌∷◌, arith, pos,
}
use chaindash.Data.NodeDetails.{NodeDetail}
use chaindash.Collect.Snapshots.{
  Floats, Calendar, StoredDailyNodeSnapshot, StoredDailyNodeSnapshotStore, from_node_details,
  save_to, upsert, no_snapshots, daily_summary_details,
}
use chaindash.Collect.Snapshots.Lookup.{IsHistory, is_pruned}
use chaindash.Collect.Snapshots.History.{save_all, latest, IsDaily, save_all-latest}
use chaindash.Collect.Snapshots.Deltas.{AllDeltas, daily_summary_details-save_to}
use chaindash.Collect.Snapshots.Files.{
  Faults, Json, read_store, save_snapshot, read_store-save_snapshot,
}

abbrev floats : Floats ℕ
floats = record { is_greater = λ a b. ltb b a; minus = λ a b. a - b; zero_float = 0 }

abbrev before_day : ℕ → Option ℕ
before_day zero = none
before_day (suc d) = some d

abbrev calendar : Calendar ℕ
calendar = record {
  to_string = λ d. (b'0' + d) ∷ [];
  pred_opt = before_day;
  year = λ d. pos 0;
  month = λ d. 1;
  day = λ d. d;
  from_ymd_opt = λ y m d. some d;
}

abbrev detail : Text → ℕ → NodeDetail ℕ
detail id blocks = record {
  node_id = id;
  node_name = id;
  ranking = pos 3;
  block_qty = blocks;
  block_rate = [];
  daily_block_rate = [];
  reward_per = 2;
  reward_value = 3;
  reward_address = [];
  verifier_time = 0;
  last_updated_at = none;
}

abbrev yesterday : List (NodeDetail ℕ)
yesterday = detail (codes "a") 10 ∷ []

abbrev today : List (NodeDetail ℕ)
today = detail (codes "a") 14 ∷ detail (codes "b") 5 ∷ []

abbrev two_days : List (StoredDailyNodeSnapshot ℕ)
two_days =
    record { date = codes "3"; node_details = [] }
    ∷ record { date = codes "4"; node_details = [] }
    ∷ []

abbrev stored : StoredDailyNodeSnapshotStore ℕ
stored = record { snapshots = two_days }

two_days-IsDaily : IsDaily two_days
unfolding text_leb text_eq
two_days-IsDaily = (((refl, refl), tt), (tt, tt))

stored-IsHistory : IsHistory stored
unfolding text_leb text_eq any
stored-IsHistory = (((refl, tt), (tt, tt)), (refl, (refl, tt)), omega arith)

save_all-latest_example : (save_all no_snapshots two_days).snapshots ≡ latest two_days
save_all-latest_example = save_all-latest two_days two_days-IsDaily

abbrev third : StoredDailyNodeSnapshot ℕ
third = record { date = codes "1"; node_details = [] }

kept : is_pruned (upsert stored (from_node_details (codes "5") yesterday)) (codes "5") ≡ false
unfolding upsert from_node_details
kept = refl

daily_summary_details-save_to_example : AllDeltas yesterday today (
    daily_summary_details floats calendar
      (save_to stored (from_node_details (calendar.to_string 5) yesterday))
      6
      today)
daily_summary_details-save_to_example =
    daily_summary_details-save_to floats calendar stored 5 6 yesterday today stored-IsHistory refl
      kept (unfold is_empty in (refl, (refl, tt)))

abbrev first_store : StoredDailyNodeSnapshotStore ℕ
first_store = save_to no_snapshots (from_node_details (codes "5") yesterday)

-- The one store that is printed here is read back.
abbrev json : Json ℕ
json = record { print = λ s. codes "{}"; parse = λ text. some first_store }

-- The old file cannot be removed, which does not matter as there is none.
abbrev faults : Faults
faults = record {
  unreadable = false;
  no_parent = false;
  create_dir_all = none;
  to_vec_pretty = none;
  write = none;
  remove_file = some (codes "denied");
  rename = none;
}

read_store-save_snapshot_example :
    ((read_store json faults (save_snapshot json faults none (codes "5") yesterday).0 ≡ first_store)
      × ((save_snapshot json faults none (codes "5") yesterday).1 ≡ none))
    ⊎ ((e : Text) × ((save_snapshot json faults none (codes "5") yesterday).1 ≡ some e)
        × (((save_snapshot json faults none (codes "5") yesterday).0 ≡ none)
            ⊎ ((save_snapshot json faults none (codes "5") yesterday).0 ≡ none)))
unfolding read_store trim is_empty is_whitespace
read_store-save_snapshot_example =
    read_store-save_snapshot json faults none (codes "5") (detail (codes "a") 10) [] first_store
      refl refl refl faults refl
