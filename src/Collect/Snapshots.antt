-- ===== src/Collect/Snapshots.antt =====
-- src/collect/daily_snapshot.rs: the snapshots of the nodes that the daily summary compares with.
-- `F` stands for the floating-point type and `Date` for `NaiveDate`.
pub mod Lookup
pub mod History
pub mod Files
pub mod Deltas
mod Examples
use mathlib.Core.Option
use chaindash.Data.NodeDetails.{NodeDetail}
use chaindash.Base.{
  leb, ◌==◌, if◌then◌else◌, not, length, drop, filter, find, Text, text_eq, text_leb, is_empty,
  sort_by, ℤ, ℕ, ◌-◌, Bool, ◌&&◌, Option, none, some, List, [], ◌∷◌, ◌++◌, map,
}

-- The operations on floating-point numbers.
pub record Floats (F : Type 0) : Type 0 where
  pub is_greater : F → F → Bool
  pub minus : F → F → F
  pub zero_float : F

-- The operations on dates, of `chrono`.
pub record Calendar (Date : Type 0) : Type 0 where
  pub to_string : Date → Text
  pub pred_opt : Date → Option Date
  pub year : Date → ℤ
  pub month : Date → ℕ
  pub day : Date → ℕ
  pub from_ymd_opt : ℤ → ℕ → ℕ → Option Date

pub record StoredDailyNodeSnapshotDetail (F : Type 0) : Type 0 where
  pub node_id : Text
  pub node_name : Text
  pub block_qty : ℕ
  pub reward_value : F

pub record StoredDailyNodeSnapshot (F : Type 0) : Type 0 where
  pub date : Text
  pub node_details : List (StoredDailyNodeSnapshotDetail F)

pub record StoredDailyNodeSnapshotStore (F : Type 0) : Type 0 where
  pub snapshots : List (StoredDailyNodeSnapshot F)

pub record DailyNodeSummaryDetail (F : Type 0) : Type 0 where
  pub node_id : Text
  pub node_name : Text
  pub ranking : ℤ
  pub block_qty : ℕ
  pub reward_value : F
  pub daily_block_qty : Option ℕ
  pub daily_reward_value : Option F
  pub show_monthly_totals : Bool
  pub monthly_block_qty : Option ℕ
  pub monthly_reward_value : Option F

abbrev pub daily_node_snapshot_history_limit : ℕ
daily_node_snapshot_history_limit = 32

module _ {F : Type 0} where
  abbrev pub stored_detail : NodeDetail F → StoredDailyNodeSnapshotDetail F
  stored_detail d = record {
    node_id = d.node_id;
    node_name = d.node_name;
    block_qty = d.block_qty;
    reward_value = d.reward_value;
  }

  unfoldable pub from_node_details : Text → List (NodeDetail F) → StoredDailyNodeSnapshot F
  from_node_details date node_details = record {
    date = date;
    node_details = map stored_detail node_details;
  }

  unfoldable pub snapshot_for :
      StoredDailyNodeSnapshotStore F → Text → Option (StoredDailyNodeSnapshot F)
  unfolding find text_eq
  snapshot_for store date =
      find (λ (snapshot : StoredDailyNodeSnapshot F). text_eq snapshot.date date) store.snapshots

  abbrev pub date_leb : StoredDailyNodeSnapshot F → StoredDailyNodeSnapshot F → Bool
  date_leb l r = text_leb l.date r.date

  unfoldable pub upsert :
      StoredDailyNodeSnapshotStore F → StoredDailyNodeSnapshot F → StoredDailyNodeSnapshotStore F
  unfolding filter sort_by text_eq text_leb
  upsert store snapshot = record {
    snapshots = sort_by date_leb (
        filter (λ (existing : StoredDailyNodeSnapshot F). not (text_eq existing.date snapshot.date))
          store.snapshots
        ++ snapshot ∷ []);
  }

  unfoldable pub prune : StoredDailyNodeSnapshotStore F → StoredDailyNodeSnapshotStore F
  prune store =
      if leb (length store.snapshots) daily_node_snapshot_history_limit then store else record {
        snapshots =
            drop (length store.snapshots - daily_node_snapshot_history_limit) store.snapshots;
      }

  -- The first candidate that has the text, where the text is not empty.
  abbrev pub find_by :
      (StoredDailyNodeSnapshotDetail F → Text)
      → Text
      → List (StoredDailyNodeSnapshotDetail F)
      → Option (StoredDailyNodeSnapshotDetail F)
  find_by field text details =
      if is_empty text
      then none
      else find (λ candidate. not (is_empty (field candidate)) && text_eq (field candidate) text)
          details

  abbrev pub or_else :
      Option (StoredDailyNodeSnapshotDetail F)
      → Option (StoredDailyNodeSnapshotDetail F)
      → Option (StoredDailyNodeSnapshotDetail F)
  or_else none other = other
  or_else (some found) other = some found

  unfoldable pub find_snapshot_detail :
      Option (StoredDailyNodeSnapshot F) → NodeDetail F → Option (StoredDailyNodeSnapshotDetail F)
  unfolding find text_eq is_empty
  find_snapshot_detail none detail = none
  find_snapshot_detail (some snapshot) detail =
      or_else
        (find_by (λ (c : StoredDailyNodeSnapshotDetail F). c.node_id) detail.node_id
          snapshot.node_details)
        (find_by (λ (c : StoredDailyNodeSnapshotDetail F). c.node_name) detail.node_name
          snapshot.node_details)

  abbrev pub no_snapshots : StoredDailyNodeSnapshotStore F
  no_snapshots = record { snapshots = [] }

module _ {F : Type 0} (floats : Floats F) where
  unfoldable pub non_negative_reward_delta : F → F → F
  non_negative_reward_delta current previous =
      if floats.is_greater current previous
      then floats.minus current previous
      else floats.zero_float

  abbrev reward_since : NodeDetail F → StoredDailyNodeSnapshotDetail F → F
  reward_since detail snapshot = non_negative_reward_delta detail.reward_value snapshot.reward_value

  abbrev pub blocks_since : NodeDetail F → StoredDailyNodeSnapshotDetail F → ℕ
  blocks_since detail snapshot = detail.block_qty - snapshot.block_qty

  abbrev pub summary_detail :
      Option (StoredDailyNodeSnapshot F)
      → Option (StoredDailyNodeSnapshot F)
      → Bool
      → NodeDetail F
      → DailyNodeSummaryDetail F
  summary_detail previous_snapshot monthly_snapshot show_monthly_totals detail =
      let previous = find_snapshot_detail previous_snapshot detail in
      let monthly = find_snapshot_detail monthly_snapshot detail in
      record {
        node_id = detail.node_id;
        node_name = detail.node_name;
        ranking = detail.ranking;
        block_qty = detail.block_qty;
        reward_value = detail.reward_value;
        daily_block_qty = Option.map (blocks_since detail) previous;
        daily_reward_value = Option.map (reward_since detail) previous;
        show_monthly_totals = show_monthly_totals;
        monthly_block_qty = Option.map (blocks_since detail) monthly;
        monthly_reward_value = Option.map (reward_since detail) monthly;
      }

  unfoldable pub build_daily_summary_details :
      List (NodeDetail F)
      → Option (StoredDailyNodeSnapshot F)
      → Option (StoredDailyNodeSnapshot F)
      → Bool
      → List (DailyNodeSummaryDetail F)
  unfolding find_snapshot_detail non_negative_reward_delta
  build_daily_summary_details node_details previous_snapshot monthly_snapshot show_monthly_totals =
      map (summary_detail previous_snapshot monthly_snapshot show_monthly_totals) node_details

module _ {Date : Type 0} (calendar : Calendar Date) where
  abbrev start_of_month : Option Date → Option Date
  start_of_month none = none
  start_of_month (some previous_day) =
      calendar.from_ymd_opt (calendar.year previous_day) (calendar.month previous_day) 1

  unfoldable pub previous_month_start_snapshot_date : Date → Option Date
  previous_month_start_snapshot_date date =
      if calendar.day date == 1 then start_of_month (calendar.pred_opt date) else none

module _ {F Date : Type 0} (calendar : Calendar Date) where
  abbrev pub snapshot_at :
      StoredDailyNodeSnapshotStore F → Option Date → Option (StoredDailyNodeSnapshot F)
  snapshot_at store none = none
  snapshot_at store (some date) = snapshot_for store (calendar.to_string date)

module _ {F Date : Type 0} (floats : Floats F) (calendar : Calendar Date) where
  -- `daily_summary_details`, with the store that was read.
  unfoldable pub daily_summary_details :
      StoredDailyNodeSnapshotStore F → Date → List (NodeDetail F) → List (DailyNodeSummaryDetail F)
  unfolding snapshot_for previous_month_start_snapshot_date build_daily_summary_details
  daily_summary_details store date node_details =
      build_daily_summary_details floats node_details
        (snapshot_at calendar store (calendar.pred_opt date))
        (snapshot_at calendar store (previous_month_start_snapshot_date calendar date))
        (calendar.day date == 1)

module _ {F : Type 0} where
  abbrev pub save_to :
      StoredDailyNodeSnapshotStore F → StoredDailyNodeSnapshot F → StoredDailyNodeSnapshotStore F
  save_to store snapshot = prune (upsert store snapshot)
