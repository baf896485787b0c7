-- ===== src/Collect/Details.antt =====
-- src/collect/node_detail.rs: a round of requests for the details of the nodes, and one for their
-- rankings. An answer is what came back over HTTP, or that it took too long; its errors come with
-- the text that they print. The futures of a round run concurrently: each one writes under the lock
-- when its answer is there, in any order.
pub mod Round
pub mod Rankings
use mathlib.Core.Option
use chaindash.Base.{
  ltb, ◌==◌, if◌then◌else◌, length, take, find, Text, codes, text_eq, join, ℤ, leb_ℤ, eqb_ℤ, ℕ, ◌-◌,
  ◌^◌, ◌&&◌, Option, none, some, List, [], ◌∷◌, ◌++◌, pos, negsuc,
}
use chaindash.Opts.Number.{decimal}
use chaindash.Notify.Delivery.{decimal_ℤ}
use chaindash.Data.NodeDetails.{NodeDetail, get}
use chaindash.Data.Status.{warning}
use chaindash.Data.Store.{
  Data, perform, merge_node_detail_for, merge_node_ranking_for, remove_node_detail,
  mark_node_details_loaded, set_status_message,
}
use chaindash.Collect.Types.{FloatText, ExplorerDetail, NodeInfo, ExplorerResponse}

-- `u64::try_from(z).unwrap_or(0)`
abbrev pub to_u64 : ℤ → ℕ
to_u64 (pos n) = n
to_u64 (negsuc n) = 0

-- `i32::try_from(z).ok()`
unfoldable pub to_i32 : ℤ → Option ℤ
to_i32 z = if leb_ℤ (negsuc (2 ^ 31 - 1)) z && leb_ℤ z (pos (2 ^ 31 - 1)) then some z else none

abbrev preview_count : ℕ
preview_count = 3

unfoldable pub summarize_node_detail_failures : List Text → Text
unfolding decimal join
summarize_node_detail_failures [] = codes "Node details unavailable"
summarize_node_detail_failures (id ∷ []) = codes "Node detail unavailable for " ++ id
summarize_node_detail_failures (a ∷ b ∷ rest) =
    let node_ids = a ∷ b ∷ rest in
    let preview = join (codes ", ") (take preview_count node_ids) in
    let remaining = length node_ids - preview_count in
    if remaining == 0
    then codes "Node details unavailable for "
      ++ (decimal (length node_ids) ++ (codes " node(s): " ++ preview))
    else codes "Node details unavailable for "
      ++ (decimal (length node_ids)
          ++ (codes " node(s): "
              ++ (preview ++ (codes ", +" ++ (decimal remaining ++ codes " more")))))

unfoldable pub parse_node_ranking : List NodeInfo → Text → Option ℤ
unfolding find text_eq to_i32
parse_node_ranking infos node_id =
    elim (find (λ (node : NodeInfo). text_eq node.node_id node_id) infos) [
      | none ↦ none
      | some node ↦ to_i32 node.ranking
    ]

-- What a request comes back with.
pub data Answer (A : Type 0) : Type 0 where
  not_sent : Text → Answer A
  error_status : Text → Answer A
  body_unread : Text → Answer A
  not_parsed : Text → Answer A
  response : ExplorerResponse A → Answer A
  timed_out : Text → Answer A

-- A request that is over: for which node, with what answer, and when.
pub record Request : Type 0 where
  pub node_id : Text
  pub answer : Answer ExplorerDetail
  pub at : ℕ

-- The detail of an answer, if it has one: each other answer is an error of `fetch_node_detail`.
unfoldable pub detail_in : Answer ExplorerDetail → Option ExplorerDetail
detail_in (response r) = if eqb_ℤ r.code (pos 0) then r.content else none
detail_in answer = none

-- The nodes that failed, in the order in which they were asked.
unfoldable pub failures : List Request → List Text
unfolding detail_in
failures [] = []
failures (r ∷ rs) =
    let rest = failures rs in
    elim (detail_in r.answer) [ none ↦ r.node_id ∷ rest | some detail ↦ rest ]

module _ {F : Type 0} (floats : FloatText F) where
  abbrev or_zero_f64 : Option F → F
  or_zero_f64 none = floats.zero_f64
  or_zero_f64 (some x) = x

  unfoldable pub parse_node_detail : Text → ExplorerDetail → ℕ → NodeDetail F
  parse_node_detail node_id node_detail now = record {
    node_id = node_id;
    node_name = node_detail.node_name;
    ranking = pos 0;
    block_qty = to_u64 node_detail.block_qty;
    block_rate =
        if ltb 0 (to_u64 node_detail.expect_block_qty)
        then floats.percentage (to_u64 node_detail.block_qty) (to_u64 node_detail.expect_block_qty)
        else codes "0.00%";
    daily_block_rate = node_detail.gen_blocks_rate;
    reward_per = or_zero_f64 (floats.parse_f64 node_detail.reward_per);
    reward_value = or_zero_f64 (floats.parse_f64 node_detail.reward_value);
    reward_address = node_detail.benefit_addr;
    verifier_time = to_u64 node_detail.verifier_time;
    last_updated_at = some now;
  }

module _ {F D : Type 0} where
  abbrev pub report : Data F D → List Text → ℕ → Data F D
  report d [] now = d
  report d (id ∷ ids) now =
      perform d (set_status_message warning (summarize_node_detail_failures (id ∷ ids)) now)

module _ {F D : Type 0} (floats : FloatText F) where
  abbrev pub settle_with : Data F D → Request → Option ExplorerDetail → Data F D
  settle_with d r none = perform d (remove_node_detail r.node_id)
  settle_with d r (some detail) =
      perform d
        (merge_node_detail_for r.node_id (some (parse_node_detail floats r.node_id detail r.at)))

  -- The future of one node: what it finds is merged, and the entry of a node that fails is removed.
  unfoldable pub settle : Data F D → Request → Data F D
  unfolding perform parse_node_detail detail_in
  settle d r = settle_with d r (detail_in r.answer)

  unfoldable pub settle_all : Data F D → List Request → Data F D
  unfolding settle
  settle_all d [] = d
  settle_all d (r ∷ rs) = settle_all (settle d r) rs

  -- The requests in the order in which they were made, and in that in which they were over.
  unfoldable pub fetch_all_node_details : Data F D → List Request → List Request → ℕ → Data F D
  unfolding settle_all failures perform summarize_node_detail_failures
  fetch_all_node_details d made completed now =
      report (perform (settle_all d completed) mark_node_details_loaded) (failures made) now
