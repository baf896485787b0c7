-- ===== src/Collect/Details/Rankings.antt =====
-- `fetch_node_rankings_once` and `fetch_node_rankings` of src/collect/node_detail.rs, and the
-- notifications that follow.
pub mod Again
use chaindash.Base.{
  if◌then◌else◌, Text, codes, ℤ, eqb_ℤ, is_positive, ℕ, Option, none, some, List, [], ◌∷◌, ◌++◌,
  pos,
}
use chaindash.Data.NodeDetails.{NodeDetail, get}
use chaindash.Data.Status.{warning}
use chaindash.Data.Store.{Data, perform, merge_node_ranking_for, set_status_message}
use chaindash.Notify.Config.{TelegramConfig}
use chaindash.Notify.State.{NotificationState}
use chaindash.Notify.Delivery.{Now, Message, notify_node_ranking_change, decimal_ℤ}
use chaindash.Collect.Types.{NodeInfo, ExplorerResponse}
use chaindash.Collect.Details.{
  Answer, not_sent, error_status, body_unread, not_parsed, response, timed_out, parse_node_ranking,
}

-- A ranking above zero, with the name that is stored for the node.
pub record RankingObservation : Type 0 where
  pub node_id : Text
  pub node_name : Text
  pub ranking : ℤ

abbrev name_in : {F : Type 0} → Option (NodeDetail F) → Text
name_in none = []
name_in (some detail) = detail.node_name

module _ {F D : Type 0} where
  -- `ranking.filter(|ranking| *ranking > 0)`, pushed in front of what follows.
  abbrev pub observe :
      Data F D → Text → Option ℤ → List RankingObservation → List RankingObservation
  observe d node_id none rest = rest
  observe d node_id (some ranking) rest =
      if is_positive ranking
      then record {
        node_id = node_id;
        node_name = name_in (get d.node_details node_id);
        ranking = ranking;
      }
        ∷ rest
      else rest

  abbrev pub merge_ranking_in : List NodeInfo → Text → Data F D → Data F D
  merge_ranking_in infos node_id d =
      perform d (merge_node_ranking_for node_id (parse_node_ranking infos node_id))

  -- The loop over the nodes, under the lock.
  unfoldable pub merge_rankings :
      List NodeInfo → List Text → Data F D → Data F D × List RankingObservation
  unfolding perform get parse_node_ranking
  merge_rankings infos [] d = (d, [])
  merge_rankings infos (node_id ∷ node_ids) d =
      let merged = merge_ranking_in infos node_id d in
      let (last, rest) = merge_rankings infos node_ids merged in
      (last, observe merged node_id (parse_node_ranking infos node_id) rest)

  abbrev warn_with_status : Data F D → Text → ℕ → Data F D × List RankingObservation
  warn_with_status d text now = (perform d (set_status_message warning text now), [])

  -- A response with code 0.
  abbrev with_infos :
      Option (List NodeInfo) → List Text → Data F D → ℕ → Data F D × List RankingObservation
  with_infos none node_ids d now =
      warn_with_status d (codes "Node ranking response missing data field") now
  with_infos (some infos) node_ids d now = merge_rankings infos node_ids d

  unfoldable pub fetch_node_rankings :
      Answer (List NodeInfo) → List Text → Data F D → ℕ → Data F D × List RankingObservation
  unfolding merge_rankings perform decimal_ℤ
  fetch_node_rankings (not_sent e) node_ids d now =
      warn_with_status d (codes "Failed to fetch node ranking: " ++ e) now
  fetch_node_rankings (error_status status) node_ids d now =
      warn_with_status d (codes "Node ranking API returned error status: " ++ status) now
  fetch_node_rankings (body_unread e) node_ids d now =
      warn_with_status d (codes "Failed to read response body: " ++ e) now
  fetch_node_rankings (not_parsed e) node_ids d now =
      warn_with_status d (codes "Failed to parse response JSON: " ++ e) now
  fetch_node_rankings (timed_out e) node_ids d now =
      warn_with_status d (codes "Node ranking request timed out after 30s: " ++ e) now
  fetch_node_rankings (response r) node_ids d now =
      if eqb_ℤ r.code (pos 0)
      then with_infos r.content node_ids d now
      else warn_with_status d
          (codes "Node ranking API returned error code: "
            ++ (decimal_ℤ r.code ++ (codes ", err_msg: " ++ r.err_msg)))
          now

-- The loop over the observations, each at the time when it is reached.
unfoldable pub notify_rankings :
    TelegramConfig
    → (Text → Now)
    → List RankingObservation
    → NotificationState
    → NotificationState × List Message
unfolding notify_node_ranking_change
notify_rankings config clock [] s = (s, [])
notify_rankings config clock (o ∷ os) s =
    let (s', sent) =
      notify_node_ranking_change config (clock o.node_id) o.node_id o.node_name o.ranking s in
    let (s'', rest) = notify_rankings config clock os s' in (s'', sent ++ rest)
