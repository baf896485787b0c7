-- ===== src/Collect/Details/Round.antt =====
-- What a round of requests for the details leaves: it does not depend on which request is over first.
use chaindash.Base.{Text, Option, none, some}
use chaindash.Data.NodeDetails.{NodeDetail, completed, node_detail_key}
use chaindash.Data.Store.{Data}
use chaindash.Data.Status
use chaindash.Collect.Types.{ExplorerDetail, FloatText}
use chaindash.Collect.Details.{Request, detail_in, parse_node_detail}

abbrev pub entry_of : Request → Text
entry_of r = node_detail_key r.node_id

module _ {F : Type 0} (floats : FloatText F) where
  abbrev outcome_with :
      Request → Option (NodeDetail F) → Option ExplorerDetail → Option (NodeDetail F)
  outcome_with r existing none = none
  outcome_with r existing (some detail) =
      some (completed r.node_id existing (parse_node_detail floats r.node_id detail r.at))

  -- The entry of a node after its request: the detail of the answer, with the ranking from before,
  -- or none.
  unfoldable pub outcome : Request → Option (NodeDetail F) → Option (NodeDetail F)
  outcome r existing = outcome_with r existing (detail_in r.answer)

  abbrev pub after_request : Option Request → Option (NodeDetail F) → Option (NodeDetail F)
  after_request none existing = existing
  after_request (some r) existing = outcome r existing
