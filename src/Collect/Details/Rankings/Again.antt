-- ===== src/Collect/Details/Rankings/Again.antt =====
-- Rankings that come a second time are not reported again.
use chaindash.Base.{
  Bool-cases, All, Text, codes, text_eq_iff, Map, lookup, insert, lookup-insert, lookup-insert_self,
  insert-lookup, ℤ, leb_ℤ, is_positive, ◌≡◌, refl, ap, inl, inr, true, false, Option, none, some,
  List, [], ◌∷◌, ◌++◌, arith, pos,
}
use chaindash.Data.Store.{Data}
use chaindash.Notify.Config.{TelegramConfig}
use chaindash.Notify.Filter.{EventKind, ranking_changed}
use chaindash.Notify.State.{
  NotificationState, allow_delivery, record_quiet_summary, take_quiet_summary_snapshot,
  plan_ranking_change, ranking_change, RankingChange,
}
use chaindash.Notify.Template.{display_node_name}
use chaindash.Notify.Delivery.{
  report_change, render_ranking_changed_message, Now, decide, send_if_enabled,
  notify_node_ranking_change,
}
use chaindash.Collect.Types.{NodeInfo}
use chaindash.Collect.Details.{parse_node_ranking}
use chaindash.Collect.Details.Rankings.{
  merge_ranking_in, RankingObservation, observe, merge_rankings, notify_rankings,
}

-- The list gives the ranking, and it is above zero.
abbrev IsRanked : List NodeInfo → Text → ℤ → Type 0
IsRanked infos node_id ranking =
    (parse_node_ranking infos node_id ≡ some ranking) × (is_positive ranking ≡ true)

module _ {F D : Type 0} where
  All-observe :
      (P : Text → ℤ → Type 0) (d d' : Data F D) (node_id : Text) (ranking : Option ℤ)
      (rest rest' : List RankingObservation)
      → (All (λ (o : RankingObservation). P o.node_id o.ranking) rest
          → All (λ (o : RankingObservation). P o.node_id o.ranking) rest')
      → All (λ (o : RankingObservation). P o.node_id o.ranking) (observe d node_id ranking rest)
      → All (λ (o : RankingObservation). P o.node_id o.ranking) (observe d' node_id ranking rest')
  All-observe P d d' node_id none rest rest' f h = f h
  All-observe P d d' node_id (some r) rest rest' f h = elim (Bool-cases (is_positive r)) [
    | inl ranked ↦ rw ranked (let h' = rw ranked at h in (h'.0, f h'.1))
    | inr unranked ↦ rw unranked (f (rw unranked at h))
  ]

  -- What is observed does not depend on what is stored, but for the names.
  All-merge_rankings :
      (P : Text → ℤ → Type 0) (infos : List NodeInfo) (node_ids : List Text) (d d' : Data F D)
      → All (λ (o : RankingObservation). P o.node_id o.ranking) (merge_rankings infos node_ids d).1
      → All (λ (o : RankingObservation). P o.node_id o.ranking) (merge_rankings infos node_ids d').1
  unfolding merge_rankings
  All-merge_rankings P infos [] d d' h = tt
  All-merge_rankings P infos (node_id ∷ node_ids) d d' h =
      All-observe P (merge_ranking_in infos node_id d) (merge_ranking_in infos node_id d') node_id
        (parse_node_ranking infos node_id)
        (merge_rankings infos node_ids (merge_ranking_in infos node_id d)).1
        (merge_rankings infos node_ids (merge_ranking_in infos node_id d')).1
        (All-merge_rankings P infos node_ids (merge_ranking_in infos node_id d)
          (merge_ranking_in infos node_id d'))
        h

  observe-IsRanked :
      (infos : List NodeInfo) (d : Data F D) (node_id : Text) (ranking : Option ℤ)
      (rest : List RankingObservation)
      → parse_node_ranking infos node_id ≡ ranking
      → All (λ (o : RankingObservation). IsRanked infos o.node_id o.ranking) rest
      → All
          (λ (o : RankingObservation). IsRanked infos o.node_id o.ranking)
          (observe d node_id ranking rest)
  observe-IsRanked infos d node_id none rest e h = h
  observe-IsRanked infos d node_id (some r) rest e h = elim (Bool-cases (is_positive r)) [
    | inl ranked ↦ rw ranked ((e, ranked), h)
    | inr unranked ↦ rw unranked h
  ]

  merge_rankings-IsRanked :
      (infos : List NodeInfo) (node_ids : List Text) (d : Data F D)
      → All
          (λ (o : RankingObservation). IsRanked infos o.node_id o.ranking)
          (merge_rankings infos node_ids d).1
  unfolding merge_rankings
  merge_rankings-IsRanked infos [] d = tt
  merge_rankings-IsRanked infos (node_id ∷ node_ids) d =
      observe-IsRanked infos (merge_ranking_in infos node_id d) node_id
        (parse_node_ranking infos node_id)
        (merge_rankings infos node_ids (merge_ranking_in infos node_id d)).1 refl
        (merge_rankings-IsRanked infos node_ids (merge_ranking_in infos node_id d))

last_rankings-decide :
    (config : TelegramConfig) (now : Now) (event : EventKind) (key subject : Text)
    (s : NotificationState)
    → (decide config now event key subject s).0.last_rankings ≡ s.last_rankings
unfolding decide allow_delivery record_quiet_summary take_quiet_summary_snapshot
last_rankings-decide config now event key subject s = ground arith

last_rankings-send :
    (config : TelegramConfig) (now : Now) (event : EventKind) (key subject message : Text)
    (s : NotificationState)
    → (send_if_enabled config now event key subject message s).0.last_rankings ≡ s.last_rankings
unfolding send_if_enabled
last_rankings-send config now event key subject message s =
    ground (arith, last_rankings-decide config now event key subject s)

last_rankings-report :
    (config : TelegramConfig) (now : Now) (node_id name : Text) (s : NotificationState)
    (change : Option RankingChange)
    → (report_change config now node_id name (s, change)).0.last_rankings ≡ s.last_rankings
last_rankings-report config now node_id name s none = refl
last_rankings-report config now node_id name s (some c) =
    last_rankings-send config now ranking_changed (codes "ranking-changed:" ++ node_id)
      (display_node_name name) (render_ranking_changed_message config name c) s

plan-positive :
    (s : NotificationState) (node_id : Text) (ranking : ℤ)
    → is_positive ranking ≡ true
    → plan_ranking_change s node_id ranking ≡ (
      record s { last_rankings = insert node_id ranking s.last_rankings },
      ranking_change (lookup node_id s.last_rankings) ranking,
    )
unfolding plan_ranking_change
plan-positive s node_id ranking h =
    let above : leb_ℤ ranking (pos 0) ≡ false = ground (arith, h) in rw above refl

-- A ranking above zero is stored, whatever is sent.
last_rankings-notify :
    (config : TelegramConfig) (now : Now) (node_id name : Text) (ranking : ℤ)
    (s : NotificationState)
    → is_positive ranking ≡ true
    → (notify_node_ranking_change config now node_id name ranking s).0.last_rankings
      ≡ insert node_id ranking s.last_rankings
unfolding notify_node_ranking_change
last_rankings-notify config now node_id name ranking s h = rw (plan-positive s node_id ranking h) (
    last_rankings-report config now node_id name
      (record s { last_rankings = insert node_id ranking s.last_rankings })
      (ranking_change (lookup node_id s.last_rankings) ranking))

-- What is stored for the node is this ranking.
abbrev IsStored : NotificationState → RankingObservation → Type 0
IsStored s o = lookup o.node_id s.last_rankings ≡ some o.ranking

ranking_change_same :
    (ranking : ℤ) → is_positive ranking ≡ true → ranking_change (some ranking) ranking ≡ none
unfolding ranking_change
ranking_change_same ranking h = ground (arith, h)

notify-IsStored :
    (config : TelegramConfig) (now : Now) (name : Text) (ranking : ℤ) (node_id : Text)
    (s : NotificationState)
    → is_positive ranking ≡ true
    → lookup node_id s.last_rankings ≡ some ranking
    → notify_node_ranking_change config now node_id name ranking s ≡ (s, [])
unfolding notify_node_ranking_change
notify-IsStored config now name ranking node_id s h e =
    rw (plan-positive s node_id ranking h, e, ranking_change_same ranking h)
      (ap (λ m. (record s { last_rankings = m }, []))
        (insert-lookup node_id ranking s.last_rankings e))

-- Rankings that are all stored are not reported, and nothing changes.
notify_rankings-stored :
    (config : TelegramConfig) (clock : Text → Now) (os : List RankingObservation)
    (s : NotificationState)
    → All (λ (o : RankingObservation). is_positive o.ranking ≡ true) os
    → All (IsStored s) os
    → notify_rankings config clock os s ≡ (s, [])
unfolding notify_rankings
notify_rankings-stored config clock [] s p h = refl
notify_rankings-stored config clock (o ∷ os) s p h =
    rw (notify-IsStored config (clock o.node_id) o.node_name o.ranking o.node_id s p.0 h.0)
      (rw (notify_rankings-stored config clock os s p.1 h.1) refl)

lookup-kept :
    (infos : List NodeInfo) (m : Map ℤ) (x o : RankingObservation)
    → parse_node_ranking infos x.node_id ≡ some x.ranking
    → parse_node_ranking infos o.node_id ≡ some o.ranking
    → lookup o.node_id m ≡ some o.ranking
    → lookup o.node_id (insert x.node_id x.ranking m) ≡ some o.ranking
lookup-kept infos m x o h e k =
    ground (
      arith,
      lookup-insert x.node_id o.node_id x.ranking m,
      text_eq_iff x.node_id o.node_id,
      h,
      e,
      k,
    )

-- A ranking that is stored and that the list gives stays stored.
kept-IsStored :
    (infos : List NodeInfo) (config : TelegramConfig) (clock : Text → Now)
    (os : List RankingObservation) (s : NotificationState) (o : RankingObservation)
    → All (λ (o : RankingObservation). IsRanked infos o.node_id o.ranking) os
    → parse_node_ranking infos o.node_id ≡ some o.ranking
    → IsStored s o
    → IsStored (notify_rankings config clock os s).0 o
unfolding notify_rankings
kept-IsStored infos config clock [] s o h e k = k
kept-IsStored infos config clock (x ∷ xs) s o h e k =
    kept-IsStored infos config clock xs _ o h.1 e (
      rw (last_rankings-notify config (clock x.node_id) x.node_id x.node_name x.ranking s h.0.1)
        (lookup-kept infos s.last_rankings x o h.0.0 e k))

notified-IsStored :
    (infos : List NodeInfo) (config : TelegramConfig) (clock : Text → Now)
    (os : List RankingObservation) (s : NotificationState)
    → All (λ (o : RankingObservation). IsRanked infos o.node_id o.ranking) os
    → All (IsStored (notify_rankings config clock os s).0) os
unfolding notify_rankings
notified-IsStored infos config clock [] s h = tt
notified-IsStored infos config clock (x ∷ xs) s h = (
  kept-IsStored infos config clock xs _ x h.1 h.0.0 (
      rw (last_rankings-notify config (clock x.node_id) x.node_id x.node_name x.ranking s h.0.1)
        (lookup-insert_self x.node_id x.ranking s.last_rankings)),
  notified-IsStored infos config clock xs _ h.1,
)

All-positive :
    (infos : List NodeInfo) (os : List RankingObservation)
    → All (λ (o : RankingObservation). IsRanked infos o.node_id o.ranking) os
    → All (λ (o : RankingObservation). is_positive o.ranking ≡ true) os
All-positive infos [] h = tt
All-positive infos (o ∷ os) h = (h.0.1, All-positive infos os h.1)

-- After a round of rankings was notified, whatever was sent, delayed or suppressed: if the next
-- round brings the same list nothing is sent and the notifier's state stays, whatever became of the
-- details in between.
pub notify_rankings-again :
    {F D : Type 0} (infos : List NodeInfo) (node_ids : List Text) (d d' : Data F D)
    (config : TelegramConfig) (clock clock' : Text → Now) (s : NotificationState)
    → let notified = (notify_rankings config clock (merge_rankings infos node_ids d).1 s).0 in
      notify_rankings config clock' (merge_rankings infos node_ids d').1 notified ≡ (notified, [])
notify_rankings-again infos node_ids d d' config clock clock' s =
    let notified = (notify_rankings config clock (merge_rankings infos node_ids d).1 s).0 in
    notify_rankings-stored config clock' (merge_rankings infos node_ids d').1 notified
      (All-positive infos (merge_rankings infos node_ids d').1
        (merge_rankings-IsRanked infos node_ids d'))
      (All-merge_rankings (λ node_id ranking. lookup node_id notified.last_rankings ≡ some ranking)
        infos node_ids d d'
        (notified-IsStored infos config clock (merge_rankings infos node_ids d).1 s
          (merge_rankings-IsRanked infos node_ids d)))
