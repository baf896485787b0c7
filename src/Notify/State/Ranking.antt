-- ===== src/Notify/State/Ranking.antt =====
-- Which changes of a node's ranking are reported.
use chaindash.Base.{
  if◌then◌else◌, Text, text_eq, text_eq_iff, lookup, lookup-insert, ℤ, eqb_ℤ, is_positive, ◌≡◌,
  refl, true, ◌&&◌, Option, none, some, List, [], ◌∷◌, arith,
}
use chaindash.Notify.State.{
  initial, RankingChange, NotificationState, ranking_change, plan_ranking_change,
}

abbrev pub Observation : Type 0
Observation = Text × ℤ

-- The changes that a run of observations reports, each with its node.
pub reported : NotificationState → List Observation → List (Text × RankingChange)
reported s [] = []
reported s ((node_id, ranking) ∷ os) =
    let (s', change) = plan_ranking_change s node_id ranking in
    let rest = reported s' os in elim change [ none ↦ rest | some c ↦ (node_id, c) ∷ rest ]

-- The rankings that were observed of one node, those that are not above zero left out.
pub rankings_of : Text → List Observation → List ℤ
rankings_of key [] = []
rankings_of key ((j, ranking) ∷ os) =
    let rest = rankings_of key os in
    if text_eq j key && is_positive ranking then ranking ∷ rest else rest

pub changes_of : Text → List (Text × RankingChange) → List RankingChange
changes_of key [] = []
changes_of key ((j, c) ∷ cs) =
    let rest = changes_of key cs in if text_eq j key then c ∷ rest else rest

-- The steps of a sequence of rankings from one value to another one.
pub steps_from : ℤ → List ℤ → List RankingChange
steps_from previous [] = []
steps_from previous (ranking ∷ rs) =
    let rest = steps_from ranking rs in
    if eqb_ℤ previous ranking
    then rest
    else record { previous = previous; current = ranking } ∷ rest

pub steps : List ℤ → List RankingChange
unfolding steps_from
steps [] = []
steps (ranking ∷ rs) = steps_from ranking rs

-- The stored rankings are above zero.
abbrev AllPositive : NotificationState → Type 0
AllPositive s = (key : Text) (r : ℤ) → lookup key s.last_rankings ≡ some r → is_positive r ≡ true

expected : Option ℤ → List ℤ → List RankingChange
expected none rs = steps rs
expected (some r) rs = steps_from r rs

AllPositive-plan :
    (s : NotificationState) (j : Text) (ranking : ℤ)
    → AllPositive s
    → AllPositive (plan_ranking_change s j ranking).0
unfolding plan_ranking_change
AllPositive-plan s j ranking h key r =
    ground (arith, lookup-insert j key ranking s.last_rankings, h key r)

lookup-plan :
    (s : NotificationState) (j key : Text) (ranking : ℤ)
    → lookup key (plan_ranking_change s j ranking).0.last_rankings
      ≡ (if text_eq j key && is_positive ranking then some ranking else lookup key s.last_rankings)
unfolding plan_ranking_change
lookup-plan s j key ranking = ground (arith, lookup-insert j key ranking s.last_rankings)

plan-change :
    (s : NotificationState) (j : Text) (ranking : ℤ)
    → (plan_ranking_change s j ranking).1
      ≡ (if is_positive ranking then ranking_change (lookup j s.last_rankings) ranking else none)
unfolding plan_ranking_change
plan-change s j ranking = ground arith

-- The change that the program reports is the step that `steps` takes.
expected-cons :
    (sent : Option ℤ) (ranking : ℤ) (rs : List ℤ)
    → ((r : ℤ) → sent ≡ some r → is_positive r ≡ true)
    → expected sent (ranking ∷ rs) ≡ elim (ranking_change sent ranking) [
      | none ↦ expected (some ranking) rs
      | some c ↦ c ∷ expected (some ranking) rs
    ]
unfolding expected steps ranking_change
expected-cons none ranking rs h = refl
expected-cons (some r) ranking rs h = ground (arith, h r refl)

changes_of-reported :
    (s : NotificationState) (os : List Observation) (key : Text)
    → AllPositive s
    → changes_of key (reported s os) ≡ expected (lookup key s.last_rankings) (rankings_of key os)
unfolding reported rankings_of changes_of
changes_of-reported s [] key h = unfold expected steps in ground arith
changes_of-reported s ((j, ranking) ∷ os) key h = ground (
  arith,
  changes_of-reported (plan_ranking_change s j ranking).0 os key (AllPositive-plan s j ranking h),
  lookup-plan s j key ranking,
  plan-change s j ranking,
  expected-cons (lookup key s.last_rankings) ranking (rankings_of key os) (h key),
  text_eq_iff j key,
)

-- For each node, whatever the other nodes do: the changes that are reported, in a run from a new
-- notifier, are the steps from one value to another one in the sequence of its rankings above
-- zero, so the first ranking reports nothing and each change starts where the one before ended.
pub reported-steps :
    (os : List Observation) (key : Text)
    → changes_of key (reported initial os) ≡ steps (rankings_of key os)
unfolding expected lookup
reported-steps os key = changes_of-reported initial os key (λ k r e. cc)
