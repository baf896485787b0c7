-- ===== src/Notify/State/Connection.antt =====
-- Which connection events are reported.
use chaindash.Base.{
  if◌then◌else◌, not, Text, text_eq, text_eq_iff, lookup, lookup-insert, ◌≡◌, refl, Bool, true,
  false, List, [], ◌∷◌, arith,
}
use chaindash.Notify.State.{
  initial, NotificationState, was_unhealthy, mark_connection_failed, mark_connection_recovered,
}

-- An observation of a connection: its key, and whether it failed.
abbrev pub Observation : Type 0
Observation = Text × Bool

abbrev pub observe : NotificationState → Observation → NotificationState × Bool
observe s (key, true) = mark_connection_failed s key
observe s (key, false) = mark_connection_recovered s key

-- The observations that are reported, in their order.
pub reported : NotificationState → List Observation → List Observation
reported s [] = []
reported s (o ∷ os) =
    let (s', notify) = observe s o in let rest = reported s' os in if notify then o ∷ rest else rest

-- What a list of observations says of one connection.
pub about : Text → List Observation → List Bool
about key [] = []
about key ((j, failed) ∷ os) =
    let rest = about key os in if text_eq j key then failed ∷ rest else rest

-- The values at which a sequence that starts from `b` changes.
unfoldable pub flips : Bool → List Bool → List Bool
flips b [] = []
flips true (true ∷ bs) = flips true bs
flips true (false ∷ bs) = false ∷ flips false bs
flips false (true ∷ bs) = true ∷ flips true bs
flips false (false ∷ bs) = flips false bs

is_down : NotificationState → Text → Bool
is_down s key = was_unhealthy (lookup key s.connection_states)

is_down-observe :
    (s : NotificationState) (o : Observation) (key : Text)
    → is_down (observe s o).0 key ≡ (if text_eq (o.0) key then o.1 else is_down s key)
unfolding is_down mark_connection_failed mark_connection_recovered
is_down-observe s (j, true) key = rw lookup-insert (ground arith)
is_down-observe s (j, false) key = rw lookup-insert (ground arith)

observe-notify :
    (s : NotificationState) (key : Text) (failed : Bool)
    → (observe s (key, failed)).1 ≡ (if failed then not (is_down s key) else is_down s key)
unfolding is_down mark_connection_failed mark_connection_recovered
observe-notify s key true = refl
observe-notify s key false = refl

about-reported :
    (s : NotificationState) (os : List Observation) (key : Text)
    → about key (reported s os) ≡ flips (is_down s key) (about key os)
unfolding reported about flips
about-reported s [] key = refl
about-reported s ((j, true) ∷ os) key = ground (
  arith,
  about-reported (mark_connection_failed s j).0 os key,
  is_down-observe s (j, true) key,
  observe-notify s j true,
  text_eq_iff j key,
)
about-reported s ((j, false) ∷ os) key = ground (
  arith,
  about-reported (mark_connection_recovered s j).0 os key,
  is_down-observe s (j, false) key,
  observe-notify s j false,
  text_eq_iff j key,
)

-- For each connection, whatever happens to the others: what is reported of it, in a run from a
-- new notifier, is exactly its changes between failed and recovered, starting from working.
pub reported_changes :
    (os : List Observation) (key : Text)
    → about key (reported initial os) ≡ flips false (about key os)
unfolding is_down lookup
reported_changes os key = about-reported initial os key

-- The reports alternate, `b` being the state before them.
abbrev pub Alternates : Bool → List Bool → Type 0
Alternates b [] = Unit
Alternates b (failed ∷ bs) = (failed ≡ not b) × Alternates failed bs

pub flips-Alternates : (b : Bool) (bs : List Bool) → Alternates b (flips b bs)
unfolding flips
flips-Alternates b [] = tt
flips-Alternates true (true ∷ bs) = flips-Alternates true bs
flips-Alternates true (false ∷ bs) = (refl, flips-Alternates false bs)
flips-Alternates false (true ∷ bs) = (refl, flips-Alternates true bs)
flips-Alternates false (false ∷ bs) = flips-Alternates false bs

abbrev pub last_or : Bool → List Bool → Bool
last_or b [] = b
last_or b (x ∷ xs) = last_or x xs

pub last_or-flips : (b : Bool) (bs : List Bool) → last_or b (flips b bs) ≡ last_or b bs
unfolding flips
last_or-flips b [] = refl
last_or-flips true (true ∷ bs) = last_or-flips true bs
last_or-flips true (false ∷ bs) = last_or-flips false bs
last_or-flips false (true ∷ bs) = last_or-flips true bs
last_or-flips false (false ∷ bs) = last_or-flips false bs

-- In a run from a new notifier the reports of each connection alternate between failed and
-- recovered, the first one failed, and the last report is the last observation.
pub reported-Alternates :
    (os : List Observation) (key : Text)
    → Alternates false (about key (reported initial os))
      × (last_or false (about key (reported initial os)) ≡ last_or false (about key os))
reported-Alternates os key =
    rw (reported_changes os key)
      (flips-Alternates false (about key os), last_or-flips false (about key os))
