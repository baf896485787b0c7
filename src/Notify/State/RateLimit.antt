-- ===== src/Notify/State/RateLimit.antt =====
-- How far apart the deliveries of one key are.
use chaindash.Base.{
  leb, if◌then◌else◌, not, Bool-cases, Text, text_eq, text_eq_iff, lookup, lookup-insert, ℕ, ◌+◌,
  ◌≤◌, ◌<◌, ◌≡◌, refl, inl, inr, ◌&&◌, Option, none, some, List, [], ◌∷◌, arith,
}
use chaindash.Notify.State.{initial, NotificationState, too_soon, allow_delivery}

-- An attempt to deliver: its key and its time.
abbrev pub Attempt : Type 0
Attempt = Text × ℕ

-- The attempts that are let through, in their order.
pub accepted : ℕ → NotificationState → List Attempt → List Attempt
accepted rate_limit s [] = []
accepted rate_limit s ((key, now) ∷ rest) =
    let (s', allowed) = allow_delivery s key now rate_limit in
    let later = accepted rate_limit s' rest in if allowed then (key, now) ∷ later else later

pub times_of : Text → List Attempt → List ℕ
times_of key [] = []
times_of key ((j, now) ∷ rest) =
    let later = times_of key rest in if text_eq j key then now ∷ later else later

-- The first attempt, and then each one that comes at least `rate_limit` after the one before it
-- that was taken.
pub thin_from : ℕ → ℕ → List ℕ → List ℕ
thin_from rate_limit last [] = []
thin_from rate_limit last (now ∷ rest) =
    let kept = now ∷ thin_from rate_limit now rest in
    let skipped = thin_from rate_limit last rest in
    if leb (last + rate_limit) now then kept else skipped

pub thin : ℕ → List ℕ → List ℕ
unfolding thin_from
thin rate_limit [] = []
thin rate_limit (now ∷ rest) = now ∷ thin_from rate_limit now rest

expected : ℕ → Option ℕ → List ℕ → List ℕ
expected rate_limit none times = thin rate_limit times
expected rate_limit (some last) times = thin_from rate_limit last times

allow_delivery-allowed :
    (s : NotificationState) (key : Text) (now rate_limit : ℕ)
    → 0 < rate_limit
    → (allow_delivery s key now rate_limit).1
      ≡ not (too_soon (lookup key s.last_sent_at) now rate_limit)
unfolding allow_delivery
allow_delivery-allowed s key now rate_limit h = ground arith

lookup-allow_delivery :
    (s : NotificationState) (j key : Text) (now rate_limit : ℕ)
    → 0 < rate_limit
    → lookup key (allow_delivery s j now rate_limit).0.last_sent_at ≡ (
        if (allow_delivery s j now rate_limit).1 && text_eq j key
        then some now
        else lookup key s.last_sent_at)
unfolding allow_delivery
lookup-allow_delivery s j key now rate_limit h =
    ground (arith, lookup-insert j key now s.last_sent_at)

-- The choice that the program makes is the one that `thin` makes.
expected-cons :
    (rate_limit now : ℕ) (sent : Option ℕ) (times : List ℕ)
    → 0 < rate_limit
    → expected rate_limit sent (now ∷ times) ≡ (
        if too_soon sent now rate_limit
        then expected rate_limit sent times
        else now ∷ thin_from rate_limit now times)
unfolding expected thin
expected-cons rate_limit now none times h = refl
expected-cons rate_limit now (some last) times h = ground arith

times_of-accepted :
    (rate_limit : ℕ) (s : NotificationState) (attempts : List Attempt) (key : Text)
    → 0 < rate_limit
    → times_of key (accepted rate_limit s attempts)
      ≡ expected rate_limit (lookup key s.last_sent_at) (times_of key attempts)
unfolding accepted times_of expected thin
times_of-accepted rate_limit s [] key h = ground arith
times_of-accepted rate_limit s ((j, now) ∷ rest) key h = ground (
  arith,
  times_of-accepted rate_limit (allow_delivery s j now rate_limit).0 rest key h,
  allow_delivery-allowed s j now rate_limit,
  lookup-allow_delivery s j key now rate_limit,
  expected-cons rate_limit now (lookup key s.last_sent_at) (times_of key rest),
  text_eq_iff j key,
)

-- With a rate limit above zero, for each key and whatever other keys do: in a run from a new
-- notifier the attempts that are let through are the first one, and then each that comes at
-- least `rate_limit` after the one let through before it.
pub accepted-thin :
    (rate_limit : ℕ) (attempts : List Attempt) (key : Text)
    → 0 < rate_limit
    → times_of key (accepted rate_limit initial attempts) ≡ thin rate_limit (times_of key attempts)
unfolding expected lookup
accepted-thin rate_limit attempts key h = times_of-accepted rate_limit initial attempts key h

-- Each time is at least `gap` after the one before it.
abbrev pub SpacedFrom : ℕ → ℕ → List ℕ → Type 0
SpacedFrom gap last [] = Unit
SpacedFrom gap last (now ∷ rest) = (last + gap ≤ now) × SpacedFrom gap now rest

abbrev pub Spaced : ℕ → List ℕ → Type 0
Spaced gap [] = Unit
Spaced gap (now ∷ rest) = SpacedFrom gap now rest

thin_from-SpacedFrom :
    (gap last : ℕ) (times : List ℕ) → SpacedFrom gap last (thin_from gap last times)
unfolding thin_from
thin_from-SpacedFrom gap last [] = tt
thin_from-SpacedFrom gap last (now ∷ rest) = elim (Bool-cases (leb (last + gap) now)) [
  | inl late ↦ rw late (ground arith, thin_from-SpacedFrom gap now rest)
  | inr soon ↦ rw soon (thin_from-SpacedFrom gap last rest)
]

thin-Spaced : (gap : ℕ) (times : List ℕ) → Spaced gap (thin gap times)
unfolding thin
thin-Spaced gap [] = tt
thin-Spaced gap (now ∷ rest) = thin_from-SpacedFrom gap now rest

-- With a rate limit above zero, two deliveries of one key that follow one another are at least
-- the rate limit apart, whatever the clock does.
pub accepted-Spaced :
    (rate_limit : ℕ) (attempts : List Attempt) (key : Text)
    → 0 < rate_limit
    → Spaced rate_limit (times_of key (accepted rate_limit initial attempts))
accepted-Spaced rate_limit attempts key h =
    rw (accepted-thin rate_limit attempts key h) (thin-Spaced rate_limit (times_of key attempts))
