-- ===== src/Data/Status/Lifetime.antt =====
-- How long a status message stands.
use chaindash.Base.{
  ltb, if◌then◌else◌, Bool-cases, All, Text, text_eq_refl, text_eq_iff, ℕ, ◌+◌, ◌≡◌, refl, ◌∙◌, ◌≢◌,
  inl, inr, Bool, true, false, Option, none, some, List, [], ◌∷◌, map, arith,
}
use chaindash.Data.Status.{
  StatusLevel, StatusMessage, UiStatusStore, info, warning, error, same_level, expires_at,
  unexpired, expire_if_needed, expire_message, set, is_repeat,
}

-- What the status bar shows at `now`, after the expiry that comes before drawing.
abbrev pub shown : UiStatusStore → ℕ → Option StatusMessage
shown s now = (expire_if_needed s now).status_message

-- The times at which the same message is set again.
unfoldable pub set_again : UiStatusStore → StatusLevel → Text → List ℕ → UiStatusStore
set_again s level text [] = s
set_again s level text (now ∷ rest) = set_again (set s level text now).0 level text rest

is_repeat_self :
    (level : StatusLevel) (text : Text) (expiry : Option ℕ) (now : ℕ)
    → unexpired expiry now ≡ true
    → is_repeat (some (record { level = level; text = text; expires_at = expiry })) level text now
      ≡ true
unfolding is_repeat
is_repeat_self level text expiry now h = ground (arith, text_eq_refl text)

set_again_self :
    (level : StatusLevel) (text : Text) (expiry : Option ℕ) (times : List ℕ)
    → All (λ now. unexpired expiry now ≡ true) times
    → let s : UiStatusStore = record {
      status_message = some (record { level = level; text = text; expires_at = expiry });
    } in
      set_again s level text times ≡ s
unfolding set_again set
set_again_self level text expiry [] h = refl
set_again_self level text expiry (now ∷ rest) h =
    rw (is_repeat_self level text expiry now h.0) (set_again_self level text expiry rest h.1)

set-fresh :
    (s : UiStatusStore) (level : StatusLevel) (text : Text) (now : ℕ)
    → (set s level text now).1 ≡ true
    → (set s level text now).0 ≡ record {
      status_message =
          some (record { level = level; text = text; expires_at = expires_at level now });
    }
unfolding set
set-fresh s level text now h = ground arith

-- How long a message stands, in nanoseconds: 5 seconds, 15 seconds, or for ever.
abbrev pub stands : StatusLevel → ℕ → Bool
stands info elapsed = ltb elapsed 5_000_000_000
stands warning elapsed = ltb elapsed 15_000_000_000
stands error elapsed = true

-- What a reader of the status bar sees.
abbrev pub read : Option StatusMessage → Option (StatusLevel × Text)
read none = none
read (some message) = some (message.level, message.text)

stands-unexpired :
    (level : StatusLevel) (now elapsed : ℕ)
    → unexpired (expires_at level now) (now + elapsed) ≡ stands level elapsed
stands-unexpired info now elapsed = ground arith
stands-unexpired warning now elapsed = ground arith
stands-unexpired error now elapsed = refl

same_level_eq : (a b : StatusLevel) → same_level a b ≡ true → a ≡ b
same_level_eq info info h = refl
same_level_eq warning warning h = refl
same_level_eq error error h = refl
same_level_eq a b h = cc

read-if :
    (b : Bool) (m : StatusMessage)
    → read (if b then some m else none) ≡ (if b then some (m.level, m.text) else none)
read-if true m = refl
read-if false m = refl

-- A message that is not shown is set anew.
is_repeat-unshown :
    (o : Option StatusMessage) (level : StatusLevel) (text : Text) (now : ℕ)
    → read (expire_message o now) ≢ some (level, text)
    → is_repeat o level text now ≡ false
unfolding is_repeat expire_message
is_repeat-unshown none level text now h = refl
is_repeat-unshown (some m) level text now h =
    ground (arith, h, same_level_eq m.level level, text_eq_iff m.text text)

read-repeat :
    (o : Option StatusMessage) (level : StatusLevel) (text : Text) (now : ℕ)
    → is_repeat o level text now ≡ true
    → read o ≡ some (level, text)
unfolding is_repeat
read-repeat none level text now h = cc
read-repeat (some m) level text now h =
    ground (arith, h, same_level_eq m.level level, text_eq_iff m.text text)

-- The message that is set is the one that stands, whether it is new or not.
pub read-set :
    (s : UiStatusStore) (level : StatusLevel) (text : Text) (now : ℕ)
    → read (set s level text now).0.status_message ≡ some (level, text)
unfolding set
read-set s level text now = elim (Bool-cases (is_repeat s.status_message level text now)) [
  | inl again ↦ rw again (read-repeat s.status_message level text now again)
  | inr fresh ↦ rw fresh refl
]

fresh-set :
    (s : UiStatusStore) (level : StatusLevel) (text : Text) (now : ℕ)
    → is_repeat s.status_message level text now ≡ false
    → (set s level text now).1 ≡ true
unfolding set
fresh-set s level text now h = rw h refl

delays-All :
    (level : StatusLevel) (now : ℕ) (delays : List ℕ)
    → All (λ d. stands level d ≡ true) delays
    → All (λ later. unexpired (expires_at level now) later ≡ true) (map (λ d. now + d) delays)
delays-All level now [] h = tt
delays-All level now (d ∷ delays) h =
    (stands-unexpired level now d ∙ h.0, delays-All level now delays h.1)

-- Setting the message that stands again, as often as you like before it expires, does not prolong
-- it: the store stays as the first call left it.
pub set_again-set :
    (s : UiStatusStore) (level : StatusLevel) (text : Text) (now : ℕ) (times : List ℕ)
    → (set s level text now).1 ≡ true
    → All (λ later. unexpired (expires_at level now) later ≡ true) times
    → set_again (set s level text now).0 level text times ≡ (set s level text now).0
set_again-set s level text now times fresh h =
    rw (set-fresh s level text now fresh) (set_again_self level text (expires_at level now) times h)

-- A message that is set while it is not shown, and then set again as often as you like while it
-- stands: it is shown exactly as long as its level says, counted from the first time: 5 seconds, 15
-- seconds, or for ever; after that nothing is shown.
pub shown-set_again :
    (s : UiStatusStore) (level : StatusLevel) (text : Text) (now elapsed : ℕ) (delays : List ℕ)
    → read (shown s now) ≢ some (level, text)
    → All (λ d. stands level d ≡ true) delays
    → read (
        shown
          (set_again (set s level text now).0 level text (map (λ d. now + d) delays))
          (now + elapsed))
      ≡ (if stands level elapsed then some (level, text) else none)
unfolding expire_if_needed expire_message
shown-set_again s level text now elapsed delays unshown again =
    let fresh =
      fresh-set s level text now (is_repeat-unshown s.status_message level text now unshown) in
    rw
      (
        set_again-set s level text now (map (λ d. now + d) delays) fresh
            (delays-All level now delays again),
        set-fresh s level text now fresh,
        stands-unexpired level now elapsed,
      )
      (read-if (stands level elapsed) _)
