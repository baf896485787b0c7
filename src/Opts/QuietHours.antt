-- ===== src/Opts/QuietHours.antt =====
-- `TelegramQuietHours`, `parse_telegram_time_of_day` and `parse_telegram_quiet_hours` of
-- src/opts.rs. Times are minutes since midnight; an error keeps the text that it reports.
pub mod Window
pub mod Format
use chaindash.Base.{
  ltb, leb, ◌==◌, if◌then◌else◌, Text, trim, ℕ, ◌+◌, ◌*◌, ◌≡◌, refl, Bool, ◌&&◌, ◌||◌, Option, none,
  some, [], ◌∷◌,
}
use chaindash.Opts.Number.{parse_u16}

pub record QuietHours : Type 0 where
  pub start_minutes : ℕ
  pub end_minutes : ℕ

unfoldable pub contains_minutes_since_midnight : QuietHours → ℕ → Bool
contains_minutes_since_midnight q m =
    if ltb q.start_minutes q.end_minutes
    then leb q.start_minutes m && ltb m q.end_minutes
    else leb q.start_minutes m || ltb m q.end_minutes

-- `str::split_once` at one character.
unfoldable pub split_once : ℕ → Text → Option (Text × Text)
split_once sep [] = none
split_once sep (c ∷ s) =
    let rest : Option (Text × Text) = elim (split_once sep s) [
      | none ↦ none
      | some (a, b) ↦ some (c ∷ a, b)
    ] in
    if c == sep then some ([], s) else rest

pub data QuietHoursError : Type 0 where
  no_colon : Text → QuietHoursError
  bad_number : QuietHoursError
  out_of_range : Text → QuietHoursError
  no_dash : Text → QuietHoursError
  same_times : QuietHoursError

pub data Parsed {ℓ} (A : Type ℓ) : Type ℓ where
  ok : A → Parsed A
  err : QuietHoursError → Parsed A

infixl 5 ◌>>=◌
abbrev pub ◌>>=◌ {ℓ κ} : {A : Type ℓ} {B : Type κ} → Parsed A → (A → Parsed B) → Parsed B
ok a >>= f = f a
err e >>= f = err e

-- Where the chain succeeds its first part did, and the rest succeeds on what that gave.
pub ok-first {ℓ κ} :
    {X : Type ℓ} {Y : Type κ} {rest : X → Parsed Y} {y : Y} (first : Parsed X)
    → (first >>= rest) ≡ ok y
    → (x : X) × (first ≡ ok x) × (rest x ≡ ok y)
ok-first (err reason) whole = cc
ok-first (ok x) whole = (x, refl, whole)

-- The operator `?` behind `split_once` with `let … else`, and behind `parse`.
abbrev pub or_error {ℓ} : {A : Type ℓ} → Option A → QuietHoursError → Parsed A
or_error none e = err e
or_error (some a) e = ok a

abbrev number : Text → Parsed ℕ
number s = or_error (parse_u16 s) bad_number

unfoldable pub parse_time_of_day : Text → Parsed ℕ
parse_time_of_day value = do
  parts ← or_error (split_once b':' (trim value)) (no_colon value)
  hour ← number (parts.0)
  minute ← number (parts.1)
  if leb 24 hour || leb 60 minute then err (out_of_range value) else ok (hour * 60 + minute)

unfoldable pub parse_quiet_hours : Text → Parsed QuietHours
parse_quiet_hours value = do
  parts ← or_error (split_once b'-' (trim value)) (no_dash value)
  start ← parse_time_of_day (parts.0)
  end ← parse_time_of_day (parts.1)
  if start == end then err same_times else ok (record { start_minutes = start; end_minutes = end })
