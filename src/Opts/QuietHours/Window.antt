-- ===== src/Opts/QuietHours/Window.antt =====
-- What an accepted pair of quiet hours means.
use chaindash.Base.{ltb, ◌==◌, if◌then◌else◌, Text, trim, ℕ, ◌+◌, ◌-◌, ◌%◌, ◌<◌, ◌≡◌, ◌≢◌, arith}
use chaindash.Opts.QuietHours.{
  QuietHours, same_times, no_dash, ok-first, ok, err, or_error, contains_minutes_since_midnight,
  parse_time_of_day, parse_quiet_hours, split_once,
}

abbrev pub minutes_per_day : ℕ
minutes_per_day = 1440

pub record IsWindow (q : QuietHours) : Type 0 where
  pub start_in_day : q.start_minutes < minutes_per_day
  pub end_in_day : q.end_minutes < minutes_per_day
  pub differ : q.start_minutes ≢ q.end_minutes

-- How many minutes later than `a` the clock next shows `b`.
abbrev pub minutes_after : ℕ → ℕ → ℕ
minutes_after a b = (b + minutes_per_day - a) % minutes_per_day

-- For quiet hours within a day whose ends differ, a minute of the day is quiet exactly when
-- it comes sooner after the start than the end does, over midnight too.
pub contains-minutes_after :
    (q : QuietHours) (m : ℕ)
    → IsWindow q
    → m < minutes_per_day
    → contains_minutes_since_midnight q m
      ≡ ltb (minutes_after q.start_minutes m) (minutes_after q.start_minutes q.end_minutes)
unfolding contains_minutes_since_midnight
contains-minutes_after q m w h = ground arith

time_of_day-bound : (value : Text) {n : ℕ} → parse_time_of_day value ≡ ok n → n < minutes_per_day
unfolding parse_time_of_day
time_of_day-bound value h = ground arith

finish_IsWindow :
    (a b : ℕ) {q : QuietHours}
    → a < minutes_per_day
    → b < minutes_per_day
    → (if a == b then err same_times else ok (record { start_minutes = a; end_minutes = b })) ≡ ok q
    → IsWindow q
finish_IsWindow a b h k e = ground arith

-- Quiet hours that are parsed lie within a day, and their ends differ.
pub parse_quiet_hours-IsWindow :
    (value : Text) {q : QuietHours} → parse_quiet_hours value ≡ ok q → IsWindow q
unfolding parse_quiet_hours
parse_quiet_hours-IsWindow value h =
    let (parts, split, h₁) = ok-first (or_error (split_once b'-' (trim value)) (no_dash value)) h in
    let (a, start, h₂) = ok-first (parse_time_of_day (parts.0)) h₁ in
    let (b, end, h₃) = ok-first (parse_time_of_day (parts.1)) h₂ in
    finish_IsWindow a b (time_of_day-bound (parts.0) start) (time_of_day-bound (parts.1) end) h₃
