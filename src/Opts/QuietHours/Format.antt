-- ===== src/Opts/QuietHours/Format.antt =====
-- The format HH:MM-HH:MM: what it prints is parsed back.
use chaindash.Base.{
  Text, is_whitespace, trim, trim-solid, ℕ, ◌+◌, ◌/◌, ◌%◌, ◌≤◌, ◌<◌, ◌≡◌, false, some, [], ◌∷◌,
  arith,
}
use chaindash.Opts.Number.{parse_u16, parse_unsigned}
use chaindash.Opts.QuietHours.Window.{IsWindow}
use chaindash.Opts.QuietHours.{parse_quiet_hours, QuietHours, ok, split_once, parse_time_of_day}

-- Two decimal digits.
two_digits : ℕ → Text → Text
two_digits n s = (48 + n / 10) ∷ (48 + n % 10) ∷ s

-- The time of day `minutes` in the format HH:MM, in front of `s`.
clock_face : ℕ → Text → Text
unfolding two_digits
clock_face minutes s = two_digits (minutes / 60) (b':' ∷ two_digits (minutes % 60) s)

pub format : QuietHours → Text
unfolding clock_face
format q = clock_face q.start_minutes (b'-' ∷ clock_face q.end_minutes [])

digit_not_space : (d : ℕ) → d < 10 → is_whitespace (48 + d) ≡ false
unfolding is_whitespace
digit_not_space d h = ground arith

parse_u16-two_digits : (n : ℕ) → n < 60 → parse_u16 (two_digits n []) ≡ some n
unfolding parse_u16 parse_unsigned two_digits
parse_u16-two_digits n h = ground arith

trim-clock_face : (n : ℕ) → n < 1440 → trim (clock_face n []) ≡ clock_face n []
unfolding clock_face
trim-clock_face n h =
    trim-solid (48 + n / 60 / 10) (48 + n % 60 % 10)
      ((48 + n / 60 % 10) ∷ b':' ∷ (48 + n % 60 / 10) ∷ [])
      (digit_not_space (n / 60 / 10) (omega arith)) (digit_not_space (n % 60 % 10) (omega arith))

-- The first separator of a clock face is its own.
split_once-two_digits :
    (sep n : ℕ) (s : Text)
    → n < 60
    → 58 ≤ sep
    → split_once sep (two_digits n (sep ∷ s)) ≡ some (two_digits n [], s)
unfolding split_once two_digits
split_once-two_digits sep n s h k = ground arith

split_once-clock_face :
    (n : ℕ) (s : Text)
    → n < 1440
    → split_once b'-' (clock_face n (b'-' ∷ s)) ≡ some (clock_face n [], s)
unfolding split_once clock_face
split_once-clock_face n s h = ground arith

parse_time_of_day-clock_face : (n : ℕ) → n < 1440 → parse_time_of_day (clock_face n []) ≡ ok n
unfolding parse_time_of_day
parse_time_of_day-clock_face n h = rw (trim-clock_face n h) (
    unfold clock_face in
    rw (split_once-two_digits b':' (n / 60) (two_digits (n % 60) []) (omega arith) (omega arith)) (
      rw (parse_u16-two_digits (n / 60) (omega arith))
        (rw (parse_u16-two_digits (n % 60) (omega arith)) (ground arith))))

trim-format : (q : QuietHours) → IsWindow q → trim (format q) ≡ format q
unfolding format
trim-format q w =
    let a = q.start_minutes in
    let b = q.end_minutes in
    trim-solid (48 + a / 60 / 10) (48 + b % 60 % 10)
      ((48 + a / 60 % 10)
        ∷ b':'
        ∷ (48 + a % 60 / 10)
        ∷ (48 + a % 60 % 10)
        ∷ b'-'
        ∷ (48 + b / 60 / 10)
        ∷ (48 + b / 60 % 10)
        ∷ b':'
        ∷ (48 + b % 60 / 10)
        ∷ [])
      (digit_not_space (a / 60 / 10) (omega (arith, w.start_in_day)))
      (digit_not_space (b % 60 % 10) (omega arith))

-- Quiet hours within a day whose ends differ are parsed back from the format HH:MM-HH:MM.
pub parse_quiet_hours-format : (q : QuietHours) → IsWindow q → parse_quiet_hours (format q) ≡ ok q
unfolding parse_quiet_hours
parse_quiet_hours-format q w = rw (trim-format q w) (
    unfold format in
    rw (split_once-clock_face q.start_minutes (clock_face q.end_minutes []) w.start_in_day) (
      rw (parse_time_of_day-clock_face q.start_minutes w.start_in_day)
        (rw (parse_time_of_day-clock_face q.end_minutes w.end_in_day) (ground (arith, w.differ)))))
