-- ===== src/Opts/Number.antt =====
-- `str::parse` into an unsigned integer, and `to_string` of one, as src/opts.rs and src/notify.rs
-- call them; `parse_positive_u64` of src/opts.rs.
pub mod RoundTrip
use chaindash.Base.{
  ltb, leb, ◌==◌, if◌then◌else◌, Text, ℕ, zero, suc, ◌+◌, ◌-◌, ◌*◌, ◌/◌, ◌%◌, ◌^◌, Bool, ◌&&◌,
  Option, none, some, [], ◌∷◌,
}

pub data NumberError : Type 0 where
  malformed zero_value : NumberError

pub data Parsed {ℓ} (A : Type ℓ) : Type ℓ where
  ok : A → Parsed A
  err : NumberError → Parsed A

unfoldable pub is_digit : ℕ → Bool
is_digit c = leb b'0' c && leb c b'9'

-- The digit loop: a character that is no digit, or a value above `max_value`, ends it.
unfoldable pub parse_digits : ℕ → ℕ → Text → Option ℕ
unfolding is_digit
parse_digits max_value n [] = some n
parse_digits max_value n (c ∷ s) =
    let n' = n * 10 + (c - b'0') in
    let rest = parse_digits max_value n' s in if is_digit c && leb n' max_value then rest else none

-- One `+` may stand in front; the text must hold a digit.
unfoldable pub parse_unsigned : ℕ → Text → Option ℕ
unfolding parse_digits
parse_unsigned max_value [] = none
parse_unsigned max_value (c ∷ []) = parse_digits max_value 0 (c ∷ [])
parse_unsigned max_value (c ∷ d ∷ s) =
    if c == b'+' then parse_digits max_value 0 (d ∷ s) else parse_digits max_value 0 (c ∷ d ∷ s)

unfoldable pub parse_u16 : Text → Option ℕ
parse_u16 s = parse_unsigned 65535 s

unfoldable pub parse_positive_u64 : Text → Parsed ℕ
parse_positive_u64 s = elim (parse_unsigned (2 ^ 64 - 1) s) [
  | none ↦ err malformed
  | some n ↦ if n == 0 then err zero_value else ok n
]

-- The decimal digits of `n` in front of `s`; the fuel is above `n`.
unfoldable pub decimal_from : ℕ → ℕ → Text → Text
decimal_from zero n s = s
decimal_from (suc fuel) n s =
    let longer = decimal_from fuel (n / 10) ((b'0' + n % 10) ∷ s) in
    if ltb n 10 then (b'0' + n) ∷ s else longer

-- `n.to_string()`
unfoldable pub decimal : ℕ → Text
unfolding decimal_from
decimal n = decimal_from (suc n) n []
