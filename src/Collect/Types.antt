-- ===== src/Collect/Types.antt =====
-- The answers of the explorer, of src/collect/types.rs: fields that are null, numbers or strings are
-- read leniently. `F` stands for `f64`.
use mathlib.Core.Option
use chaindash.Opts.Number.{decimal, parse_digits}
use chaindash.Notify.Delivery.{decimal_ℤ}
use chaindash.Base.{
  leb, ◌==◌, if◌then◌else◌, Text, codes, ℤ, ℕ, zero, suc, ◌-◌, ◌^◌, Bool, true, false, Option, none,
  some, [], ◌∷◌, pos, negsuc,
}

-- What the program uses of `f64` in these files.
pub record FloatText (F : Type 0) : Type 0 where
  pub parse_f64 : Text → Option F
  pub to_string : F → Text
  -- `value as i64`
  pub as_i64 : F → ℤ
  -- `format!("{:.2}%", a as f64 / b as f64 * 100.0)`
  pub percentage : ℕ → ℕ → Text
  pub zero_f64 : F

pub data StringLike (F : Type 0) : Type 0 where
  string : Text → StringLike F
  integer : ℤ → StringLike F
  unsigned : ℕ → StringLike F
  float : F → StringLike F
  bool : Bool → StringLike F

pub data I64Like (F : Type 0) : Type 0 where
  integer_value : ℤ → I64Like F
  unsigned_value : ℕ → I64Like F
  float_value : F → I64Like F
  string_value : Text → I64Like F

abbrev pub i64_max : ℕ
i64_max = 2 ^ 63 - 1

abbrev pub negated : ℕ → ℤ
negated zero = pos 0
negated (suc n) = negsuc n

-- `str::parse::<i64>`: a sign may stand in front, and a digit must follow.
abbrev signed_digits : Bool → Text → Option ℤ
signed_digits minus [] = none
signed_digits true (c ∷ s) = Option.map negated (parse_digits (2 ^ 63) 0 (c ∷ s))
signed_digits false (c ∷ s) = Option.map (λ n. pos n) (parse_digits i64_max 0 (c ∷ s))

unfoldable pub parse_i64 : Text → Option ℤ
unfolding parse_digits
parse_i64 [] = none
parse_i64 (c ∷ s) =
    if c == b'-'
    then signed_digits true s
    else if c == b'+'
    then signed_digits false s
    else signed_digits false (c ∷ s)

abbrev or_zero : Option ℤ → ℤ
or_zero none = pos 0
or_zero (some z) = z

module _ {F : Type 0} (floats : FloatText F) where
  unfoldable pub deserialize_string_or_default : Option (StringLike F) → Text
  unfolding decimal decimal_ℤ
  deserialize_string_or_default none = []
  deserialize_string_or_default (some (string value)) = value
  deserialize_string_or_default (some (integer value)) = decimal_ℤ value
  deserialize_string_or_default (some (unsigned value)) = decimal value
  deserialize_string_or_default (some (float value)) = floats.to_string value
  deserialize_string_or_default (some (bool true)) = codes "true"
  deserialize_string_or_default (some (bool false)) = codes "false"

  unfoldable pub deserialize_i64_or_default : Option (I64Like F) → ℤ
  unfolding parse_i64
  deserialize_i64_or_default none = pos 0
  deserialize_i64_or_default (some (integer_value value)) = value
  deserialize_i64_or_default (some (unsigned_value value)) =
      if leb value i64_max then pos value else pos i64_max
  deserialize_i64_or_default (some (float_value value)) = floats.as_i64 value
  deserialize_i64_or_default (some (string_value value)) = or_zero (parse_i64 value)

-- The fields that the program reads.
pub record ExplorerDetail : Type 0 where
  pub node_name : Text
  pub block_qty : ℤ
  pub expect_block_qty : ℤ
  pub gen_blocks_rate : Text
  pub reward_per : Text
  pub reward_value : Text
  pub benefit_addr : Text
  pub verifier_time : ℤ

pub record NodeInfo : Type 0 where
  pub node_id : Text
  pub ranking : ℤ

-- `NodeDetailResponse` and `NodeListResponse`, which differ in their data.
pub record ExplorerResponse (A : Type 0) : Type 0 where
  pub err_msg : Text
  pub code : ℤ
  pub content : Option A
