-- ===== src/Widgets/Helpers.antt =====
-- src/widgets/helpers.rs.
pub mod Digits
pub mod Cuts
pub mod Priority
use chaindash.Base.{
  ltb, leb, ◌==◌, if◌then◌else◌, length, drop, take, Text, ℕ, ◌+◌, ◌-◌, ◌%◌, ◌&&◌, [], ◌∷◌, reverse,
}
use chaindash.Opts.Number.{decimal}

-- The loop of `format_grouped_u64` over the digits from the last to the first.
unfoldable pub group_digits : ℕ → Text → Text
group_digits index [] = []
group_digits index (ch ∷ digits) =
    let rest = group_digits (index + 1) digits in
    if ltb 0 index && index % 3 == 0 then b',' ∷ ch ∷ rest else ch ∷ rest

unfoldable pub format_grouped_u64 : ℕ → Text
unfolding decimal group_digits
format_grouped_u64 value = reverse (group_digits 0 (reverse (decimal value)))

-- `value.char_indices().nth(max_chars)` finds the end of the prefix, if the text is that long.
unfoldable pub prefix_chars : Text → ℕ → Text
prefix_chars value max_chars =
    if max_chars == 0
    then []
    else if ltb max_chars (length value)
    then take max_chars value
    else value

unfoldable pub suffix_chars : Text → ℕ → Text
suffix_chars value max_chars =
    if max_chars == 0
    then []
    else if leb (length value) max_chars
    then value
    else drop (length value - max_chars) value
