-- ===== src/Notify/Template.antt =====
-- The templates of src/notify.rs: how an option's text becomes a template (`normalize_template`),
-- how a template is filled in (`render_template`), and the texts that go into it.
pub mod Escapes
pub mod Braces
use chaindash.Base.{
  ◌==◌, if◌then◌else◌, length, any, Text, codes, text_eq, is_empty, trim, starts_with, values, ℕ,
  zero, suc, ◌-◌, ◌||◌, Option, none, some, List, [], ◌∷◌, ◌++◌, reverse,
}

-- `trimmed_option`
unfoldable pub trimmed_option : Option Text → Option Text
unfolding trim is_empty
trimmed_option none = none
trimmed_option (some value) = if is_empty (trim value) then none else some (trim value)

-- The loop of `trimmed_values` from the values that were kept so far.
unfoldable pub trimmed_onto : List Text → List Text → List Text
trimmed_onto kept [] = kept
trimmed_onto kept (value ∷ rest) =
    trimmed_onto
      (if is_empty (trim value) || any (λ existing. text_eq existing (trim value)) kept
        then kept
        else kept ++ trim value ∷ [])
      rest

unfoldable pub trimmed_values : List Text → List Text
unfolding trimmed_onto trim is_empty any text_eq
trimmed_values values = trimmed_onto [] values

-- What stands for a backslash followed by `c`.
abbrev pub unescape : ℕ → Text
unescape c =
    if c == b'n'
    then 10 ∷ []
    else if c == b'r'
    then 13 ∷ []
    else if c == b't'
    then 9 ∷ []
    else if c == 92
    then 92 ∷ []
    else 92 ∷ c ∷ []

-- 92 is the backslash.
unfoldable pub normalize_template : Text → Text
normalize_template [] = []
normalize_template (c ∷ []) = c ∷ []
normalize_template (c ∷ d ∷ s) =
    let escaped = unescape d ++ normalize_template s in
    let plain = c ∷ normalize_template (d ∷ s) in if c == 92 then escaped else plain

-- `str::replace` for a pattern that is not empty; `skip` characters of a match are left to pass.
unfoldable pub replace_from : Text → Text → ℕ → Text → Text
replace_from pattern value skip [] = []
replace_from pattern value (suc skip) (c ∷ s) = replace_from pattern value skip s
replace_from pattern value zero (c ∷ s) =
    let found = value ++ replace_from pattern value (length pattern - 1) s in
    let plain = c ∷ replace_from pattern value zero s in
    if starts_with pattern (c ∷ s) then found else plain

unfoldable pub replace : Text → Text → Text → Text
unfolding starts_with replace_from
replace pattern value s = replace_from pattern value 0 s

-- `format!("{{{key}}}")`
abbrev pub placeholder : Text → Text
placeholder key = b'{' ∷ (key ++ b'}' ∷ [])

unfoldable pub render_template : Text → List (Text × Text) → Text
render_template template [] = template
render_template template ((key, value) ∷ rest) =
    render_template (replace (placeholder key) value template) rest

-- `display_node_name`
unfoldable pub display_node_name : Text → Text
unfolding trim is_empty
display_node_name node_name = if is_empty (trim node_name) then codes "未命名节点" else node_name

-- The tail of `format_reward_value`: the zeros at the end, and then a dot.
unfoldable pub drop_zeros : Text → Text
drop_zeros [] = []
drop_zeros (c ∷ s) = let shorter = drop_zeros s in if c == b'0' then shorter else c ∷ s

abbrev pub drop_dot : Text → Text
drop_dot [] = []
drop_dot (c ∷ s) = if c == b'.' then s else c ∷ s

-- `format_reward_value` behind the float's four decimals, `format!("{value:.4}")`.
unfoldable pub strip_decimals : Text → Text
unfolding any drop_zeros
strip_decimals rendered =
    if any (λ c. c == b'.') rendered
    then reverse (drop_dot (drop_zeros (reverse rendered)))
    else rendered
