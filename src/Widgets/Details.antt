-- ===== src/Widgets/Details.antt =====
-- The panel of src/widgets/node_detail.rs: its texts. `F` stands for `f64`. Instants are in
-- nanoseconds; `now` is the clock's reading, the same throughout one drawing.
pub mod Addresses
pub mod Specs
pub mod Drawing
pub mod Named
use chaindash.Base.{
  ltb, leb, ◌==◌, if◌then◌else◌, length, Text, codes, is_empty, ℤ, ℕ, zero, suc, ◌+◌, ◌-◌, ◌*◌, ◌/◌,
  ◌||◌, Option, none, some, List, ◌∷◌, ◌++◌, pos, negsuc,
}
use chaindash.Data.Chain.{u64_max}
use chaindash.Collect.Endpoints.{split_once}
use chaindash.Data.NodeDetails.{NodeDetail}
use chaindash.Opts.Number.{parse_unsigned, decimal}
use chaindash.Widgets.Helpers.{format_grouped_u64, prefix_chars, suffix_chars}
use chaindash.Widgets.Nodes.{clamp, from_width}
use chaindash.Widgets.Lines.{
  Color, accent_warn, accent_error, metric_positive, metric_primary, Style, content_style,
  muted_style, accent_style, bold, Line, Span, styled, raw,
}
use chaindash.Widgets.Lines.More.{item_lines}

-- What the panel uses of `f64`.
pub record Amounts (F : Type 0) : Type 0 where
  -- `format!("{value:.2}")`
  pub two_decimals : F → Text
  -- `reward_value * (1.0 - reward_per / 100.0)`
  pub without_share : F → F → F

abbrev pub fresh_detail_max_age_secs : ℕ
fresh_detail_max_age_secs = 30

abbrev pub warn_detail_max_age_secs : ℕ
warn_detail_max_age_secs = 5 * 60

unfoldable pub format_ranking : ℤ → Text
unfolding format_grouped_u64
format_ranking (pos zero) = codes "-"
format_ranking (pos (suc n)) = format_grouped_u64 (suc n)
format_ranking (negsuc n) = codes "-"

unfoldable pub format_elapsed : ℕ → Text
unfolding decimal
format_elapsed elapsed =
    let seconds = elapsed / 1_000_000_000 in
    if ltb seconds 60
    then decimal seconds ++ codes "s"
    else if ltb seconds (60 * 60)
    then decimal (seconds / 60) ++ codes "m"
    else if ltb seconds (60 * 60 * 24)
    then decimal (seconds / (60 * 60)) ++ codes "h"
    else decimal (seconds / (60 * 60 * 24)) ++ codes "d"

unfoldable pub format_updated_at : ℕ → Option ℕ → Text
unfolding format_elapsed
format_updated_at now none = codes "-"
format_updated_at now (some updated_at) = format_elapsed (now - updated_at)

-- Whole seconds since the update.
abbrev pub age_secs : ℕ → ℕ → ℕ
age_secs now updated_at = (now - updated_at) / 1_000_000_000

-- `detail_status`, by `last_updated_at`.
unfoldable pub detail_status : ℕ → Option ℕ → Text
detail_status now none = codes "UNKNOWN"
detail_status now (some updated_at) =
    if leb (age_secs now updated_at) fresh_detail_max_age_secs then codes "OK" else codes "STALE"

abbrev pub metric_value_style : Style
metric_value_style = accent_style metric_primary

abbrev pub reward_value_style : Style
reward_value_style = accent_style metric_positive

-- The style by age, given the one for a fresh detail.
abbrev pub age_style : Style → ℕ → Option ℕ → Style
age_style fresh now none = muted_style
age_style fresh now (some updated_at) =
    if leb (age_secs now updated_at) fresh_detail_max_age_secs
    then fresh
    else if leb (age_secs now updated_at) warn_detail_max_age_secs
    then accent_style accent_warn
    else accent_style accent_error

unfoldable pub status_value_style : ℕ → Option ℕ → Style
status_value_style now last_updated_at =
    age_style (accent_style metric_positive) now last_updated_at

unfoldable pub updated_value_style : ℕ → Option ℕ → Style
updated_value_style now updated_at = age_style metric_value_style now updated_at

unfoldable pub shorten_address : Text → Text
unfolding prefix_chars suffix_chars
shorten_address address =
    if leb (length address) 24
    then address
    else prefix_chars address 10 ++ (codes "…" ++ suffix_chars address 8)

unfoldable pub shorten_address_for_width : Text → ℕ → Text
unfolding shorten_address prefix_chars suffix_chars
shorten_address_for_width address max_len =
    let suffix_len = clamp ((max_len - 1) / 3) 6 8 in
    if max_len == 0 || leb (length address) max_len
    then address
    else if leb max_len (8 + 6 + 1)
    then shorten_address address
    else prefix_chars address (max_len - (suffix_len + 1))
      ++ (codes "…" ++ suffix_chars address suffix_len)

abbrev pub grouped_integer : Text → Text
grouped_integer integer = elim (parse_unsigned u64_max integer) [
  | none ↦ integer
  | some value ↦ format_grouped_u64 value
]

module _ {F : Type 0} where
  unfoldable pub rewards : Amounts F → NodeDetail F → F
  rewards ops detail = ops.without_share detail.reward_value detail.reward_per

  unfoldable pub format_amount : Amounts F → F → Text
  unfolding split_once
  format_amount ops value =
      let rounded = ops.two_decimals value in
      elim (split_once b'.' rounded) [
        | none ↦ rounded
        | some (integer, fraction) ↦ grouped_integer integer ++ b'.' ∷ fraction
      ]

  unfoldable pub display_name : NodeDetail F → Text
  unfolding is_empty
  display_name detail =
      if is_empty detail.node_name
      then (if is_empty detail.node_id then codes "-" else detail.node_id)
      else detail.node_name

  unfoldable pub compact_list_line : ℕ → NodeDetail F → ℕ → Line
  unfolding display_name format_ranking detail_status format_updated_at
  compact_list_line now detail area_width =
      styled (display_name detail) (bold content_style)
      ∷ raw (codes " ")
      ∷ styled (codes "R" ++ format_ranking detail.ranking) metric_value_style
      ∷ (from_width 44 area_width
            (styled (codes "B" ++ format_grouped_u64 detail.block_qty) metric_value_style)
          ++ (from_width 62 area_width (styled detail.block_rate reward_value_style)
              ++ (raw (codes " ")
                  ∷ styled (detail_status now detail.last_updated_at)
                      (status_value_style now detail.last_updated_at)
                  ∷ from_width 78 area_width (
                      styled (format_updated_at now detail.last_updated_at)
                        (updated_value_style now detail.last_updated_at)))))

  unfoldable pub compact_list_lines : ℕ → List (NodeDetail F) → ℕ → ℕ → List Line
  unfolding item_lines compact_list_line
  compact_list_lines now details area_width max_rows =
      item_lines (λ detail. compact_list_line now detail area_width) (codes " more node details")
        max_rows details
