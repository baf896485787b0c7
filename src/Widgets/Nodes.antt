-- ===== src/Widgets/Nodes.antt =====
-- The panel of src/widgets/node.rs: its texts. The widget keeps the consensus states that it shows.
pub mod Hosts
pub mod Ports
pub mod Specs
pub mod Drawing
pub mod Named
pub mod Listed
mod Examples
use chaindash.Base.{
  ltb, leb, ◌==◌, if◌then◌else◌, not, length, all, Text, codes, is_empty, rsplit_once, ℕ, ◌+◌, ◌-◌,
  ◌/◌, max, Bool, ◌&&◌, none, some, List, [], ◌∷◌, ◌++◌,
}
use chaindash.Data.NodeStates.{ConsensusState}
use chaindash.Opts.Number.{is_digit}
use chaindash.Widgets.Helpers.{format_grouped_u64, prefix_chars, suffix_chars}
use chaindash.Widgets.Lines.{
  Color, accent_warn, metric_positive, metric_tertiary, Style, content_style, accent_style, bold,
  Line, Span, styled, raw,
}
use chaindash.Widgets.Lines.More.{item_lines}

-- `value.clamp(low, high)`
abbrev pub clamp : ℕ → ℕ → ℕ → ℕ
clamp value low high = if ltb value low then low else if ltb high value then high else value

-- The cut in the middle, with 4 to 8 characters of the end.
unfoldable pub shorten_middle : Text → ℕ → Text
shorten_middle host max_len =
    let suffix_len = clamp ((max_len - 1) / 3) 4 8 in
    prefix_chars host (max_len - (suffix_len + 1)) ++ (codes "…" ++ suffix_chars host suffix_len)

-- The tests on what stands before and after the last colon.
abbrev pub port_fits : Text → Text → ℕ → Bool
port_fits base port max_len =
    not (is_empty base)
    && not (is_empty port)
    && all is_digit port
    && ltb (length (b':' ∷ port) + 1) max_len

unfoldable pub shorten_host_for_width : Text → ℕ → Text
unfolding shorten_middle rsplit_once is_empty all is_digit prefix_chars suffix_chars
shorten_host_for_width host max_len =
    if max_len == 0
    then []
    else if leb (length host) max_len
    then host
    else elim (rsplit_once b':' host) [
      | none ↦ shorten_middle host max_len
      | some (base, port) ↦
          if port_fits base port max_len
          then prefix_chars base (max_len - (length (b':' ∷ port) + 1))
            ++ (codes "…" ++ b':' ∷ port)
          else shorten_middle host max_len
    ]

abbrev pub role_text : ConsensusState → Text
role_text node = if node.validator then codes "VALIDATOR" else codes "OBSERVER"

abbrev pub role_color : ConsensusState → Color
role_color node = if node.validator then metric_positive else accent_warn

abbrev pub node_value_style : Style
node_value_style = bold content_style

abbrev pub metric_value_style : Style
metric_value_style = accent_style metric_tertiary

-- A span with a blank in front, from a width on.
abbrev pub from_width : ℕ → ℕ → Span → Line
from_width least area_width span = if leb least area_width then raw (codes " ") ∷ span ∷ [] else []

unfoldable pub compact_list_line : ConsensusState → ℕ → Line
unfolding format_grouped_u64 shorten_host_for_width
compact_list_line node area_width =
    styled node.name node_value_style
    ∷ raw (codes " ")
    ∷ styled (role_text node) (accent_style (role_color node))
    ∷ raw (codes " ")
    ∷ styled (codes "#" ++ format_grouped_u64 node.current_number) metric_value_style
    ∷ (from_width 48 area_width
          (styled (codes "E" ++ format_grouped_u64 node.epoch) metric_value_style)
        ++ (from_width 60 area_width
              (styled (codes "V" ++ format_grouped_u64 node.view) metric_value_style)
            ++ from_width 76 area_width (
                styled (shorten_host_for_width node.host (max (area_width - 38) 12))
                  content_style)))

unfoldable pub compact_list_lines : List ConsensusState → ℕ → ℕ → List Line
unfolding item_lines compact_list_line
compact_list_lines nodes area_width max_rows =
    item_lines (λ node. compact_list_line node area_width) (codes " more nodes") max_rows nodes
