-- ===== src/Widgets/Details/Specs.antt =====
-- The lines of one node's details with their priorities, in each of the layouts of
-- src/widgets/node_detail.rs.
use chaindash.Base.{Text, codes, ℕ, Bool, List, [], ◌∷◌, ◌++◌}
use chaindash.Data.NodeDetails.{NodeDetail}
use chaindash.Widgets.Helpers.{format_grouped_u64}
use chaindash.Widgets.Helpers.Priority.{PriorityLine}
use chaindash.Widgets.Lines.{
  Line, Style, bold, content_style, highlight_style, info_line_with_style,
}
use chaindash.Widgets.Nodes.Specs.{heading, spaced_heading}
use chaindash.Widgets.Details.{
  Amounts, metric_value_style, reward_value_style, updated_value_style, display_name,
  format_ranking, format_amount, format_updated_at, rewards, shorten_address_for_width,
}

module _ {F : Type 0} (ops : Amounts F) (now : ℕ) (detail : NodeDetail F) where
  abbrev pub name_line : Line
  name_line = info_line_with_style (codes "Name") (display_name detail) (bold content_style)

  abbrev ranking_line : Text → Line
  ranking_line label = info_line_with_style label (format_ranking detail.ranking) metric_value_style

  abbrev blocks_line : Line
  blocks_line =
      info_line_with_style (codes "Blocks") (format_grouped_u64 detail.block_qty) metric_value_style

  abbrev rate_line : Text → Line
  rate_line label = info_line_with_style label detail.block_rate reward_value_style

  abbrev daily_line : Text → Line
  daily_line label = info_line_with_style label detail.daily_block_rate metric_value_style

  abbrev verifier_line : Text → Line
  verifier_line label =
      info_line_with_style label (format_grouped_u64 detail.verifier_time) metric_value_style

  abbrev ratio_line : Text → Line
  ratio_line label =
      info_line_with_style label (ops.two_decimals detail.reward_per ++ codes "%")
        reward_value_style

  abbrev amount_line : Text → F → Style → Line
  amount_line label value style =
      info_line_with_style label (format_amount ops value ++ codes " LAT") style

  abbrev address_line : Text → ℕ → Line
  address_line label address_max_len =
      info_line_with_style label (shorten_address_for_width detail.reward_address address_max_len)
        highlight_style

  abbrev updated_line : Line
  updated_line =
      info_line_with_style (codes "Updated") (format_updated_at now detail.last_updated_at)
        (updated_value_style now detail.last_updated_at)

  unfoldable pub detail_column_specs :
      Bool → ℕ → List (PriorityLine Line) × List (PriorityLine Line)
  detail_column_specs show_section_headings address_max_len = (
    heading show_section_headings 9 (codes "Node")
        ++ (1, name_line)
          ∷ (2, ranking_line (codes "Ranking"))
          ∷ (3, blocks_line)
          ∷ (4, rate_line (codes "Block Rate"))
          ∷ (5, daily_line (codes "24H Rate"))
          ∷ [],
    heading show_section_headings 9 (codes "Rewards")
        ++ (1, verifier_line (codes "Verifier Time"))
          ∷ (2, ratio_line (codes "Reward Ratio"))
          ∷ (3, amount_line (codes "System Reward") detail.reward_value metric_value_style)
          ∷ (4, amount_line (codes "Rewards") (rewards ops detail) reward_value_style)
          ∷ (5, address_line (codes "Reward Address") address_max_len)
          ∷ (6, updated_line)
          ∷ [],
  )

  -- The lines below the name, as far as the rewards.
  abbrev node_lines : Text → Text → List (PriorityLine Line)
  node_lines ranking rate =
      (1, name_line)
      ∷ (2, ranking_line ranking)
      ∷ (3, blocks_line)
      ∷ (4, rate_line rate)
      ∷ (5, daily_line (codes "24H"))
      ∷ []

  abbrev reward_lines : ℕ → List (PriorityLine Line)
  reward_lines address_max_len =
      (6, verifier_line (codes "Verifier"))
      ∷ (7, ratio_line (codes "Ratio"))
      ∷ (8, amount_line (codes "System") detail.reward_value metric_value_style)
      ∷ (9, amount_line (codes "Rewards") (rewards ops detail) reward_value_style)
      ∷ (10, address_line (codes "Address") address_max_len)
      ∷ (11, updated_line)
      ∷ []

  unfoldable pub stacked_line_specs : Bool → ℕ → List (PriorityLine Line)
  stacked_line_specs show_section_headings address_max_len =
      heading show_section_headings 20 (codes "Node")
      ++ (node_lines (codes "Ranking") (codes "Block Rate")
          ++ (spaced_heading show_section_headings (codes "Rewards")
              ++ reward_lines address_max_len))

  unfoldable pub compact_line_specs : ℕ → List (PriorityLine Line)
  compact_line_specs address_max_len =
      node_lines (codes "Rank") (codes "Rate") ++ reward_lines address_max_len

  unfoldable pub compact_summary_column_specs :
      ℕ → List (PriorityLine Line) × List (PriorityLine Line)
  compact_summary_column_specs address_max_len = (
    node_lines (codes "Rank") (codes "Rate"),
    (1, verifier_line (codes "Verifier"))
        ∷ (2, ratio_line (codes "Ratio"))
        ∷ (3, amount_line (codes "System") detail.reward_value metric_value_style)
        ∷ (4, amount_line (codes "Rewards") (rewards ops detail) reward_value_style)
        ∷ (5, address_line (codes "Address") address_max_len)
        ∷ (6, updated_line)
        ∷ [],
  )
