-- ===== src/Widgets/Nodes/Specs.antt =====
-- The lines of one node with their priorities, in each of the layouts of src/widgets/node.rs.
use chaindash.Base.{if◌then◌else◌, Text, codes, ℕ, Bool, List, [], ◌∷◌, ◌++◌}
use chaindash.Data.NodeStates.{ConsensusState}
use chaindash.Widgets.Helpers.{format_grouped_u64}
use chaindash.Widgets.Helpers.Priority.{PriorityLine}
use chaindash.Widgets.Lines.{
  Line, content_style, accent_style, info_line_with_style, section_heading, spacer_line,
}
use chaindash.Widgets.Nodes.{
  shorten_host_for_width, role_text, role_color, node_value_style, metric_value_style,
}

abbrev pub name_line : ConsensusState → Line
name_line node = info_line_with_style (codes "Name") node.name node_value_style

abbrev pub host_line : ConsensusState → ℕ → Line
host_line node host_max_len =
    info_line_with_style (codes "Host") (shorten_host_for_width node.host host_max_len)
      content_style

abbrev pub role_line : ConsensusState → Line
role_line node =
    info_line_with_style (codes "Role") (role_text node) (accent_style (role_color node))

abbrev pub number_line : Text → ℕ → Line
number_line label value = info_line_with_style label (format_grouped_u64 value) metric_value_style

abbrev pub heading : Bool → ℕ → Text → List (PriorityLine Line)
heading show_section_headings priority title =
    if show_section_headings then (priority, section_heading title) ∷ [] else []

-- The heading of a later section, with a blank line above.
abbrev pub spaced_heading : Bool → Text → List (PriorityLine Line)
spaced_heading show_section_headings title =
    if show_section_headings then (30, spacer_line) ∷ (20, section_heading title) ∷ [] else []

unfoldable pub single_node_column_specs :
    ConsensusState
    → Bool
    → ℕ
    → List (PriorityLine Line) × List (PriorityLine Line) × List (PriorityLine Line)
single_node_column_specs node show_section_headings host_max_len = (
  heading show_section_headings 9 (codes "Node")
      ++ (1, name_line node) ∷ (3, host_line node host_max_len) ∷ (2, role_line node) ∷ [],
  heading show_section_headings 9 (codes "Chain")
      ++ (1, number_line (codes "Block") node.current_number)
        ∷ (2, number_line (codes "Epoch") node.epoch)
        ∷ (3, number_line (codes "View") node.view)
        ∷ [],
  heading show_section_headings 9 (codes "Consensus")
      ++ (2, number_line (codes "QC") node.qc)
        ∷ (3, number_line (codes "Locked") node.locked)
        ∷ (1, number_line (codes "Committed") node.committed)
        ∷ [],
)

unfoldable pub stacked_line_specs : ConsensusState → Bool → ℕ → List (PriorityLine Line)
stacked_line_specs node show_section_headings host_max_len =
    heading show_section_headings 20 (codes "Node")
    ++ ((1, name_line node) ∷ (8, host_line node host_max_len) ∷ (2, role_line node) ∷ []
        ++ (spaced_heading show_section_headings (codes "Chain")
            ++ ((3, number_line (codes "Block") node.current_number)
                  ∷ (4, number_line (codes "Epoch") node.epoch)
                  ∷ (7, number_line (codes "View") node.view)
                  ∷ []
                ++ (spaced_heading show_section_headings (codes "Consensus")
                    ++ (6, number_line (codes "QC") node.qc)
                      ∷ (9, number_line (codes "Locked") node.locked)
                      ∷ (5, number_line (codes "Committed") node.committed)
                      ∷ []))))

unfoldable pub compact_line_specs : ConsensusState → ℕ → List (PriorityLine Line)
compact_line_specs node host_max_len =
    (1, name_line node)
    ∷ (8, host_line node host_max_len)
    ∷ (2, role_line node)
    ∷ (3, number_line (codes "Block") node.current_number)
    ∷ (4, number_line (codes "Epoch") node.epoch)
    ∷ (7, number_line (codes "View") node.view)
    ∷ (6, number_line (codes "QC") node.qc)
    ∷ (9, number_line (codes "Locked") node.locked)
    ∷ (5, number_line (codes "Committed") node.committed)
    ∷ []

unfoldable pub compact_summary_column_specs :
    ConsensusState → ℕ → List (PriorityLine Line) × List (PriorityLine Line)
compact_summary_column_specs node host_max_len = (
  (1, name_line node) ∷ (3, host_line node host_max_len) ∷ (2, role_line node) ∷ [],
  (1, number_line (codes "Block") node.current_number)
      ∷ (2, number_line (codes "Epoch") node.epoch)
      ∷ (3, number_line (codes "View") node.view)
      ∷ (4, number_line (codes "QC") node.qc)
      ∷ (5, number_line (codes "Locked") node.locked)
      ∷ (6, number_line (codes "Committed") node.committed)
      ∷ [],
)
