-- ===== src/Widgets/Nodes/Drawing.antt =====
-- What src/widgets/node.rs draws into an area: the choice of the layout, and its paragraphs.
use chaindash.Base.{
  ltb, leb, ◌==◌, if◌then◌else◌, Text, codes, ℕ, ◌-◌, Bool, ◌&&◌, ◌||◌, List, [], ◌∷◌, ◌++◌, map,
}
use chaindash.Data.NodeStates.{ConsensusState}
use chaindash.Widgets.Countries.{Rect}
use chaindash.Widgets.Helpers.{format_grouped_u64}
use chaindash.Widgets.Helpers.Priority.{select_prioritized_lines}
use chaindash.Widgets.Lines.{
  Drawing, panel, paragraph, table, Panels, Span, styled, raw, plain, content_style, accent_style,
  empty_state_style, flexible_width, inline_value_max_len, left_part, right_part,
}
use chaindash.Widgets.Nodes.{
  shorten_host_for_width, role_text, role_color, node_value_style, metric_value_style,
  compact_list_lines,
}
use chaindash.Widgets.Nodes.Specs.{
  single_node_column_specs, stacked_line_specs, compact_line_specs, compact_summary_column_specs,
}

abbrev pub title : Text
title = codes " Nodes "

abbrev pub compact_layout_width : ℕ
compact_layout_width = 110

abbrev pub compact_two_column_width : ℕ
compact_two_column_width = 72

abbrev pub stacked_layout_width : ℕ
stacked_layout_width = 150

abbrev pub stacked_layout_height : ℕ
stacked_layout_height = 9

abbrev pub heading_layout_height : ℕ
heading_layout_height = 6

abbrev pub table_layout_min_width : ℕ
table_layout_min_width = 129

abbrev pub is_blank : Rect → Bool
is_blank area = area.width == 0 || area.height == 0

unfoldable pub table_row_cells : ConsensusState → ℕ → List Span
unfolding format_grouped_u64 shorten_host_for_width
table_row_cells node host_max_len =
    styled (codes " " ++ node.name) node_value_style
    ∷ styled (shorten_host_for_width node.host host_max_len) content_style
    ∷ styled (format_grouped_u64 node.current_number) metric_value_style
    ∷ styled (format_grouped_u64 node.epoch) metric_value_style
    ∷ styled (format_grouped_u64 node.view) metric_value_style
    ∷ styled (format_grouped_u64 node.qc) metric_value_style
    ∷ styled (format_grouped_u64 node.locked) metric_value_style
    ∷ styled (format_grouped_u64 node.committed) metric_value_style
    ∷ styled (role_text node) (accent_style (role_color node))
    ∷ []

unfoldable pub render_table : List ConsensusState → Rect → List Drawing
unfolding table_row_cells
render_table nodes area =
    let host_width = flexible_width area.width 88 18 in
    table area title (16 ∷ host_width ∷ 14 ∷ 10 ∷ 8 ∷ 14 ∷ 14 ∷ 14 ∷ 11 ∷ [])
      (codes " Name"
        ∷ codes "Host"
        ∷ codes "Block"
        ∷ codes "Epoch"
        ∷ codes "View"
        ∷ codes "QC"
        ∷ codes "Locked"
        ∷ codes "Committed"
        ∷ codes "Role"
        ∷ [])
      (map (λ node. table_row_cells node (host_width - 1)) nodes)
    ∷ []

module _ (p : Panels) where
  -- Two columns.
  unfoldable pub summary_paragraphs : Rect → ConsensusState → List Drawing
  summary_paragraphs inner node =
      let columns = p.two_columns 42 58 inner in
      let left_area = left_part columns.0 in
      let right_area = right_part columns.1 in
      let specs =
        compact_summary_column_specs node (inline_value_max_len left_area.width (codes "Host: ")) in
      paragraph left_area plain (select_prioritized_lines specs.0 left_area.height)
      ∷ paragraph right_area plain (select_prioritized_lines specs.1 right_area.height)
      ∷ []

  -- The paragraphs of the compact layout, in the area inside the block.
  unfoldable pub compact_paragraphs : Rect → ConsensusState → List Drawing
  unfolding summary_paragraphs
  compact_paragraphs inner node =
      if is_blank inner
      then []
      else if leb compact_two_column_width inner.width && leb 4 inner.height
      then summary_paragraphs inner node
      else paragraph inner plain (
          select_prioritized_lines
            (compact_line_specs node (inline_value_max_len inner.width (codes "Host: ")))
            inner.height)
        ∷ []

  unfoldable pub render_compact_single_node : Rect → ConsensusState → List Drawing
  unfolding compact_paragraphs
  render_compact_single_node area node = panel area title ∷ compact_paragraphs (p.inner area) node

  -- Three columns.
  unfoldable pub column_paragraphs : Rect → ConsensusState → List Drawing
  column_paragraphs content node =
      let columns = p.three_columns 34 33 33 content in
      let left_area = left_part columns.0 in
      let specs =
        single_node_column_specs node (leb heading_layout_height content.height)
          (inline_value_max_len left_area.width (codes "Host: ")) in
      paragraph left_area plain (select_prioritized_lines specs.0 left_area.height)
      ∷ paragraph columns.1 plain (select_prioritized_lines specs.1 columns.1.height)
      ∷ paragraph columns.2 plain (select_prioritized_lines specs.2 columns.2.height)
      ∷ []

  -- The layouts for a wide area; the lower one draws the block a second time.
  unfoldable pub wide_paragraphs : Rect → Rect → ConsensusState → List Drawing
  wide_paragraphs area content node =
      if is_blank content
      then []
      else if ltb content.width stacked_layout_width
      then (if leb stacked_layout_height content.height
          then paragraph content plain (
              select_prioritized_lines
                (stacked_line_specs node (leb heading_layout_height content.height)
                  (inline_value_max_len content.width (codes "Host: ")))
                content.height)
            ∷ []
          else render_compact_single_node area node)
      else column_paragraphs content node

  unfoldable pub render_single_node : Rect → ConsensusState → List Drawing
  render_single_node area node =
      if ltb area.width compact_layout_width
      then render_compact_single_node area node
      else panel area title ∷ wide_paragraphs area (p.inner area) node

  unfoldable pub render_compact_node_list : List ConsensusState → Rect → List Drawing
  render_compact_node_list nodes area =
      let inner = p.inner area in
      panel area title
      ∷ (if is_blank inner
          then []
          else paragraph inner plain (compact_list_lines nodes inner.width inner.height) ∷ [])

  unfoldable pub render_empty_state : Rect → List Drawing
  render_empty_state area =
      let inner = p.inner area in
      panel area title
      ∷ (if is_blank inner
          then []
          else paragraph inner empty_state_style ((raw (codes "No nodes found") ∷ []) ∷ []) ∷ [])

  unfoldable pub render : List ConsensusState → Rect → List Drawing
  unfolding render_empty_state render_single_node render_compact_node_list render_table
  render [] area = if ltb area.height 3 then [] else render_empty_state area
  render (node ∷ []) area = if ltb area.height 3 then [] else render_single_node area node
  render (node ∷ other ∷ nodes) area =
      if ltb area.height 3
      then []
      else if ltb area.width table_layout_min_width
      then render_compact_node_list (node ∷ other ∷ nodes) area
      else render_table (node ∷ other ∷ nodes) area
