-- ===== src/Widgets/Details/Drawing.antt =====
-- What src/widgets/node_detail.rs draws into an area: the choice of the layout, and its paragraphs.
use chaindash.Base.{
  ltb, leb, if◌then◌else◌, length, Text, codes, ℕ, ◌-◌, ◌&&◌, List, [], ◌∷◌, ◌++◌, map,
}
use chaindash.Data.NodeDetails.{NodeDetail}
use chaindash.App.{NodeDetailWidget}
use chaindash.Widgets.Countries.{Rect}
use chaindash.Widgets.Helpers.{format_grouped_u64}
use chaindash.Widgets.Helpers.Priority.{select_prioritized_lines}
use chaindash.Widgets.Lines.{
  Drawing, panel, paragraph, table, Panels, Span, styled, raw, plain, content_style, bold,
  highlight_style, empty_state_style, flexible_width, inline_value_max_len, left_part, right_part,
}
use chaindash.Widgets.Nodes.Drawing.{
  compact_layout_width, compact_two_column_width, stacked_layout_width, stacked_layout_height,
  is_blank,
}
use chaindash.Widgets.Details.{
  Amounts, metric_value_style, reward_value_style, updated_value_style, status_value_style,
  display_name, format_ranking, detail_status, format_updated_at, shorten_address_for_width,
  compact_list_lines,
}
use chaindash.Widgets.Details.Specs.{
  detail_column_specs, stacked_line_specs, compact_line_specs, compact_summary_column_specs,
}

abbrev pub title : Text
title = codes " Node Details "

abbrev pub heading_layout_height : ℕ
heading_layout_height = 5

abbrev pub table_layout_min_width : ℕ
table_layout_min_width = 98

module _ {F : Type 0} (ops : Amounts F) (now : ℕ) where
  abbrev pub empty_message : NodeDetailWidget F → Text
  empty_message w = if w.loading then codes "Loading..." else codes "No node details found"

  unfoldable pub table_row_cells : NodeDetail F → ℕ → List Span
  unfolding display_name format_ranking format_grouped_u64 detail_status format_updated_at
      shorten_address_for_width
  table_row_cells detail address_max_len =
      styled (codes " " ++ display_name detail) (bold content_style)
      ∷ styled (format_ranking detail.ranking) metric_value_style
      ∷ styled (format_grouped_u64 detail.block_qty) metric_value_style
      ∷ styled detail.block_rate reward_value_style
      ∷ styled detail.daily_block_rate metric_value_style
      ∷ styled (ops.two_decimals detail.reward_per ++ codes "%") reward_value_style
      ∷ styled (detail_status now detail.last_updated_at)
          (status_value_style now detail.last_updated_at)
      ∷ styled (format_updated_at now detail.last_updated_at)
          (updated_value_style now detail.last_updated_at)
      ∷ styled (shorten_address_for_width detail.reward_address address_max_len) highlight_style
      ∷ []

  unfoldable pub render_table : NodeDetailWidget F → Rect → List Drawing
  unfolding table_row_cells
  render_table w area =
      let address_width = flexible_width area.width 87 14 in
      table area title (16 ∷ 8 ∷ 10 ∷ 8 ∷ 8 ∷ 8 ∷ 8 ∷ 8 ∷ address_width ∷ [])
        (codes " Name"
          ∷ codes "Rank"
          ∷ codes "Blocks"
          ∷ codes "Rate"
          ∷ codes "24H"
          ∷ codes "Ratio"
          ∷ codes "Status"
          ∷ codes "Updated"
          ∷ codes "Address"
          ∷ [])
        (map (λ detail. table_row_cells detail (address_width - 1)) w.node_details)
      ∷ []

  module _ (p : Panels) where
    abbrev pub message_paragraph : NodeDetailWidget F → Rect → List Drawing
    message_paragraph w content =
        paragraph content empty_state_style ((raw (empty_message w) ∷ []) ∷ []) ∷ []

    -- Two columns.
    unfoldable pub summary_paragraphs : Rect → NodeDetail F → List Drawing
    summary_paragraphs inner detail =
        let columns = p.two_columns 47 53 inner in
        let left_area = left_part columns.0 in
        let right_area = right_part columns.1 in
        let specs =
          compact_summary_column_specs ops now detail
            (inline_value_max_len right_area.width (codes "Address: ")) in
        paragraph left_area plain (select_prioritized_lines specs.0 left_area.height)
        ∷ paragraph right_area plain (select_prioritized_lines specs.1 right_area.height)
        ∷ []

    -- The paragraphs of the compact layout, of the first detail if there is one.
    unfoldable pub compact_paragraphs :
        NodeDetailWidget F → Rect → List (NodeDetail F) → List Drawing
    unfolding summary_paragraphs
    compact_paragraphs w inner [] = if is_blank inner then [] else message_paragraph w inner
    compact_paragraphs w inner (detail ∷ details) =
        if is_blank inner
        then []
        else if leb compact_two_column_width inner.width && leb 3 inner.height
        then summary_paragraphs inner detail
        else paragraph inner plain (
            select_prioritized_lines
              (compact_line_specs ops now detail
                (inline_value_max_len inner.width (codes "Address: ")))
              inner.height)
          ∷ []

    unfoldable pub render_compact_node_details : NodeDetailWidget F → Rect → List Drawing
    render_compact_node_details w area =
        panel area title ∷ compact_paragraphs w (p.inner area) w.node_details

    -- Two columns, with headings if there is room.
    unfoldable pub column_paragraphs : Rect → NodeDetail F → List Drawing
    column_paragraphs content detail =
        let columns = p.two_columns 44 56 content in
        let left_area = left_part columns.0 in
        let right_area = right_part columns.1 in
        let specs =
          detail_column_specs ops now detail (leb heading_layout_height content.height)
            (inline_value_max_len right_area.width (codes "Reward Address: ")) in
        paragraph left_area plain (select_prioritized_lines specs.0 left_area.height)
        ∷ paragraph right_area plain (select_prioritized_lines specs.1 right_area.height)
        ∷ []

    -- The layouts for a wide area; the lower one draws the block a second time.
    unfoldable pub wide_paragraphs :
        NodeDetailWidget F → Rect → Rect → List (NodeDetail F) → List Drawing
    wide_paragraphs w area content [] = if is_blank content then [] else message_paragraph w content
    wide_paragraphs w area content (detail ∷ details) =
        if is_blank content
        then []
        else if ltb content.width stacked_layout_width
        then (if leb stacked_layout_height content.height
            then paragraph content plain (
                select_prioritized_lines
                  (stacked_line_specs ops now detail (leb heading_layout_height content.height)
                    (inline_value_max_len content.width (codes "Address: ")))
                  content.height)
              ∷ []
            else render_compact_node_details w area)
        else column_paragraphs content detail

    unfoldable pub render_node_details : NodeDetailWidget F → Rect → List Drawing
    render_node_details w area =
        if ltb area.width compact_layout_width
        then render_compact_node_details w area
        else panel area title ∷ wide_paragraphs w area (p.inner area) w.node_details

    unfoldable pub render_compact_detail_list : NodeDetailWidget F → Rect → List Drawing
    render_compact_detail_list w area =
        let inner = p.inner area in
        panel area title
        ∷ (if is_blank inner
            then []
            else paragraph inner plain
                (compact_list_lines now w.node_details inner.width inner.height)
              ∷ [])

    unfoldable pub render : NodeDetailWidget F → Rect → List Drawing
    unfolding render_compact_detail_list render_table
    render w area =
        if ltb area.height 3
        then []
        else if ltb 1 (length w.node_details)
        then (if ltb area.width table_layout_min_width
            then render_compact_detail_list w area
            else render_table w area)
        else render_node_details w area
