-- ===== src/Widgets/Nodes/Named.antt =====
-- One node: whatever the layout, its name is among the lines.
use chaindash.Base.{
  ltb, leb, Bool-cases, Has, codes, ℕ, ◌≤◌, ◌<◌, ◌≡◌, inl, inr, Bool, true, false, ◌&&◌, List, [],
  ◌∷◌, ◌++◌, arith,
}
use chaindash.Data.NodeStates.{ConsensusState}
use chaindash.Widgets.Countries.{Rect}
use chaindash.Widgets.Helpers.Priority.{PriorityLine, select_prioritized_lines}
use chaindash.Widgets.Helpers.Priority.First.{IsAfter, select_prioritized_lines-first}
use chaindash.Widgets.Lines.{Line, Panels, KeepsHeight, DrawsLine, left_part, inline_value_max_len}
use chaindash.Widgets.Nodes.Specs.{
  name_line, heading, single_node_column_specs, stacked_line_specs, compact_line_specs,
  compact_summary_column_specs,
}
use chaindash.Widgets.Nodes.Drawing.{
  is_blank, compact_layout_width, compact_two_column_width, stacked_layout_width,
  stacked_layout_height, heading_layout_height, compact_paragraphs, column_paragraphs,
  render_compact_single_node, wide_paragraphs, render_single_node, render,
}

-- The name leads: it stands first, or below a heading whose priority number is larger.
named :
    (node : ConsensusState) (show : Bool) (priority rows : ℕ) (post : List (PriorityLine Line))
    → 1 < priority
    → 0 < rows
    → IsAfter 1 post
    → Has (name_line node) (
        select_prioritized_lines
          (heading show priority (codes "Node") ++ (1, name_line node) ∷ post)
          rows)
named node true priority rows post h k l =
    select_prioritized_lines-first rows 1 (name_line node) (heading true priority (codes "Node"))
      post k (h, tt) l
named node false priority rows post h k l =
    select_prioritized_lines-first rows 1 (name_line node) [] post k tt l

module _ (p : Panels) (keeps : KeepsHeight p) where
  compact-DrawsLine :
      (inner : Rect) (node : ConsensusState)
      → is_blank inner ≡ false
      → DrawsLine (name_line node) (compact_paragraphs p inner node)
  unfolding compact_paragraphs compact_line_specs compact_summary_column_specs
  compact-DrawsLine inner node h =
      elim (Bool-cases (leb compact_two_column_width inner.width && leb 4 inner.height)) [
        | inl two ↦
            rw (h, two)
              (inl (
                named node false 9 (left_part (p.two_columns 42 58 inner).0).height _ (omega arith)
                  (ground (arith, keeps.two 42 58 inner)) (omega arith)))
        | inr one ↦
            rw (h, one)
              (inl (named node false 9 inner.height _ (omega arith) (ground arith) (omega arith)))
      ]

  single-DrawsLine :
      (area : Rect) (node : ConsensusState)
      → is_blank (p.inner area) ≡ false
      → DrawsLine (name_line node) (render_compact_single_node p area node)
  unfolding render_compact_single_node
  single-DrawsLine area node h = compact-DrawsLine (p.inner area) node h

  column-DrawsLine :
      (content : Rect) (node : ConsensusState)
      → is_blank content ≡ false
      → DrawsLine (name_line node) (column_paragraphs p content node)
  unfolding column_paragraphs single_node_column_specs
  column-DrawsLine content node h = inl (
      named node (leb heading_layout_height content.height) 9
        (left_part (p.three_columns 34 33 33 content).0).height _ (omega arith)
        (ground (arith, keeps.three 34 33 33 content)) (omega arith))

  stacked-Has :
      (node : ConsensusState) (show : Bool) (host_max_len rows : ℕ)
      → 0 < rows
      → Has
          (name_line node)
          (select_prioritized_lines (stacked_line_specs node show host_max_len) rows)
  unfolding stacked_line_specs
  stacked-Has node true host_max_len rows h =
      named node true 20 rows _ (omega arith) h (omega arith)
  stacked-Has node false host_max_len rows h =
      named node false 20 rows _ (omega arith) h (omega arith)

  wide-DrawsLine :
      (area : Rect) (node : ConsensusState)
      → is_blank (p.inner area) ≡ false
      → DrawsLine (name_line node) (wide_paragraphs p area (p.inner area) node)
  unfolding wide_paragraphs
  wide-DrawsLine area node h =
      let content = p.inner area in
      elim (Bool-cases (ltb content.width stacked_layout_width)) [
        | inl narrow ↦ elim (Bool-cases (leb stacked_layout_height content.height)) [
          | inl high ↦
              rw (h, narrow, high)
                (inl (
                  stacked-Has node (leb heading_layout_height content.height)
                    (inline_value_max_len content.width (codes "Host: ")) content.height
                    (ground arith)))
          | inr low ↦ rw (h, narrow, low) (single-DrawsLine area node h)
        ]
        | inr wide ↦ rw (h, wide) (column-DrawsLine content node h)
      ]

  -- One node, in an area of three rows or more with room inside its border: its name is drawn.
  pub render-name :
      (node : ConsensusState) (area : Rect)
      → 3 ≤ area.height
      → is_blank (p.inner area) ≡ false
      → DrawsLine (name_line node) (render p (node ∷ []) area)
  unfolding render render_single_node
  render-name node area h k =
      let high : ltb area.height 3 ≡ false = ground arith in
      rw high (elim (Bool-cases (ltb area.width compact_layout_width)) [
        | inl narrow ↦ rw narrow (single-DrawsLine area node k)
        | inr wide ↦ rw wide (wide-DrawsLine area node k)
      ])
