-- ===== src/Widgets/Details/Named.antt =====
-- One node: whatever the layout, its name is among the lines.
use chaindash.Base.{
  ltb, leb, Bool-cases, length, Has, codes, ℕ, ◌≤◌, ◌<◌, ◌≡◌, refl, sym, inl, inr, Bool, true,
  false, ◌&&◌, List, [], ◌∷◌, ◌++◌, arith,
}
use mathlib.Core.Path.{subst}
use chaindash.Data.NodeDetails.{NodeDetail}
use chaindash.App.{NodeDetailWidget}
use chaindash.Widgets.Countries.{Rect}
use chaindash.Widgets.Helpers.Priority.{PriorityLine, select_prioritized_lines}
use chaindash.Widgets.Helpers.Priority.First.{IsAfter, select_prioritized_lines-first}
use chaindash.Widgets.Lines.{Line, Panels, KeepsHeight, DrawsLine, left_part, inline_value_max_len}
use chaindash.Widgets.Nodes.Specs.{heading}
use chaindash.Widgets.Nodes.Drawing.{
  compact_layout_width, compact_two_column_width, stacked_layout_width, stacked_layout_height,
  is_blank,
}
use chaindash.Widgets.Details.{Amounts}
use chaindash.Widgets.Details.Specs.{
  name_line, detail_column_specs, stacked_line_specs, compact_line_specs,
  compact_summary_column_specs,
}
use chaindash.Widgets.Details.Drawing.{
  heading_layout_height, compact_paragraphs, render_compact_node_details, column_paragraphs,
  wide_paragraphs, render_node_details, render,
}

module _ {F : Type 0} (ops : Amounts F) (now : ℕ) (p : Panels) (keeps : KeepsHeight p) where
  -- The name leads: it stands first, or below a heading whose priority number is larger.
  named :
      (detail : NodeDetail F) (show : Bool) (priority rows : ℕ) (post : List (PriorityLine Line))
      → 1 < priority
      → 0 < rows
      → IsAfter 1 post
      → Has (name_line ops now detail) (
          select_prioritized_lines
            (heading show priority (codes "Node") ++ (1, name_line ops now detail) ∷ post)
            rows)
  named detail true priority rows post h k l =
      select_prioritized_lines-first rows 1 (name_line ops now detail)
        (heading true priority (codes "Node")) post k (h, tt) l
  named detail false priority rows post h k l =
      select_prioritized_lines-first rows 1 (name_line ops now detail) [] post k tt l

  compact-DrawsLine :
      (w : NodeDetailWidget F) (inner : Rect) (detail : NodeDetail F)
      (details : List (NodeDetail F))
      → is_blank inner ≡ false
      → DrawsLine
          (name_line ops now detail)
          (compact_paragraphs ops now p w inner (detail ∷ details))
  unfolding compact_paragraphs compact_line_specs compact_summary_column_specs
  compact-DrawsLine w inner detail details h =
      elim (Bool-cases (leb compact_two_column_width inner.width && leb 3 inner.height)) [
        | inl two ↦
            rw (h, two)
              (inl (
                named detail false 9 (left_part (p.two_columns 47 53 inner).0).height _
                  (omega arith) (ground (arith, keeps.two 47 53 inner)) (omega arith)))
        | inr one ↦
            rw (h, one)
              (inl (named detail false 9 inner.height _ (omega arith) (ground arith) (omega arith)))
      ]

  single-DrawsLine :
      (w : NodeDetailWidget F) (area : Rect) (detail : NodeDetail F) (details : List (NodeDetail F))
      → w.node_details ≡ detail ∷ details
      → is_blank (p.inner area) ≡ false
      → DrawsLine (name_line ops now detail) (render_compact_node_details ops now p w area)
  unfolding render_compact_node_details
  single-DrawsLine w area detail details e h =
      subst
        (λ ds.
          DrawsLine (name_line ops now detail) (compact_paragraphs ops now p w (p.inner area) ds))
        (sym e) (compact-DrawsLine w (p.inner area) detail details h)

  column-DrawsLine :
      (content : Rect) (detail : NodeDetail F)
      → is_blank content ≡ false
      → DrawsLine (name_line ops now detail) (column_paragraphs ops now p content detail)
  unfolding column_paragraphs detail_column_specs
  column-DrawsLine content detail h = inl (
      named detail (leb heading_layout_height content.height) 9
        (left_part (p.two_columns 44 56 content).0).height _ (omega arith)
        (ground (arith, keeps.two 44 56 content)) (omega arith))

  stacked-Has :
      (detail : NodeDetail F) (show : Bool) (address_max_len rows : ℕ)
      → 0 < rows
      → Has
          (name_line ops now detail)
          (select_prioritized_lines (stacked_line_specs ops now detail show address_max_len) rows)
  unfolding stacked_line_specs
  stacked-Has detail true address_max_len rows h =
      named detail true 20 rows _ (omega arith) h (omega arith)
  stacked-Has detail false address_max_len rows h =
      named detail false 20 rows _ (omega arith) h (omega arith)

  wide-DrawsLine :
      (w : NodeDetailWidget F) (area : Rect) (detail : NodeDetail F) (details : List (NodeDetail F))
      → w.node_details ≡ detail ∷ details
      → is_blank (p.inner area) ≡ false
      → DrawsLine
          (name_line ops now detail)
          (wide_paragraphs ops now p w area (p.inner area) (detail ∷ details))
  unfolding wide_paragraphs
  wide-DrawsLine w area detail details e h =
      let content = p.inner area in
      elim (Bool-cases (ltb content.width stacked_layout_width)) [
        | inl narrow ↦ elim (Bool-cases (leb stacked_layout_height content.height)) [
          | inl high ↦
              rw (h, narrow, high)
                (inl (
                  stacked-Has detail (leb heading_layout_height content.height)
                    (inline_value_max_len content.width (codes "Address: ")) content.height
                    (ground arith)))
          | inr low ↦ rw (h, narrow, low) (single-DrawsLine w area detail details e h)
        ]
        | inr wide ↦ rw (h, wide) (column-DrawsLine content detail h)
      ]

  details-DrawsLine :
      (w : NodeDetailWidget F) (area : Rect) (detail : NodeDetail F)
      → w.node_details ≡ detail ∷ []
      → is_blank (p.inner area) ≡ false
      → DrawsLine (name_line ops now detail) (render_node_details ops now p w area)
  unfolding render_node_details
  details-DrawsLine w area detail e h = elim (Bool-cases (ltb area.width compact_layout_width)) [
    | inl narrow ↦ rw narrow (single-DrawsLine w area detail [] e h)
    | inr wide ↦ rw wide (
        subst
          (λ ds.
            DrawsLine (name_line ops now detail)
              (wide_paragraphs ops now p w area (p.inner area) ds))
          (sym e) (wide-DrawsLine w area detail [] e h))
  ]

  -- One node's details, in an area of three rows or more with room inside its border: its name is
  -- drawn.
  pub render-detail_name :
      (w : NodeDetailWidget F) (area : Rect) (detail : NodeDetail F)
      → w.node_details ≡ detail ∷ []
      → 3 ≤ area.height
      → is_blank (p.inner area) ≡ false
      → DrawsLine (name_line ops now detail) (render ops now p w area)
  unfolding render
  render-detail_name w area detail e h k =
      let high : ltb area.height 3 ≡ false = ground arith in
      let one : ltb 1 (length w.node_details) ≡ false = rw e refl in
      rw (high, one) (details-DrawsLine w area detail e k)
