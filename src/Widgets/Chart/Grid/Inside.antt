-- ===== src/Widgets/Chart/Grid/Inside.antt =====
-- A grid that is drawn lies in its area.
use chaindash.Base.{
  ltb, leb, ◌==◌, Bool-cases, length, All, All-map, All-append, Text, ℕ, ◌+◌, ◌-◌, ◌*◌, ◌≤◌, ◌<◌,
  ◌≡◌, refl, inl, inr, Bool, true, false, ◌||◌, List, [], ◌∷◌, map, arith,
}
use chaindash.Widgets.Countries.{Rect}
use chaindash.Widgets.Lines.{Style}
use chaindash.Widgets.Chart.Marks.{IsInArea, segments_width, put_segments-IsInArea}
use chaindash.Widgets.Chart.Grid.{
  frame_columns, inline_frame_width, grid_row, grid_content_width, render_segment_grid, grid_rows,
  SegmentGridRow, widest, total_of, column_widths, put_cell, put_cells,
}

module _ (width : Text → ℕ) where
  -- Each cell fits its column.
  abbrev IsFitting : List ℕ → SegmentGridRow → Type 0
  IsFitting ws [] = Unit
  IsFitting [] (cell ∷ row) = ⊥
  IsFitting (w ∷ ws) (cell ∷ row) = (segments_width width cell ≤ w) × IsFitting ws row

  widest-IsFitting_left :
      (row : SegmentGridRow) (ws : List ℕ)
      → IsFitting (widest (map (segments_width width) row) ws) row
  unfolding widest
  widest-IsFitting_left [] ws = tt
  widest-IsFitting_left (cell ∷ row) [] = (omega arith, itself row)
    where
      itself : (r : SegmentGridRow) → IsFitting (map (segments_width width) r) r
      itself [] = tt
      itself (c ∷ r) = (omega arith, itself r)
  widest-IsFitting_left (cell ∷ row) (w ∷ ws) = (omega arith, widest-IsFitting_left row ws)

  widest-IsFitting_right :
      (row : SegmentGridRow) (vs ws : List ℕ) → IsFitting ws row → IsFitting (widest vs ws) row
  unfolding widest
  widest-IsFitting_right [] vs ws h = tt
  widest-IsFitting_right (cell ∷ row) vs [] h = absurd h
  widest-IsFitting_right (cell ∷ row) [] (w ∷ ws) h = h
  widest-IsFitting_right (cell ∷ row) (v ∷ vs) (w ∷ ws) h =
      (omega (arith, h.0), widest-IsFitting_right row vs ws h.1)

  column_widths-IsFitting :
      (style : Style) (rows : List SegmentGridRow)
      → All (IsFitting (column_widths width style rows)) rows
  unfolding column_widths
  column_widths-IsFitting style [] = tt
  column_widths-IsFitting style (row ∷ rows) = (
    widest-IsFitting_left row (column_widths width style rows),
    All-map
        (λ r h.
          widest-IsFitting_right r (map (segments_width width) row) (column_widths width style rows)
            h)
        rows (column_widths-IsFitting style rows),
  )

  -- The columns and a gap after each.
  abbrev spread : ℕ → List ℕ → ℕ
  spread gap [] = 0
  spread gap (w ∷ ws) = w + gap + spread gap ws

  spread-total : (gap : ℕ) (ws : List ℕ) → spread gap ws ≡ total_of ws + gap * length ws
  unfolding total_of
  spread-total gap [] = grind arith
  spread-total gap (w ∷ ws) = let ih = spread-total gap ws in grind (arith, ih)

  module _ (style : Style) where
    cursor :
        (cursor_x y gap : ℕ) (ws : List ℕ) (row : SegmentGridRow)
        → (cursor_x ≤ (put_cells width style cursor_x y gap ws row).1 + spread gap ws)
          × ((put_cells width style cursor_x y gap ws row).1 ≤ cursor_x)
    unfolding put_cells
    cursor cursor_x y gap [] row = omega arith
    cursor cursor_x y gap (w ∷ ws) [] = omega (arith, cursor cursor_x y gap ws [])
    cursor cursor_x y gap (w ∷ ws) (cell ∷ row) = omega (arith, cursor cursor_x y gap ws row)

    cells-IsInArea :
        (area : Rect) (cursor_x y gap : ℕ) (ws : List ℕ) (row : SegmentGridRow)
        → IsFitting ws row
        → area.x + spread gap ws ≤ cursor_x + gap
        → cursor_x ≤ area.x + area.width
        → area.y ≤ y
        → y < area.y + area.height
        → All (IsInArea width area) (put_cells width style cursor_x y gap ws row).0
    unfolding put_cells put_cell
    cells-IsInArea area cursor_x y gap [] row f h k l m = tt
    cells-IsInArea area cursor_x y gap (w ∷ ws) [] f h k l m =
        cells-IsInArea area cursor_x y gap ws [] tt (omega arith) k l m
    cells-IsInArea area cursor_x y gap (w ∷ ws) (cell ∷ row) f h k l m =
        let at = cursor cursor_x y gap ws row in
        All-append (IsInArea width area) _ _
          (cells-IsInArea area cursor_x y gap ws row f.1 (omega arith) k l m)
          (put_segments-IsInArea width area _ y cell (omega (arith, at, f.0)))

    row-IsInArea :
        (area : Rect) (box_x y total_width : ℕ) (has_frame : Bool) (row_index row_count gap : ℕ)
        (ws : List ℕ) (row : SegmentGridRow)
        → total_width ≡ grid_content_width ws gap + frame_columns has_frame
        → 0 < grid_content_width ws gap
        → IsFitting ws row
        → area.x ≤ box_x
        → box_x + total_width ≤ area.x + area.width
        → spread gap ws ≤ grid_content_width ws gap + gap
        → area.y ≤ y
        → y < area.y + area.height
        → All
            (IsInArea width area)
            (grid_row width style box_x y total_width has_frame row_index row_count gap ws row)
    unfolding grid_row
    row-IsInArea area box_x y total_width true row_index row_count gap ws row t p f h k s l m = (
      omega arith,
      (
        omega arith,
        (
          omega arith,
          cells-IsInArea area (box_x + 1 + grid_content_width ws gap) y gap ws row f (omega arith)
              (omega arith) l m,
        ),
      ),
    )
    row-IsInArea area box_x y total_width false row_index row_count gap ws row t p f h k s l m = (
      omega arith,
      cells-IsInArea area (box_x + 0 + grid_content_width ws gap) y gap ws row f (omega arith)
          (omega arith) l m,
    )

    rows-IsInArea :
        (area : Rect) (start_y_offset box_x total_width : ℕ) (has_frame : Bool)
        (row_index row_count gap : ℕ) (ws : List ℕ) (rows : List SegmentGridRow)
        → total_width ≡ grid_content_width ws gap + frame_columns has_frame
        → 0 < grid_content_width ws gap
        → All (IsFitting ws) rows
        → area.x ≤ box_x
        → box_x + total_width ≤ area.x + area.width
        → spread gap ws ≤ grid_content_width ws gap + gap
        → All (IsInArea width area) (
            grid_rows width style area start_y_offset box_x total_width has_frame row_index
              row_count gap ws rows)
    unfolding grid_rows
    rows-IsInArea area start_y_offset box_x total_width has_frame row_index row_count gap ws [] t p
          f h k s =
        tt
    rows-IsInArea area start_y_offset box_x total_width has_frame row_index row_count gap ws
          (row ∷ rows) t p f h k s =
        let y_offset = start_y_offset + row_index in
        elim (Bool-cases (leb (area.height - 1) y_offset)) [
          | inl ended ↦ rw ended tt
          | inr more ↦ rw more (
              All-append (IsInArea width area)
                (grid_row width style box_x (area.y + (start_y_offset + row_index)) total_width
                  has_frame row_index row_count gap ws row)
                (grid_rows width style area start_y_offset box_x total_width has_frame
                  (row_index + 1) row_count gap ws rows)
                (row-IsInArea area box_x (area.y + y_offset) total_width has_frame row_index
                  row_count gap ws row t p f.0 h k s (omega arith) (ground arith))
                (rows-IsInArea area start_y_offset box_x total_width has_frame (row_index + 1)
                  row_count gap ws rows t p f.1 h k s))
        ]

    spread-content :
        (gap : ℕ) (ws : List ℕ)
        → (length ws == 0) ≡ false
        → spread gap ws ≤ grid_content_width ws gap + gap
    spread-content gap [] h = cc
    spread-content gap (w ∷ ws) h = grind (arith, spread-total gap (w ∷ ws))

    -- A grid that is drawn writes into its area only.
    pub grid-IsInArea :
        (area : Rect) (start_y_offset : ℕ) (rows : List SegmentGridRow) (gap : ℕ)
        → All (IsInArea width area) (render_segment_grid width style area start_y_offset rows gap)
    unfolding render_segment_grid
    grid-IsInArea area start_y_offset rows gap =
        let inner_width = area.width - 2 in
        let ws = column_widths width style rows in
        let content_width = grid_content_width ws gap in
        let has_frame = ltb inline_frame_width inner_width in
        let total_width = content_width + frame_columns has_frame in
        elim (Bool-cases (inner_width == 0 || length ws == 0 || content_width == 0)) [
          | inl nothing ↦ rw nothing tt
          | inr cells ↦
              elim (Bool-cases (ltb (inner_width - frame_columns has_frame) content_width)) [
                | inl narrow ↦ rw (cells, narrow) tt
                | inr wide ↦
                    rw (cells, wide)
                      (rows-IsInArea area start_y_offset (area.x + (area.width - (total_width + 1)))
                        total_width has_frame 0 (length rows) gap ws rows refl (ground arith)
                        (column_widths-IsFitting style rows) (omega arith) (ground arith)
                        (spread-content gap ws (ground arith)))
              ]
        ]
