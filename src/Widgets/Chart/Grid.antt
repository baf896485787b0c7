-- ===== src/Widgets/Chart/Grid.antt =====
-- `render_right_aligned_segment_grid` of src/widgets/chart.rs, which is drawn where the box does not fit.
pub mod Inside
use chaindash.Base.{
  ltb, leb, ◌==◌, if◌then◌else◌, length, Text, codes, ℕ, ◌+◌, ◌-◌, ◌*◌, max, Bool, ◌||◌, List, [],
  ◌∷◌, ◌++◌, map,
}
use chaindash.Widgets.Countries.{Rect}
use chaindash.Widgets.Lines.{Style, Span, content_style}
use chaindash.Widgets.Chart.Marks.{Mark, fill, dot, row_of, segments_width, put_segments}

abbrev pub inline_frame_width : ℕ
inline_frame_width = 2

abbrev pub SegmentGridRow : Type 0
SegmentGridRow = List (List Span)

unfoldable pub inline_frame_symbols : ℕ → ℕ → Text × Text
inline_frame_symbols row_index row_count =
    if leb row_count 1
    then (codes "[", codes "]")
    else if row_index == 0
    then (codes "┌", codes "┐")
    else if row_index + 1 == row_count
    then (codes "└", codes "┘")
    else (codes "│", codes "│")

-- The larger one in each place, and what is left of the longer list.
unfoldable pub widest : List ℕ → List ℕ → List ℕ
widest [] ws = ws
widest (v ∷ vs) [] = v ∷ vs
widest (v ∷ vs) (w ∷ ws) = max v w ∷ widest vs ws

unfoldable pub total_of : List ℕ → ℕ
total_of [] = 0
total_of (w ∷ ws) = w + total_of ws

abbrev pub grid_content_width : List ℕ → ℕ → ℕ
grid_content_width widths column_gap = total_of widths + column_gap * (length widths - 1)

abbrev pub frame_columns : Bool → ℕ
frame_columns has_frame = if has_frame then inline_frame_width else 0

module _ (width : Text → ℕ) (frame_style : Style) where
  -- The widths of the columns: of the widest cell in each.
  unfoldable pub column_widths : List SegmentGridRow → List ℕ
  unfolding widest segments_width
  column_widths [] = []
  column_widths (row ∷ rows) = widest (map (segments_width width) row) (column_widths rows)

  -- One cell, at the right of its column.
  unfoldable pub put_cell : ℕ → ℕ → ℕ → List Span → List Mark
  unfolding segments_width put_segments
  put_cell cell_start y w cell =
      put_segments width (cell_start + (w - segments_width width cell)) y cell

  -- The cells of a row from the last column to the first, and where the next one would end; a row may
  -- have fewer cells than there are columns.
  unfoldable pub put_cells : ℕ → ℕ → ℕ → List ℕ → SegmentGridRow → List Mark × ℕ
  unfolding put_cell
  put_cells cursor_x y column_gap [] row = ([], cursor_x)
  put_cells cursor_x y column_gap (w ∷ ws) [] =
      let after = put_cells cursor_x y column_gap ws [] in (after.0, after.1 - w - column_gap)
  put_cells cursor_x y column_gap (w ∷ ws) (cell ∷ row) =
      let after = put_cells cursor_x y column_gap ws row in
      (after.0 ++ put_cell (after.1 - w) y w cell, after.1 - w - column_gap)

  -- A row of the grid, with its background and frame.
  unfoldable pub grid_row : ℕ → ℕ → ℕ → Bool → ℕ → ℕ → ℕ → List ℕ → SegmentGridRow → List Mark
  unfolding put_cells inline_frame_symbols
  grid_row box_x y total_width has_frame row_index row_count column_gap widths row =
      let symbols = inline_frame_symbols row_index row_count in
      let content_x = box_x + (if has_frame then 1 else 0) in
      let frame =
        if has_frame
        then dot box_x y symbols.0 frame_style
          ∷ dot (box_x + total_width - 1) y symbols.1 frame_style
          ∷ []
        else [] in
      fill (row_of box_x y total_width) (codes " ") content_style
      ∷ (frame
          ++ (put_cells (content_x + grid_content_width widths column_gap) y column_gap widths
              row).0)

  -- The loop over the rows, which ends where the area does.
  unfoldable pub grid_rows :
      Rect → ℕ → ℕ → ℕ → Bool → ℕ → ℕ → ℕ → List ℕ → List SegmentGridRow → List Mark
  unfolding grid_row
  grid_rows area start_y_offset box_x total_width has_frame row_index row_count column_gap widths
        [] =
      []
  grid_rows area start_y_offset box_x total_width has_frame row_index row_count column_gap widths
        (row ∷ rows) =
      let y_offset = start_y_offset + row_index in
      let rest =
        grid_rows area start_y_offset box_x total_width has_frame (row_index + 1) row_count
          column_gap widths rows in
      if leb (area.height - 1) y_offset
      then []
      else grid_row box_x (area.y + y_offset) total_width has_frame row_index row_count column_gap
          widths row
        ++ rest

  -- The columns' numbers are below 2 ^ 16 where the grid is drawn, so that their casts change nothing.
  unfoldable pub render_segment_grid : Rect → ℕ → List SegmentGridRow → ℕ → List Mark
  unfolding column_widths total_of grid_rows
  render_segment_grid area start_y_offset rows column_gap =
      let inner_width = area.width - 2 in
      let widths = column_widths rows in
      let content_width = grid_content_width widths column_gap in
      let has_frame = ltb inline_frame_width inner_width in
      let total_width = content_width + frame_columns has_frame in
      if inner_width == 0 || length widths == 0 || content_width == 0
      then []
      else if ltb (inner_width - frame_columns has_frame) content_width
      then []
      else grid_rows area start_y_offset (area.x + (area.width - (total_width + 1))) total_width
          has_frame 0 (length rows) column_gap widths rows
