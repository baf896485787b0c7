-- ===== src/Widgets/Chart/Marks.antt =====
-- What src/widgets/chart.rs writes into the buffer: `fill` sets each cell of a rectangle, as the loops
-- over `buf[(x, y)]` do, and `text` is `set_stringn`. A write outside the buffer panics.
use chaindash.Base.{All, Text, ℕ, ◌+◌, ◌≤◌, min, List, [], ◌∷◌, arith}
use chaindash.Widgets.Countries.{Rect}
use chaindash.Widgets.Lines.{Style, Span}

pub data Mark : Type 0 where
  fill : Rect → Text → Style → Mark
  text : ℕ → ℕ → Text → ℕ → Style → Mark

abbrev pub IsWithin : Rect → Rect → Type 0
IsWithin area r =
    (area.x ≤ r.x)
    × (r.x + r.width ≤ area.x + area.width)
    × (area.y ≤ r.y)
    × (r.y + r.height ≤ area.y + area.height)

abbrev pub dot : ℕ → ℕ → Text → Style → Mark
dot x y symbol style = fill (record { x = x; y = y; width = 1; height = 1 }) symbol style

abbrev pub row_of : ℕ → ℕ → ℕ → Rect
row_of x y width = record { x = x; y = y; width = width; height = 1 }

module _ (width : Text → ℕ) where
  -- The columns of the segments of one value.
  unfoldable pub segments_width : List Span → ℕ
  segments_width [] = 0
  segments_width (s ∷ segments) = width s.text + segments_width segments

  -- The segments from left to right, from a column on.
  unfoldable pub put_segments : ℕ → ℕ → List Span → List Mark
  put_segments x y [] = []
  put_segments x y (s ∷ segments) =
      text x y s.text (width s.text) s.style ∷ put_segments (x + width s.text) y segments

  -- Every cell that is written lies in the area. A text is cut to its largest number of columns.
  abbrev pub IsInArea : Rect → Mark → Type 0
  IsInArea area (fill r symbol style) = IsWithin area r
  IsInArea area (text x y s max_width style) = IsWithin area (row_of x y (min (width s) max_width))

  pub put_segments-IsInArea :
      (area : Rect) (x y : ℕ) (segments : List Span)
      → IsWithin area (row_of x y (segments_width segments))
      → All (IsInArea area) (put_segments x y segments)
  unfolding segments_width put_segments
  put_segments-IsInArea area x y [] h = tt
  put_segments-IsInArea area x y (s ∷ segments) h =
      (omega arith, put_segments-IsInArea area (x + width s.text) y segments (omega arith))

  pub IsInArea-larger :
      (a b : Rect) (marks : List Mark)
      → IsWithin a b
      → All (IsInArea b) marks
      → All (IsInArea a) marks
  IsInArea-larger a b [] h k = tt
  IsInArea-larger a b (fill r symbol style ∷ marks) h k =
      (omega (arith, k.0), IsInArea-larger a b marks h k.1)
  IsInArea-larger a b (text x y s max_width style ∷ marks) h k =
      (omega (arith, k.0), IsInArea-larger a b marks h k.1)
