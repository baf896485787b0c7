-- ===== src/Draw/Examples.antt =====
-- A screen of 24 rows with a message.
use chaindash.Base.{All, codes, ℕ, ◌+◌, ◌-◌, ◌≡◌, refl, none, some, ◌++◌, map, arith}
use chaindash.Data.Status.{StatusMessage, warning}
use chaindash.Widgets.Countries.{Rect}
use chaindash.Draw.{Layouts, unix, content_row_heights, draw}
use chaindash.Draw.Complete.{KeepsLengths, all_panels, bar, IsHigh, draw-all_panels}

heights_of_21 : content_row_heights 21 6 ≡ (8, 7)
unfolding content_row_heights
heights_of_21 = refl

abbrev slice : Rect → ℕ → ℕ → Rect
slice r y height = record r { y = r.y + y; height = height }

abbrev layouts : Layouts
layouts = record {
  three_rows = λ a b c r. record {
    auxiliary = slice r 0 a;
    charts = slice r a b;
    bottom = slice r (a + b) c;
  };
  status_and_rest = λ r. (slice r 0 3, slice r 3 (r.height - 3));
  halves = λ r. (r, r);
  half_and_quarters = λ r. (r, r, r);
}

layouts-KeepsLengths : KeepsLengths layouts
layouts-KeepsLengths = record {
  rows = λ a b c r e. (refl, refl, refl);
  rest = λ r h. (refl, omega arith);
  halves = λ r. (refl, refl);
  quarters = λ r. (refl, refl, refl);
}

abbrev message : StatusMessage
message = record { level = warning; text = codes "late"; expires_at = none }

abbrev screen : Rect
screen = record { x = 0; y = 0; width = 100; height = 24 }

draw-all_panels_example :
    (map (λ p. p.panel) (draw layouts (some message) unix screen)
      ≡ bar (some message) ++ all_panels unix)
    × All IsHigh (draw layouts (some message) unix screen)
draw-all_panels_example =
    draw-all_panels layouts layouts-KeepsLengths (some message) unix screen (omega arith)
      (omega arith)
