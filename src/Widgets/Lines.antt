-- ===== src/Widgets/Lines.antt =====
-- What a panel is made of: the styles of src/widgets/block.rs by name, and the lines, paragraphs and
-- tables that a widget hands to ratatui. `Panels` is what the widgets take from ratatui's layout.
pub mod More
use chaindash.Base.{length, Has, Text, codes, ℕ, ◌+◌, ◌-◌, min, max, ◌≡◌, ◌⊎◌, List, [], ◌∷◌, ◌++◌}
use chaindash.Widgets.Countries.{Rect}

pub data Color : Type 0 where
  accent_info accent_warn accent_error : Color
  metric_primary metric_secondary metric_tertiary metric_peak metric_positive metric_network : Color

-- `bold` is `add_modifier(Modifier::BOLD)`.
pub data Style : Type 0 where
  plain content_style muted_style header_style highlight_style : Style
  accent_style : Color → Style
  badge_style : Color → Style
  bold : Style → Style

abbrev pub empty_state_style : Style
empty_state_style = muted_style

pub record Span : Type 0 where
  pub text : Text
  pub style : Style

abbrev pub Line : Type 0
Line = List Span

abbrev pub styled : Text → Style → Span
styled text style = record { text = text; style = style }

abbrev pub raw : Text → Span
raw text = styled text plain

-- What is drawn, in order: the block of a panel with its title, a paragraph, or a table with its
-- title, the widths of its columns, its header and its rows.
pub data Drawing : Type 0 where
  panel : Rect → Text → Drawing
  paragraph : Rect → Style → List Line → Drawing
  table : Rect → Text → List ℕ → List Text → List (List Span) → Drawing

pub record Panels : Type 0 where
  -- `Block::inner` of a block with borders on all sides
  pub inner : Rect → Rect
  -- horizontal layouts by percentages
  pub two_columns : ℕ → ℕ → Rect → Rect × Rect
  pub three_columns : ℕ → ℕ → ℕ → Rect → Rect × Rect × Rect

-- A column is as high as the area that is split.
pub record KeepsHeight (p : Panels) : Type 0 where
  pub two :
      (a b : ℕ) (r : Rect)
      → ((p.two_columns a b r).0.height ≡ r.height) × ((p.two_columns a b r).1.height ≡ r.height)
  pub three :
      (a b c : ℕ) (r : Rect)
      → ((p.three_columns a b c r).0.height ≡ r.height)
        × ((p.three_columns a b c r).1.height ≡ r.height)
        × ((p.three_columns a b c r).2.height ≡ r.height)

abbrev pub info_line_with_style : Text → Text → Style → Line
info_line_with_style label value value_style =
    styled (label ++ codes ": ") muted_style ∷ styled value value_style ∷ []

abbrev pub section_heading : Text → Line
section_heading title = styled title header_style ∷ []

-- `Line::from("")`, a line without a span
abbrev pub spacer_line : Line
spacer_line = []

-- `area_width.saturating_sub(2).saturating_sub(reserved_width).max(min_width)`
abbrev pub flexible_width : ℕ → ℕ → ℕ → ℕ
flexible_width area_width reserved_width min_width = max (area_width - 2 - reserved_width) min_width

abbrev pub inline_right_padding : ℕ
inline_right_padding = 3

abbrev pub inline_value_max_len : ℕ → Text → ℕ
inline_value_max_len area_width label = area_width - length label - inline_right_padding

-- One column less at the right, or at both sides.
abbrev pub left_part : Rect → Rect
left_part r = record r { width = r.width - 1 }

abbrev pub right_part : Rect → Rect
right_part r = record r { x = min (r.x + 1) 65535; width = r.width - 1 }

-- A paragraph that is drawn has the line.
abbrev pub DrawsLine : Line → List Drawing → Type 0
DrawsLine line [] = ⊥
DrawsLine line (panel area title ∷ drawings) = DrawsLine line drawings
DrawsLine line (paragraph area style lines ∷ drawings) = Has line lines ⊎ DrawsLine line drawings
DrawsLine line (table area title widths header rows ∷ drawings) = DrawsLine line drawings
