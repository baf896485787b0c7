-- ===== src/Widgets/Countries/Layout.antt =====
-- Where the items of the panel stand.
use native.Mathlib.Nat.{le-div_iff_mul-le, div-mul-le_self, div-add-mod, mod-eq_of_lt}
use chaindash.Base.{ℕ, zero, suc, ◌+◌, ◌*◌, ◌/◌, ◌%◌, ◌≤◌, ◌<◌, ◌≡◌, refl, ◌⊎◌, inl, inr, arith}
use chaindash.Widgets.Countries.{Rect, country_column_count}
use chaindash.Widgets.Countries.Drawing.{cell}

-- The area lies on a screen whose coordinates are `u16`.
abbrev pub OnScreen : Rect → Type 0
OnScreen area = (area.x + area.width < 65536) × (area.y + area.height < 65536)

pub column_count-pos : (aw cw : ℕ) → 0 < country_column_count aw cw
unfolding country_column_count
column_count-pos aw cw = ground arith

step-fits : (aw cw c q : ℕ) → q * (cw + 2) ≤ aw + 2 → c < q → c * (cw + 2) + cw ≤ aw
step-fits aw cw c q h k = grind arith

columns-fit :
    (aw cw c : ℕ) → 0 < cw → cw ≤ aw → c < country_column_count aw cw → c * (cw + 2) + cw ≤ aw
unfolding country_column_count
columns-fit aw cw zero h k l = omega (arith, k)
columns-fit aw cw (suc c) h k l =
    let whole : (aw + 2) / (cw + 2) * (cw + 2) ≤ aw + 2 = omega arith in
    ground (arith, step-fits aw cw (suc c) ((aw + 2) / (cw + 2)) whole, h, k, l)

row-below : (index cc rows : ℕ) → 0 < cc → index < rows * cc → index / cc < rows
row-below index cc rows h k = grind arith

-- An item whose index is within the rows and columns has all the columns of its width, inside the
-- area.
pub cell-fits :
    (area : Rect) (cw rows index : ℕ)
    → OnScreen area
    → 0 < cw
    → cw ≤ area.width
    → rows ≤ area.height
    → index < rows * country_column_count area.width cw
    → let c = cell area (country_column_count area.width cw) cw index in
      (area.x ≤ c.x)
      × (c.x + cw ≤ area.x + area.width)
      × (c.width ≡ cw)
      × (area.y ≤ c.y)
      × (c.y < area.y + rows)
      × (c.y ≡ area.y + index / country_column_count area.width cw)
      × (c.x ≡ area.x + index % country_column_count area.width cw * (cw + 2))
unfolding cell
cell-fits area cw rows index screen h k r i =
    let cc = country_column_count area.width cw in
    let row = row-below index cc rows (column_count-pos area.width cw) i in
    let column : index % cc < cc = omega (arith, column_count-pos area.width cw) in
    let fit = columns-fit area.width cw (index % cc) h k column in
    let same_x : index % cc * (cw + 2) % 65536 ≡ index % cc * (cw + 2) =
      mod-eq_of_lt (omega (arith, fit, screen.0)) in
    let same_y : index / cc % 65536 ≡ index / cc = mod-eq_of_lt (omega (arith, row, r, screen.1)) in
    let same_width : cw % 65536 ≡ cw = mod-eq_of_lt (omega (arith, k, screen.0)) in
    rw (same_x, same_y, same_width)
      (
        omega arith,
        omega (arith, fit),
        omega (arith, fit, screen.0),
        omega arith,
        omega (arith, row),
        refl,
        refl,
      )

-- The item stands inside the area, with all the columns of its width, in one of the rows.
abbrev pub IsInside : Rect → ℕ → ℕ → Rect → Type 0
IsInside area cw rows c =
    (area.x ≤ c.x)
    × (c.x + cw ≤ area.x + area.width)
    × (c.width ≡ cw)
    × (area.y ≤ c.y)
    × (c.y < area.y + rows)

in_order :
    (cc i j : ℕ) → 0 < cc → i < j → (i / cc < j / cc) ⊎ ((i / cc ≡ j / cc) × (i % cc < j % cc))
in_order cc i j h k =
    let mono : i / cc ≤ j / cc = (le-div_iff_mul-le h).1 (omega (arith, div-mul-le_self i cc, k)) in
    ground (arith, mono, div-add-mod i cc, div-add-mod j cc, k)

step : (a b w : ℕ) → a < b → a * w + w ≤ b * w
step a b w h = grind arith

-- Of two items whose indices are within the rows and columns, each stands inside the area, with all
-- the columns of its width; the later one is in a later row, or in the same row, further right, with
-- two columns or more between them.
pub cell-apart :
    (area : Rect) (cw rows i j : ℕ)
    → OnScreen area
    → 0 < cw
    → cw ≤ area.width
    → rows ≤ area.height
    → j < rows * country_column_count area.width cw
    → i < j
    → let cc = country_column_count area.width cw in
      IsInside area cw rows (cell area cc cw i)
      × IsInside area cw rows (cell area cc cw j)
      × (((cell area cc cw i).y < (cell area cc cw j).y)
          ⊎ (((cell area cc cw i).y ≡ (cell area cc cw j).y)
              × ((cell area cc cw i).x + cw + 2 ≤ (cell area cc cw j).x)))
cell-apart area cw rows i j s h k r l m =
    let cc = country_column_count area.width cw in
    let first = cell-fits area cw rows i s h k r (omega (arith, l, m)) in
    let second = cell-fits area cw rows j s h k r l in
    (
      (first.0, first.1, first.2, first.3, first.4),
      (second.0, second.1, second.2, second.3, second.4),
      elim (in_order cc i j (column_count-pos area.width cw) m) [
        | inl below ↦ inl (omega (arith, first.5, second.5, below))
        | inr beside ↦ inr (
          omega (arith, first.5, second.5, beside.0),
          omega (arith, first.6, second.6, step (i % cc) (j % cc) (cw + 2) beside.1),
        )
      ],
    )
