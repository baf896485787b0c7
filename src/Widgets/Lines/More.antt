-- ===== src/Widgets/Lines/More.antt =====
-- A list of items in a panel that has fewer rows: one row says how many are left out.
use chaindash.Base.{
  ltb, leb, ◌==◌, if◌then◌else◌, Bool-cases, length, take, count, length-append, length-map,
  length-take, take_all, Text, codes, ℕ, zero, suc, ◌+◌, ◌-◌, ◌≤◌, ◌<◌, min, ◌≡◌, refl, ◌⊎◌, inl,
  inr, Bool, ◌&&◌, List, [], ◌∷◌, ◌++◌, map, arith,
}
use chaindash.Opts.Number.{decimal}
use chaindash.Widgets.Lines.{Line, styled, muted_style}

module _ {ℓ} {A : Type ℓ} (item_line : A → Line) (label : Text) where
  abbrev pub more_line : ℕ → Line
  more_line count = styled (codes "+" ++ (decimal count ++ label)) muted_style ∷ []

  abbrev pub show_more : ℕ → List A → Bool
  show_more max_rows items = ltb 1 max_rows && ltb max_rows (length items)

  abbrev pub visible : ℕ → List A → ℕ
  visible max_rows items = max_rows - (if show_more max_rows items then 1 else 0)

  -- The lines of the first items, and of the number of the others.
  unfoldable pub item_lines : ℕ → List A → List Line
  item_lines max_rows items =
      let lines = map item_line (take (visible max_rows items) items) in
      if max_rows == 0
      then []
      else if show_more max_rows items
      then lines ++ more_line (length items - visible max_rows items) ∷ []
      else lines

  -- With rows enough, every item; with one row or none at hand, as many as there are rows; else the
  -- first items and, in the last row, the number of all others.
  abbrev pub IsListing : ℕ → List A → List Line → Type 0
  IsListing max_rows items lines =
      ((length items ≤ max_rows) × (lines ≡ map item_line items))
      ⊎ (((max_rows < length items)
            × (max_rows ≤ 1)
            × (lines ≡ map item_line (take max_rows items)))
          ⊎ ((shown : ℕ) × (shown + 1 ≡ max_rows)
              × (1 ≤ shown)
              × (max_rows < length items)
              × (lines
                  ≡ map item_line (take shown items) ++ more_line (length items - shown) ∷ [])))

  pub item_lines-IsListing :
      (max_rows : ℕ) (items : List A) → IsListing max_rows items (item_lines max_rows items)
  unfolding item_lines
  item_lines-IsListing zero [] = inl (omega arith, refl)
  item_lines-IsListing zero (x ∷ xs) = inr (inl (omega arith, omega arith, refl))
  item_lines-IsListing (suc n) items = elim (Bool-cases (leb (length items) (suc n))) [
    | inl enough ↦ inl (ground arith, ground (arith, take_all (suc n) items))
    | inr few ↦ elim (Bool-cases (n == 0)) [
      | inl one ↦ inr (inl (ground arith, ground arith, ground arith))
      | inr rows ↦ inr (inr (n, omega arith, ground arith, ground arith, ground arith))
    ]
  ]

  pub length-item_lines :
      (max_rows : ℕ) (items : List A)
      → length (item_lines max_rows items) ≡ min max_rows (length items)
  unfolding item_lines
  length-item_lines max_rows items =
      let lines = map item_line (take (visible max_rows items) items) in
      ground (
        arith,
        length-map item_line (take (visible max_rows items) items),
        length-take (visible max_rows items) items,
        length-append lines (more_line (length items - visible max_rows items) ∷ []),
      )
