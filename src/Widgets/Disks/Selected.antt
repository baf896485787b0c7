-- ===== src/Widgets/Disks/Selected.antt =====
-- The panel shows the disk that is selected, and no other one as selected.
use chaindash.Data.System.{SystemStats}
use chaindash.Widgets.Countries.{Rect}
use chaindash.Widgets.Nodes.Drawing.{is_blank}
use chaindash.Widgets.Lines.{Drawing, panel, paragraph, table, Panels, plain}
use chaindash.Base.{
  ltb, leb, ◌==◌, if◌then◌else◌, Bool-cases, length, get_elem?, Text, codes, ℕ, zero, suc, ◌+◌, ◌-◌,
  ◌≤◌, ◌<◌, min, ◌≡◌, refl, ap, ◌∙◌, ◌⊎◌, inl, inr, Bool, true, false, ◌||◌, some, List, [], ◌∷◌,
  ◌++◌, map, arith,
}
use chaindash.Collect.SystemStats.{DiskDetail}
use chaindash.Widgets.Disks.{
  no_disks, render_disk_list, render_selected_disk_summary, render, disk_title, below_first,
  mount_column_width, summary_width, summary_height, selected_index, summary_lines, SizeTexts,
  disk_row, disk_rows,
}

-- A list around one of its places.
split_at {ℓ} :
    {A : Type ℓ} (n : ℕ) (xs : List A)
    → n < length xs
    → (pre : List A) × (x : A) × (post : List A) × (xs ≡ pre ++ x ∷ post)
      × (length pre ≡ n)
      × (get_elem? xs n ≡ some x)
split_at n [] h = absurd (omega arith)
split_at zero (x ∷ xs) h = ([], x, xs, refl, refl, refl)
split_at (suc n) (x ∷ xs) h =
    let (pre, y, post, e, l, g) = split_at n xs (omega arith) in
    (x ∷ pre, y, post, ap (λ r. x ∷ r) e, ap suc l, g)

module _ {F : Type 0} (ops : SizeTexts F) where
  rows_apart :
      (current index : ℕ) (disks : List (DiskDetail F))
      → (index + length disks ≤ current) ⊎ (current < index)
      → disk_rows ops current index disks ≡ map (disk_row ops false) disks
  unfolding disk_rows
  rows_apart current index [] h = refl
  rows_apart current index (disk ∷ disks) (inl h) =
      let other : (index == current) ≡ false = ground arith in
      rw (other, rows_apart current (index + 1) disks (inl (omega arith))) refl
  rows_apart current index (disk ∷ disks) (inr h) =
      let other : (index == current) ≡ false = ground arith in
      rw (other, rows_apart current (index + 1) disks (inr (omega arith))) refl

  rows_split :
      (current index : ℕ) (pre : List (DiskDetail F)) (disk : DiskDetail F)
      (post : List (DiskDetail F))
      → index + length pre ≡ current
      → disk_rows ops current index (pre ++ disk ∷ post)
        ≡ map (disk_row ops false) pre ++ disk_row ops true disk ∷ map (disk_row ops false) post
  unfolding disk_rows
  rows_split current index [] disk post h =
      let here : (index == current) ≡ true = ground arith in
      rw (here, rows_apart current (index + 1) post (inr (omega arith))) refl
  rows_split current index (d ∷ pre) disk post h =
      let other : (index == current) ≡ false = ground arith in
      rw (other, rows_split current (index + 1) pre disk post (omega arith)) refl

  module _ (p : Panels) where
    nonempty : (disks : List (DiskDetail F)) → 0 < length disks → no_disks ops p disks ≡ false
    nonempty [] h = absurd (omega arith)
    nonempty (disk ∷ disks) h = refl

    abbrev pub is_small : Rect → Bool
    is_small area = ltb area.width summary_width || leb area.height summary_height

    -- `Block::inner` leaves out the border on each side.
    abbrev pub HasBorder : Rect → Type 0
    HasBorder area =
        ((p.inner area).width ≡ area.width - 2) × ((p.inner area).height ≡ area.height - 2)

    -- The panel of one disk, or the table in which one disk is marked.
    abbrev pub disk_panel : Rect → Text → DiskDetail F → List Drawing
    disk_panel area title disk =
        panel area title
        ∷ paragraph (below_first (p.inner area)) plain (summary_lines ops disk)
        ∷ []

    abbrev pub disk_table :
        Rect → Text → List (DiskDetail F) → DiskDetail F → List (DiskDetail F) → List Drawing
    disk_table area title pre disk post =
        table area title (mount_column_width area.width ∷ 10 ∷ 10 ∷ 10 ∷ 7 ∷ [])
          (codes "Mounted on" ∷ codes "Size" ∷ codes "Used" ∷ codes "Avail" ∷ codes "Use%" ∷ [])
          (map (disk_row ops false) pre ++ disk_row ops true disk ∷ map (disk_row ops false) post)
        ∷ []

    some_disks :
        (stats : SystemStats F (DiskDetail F))
        → 0 < length stats.disk_details
        → no_disks ops p stats.disk_details ≡ false
    some_disks stats h = nonempty stats.disk_details h

    -- With four rows, three columns and one disk or more: the panel is drawn without a panic. In a
    -- small area it has the lines of the disk at the selected index, or of the last one if there are
    -- fewer, in a row or more inside its border. Else it has a table with a row for each disk, in
    -- their order, in which this disk is marked and no other one.
    pub render-selected :
        (stats : SystemStats F (DiskDetail F)) (area : Rect)
        → 4 ≤ area.height
        → 3 ≤ area.width
        → HasBorder area
        → 0 < length stats.disk_details
        → (pre : List (DiskDetail F)) × (disk : DiskDetail F) × (post : List (DiskDetail F))
          × (stats.disk_details ≡ pre ++ disk ∷ post)
          × (length pre ≡ min stats.current_disk_index (length stats.disk_details - 1))
          × (0 < (below_first (p.inner area)).height)
          × (0 < (below_first (p.inner area)).width)
          × (render ops p stats area
              ≡ some (
                  if is_small area
                  then disk_panel area (disk_title ops stats) disk
                  else disk_table area (disk_title ops stats) pre disk post))
    unfolding render render_disk_list render_selected_disk_summary
    render-selected stats area h w border k =
        let (pre, disk, post, e, l, g) =
          split_at (selected_index stats) stats.disk_details (omega arith) in
        let rows =
          ap (disk_rows ops (selected_index stats) 0) e
          ∙ rows_split (selected_index stats) 0 pre disk post (omega arith) in
        let high : ltb area.height 3 ≡ false = ground (arith, h) in
        let inside : is_blank (p.inner area) ≡ false = ground (arith, h, w, border) in
        (
          pre,
          disk,
          post,
          e,
          l,
          omega arith,
          omega arith,
          elim (Bool-cases (is_small area)) [
            | inl small ↦ rw (high, some_disks stats k, small, g, inside) refl
            | inr large ↦ rw (high, some_disks stats k, large, rows) refl
          ],
        )
