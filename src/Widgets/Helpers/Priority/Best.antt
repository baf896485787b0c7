-- ===== src/Widgets/Helpers/Priority/Best.antt =====
-- The lines that stay are those with less than `max_rows` lines before them by priority and index.
use chaindash.Widgets.Helpers.Priority.{
  PriorityLine, ranked, rank_leb, keep_lines, select_prioritized_lines,
}
use chaindash.Widgets.Helpers.Priority.Ranks.{
  Entry, before, same, IsIndexed, rank-IsOrder, sort_by-IsIndexed, kept-take,
}
use chaindash.Base.{
  ltb, leb, ◌==◌, if◌then◌else◌, Bool-cases, length, take, any, count, All, All-map, sort_by,
  any-sort_by, count-sort_by, sort_by-IsSortedBy, ℕ, ◌+◌, ◌≤◌, ◌<◌, ◌≡◌, refl, sym, ◌∙◌, inl, inr,
  Bool, true, false, List, [], ◌∷◌, map, arith,
}

-- Whether less than `n` of the entries come before this one.
abbrev pub is_best : ℕ → List Entry → Entry → Bool
is_best n entries x = ltb (count (before x) entries) n

count-le : (p : Entry → Bool) (xs : List Entry) → count p xs ≤ length xs
unfolding count
count-le p [] = omega arith
count-le p (x ∷ xs) = ground (arith, count-le p xs)

-- No entry comes before itself.
count-lt : (x : Entry) (xs : List Entry) → any (same x) xs ≡ true → count (before x) xs < length xs
unfolding any count
count-lt x [] h = cc
count-lt x (y ∷ ys) h = elim (Bool-cases (same x y)) [
  | inl here ↦ ground (arith, count-le (before x) ys)
  | inr later ↦ ground (arith, count-lt x ys)
]

-- Every entry is one of them.
All-same : (xs : List Entry) → All (λ x. any (same x) xs ≡ true) xs
unfolding any
All-same [] = tt
All-same (x ∷ xs) = (ground arith, All-map (λ y h. ground arith) xs (All-same xs))

module _ {ℓ} {A : Type ℓ} where
  -- The lines whose entries are best, in their order.
  unfoldable pub best : ℕ → List Entry → ℕ → List (PriorityLine A) → List A
  best n entries index [] = []
  best n entries index ((priority, line) ∷ specs) =
      let rest = best n entries (index + 1) specs in
      if is_best n entries (index, priority) then line ∷ rest else rest

  fresh_index :
      (k p index : ℕ) (specs : List (PriorityLine A))
      → k < index
      → any (λ y. k == y.0) (ranked index specs) ≡ false
  unfolding any
  fresh_index k p index [] h = refl
  fresh_index k p index ((q, line) ∷ specs) h = ground (arith, fresh_index k p (index + 1) specs)

  pub ranked-IsIndexed :
      (index : ℕ) (specs : List (PriorityLine A)) → IsIndexed (ranked index specs)
  ranked-IsIndexed index [] = tt
  ranked-IsIndexed index ((p, line) ∷ specs) =
      (fresh_index index p (index + 1) specs (omega arith), ranked-IsIndexed (index + 1) specs)

  pub length-ranked :
      (index : ℕ) (specs : List (PriorityLine A)) → length (ranked index specs) ≡ length specs
  length-ranked index [] = refl
  length-ranked index ((p, line) ∷ specs) = omega (arith, length-ranked (index + 1) specs)

  -- With the entries sorted, the first `n` are kept exactly where they are best.
  keep_lines-best :
      (n : ℕ) (entries : List Entry) (index : ℕ) (specs : List (PriorityLine A))
      → IsIndexed entries
      → All (λ x. any (same x) entries ≡ true) (ranked index specs)
      → keep_lines (take n (sort_by rank_leb entries)) index specs ≡ best n entries index specs
  unfolding keep_lines best
  keep_lines-best n entries index [] d h = refl
  keep_lines-best n entries index ((p, line) ∷ specs) d h =
      let is_kept =
        kept-take n (index, p) (sort_by rank_leb entries) (sort_by-IsSortedBy rank-IsOrder entries)
          (sort_by-IsIndexed entries d) (any-sort_by rank_leb (same (index, p)) entries ∙ h.0) in
      rw
        (
          is_kept,
          count-sort_by rank_leb (before (index, p)) entries,
          keep_lines-best n entries (index + 1) specs d h.1,
        )
        refl

  -- With no row nothing is best, with enough rows everything is.
  best_no_row :
      (entries : List Entry) (index : ℕ) (specs : List (PriorityLine A))
      → best 0 entries index specs ≡ []
  unfolding best
  best_no_row entries index [] = refl
  best_no_row entries index ((p, line) ∷ specs) =
      ground (arith, best_no_row entries (index + 1) specs)

  best_enough_rows :
      (n : ℕ) (entries : List Entry) (index : ℕ) (specs : List (PriorityLine A))
      → length entries ≤ n
      → All (λ x. any (same x) entries ≡ true) (ranked index specs)
      → best n entries index specs ≡ map (λ spec. spec.1) specs
  unfolding best
  best_enough_rows n entries index [] h k = refl
  best_enough_rows n entries index ((p, line) ∷ specs) h k =
      ground
        (arith, count-lt (index, p) entries k.0, best_enough_rows n entries (index + 1) specs h k.1)

  pub select-best :
      (specs : List (PriorityLine A)) (max_rows : ℕ)
      → select_prioritized_lines specs max_rows ≡ best max_rows (ranked 0 specs) 0 specs
  unfolding select_prioritized_lines
  select-best specs max_rows = elim (Bool-cases (max_rows == 0)) [
    | inl none_left ↦
        rw none_left
          (let e : max_rows ≡ 0 = ground arith in rw e (sym (best_no_row (ranked 0 specs) 0 specs)))
    | inr rows ↦ elim (Bool-cases (leb (length specs) max_rows)) [
      | inl enough ↦
          rw (rows, enough)
            (sym (
              best_enough_rows max_rows (ranked 0 specs) 0 specs
                (ground (arith, length-ranked 0 specs)) (All-same (ranked 0 specs))))
      | inr few ↦
          rw (rows, few)
            (keep_lines-best max_rows (ranked 0 specs) 0 specs (ranked-IsIndexed 0 specs)
              (All-same (ranked 0 specs)))
    ]
  ]
