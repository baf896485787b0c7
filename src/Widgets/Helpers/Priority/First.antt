-- ===== src/Widgets/Helpers/Priority/First.antt =====
-- The line with the smallest priority stays as long as there is a row.
use chaindash.Widgets.Helpers.Priority.{PriorityLine, ranked, select_prioritized_lines}
use chaindash.Widgets.Helpers.Priority.Ranks.{Entry, before}
use chaindash.Widgets.Helpers.Priority.Best.{is_best, best, select-best}
use chaindash.Base.{
  Bool-cases, length, count, All, Has, ℕ, ◌+◌, ◌<◌, ◌≡◌, refl, sym, ap, ◌∙◌, inl, inr, true, List,
  [], ◌∷◌, ◌++◌, arith,
}

module _ {A : Type 0} where
  -- Every line has a larger priority number.
  abbrev pub IsAfter : ℕ → List (PriorityLine A) → Type 0
  IsAfter p specs = All (λ spec. p < spec.0) specs

  none_before-IsAfter :
      (k p index : ℕ) (specs : List (PriorityLine A))
      → IsAfter p specs
      → count (before (k, p)) (ranked index specs) ≡ 0
  unfolding count
  none_before-IsAfter k p index [] h = refl
  none_before-IsAfter k p index ((q, line) ∷ specs) h =
      ground (arith, none_before-IsAfter k p (index + 1) specs h.1)

  none_before :
      (k p index : ℕ) (line : A) (pre post : List (PriorityLine A))
      → k ≡ index + length pre
      → IsAfter p pre
      → IsAfter p post
      → count (before (k, p)) (ranked index (pre ++ (p, line) ∷ post)) ≡ 0
  unfolding count
  none_before k p index line [] post e h h' =
      ground (arith, none_before-IsAfter k p (index + 1) post h')
  none_before k p index line ((q, l) ∷ pre) post e h h' =
      ground (arith, none_before k p (index + 1) line pre post (omega arith) h.1 h')

  best-Has :
      (n : ℕ) (entries : List Entry) (k index p : ℕ) (line : A) (pre post : List (PriorityLine A))
      → k ≡ index + length pre
      → count (before (k, p)) entries ≡ 0
      → 0 < n
      → Has line (best n entries index (pre ++ (p, line) ∷ post))
  unfolding best
  best-Has n entries k index p line [] post e h l =
      let here : k ≡ index = omega arith in
      let first : is_best n entries (index, p) ≡ true =
        ap (λ i. is_best n entries (i, p)) (sym here) ∙ (rw h (ground arith)) in
      rw first (inl refl)
  best-Has n entries k index p line ((q, l) ∷ pre) post e h m =
      let rest = best-Has n entries k (index + 1) p line pre post (omega arith) h m in
      elim (Bool-cases (is_best n entries (index, q))) [
        | inl kept_too ↦ rw kept_too (inr rest)
        | inr left_out ↦ rw left_out rest
      ]

  -- The first line by priority is kept if any line is.
  pub select_prioritized_lines-first :
      (max_rows p : ℕ) (line : A) (pre post : List (PriorityLine A))
      → 0 < max_rows
      → IsAfter p pre
      → IsAfter p post
      → Has line (select_prioritized_lines (pre ++ (p, line) ∷ post) max_rows)
  select_prioritized_lines-first max_rows p line pre post h k k' =
      let specs = pre ++ (p, line) ∷ post in
      rw (select-best specs max_rows) (
        best-Has max_rows (ranked 0 specs) (0 + length pre) 0 p line pre post refl
          (none_before (0 + length pre) p 0 line pre post refl k k') h)
