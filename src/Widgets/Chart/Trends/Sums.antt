-- ===== src/Widgets/Chart/Trends/Sums.antt =====
-- The sums over a window of ten values do not overflow where each value is small enough.
use mathlib.Core.List.{reverse-cons}
use chaindash.Base.{
  ltb, leb, Bool-cases, length, drop, take, length-drop, All, length-take, All-append, Text, codes,
  values, ℕ, zero, suc, ◌-◌, ◌*◌, ◌/◌, ◌≤◌, ◌≡◌, refl, ap, inl, inr, true, some, List, [], ◌∷◌,
  reverse, arith,
}
use chaindash.Data.Chain.{u64_max}
use chaindash.Widgets.Chart.Trends.{
  SeriesFloats, sum, sum_u64, arrow, divided, mean_of, rounded_nonzero_values,
  average_recent_nonzero_rounded, recent_window_trend_symbol,
}

-- A tenth of the largest `u64`.
abbrev pub value_limit : ℕ
value_limit = u64_max / 10

abbrev AllSmall : List ℕ → Type 0
AllSmall ns = All (λ n. n ≤ value_limit) ns

All-take : (k : ℕ) (ns : List ℕ) → AllSmall ns → AllSmall (take k ns)
All-take zero ns h = tt
All-take (suc k) [] h = tt
All-take (suc k) (n ∷ ns) h = (h.0, All-take k ns h.1)

All-drop : (k : ℕ) (ns : List ℕ) → AllSmall ns → AllSmall (drop k ns)
All-drop zero ns h = h
All-drop (suc k) [] h = tt
All-drop (suc k) (n ∷ ns) h = All-drop k ns h.1

All-reverse : (ns : List ℕ) → AllSmall ns → AllSmall (reverse ns)
All-reverse [] h = tt
All-reverse (n ∷ ns) h =
    rw (reverse-cons n ns)
      (All-append (λ m. m ≤ value_limit) (reverse ns) (n ∷ []) (All-reverse ns h.1) (h.0, tt))

sum-bound : (ns : List ℕ) → AllSmall ns → sum ns ≤ value_limit * length ns
unfolding sum
sum-bound [] h = omega arith
sum-bound (n ∷ ns) h = omega (arith, h.0, sum-bound ns h.1)

sum_u64-some : (ns : List ℕ) → AllSmall ns → length ns ≤ 10 → sum_u64 ns ≡ some (sum ns)
unfolding sum_u64
sum_u64-some ns h few =
    let bound = sum-bound ns h in
    let fits : leb (sum ns) u64_max ≡ true = ground arith in rw fits refl

module _ {F : Type 0} (ops : SeriesFloats F) where
  -- Each value rounds to at most a tenth of the largest `u64`.
  abbrev pub IsBounded : List F → Type 0
  IsBounded values = All (λ value. ops.round_u64 value ≤ value_limit) values

  rounded-AllSmall :
      (values : List F) → IsBounded values → AllSmall (rounded_nonzero_values ops values)
  unfolding rounded_nonzero_values
  rounded-AllSmall [] h = tt
  rounded-AllSmall (value ∷ values) h = elim (Bool-cases (ops.is_positive value)) [
    | inl positive ↦ rw positive (h.0, rounded-AllSmall values h.1)
    | inr other ↦ rw other (rounded-AllSmall values h.1)
  ]

  mean_of-some : (ns : List ℕ) → AllSmall ns → length ns ≤ 10 → (m : ℕ) × (mean_of ops ns ≡ some m)
  mean_of-some [] h few = (0, refl)
  mean_of-some (n ∷ ns) h few =
      (sum (n ∷ ns) / length (n ∷ ns), ap (divided (length (n ∷ ns))) (sum_u64-some (n ∷ ns) h few))

  pub average-some :
      (values : List F)
      → IsBounded values
      → (m : ℕ) × (average_recent_nonzero_rounded ops values 10 ≡ some m)
  unfolding average_recent_nonzero_rounded
  average-some values h =
      let ns = rounded_nonzero_values ops values in
      mean_of-some (take 10 (reverse ns))
        (All-take 10 (reverse ns) (All-reverse ns (rounded-AllSmall values h)))
        (omega (arith, length-take 10 (reverse ns)))

  pub trend-some :
      (values : List F)
      → IsBounded values
      → (t : Text) × (recent_window_trend_symbol ops values 10 ≡ some t)
  unfolding recent_window_trend_symbol
  trend-some values h =
      let ns = rounded_nonzero_values ops values in
      let small = rounded-AllSmall values h in
      elim (Bool-cases (ltb (length ns) (10 * 2))) [
        | inl short ↦ (codes "→", rw short refl)
        | inr long ↦
            let recent = drop (length ns - 10) ns in
            let previous = take 10 (drop (length ns - 10 * 2) ns) in
            (
              arrow ops (sum recent / 10) (sum previous / 10),
              rw
                  (
                    long,
                    sum_u64-some recent (All-drop _ ns small)
                        (ground (arith, length-drop (length ns - 10) ns)),
                    sum_u64-some previous (All-take 10 _ (All-drop _ ns small))
                        (omega (arith, length-take 10 (drop (length ns - 10 * 2) ns))),
                  )
                  refl,
            )
      ]
