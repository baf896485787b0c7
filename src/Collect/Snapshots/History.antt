-- ===== src/Collect/Snapshots/History.antt =====
-- Snapshots that are saved day after day.
use chaindash.Base.{
  leb, Bool-cases, length, drop, filter, length-append, length-drop, All, Text, insert_by, sort_by,
  Below, IsStrict, without, ℕ, zero, suc, ◌+◌, ◌-◌, ◌≤◌, ◌≡◌, refl, sym, ap, ◌∙◌, inl, inr, List,
  [], ◌∷◌, ◌++◌, map, append-nil, append_assoc, arith,
}
use chaindash.Collect.Snapshots.{
  StoredDailyNodeSnapshot, StoredDailyNodeSnapshotStore, daily_node_snapshot_history_limit,
  date_leb, upsert, prune, save_to, no_snapshots,
}
use chaindash.Collect.Snapshots.Lookup.{date_of}

module _ {F : Type 0} where
  unfoldable pub save_all :
      StoredDailyNodeSnapshotStore F
      → List (StoredDailyNodeSnapshot F)
      → StoredDailyNodeSnapshotStore F
  save_all s [] = s
  save_all s (x ∷ xs) = save_all (save_to s x) xs

  -- Each date is later than the ones before it.
  abbrev pub IsDaily : List (StoredDailyNodeSnapshot F) → Type 0
  IsDaily xs = IsStrict (map date_of xs)

  -- The last 32.
  abbrev pub latest : List (StoredDailyNodeSnapshot F) → List (StoredDailyNodeSnapshot F)
  latest xs = drop (length xs - daily_node_snapshot_history_limit) xs

  -- All before `x`, and daily among themselves.
  abbrev IsBefore : StoredDailyNodeSnapshot F → List (StoredDailyNodeSnapshot F) → Type 0
  IsBefore x [] = Unit
  IsBefore x (y ∷ ys) = Below y.date x.date × IsBefore x ys

  without-before :
      (x : StoredDailyNodeSnapshot F) (ys : List (StoredDailyNodeSnapshot F))
      → IsBefore x ys
      → without date_of x.date ys ≡ ys
  unfolding filter
  without-before x [] h = refl
  without-before x (y ∷ ys) h = ground (arith, h.0, without-before x ys h.1)

  sort_by-append :
      (x : StoredDailyNodeSnapshot F) (ys : List (StoredDailyNodeSnapshot F))
      → IsDaily ys
      → IsBefore x ys
      → sort_by date_leb (ys ++ x ∷ []) ≡ ys ++ x ∷ []
  unfolding sort_by insert_by
  sort_by-append x [] d h = refl
  sort_by-append x (y ∷ []) d h = rw (h.0.0) refl
  sort_by-append x (y ∷ z ∷ ys) d h =
      ap (insert_by date_leb y) (sort_by-append x (z ∷ ys) d.1 h.1) ∙ rw (d.0.0.0) refl

  upsert-before :
      (s : StoredDailyNodeSnapshotStore F) (x : StoredDailyNodeSnapshot F)
      → IsDaily s.snapshots
      → IsBefore x s.snapshots
      → (upsert s x).snapshots ≡ s.snapshots ++ x ∷ []
  unfolding upsert
  upsert-before s x d h = rw (without-before x s.snapshots h) (sort_by-append x s.snapshots d h)

  prune-latest : (s : StoredDailyNodeSnapshotStore F) → (prune s).snapshots ≡ latest s.snapshots
  unfolding prune
  prune-latest s = elim (Bool-cases (leb (length s.snapshots) 32)) [
    | inl fits ↦
        let none_over : length s.snapshots - 32 ≡ 0 = ground (arith, fits) in
        rw (fits, none_over) refl
    | inr over ↦ rw over refl
  ]

  drop-append :
      (n : ℕ) (xs ys : List (StoredDailyNodeSnapshot F))
      → n ≤ length xs
      → drop n (xs ++ ys) ≡ drop n xs ++ ys
  drop-append zero xs ys h = refl
  drop-append (suc n) [] ys h = absurd (omega (arith, h))
  drop-append (suc n) (x ∷ xs) ys h = drop-append n xs ys (omega (arith, h))

  drop-drop :
      (m n k : ℕ) (xs : List (StoredDailyNodeSnapshot F))
      → n + m ≡ k
      → drop m (drop n xs) ≡ drop k xs
  drop-drop m zero k xs e = let same : m ≡ k = omega (arith, e) in rw same refl
  drop-drop m (suc n) zero xs e = absurd (omega (arith, e))
  drop-drop zero (suc n) (suc k) [] e = refl
  drop-drop (suc m) (suc n) (suc k) [] e = refl
  drop-drop m (suc n) (suc k) (x ∷ xs) e = drop-drop m n k xs (omega (arith, e))

  -- To keep the last 32, and of these with one more the last 32, is to keep the last 32 of all.
  latest-append :
      (xs : List (StoredDailyNodeSnapshot F)) (x : StoredDailyNodeSnapshot F)
      → latest (latest xs ++ x ∷ []) ≡ latest (xs ++ x ∷ [])
  latest-append xs x =
      ap latest (sym (drop-append (length xs - 32) xs (x ∷ []) (omega arith)))
      ∙ drop-drop _ (length xs - 32) (length (xs ++ x ∷ []) - 32) (xs ++ x ∷ [])
          (omega (arith, length-drop (length xs - 32) (xs ++ x ∷ []), length-append xs (x ∷ [])))

  All-split :
      (P : Text → Type 0) (xs : List (StoredDailyNodeSnapshot F)) (x : StoredDailyNodeSnapshot F)
      (ys : List (StoredDailyNodeSnapshot F))
      → All P (map date_of (xs ++ x ∷ ys))
      → All P (map date_of xs) × P x.date
  All-split P [] x ys h = (tt, h.0)
  All-split P (y ∷ xs) x ys h = let rest = All-split P xs x ys h.1 in ((h.0, rest.0), rest.1)

  split-IsDaily :
      (xs : List (StoredDailyNodeSnapshot F)) (x : StoredDailyNodeSnapshot F)
      (ys : List (StoredDailyNodeSnapshot F))
      → IsDaily (xs ++ x ∷ ys)
      → IsDaily xs × IsBefore x xs
  split-IsDaily [] x ys h = (tt, tt)
  split-IsDaily (y ∷ xs) x ys h =
      let below = All-split (Below y.date) xs x ys h.0 in
      let rest = split-IsDaily xs x ys h.1 in ((below.0, rest.0), (below.1, rest.1))

  drop-IsDaily :
      (n : ℕ) (x : StoredDailyNodeSnapshot F) (xs : List (StoredDailyNodeSnapshot F))
      → IsDaily xs
      → IsBefore x xs
      → IsDaily (drop n xs) × IsBefore x (drop n xs)
  drop-IsDaily zero x xs d h = (d, h)
  drop-IsDaily (suc n) x [] d h = (tt, tt)
  drop-IsDaily (suc n) x (y ∷ ys) d h = drop-IsDaily n x ys d.1 h.1

  save_all-from :
      (s : StoredDailyNodeSnapshotStore F) (xs ys : List (StoredDailyNodeSnapshot F))
      → s.snapshots ≡ latest xs
      → IsDaily (xs ++ ys)
      → (save_all s ys).snapshots ≡ latest (xs ++ ys)
  unfolding save_all
  save_all-from s xs [] e h = rw (append-nil xs) e
  save_all-from s xs (y ∷ ys) e h =
      let split = split-IsDaily xs y ys h in
      let kept = drop-IsDaily (length xs - 32) y xs split.0 split.1 in
      let saved : (save_to s y).snapshots ≡ latest (xs ++ y ∷ []) =
        prune-latest (upsert s y)
        ∙ ap latest (upsert-before s y (rw e kept.0) (rw e kept.1))
        ∙ ap (λ zs. latest (zs ++ y ∷ [])) e
        ∙ latest-append xs y in
      rw (← append_assoc xs (y ∷ []) ys)
        (save_all-from (save_to s y) (xs ++ y ∷ []) ys saved (rw (append_assoc xs (y ∷ []) ys) h))

  -- Snapshots with later and later dates, saved one after the other: the store holds the last 32 of
  -- them, or all if there are fewer, in their order and unchanged.
  pub save_all-latest :
      (xs : List (StoredDailyNodeSnapshot F))
      → IsDaily xs
      → (save_all no_snapshots xs).snapshots ≡ latest xs
  save_all-latest xs h = save_all-from no_snapshots [] xs refl h
