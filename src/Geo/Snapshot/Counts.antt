-- ===== src/Geo/Snapshot/Counts.antt =====
-- Every peer is counted once: in its country, or as unknown.
use chaindash.Base.{
  if◌then◌else◌, Bool-cases, Option-cases, length, Text, text_eq, text_eq_iff, Map, insert_by,
  sort_by, contains, ℕ, ◌+◌, ◌≡◌, refl, sym, ap, ◌∙◌, inl, inr, Bool, true, false, Option, none,
  some, List, [], ◌∷◌, map, arith,
}
use chaindash.Geo.Snapshot.{
  no_rows, GeoViewSnapshot, assemble_snapshot, count_country, normalize_country_code, Tally,
  count_row, count_rows, CountryCount, add_one, count_leb, key_leb, country_count,
  country_counts_of,
}

-- The sum of a number of each item.
unfoldable pub sum_of {ℓ} : {A : Type ℓ} → (A → ℕ) → List A → ℕ
sum_of f [] = 0
sum_of f (x ∷ xs) = f x + sum_of f xs

module _ {ℓ} {A : Type ℓ} where
  sum_of-insert_by :
      (f : A → ℕ) (le : A → A → Bool) (x : A) (ys : List A)
      → sum_of f (insert_by le x ys) ≡ f x + sum_of f ys
  unfolding sum_of insert_by
  sum_of-insert_by f le x [] = refl
  sum_of-insert_by f le x (y ∷ ys) = ground (arith, sum_of-insert_by f le x ys)

  sum_of-sort_by :
      (f : A → ℕ) (le : A → A → Bool) (xs : List A) → sum_of f (sort_by le xs) ≡ sum_of f xs
  unfolding sum_of sort_by
  sum_of-sort_by f le [] = refl
  sum_of-sort_by f le (x ∷ xs) =
      omega (arith, sum_of-insert_by f le x (sort_by le xs), sum_of-sort_by f le xs)

sum-ones {ℓ} : {A : Type ℓ} (xs : List A) → 0 + sum_of (λ x. 1) xs ≡ length xs
unfolding sum_of
sum-ones [] = omega arith
sum-ones (x ∷ xs) = omega (arith, sum-ones xs)

sum_of-map {ℓ κ} :
    {A : Type ℓ} {B : Type κ} (f : B → ℕ) (g : A → B) (xs : List A)
    → sum_of f (map g xs) ≡ sum_of (λ x. f (g x)) xs
unfolding sum_of
sum_of-map f g [] = refl
sum_of-map f g (x ∷ xs) = omega (arith, sum_of-map f g xs)

-- The sum over the listed countries is the sum over the totals.
sum_of-country_counts_of :
    (f : CountryCount → ℕ) (totals : Map ℕ)
    → sum_of f (country_counts_of totals) ≡ sum_of (λ e. f (country_count e)) totals
unfolding country_counts_of
sum_of-country_counts_of f totals =
    sum_of-sort_by f count_leb (map country_count (sort_by key_leb totals))
    ∙ sum_of-map f country_count (sort_by key_leb totals)
    ∙ sum_of-sort_by (λ e. f (country_count e)) key_leb totals

sum-add_one :
    (c : Text) (m : Map ℕ)
    → sum_of (λ (e : Text × ℕ). e.1) (add_one c m) ≡ sum_of (λ (e : Text × ℕ). e.1) m + 1
unfolding sum_of add_one
sum-add_one c [] = refl
sum-add_one c ((j, n) ∷ m) = ground (arith, sum-add_one c m)

-- The rows that count: of each address the first.
unfoldable pub first_rows : List Text → List (Text × Text) → List (Text × Text)
first_rows seen [] = []
first_rows seen ((ip, country) ∷ rows) =
    let again = first_rows seen rows in
    let counted = first_rows (ip ∷ seen) rows in
    if contains seen ip then again else (ip, country) ∷ counted

first_rows-again :
    (seen : List Text) (ip country : Text) (rows : List (Text × Text))
    → contains seen ip ≡ true
    → first_rows seen ((ip, country) ∷ rows) ≡ first_rows seen rows
unfolding first_rows
first_rows-again seen ip country rows again = rw again refl

first_rows-fresh :
    (seen : List Text) (ip country : Text) (rows : List (Text × Text))
    → contains seen ip ≡ false
    → first_rows seen ((ip, country) ∷ rows) ≡ (ip, country) ∷ first_rows (ip ∷ seen) rows
unfolding first_rows
first_rows-fresh seen ip country rows fresh = rw fresh refl

-- 1 for a peer in the country, and 0 for another.
unfoldable pub in_country : Text → Option Text → ℕ
in_country code none = 0
in_country code (some c) = if text_eq c code then 1 else 0

abbrev pub unknown : Option Text → ℕ
unknown none = 1
unknown (some c) = 0

-- The number that stands beside a code.
abbrev pub peers_at : Text → CountryCount → ℕ
peers_at code c = if text_eq c.country_code code then c.peer_count else 0

abbrev at : Text → Text × ℕ → ℕ
at code e = peers_at code (country_count e)

sum_of-add_one :
    (code c : Text) (m : Map ℕ)
    → sum_of (at code) (add_one c m) ≡ sum_of (at code) m + in_country code (some c)
unfolding sum_of add_one in_country
sum_of-add_one code c [] = ground arith
sum_of-add_one code c ((j, n) ∷ m) =
    ground (arith, sum_of-add_one code c m, text_eq_iff j c, text_eq_iff j code)

count_row-again :
    (t : Tally) (ip country : Text) → contains t.seen_ips ip ≡ true → count_row t (ip, country) ≡ t
unfolding count_row
count_row-again t ip country again = rw again refl

seen-count_row :
    (t : Tally) (ip country : Text)
    → contains t.seen_ips ip ≡ false
    → (count_row t (ip, country)).seen_ips ≡ ip ∷ t.seen_ips
unfolding count_row
seen-count_row t ip country fresh = rw fresh (elim (Option-cases (normalize_country_code country)) [
  | inl invalid ↦ rw invalid (unfold count_country in refl)
  | inr (c, valid) ↦ rw valid (unfold count_country in refl)
])

-- A number that each row of a new address raises by a weight, and no other row changes.
module _ (measure : Tally → ℕ) (weight : Text × Text → ℕ)
    (raises : (t : Tally) (ip country : Text)
      → contains t.seen_ips ip ≡ false
      → measure (count_row t (ip, country)) ≡ measure t + weight (ip, country)) where
  measure-count_rows :
      (t : Tally) (rows : List (Text × Text))
      → measure (count_rows t rows) ≡ measure t + sum_of weight (first_rows t.seen_ips rows)
  unfolding count_rows
  measure-count_rows t [] = unfold sum_of first_rows in omega arith
  measure-count_rows t ((ip, country) ∷ rows) = elim (Bool-cases (contains t.seen_ips ip)) [
    | inl again ↦
        rw (count_row-again t ip country again, first_rows-again t.seen_ips ip country rows again)
          (measure-count_rows t rows)
    | inr fresh ↦
        measure-count_rows (count_row t (ip, country)) rows
        ∙ rw
            (
              seen-count_row t ip country fresh,
              raises t ip country fresh,
              first_rows-fresh t.seen_ips ip country rows fresh,
            )
            (unfold sum_of in omega arith)
  ]

module _ (t : Tally) (ip country : Text) (fresh : contains t.seen_ips ip ≡ false) where
  totals-count_row :
      (code : Text)
      → sum_of (at code) (count_row t (ip, country)).country_totals
        ≡ sum_of (at code) t.country_totals + in_country code (normalize_country_code country)
  unfolding count_row
  totals-count_row code = rw fresh (elim (Option-cases (normalize_country_code country)) [
    | inl invalid ↦ rw invalid (unfold count_country in_country in omega arith)
    | inr (c, valid) ↦ rw valid (unfold count_country in sum_of-add_one code c t.country_totals)
  ])

  all-count_row :
      sum_of (λ (e : Text × ℕ). e.1) (count_row t (ip, country)).country_totals
        + (count_row t (ip, country)).unknown_country_count
      ≡ sum_of (λ (e : Text × ℕ). e.1) t.country_totals + t.unknown_country_count + 1
  unfolding count_row
  all-count_row = rw fresh (elim (Option-cases (normalize_country_code country)) [
    | inl invalid ↦ rw invalid (unfold count_country in omega arith)
    | inr (c, valid) ↦
        rw valid (unfold count_country in omega (arith, sum-add_one c t.country_totals))
  ])

  length-count_row : length (count_row t (ip, country)).seen_ips ≡ length t.seen_ips + 1
  length-count_row = rw (seen-count_row t ip country fresh) (omega arith)

length-count_rows :
    (rows : List (Text × Text))
    → length (count_rows no_rows rows).seen_ips ≡ 0 + sum_of (λ r. 1) (first_rows [] rows)
length-count_rows = measure-count_rows (λ t. length t.seen_ips) (λ r. 1) length-count_row no_rows

all-count_rows :
    (rows : List (Text × Text))
    → sum_of (λ (e : Text × ℕ). e.1) (count_rows no_rows rows).country_totals
        + (count_rows no_rows rows).unknown_country_count
      ≡ 0 + sum_of (λ r. 1) (first_rows [] rows)
all-count_rows rows =
    measure-count_rows
      (λ t. sum_of (λ (e : Text × ℕ). e.1) t.country_totals + t.unknown_country_count) (λ r. 1)
      all-count_row no_rows rows
    ∙ unfold sum_of in refl

-- Every peer is counted once: the total is the sum of the listed counts and the unknown ones, and it
-- is the number of different addresses.
pub total-assemble_snapshot :
    (rows : List (Text × Text))
    → let s : GeoViewSnapshot = assemble_snapshot rows in
      (s.total_peers ≡ length (first_rows [] rows))
      × (s.total_peers
          ≡ sum_of (λ (c : CountryCount). c.peer_count) s.country_counts + s.unknown_country_count)
unfolding assemble_snapshot
total-assemble_snapshot rows = (
  length-count_rows rows ∙ sum-ones (first_rows [] rows),
  length-count_rows rows
      ∙ sym (all-count_rows rows)
      ∙ ap (λ n. n + (count_rows no_rows rows).unknown_country_count)
          (sym (
            sum_of-country_counts_of (λ c. c.peer_count) (count_rows no_rows rows).country_totals)),
)

-- The count that is listed for a code is the number of the addresses whose first row has a country
-- that normalises to it; a code of which there is none is not counted.
pub peers_at-assemble_snapshot :
    (code : Text) (rows : List (Text × Text))
    → sum_of (peers_at code) (assemble_snapshot rows).country_counts
      ≡ sum_of
          (λ (r : Text × Text). in_country code (normalize_country_code (r.1)))
          (first_rows [] rows)
unfolding assemble_snapshot
peers_at-assemble_snapshot code rows =
    sum_of-country_counts_of (peers_at code) (count_rows no_rows rows).country_totals
    ∙ measure-count_rows (λ t. sum_of (at code) t.country_totals)
        (λ (r : Text × Text). in_country code (normalize_country_code (r.1)))
        (λ t ip country fresh. totals-count_row t ip country fresh code) no_rows rows
    ∙ unfold sum_of in omega arith
