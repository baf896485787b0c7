-- ===== src/Base/Sorts.antt =====
-- `slice::sort_by` as an insertion sort, which is stable as Rust's sort is, and `Vec::dedup`.
-- An order is given by its Boolean test "less or equal".
use Prim.Native.Nat.{ℕ, zero, suc}
use mathlib.Core.Path.{◌≡◌, refl}
use mathlib.Core.Logic.{inl, inr}
use mathlib.Core.Bool.{Bool, true, false, ◌||◌}
use mathlib.Core.List.{List, [], ◌∷◌, Perm}
use mathlib.Core.List.Perm
use native.Mathlib.Omega.{arith}
use chaindash.Base.Tests.{if◌then◌else◌, Bool-cases}
use chaindash.Base.Lists.{length, drop, any, count, All}
use chaindash.Base.Strings.{
  Text, text_eq, text_leb, text_leb_total, text_leb_trans, text_eq_iff, text_leb_antisymm,
}

-- `cmp(l, r).then_with(…)`, as a test: where the first keys agree the rest decides.
abbrev pub then_with : Bool → Bool → Bool → Bool
then_with same less rest = if same then rest else less

module _ {ℓ} {A : Type ℓ} where
  unfoldable pub insert_by : (A → A → Bool) → A → List A → List A
  insert_by le x [] = x ∷ []
  insert_by le x (y ∷ ys) = let rest = insert_by le x ys in if le x y then x ∷ y ∷ ys else y ∷ rest

  unfoldable pub sort_by : (A → A → Bool) → List A → List A
  unfolding insert_by
  sort_by le [] = []
  sort_by le (x ∷ xs) = insert_by le x (sort_by le xs)

  -- Each item is at most every later one.
  abbrev pub IsSortedBy : (A → A → Bool) → List A → Type 0
  IsSortedBy le [] = Unit
  IsSortedBy le (x ∷ xs) = All (λ y. le x y ≡ true) xs × IsSortedBy le xs

  pub any-insert_by :
      (le : A → A → Bool) (p : A → Bool) (x : A) (ys : List A)
      → any p (insert_by le x ys) ≡ (p x || any p ys)
  unfolding any insert_by
  any-insert_by le p x [] = refl
  any-insert_by le p x (y ∷ ys) = ground (arith, any-insert_by le p x ys)

  pub any-sort_by :
      (le : A → A → Bool) (p : A → Bool) (xs : List A) → any p (sort_by le xs) ≡ any p xs
  unfolding any sort_by
  any-sort_by le p [] = refl
  any-sort_by le p (x ∷ xs) =
      ground (arith, any-insert_by le p x (sort_by le xs), any-sort_by le p xs)

  count-insert_by :
      (le : A → A → Bool) (p : A → Bool) (x : A) (ys : List A)
      → count p (insert_by le x ys) ≡ count p (x ∷ ys)
  unfolding count insert_by
  count-insert_by le p x [] = refl
  count-insert_by le p x (y ∷ ys) = ground (arith, count-insert_by le p x ys)

  pub count-sort_by :
      (le : A → A → Bool) (p : A → Bool) (xs : List A) → count p (sort_by le xs) ≡ count p xs
  unfolding count sort_by
  count-sort_by le p [] = refl
  count-sort_by le p (x ∷ xs) =
      ground (arith, count-insert_by le p x (sort_by le xs), count-sort_by le p xs)

  insert_by-perm : (le : A → A → Bool) (x : A) (ys : List A) → Perm (insert_by le x ys) (x ∷ ys)
  unfolding insert_by
  insert_by-perm le x [] = Perm.refl (x ∷ [])
  insert_by-perm le x (y ∷ ys) = elim (Bool-cases (le x y)) [
    | inl less ↦ rw less (Perm.refl (x ∷ y ∷ ys))
    | inr more ↦ rw more (Perm.trans (Perm.cons y (insert_by-perm le x ys)) (Perm.swap x y ys))
  ]

  pub sort_by-perm : (le : A → A → Bool) (xs : List A) → Perm (sort_by le xs) xs
  unfolding sort_by
  sort_by-perm le [] = Perm.refl []
  sort_by-perm le (x ∷ xs) =
      Perm.trans (insert_by-perm le x (sort_by le xs)) (Perm.cons x (sort_by-perm le xs))

  length-insert_by :
      (le : A → A → Bool) (x : A) (ys : List A) → length (insert_by le x ys) ≡ suc (length ys)
  unfolding insert_by
  length-insert_by le x [] = refl
  length-insert_by le x (y ∷ ys) = ground (arith, length-insert_by le x ys)

  pub length-sort_by : (le : A → A → Bool) (xs : List A) → length (sort_by le xs) ≡ length xs
  unfolding sort_by
  length-sort_by le [] = refl
  length-sort_by le (x ∷ xs) =
      omega (arith, length-insert_by le x (sort_by le xs), length-sort_by le xs)

  pub drop-IsSortedBy :
      (le : A → A → Bool) (n : ℕ) (xs : List A) → IsSortedBy le xs → IsSortedBy le (drop n xs)
  drop-IsSortedBy le zero xs s = s
  drop-IsSortedBy le (suc n) [] s = tt
  drop-IsSortedBy le (suc n) (x ∷ xs) s = drop-IsSortedBy le n xs s.1

-- A total preorder.
pub record IsOrder {ℓ} {A : Type ℓ} (le : A → A → Bool) : Type ℓ where
  pub total : (a b : A) → le a b ≡ false → le b a ≡ true
  pub trans : (a b c : A) → le a b ≡ true → le b c ≡ true → le a c ≡ true

module _ {ℓ} {A : Type ℓ} {le : A → A → Bool} (o : IsOrder le) where
  All-insert_by :
      (z x : A) (ys : List A)
      → le z x ≡ true
      → All (λ y. le z y ≡ true) ys
      → All (λ y. le z y ≡ true) (insert_by le x ys)
  unfolding insert_by
  All-insert_by z x [] h k = (h, tt)
  All-insert_by z x (y ∷ ys) h k = elim (Bool-cases (le x y)) [
    | inl less ↦ rw less (h, k)
    | inr more ↦ rw more (k.0, All-insert_by z x ys h k.1)
  ]

  All-trans :
      (x y : A) (ys : List A)
      → le x y ≡ true
      → All (λ z. le y z ≡ true) ys
      → All (λ z. le x z ≡ true) ys
  All-trans x y [] h k = tt
  All-trans x y (z ∷ zs) h k = (o.trans x y z h k.0, All-trans x y zs h k.1)

  insert_by-IsSortedBy :
      (x : A) (ys : List A) → IsSortedBy le ys → IsSortedBy le (insert_by le x ys)
  unfolding insert_by
  insert_by-IsSortedBy x [] s = (tt, tt)
  insert_by-IsSortedBy x (y ∷ ys) s = elim (Bool-cases (le x y)) [
    | inl less ↦ rw less ((less, All-trans x y ys less s.0), s)
    | inr more ↦
        rw more (All-insert_by y x ys (o.total x y more) s.0, insert_by-IsSortedBy x ys s.1)
  ]

  pub sort_by-IsSortedBy : (xs : List A) → IsSortedBy le (sort_by le xs)
  unfolding sort_by
  sort_by-IsSortedBy [] = tt
  sort_by-IsSortedBy (x ∷ xs) = insert_by-IsSortedBy x (sort_by le xs) (sort_by-IsSortedBy xs)

pub text-IsOrder : IsOrder text_leb
text-IsOrder = record { total = text_leb_total; trans = text_leb_trans }

-- `dedup`: of equal neighbours the first stays.
unfoldable pub dedup : List Text → List Text
dedup [] = []
dedup (x ∷ []) = x ∷ []
dedup (x ∷ y ∷ rest) =
    let deduped = dedup (y ∷ rest) in if text_eq x y then deduped else x ∷ deduped

-- `sort` and then `dedup`.
unfoldable pub sorted_set : List Text → List Text
unfolding sort_by dedup text_eq text_leb
sorted_set xs = dedup (sort_by text_leb xs)

-- To sort by a text first, and by `le` where the texts agree.
pub then_with-IsOrder {ℓ} :
    {A : Type ℓ} (key : A → Text) {le : A → A → Bool}
    → IsOrder le
    → IsOrder (λ l r. then_with (text_eq (key l) (key r)) (text_leb (key l) (key r)) (le l r))
then_with-IsOrder key {le} o = record {
  total = λ a b. ground (
    arith,
    text_eq_iff (key a) (key b),
    text_eq_iff (key b) (key a),
    text_leb_total (key a) (key b),
    o.total a b,
  );
  trans = λ a b c. ground (
    arith,
    text_eq_iff (key a) (key b),
    text_eq_iff (key b) (key c),
    text_eq_iff (key a) (key c),
    text_leb_trans (key a) (key b) (key c),
    text_leb_antisymm (key a) (key b),
    o.trans a b c,
  );
}
