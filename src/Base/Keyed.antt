-- ===== src/Base/Keyed.antt =====
-- Lists whose items have a text as their key, with no key twice: what is found by its key.
use mathlib.Core.Path.{◌≡◌, refl, ◌∙◌}
use mathlib.Core.Logic.{inl, inr}
use mathlib.Core.Bool.{Bool, false}
use mathlib.Core.List.{List, [], ◌∷◌, ◌++◌}
use mathlib.Core.Option.{Option, none, some}
use native.Mathlib.Omega.{arith}
use Prim.Native.Nat.{ℕ, ◌≤◌, zero, suc}
use chaindash.Base.Tests.{if◌then◌else◌, not, Bool-cases}
use chaindash.Base.Lists.{length, any, any-append, find, filter, drop}
use chaindash.Base.Strings.{Text, text_eq, text_eq_iff}
use chaindash.Base.Sorts.{insert_by, sort_by, any-insert_by, any-sort_by}

module _ {ℓ} {A : Type ℓ} (key : A → Text) where
  abbrev pub find_key : Text → List A → Option A
  find_key k xs = find (λ x. text_eq (key x) k) xs

  abbrev pub has_key : Text → List A → Bool
  has_key k xs = any (λ x. text_eq (key x) k) xs

  -- No key occurs twice.
  abbrev pub IsKeyed : List A → Type 0
  IsKeyed [] = Unit
  IsKeyed (x ∷ xs) = (has_key (key x) xs ≡ false) × IsKeyed xs

  -- The items with other keys.
  abbrev pub without : Text → List A → List A
  without k xs = filter (λ x. not (text_eq (key x) k)) xs

  pub length-without : (k : Text) (xs : List A) → length (without k xs) ≤ length xs
  unfolding filter
  length-without k [] = omega arith
  length-without k (x ∷ xs) = ground (arith, length-without k xs)

  pub find_key-missing : (k : Text) (xs : List A) → has_key k xs ≡ false → find_key k xs ≡ none
  unfolding find any
  find_key-missing k [] h = refl
  find_key-missing k (x ∷ xs) h = ground (arith, find_key-missing k xs)

  find_key-insert_by :
      (le : A → A → Bool) (x : A) (ys : List A) (k : Text)
      → has_key (key x) ys ≡ false
      → find_key k (insert_by le x ys) ≡ (if text_eq (key x) k then some x else find_key k ys)
  unfolding find any insert_by
  find_key-insert_by le x [] k h = refl
  find_key-insert_by le x (y ∷ ys) k h = ground (
    arith,
    find_key-insert_by le x ys k,
    text_eq_iff (key x) k,
    text_eq_iff (key y) k,
    text_eq_iff (key y) (key x),
  )

  pub find_key-sort_by :
      (le : A → A → Bool) (xs : List A) (k : Text)
      → IsKeyed xs
      → find_key k (sort_by le xs) ≡ find_key k xs
  unfolding find sort_by
  find_key-sort_by le [] k h = refl
  find_key-sort_by le (x ∷ xs) k h =
      rw
        (
          find_key-insert_by le x (sort_by le xs) k (any-sort_by le _ xs ∙ h.0),
          find_key-sort_by le xs k h.1,
        )
        refl

  insert_by-IsKeyed :
      (le : A → A → Bool) (x : A) (ys : List A)
      → has_key (key x) ys ≡ false
      → IsKeyed ys
      → IsKeyed (insert_by le x ys)
  unfolding insert_by any
  insert_by-IsKeyed le x [] h k = (h, tt)
  insert_by-IsKeyed le x (y ∷ ys) h k = elim (Bool-cases (le x y)) [
    | inl less ↦ rw less (h, k)
    | inr more ↦ rw more (
      ground (
        arith,
        any-insert_by le (λ z. text_eq (key z) (key y)) x ys,
        text_eq_iff (key x) (key y),
        text_eq_iff (key y) (key x),
        h,
        k.0,
      ),
      insert_by-IsKeyed le x ys (ground (arith, h)) k.1,
    )
  ]

  pub sort_by-IsKeyed : (le : A → A → Bool) (xs : List A) → IsKeyed xs → IsKeyed (sort_by le xs)
  unfolding sort_by
  sort_by-IsKeyed le [] h = tt
  sort_by-IsKeyed le (x ∷ xs) h =
      insert_by-IsKeyed le x (sort_by le xs) (any-sort_by le _ xs ∙ h.0) (sort_by-IsKeyed le xs h.1)

  has_key-without :
      (k j : Text) (xs : List A) → has_key k xs ≡ false → has_key k (without j xs) ≡ false
  unfolding any filter
  has_key-without k j [] h = refl
  has_key-without k j (x ∷ xs) h = ground (arith, has_key-without k j xs)

  pub has_key-without_self : (k : Text) (xs : List A) → has_key k (without k xs) ≡ false
  unfolding any filter
  has_key-without_self k [] = refl
  has_key-without_self k (x ∷ xs) = ground (arith, has_key-without_self k xs)

  pub without-IsKeyed : (k : Text) (xs : List A) → IsKeyed xs → IsKeyed (without k xs)
  unfolding filter
  without-IsKeyed k [] h = tt
  without-IsKeyed k (x ∷ xs) h = elim (Bool-cases (text_eq (key x) k)) [
    | inl same ↦ rw same (without-IsKeyed k xs h.1)
    | inr other ↦ rw other (has_key-without (key x) k xs h.0, without-IsKeyed k xs h.1)
  ]

  pub append_new-IsKeyed :
      (xs : List A) (x : A) → IsKeyed xs → has_key (key x) xs ≡ false → IsKeyed (xs ++ x ∷ [])
  unfolding any
  append_new-IsKeyed [] x h k = (refl, tt)
  append_new-IsKeyed (y ∷ ys) x h k = (
    ground (
      arith,
      any-append (λ z. text_eq (key z) (key y)) ys (x ∷ []),
      text_eq_iff (key x) (key y),
      text_eq_iff (key y) (key x),
      h.0,
      k,
    ),
    append_new-IsKeyed ys x h.1 (ground (arith, k)),
  )

  pub drop-IsKeyed : (n : ℕ) (xs : List A) → IsKeyed xs → IsKeyed (drop n xs)
  drop-IsKeyed zero xs h = h
  drop-IsKeyed (suc n) [] h = tt
  drop-IsKeyed (suc n) (x ∷ xs) h = drop-IsKeyed n xs h.1

  -- The item that is set in place of the one with its key is found, and the others as before.
  pub find_key-set :
      (xs : List A) (x : A) (k : Text)
      → find_key k (without (key x) xs ++ x ∷ [])
        ≡ (if text_eq (key x) k then some x else find_key k xs)
  unfolding find filter
  find_key-set [] x k = refl
  find_key-set (y ∷ ys) x k = ground (
    arith,
    find_key-set ys x k,
    text_eq_iff (key y) (key x),
    text_eq_iff (key y) k,
    text_eq_iff (key x) k,
  )
