-- ===== src/Base/Sets.antt =====
-- What `sort` followed by `dedup` gives: a strictly sorted list with the same members.
use mathlib.Core.Path.{◌≡◌, refl}
use mathlib.Core.Logic.{inl, inr}
use mathlib.Core.Bool.{Bool, true, false, ◌||◌}
use mathlib.Core.List.{List, [], ◌∷◌, ◌++◌}
use native.Mathlib.Omega.{arith}
use chaindash.Base.Tests.{Bool-cases}
use chaindash.Base.Lists.{any, All}
use chaindash.Base.Strings.{Text, text_eq, text_leb, text_eq_iff, text_leb_trans, text_leb_antisymm}
use chaindash.Base.Sorts.{
  sort_by, IsSortedBy, sort_by-IsSortedBy, text-IsOrder, any-sort_by, dedup, sorted_set,
}

-- `contains`
unfoldable pub contains : List Text → Text → Bool
contains [] x = false
contains (y ∷ ys) x = text_eq y x || contains ys x

-- Below, and not the same.
abbrev pub Below : Text → Text → Type 0
Below x y = (text_leb x y ≡ true) × (text_eq x y ≡ false)

abbrev pub IsStrict : List Text → Type 0
IsStrict [] = Unit
IsStrict (x ∷ xs) = All (Below x) xs × IsStrict xs

pub contains-any : (xs : List Text) (x : Text) → contains xs x ≡ any (λ y. text_eq y x) xs
unfolding contains any
contains-any [] x = refl
contains-any (y ∷ ys) x = ground (arith, contains-any ys x)

contains-dedup : (xs : List Text) (x : Text) → contains (dedup xs) x ≡ contains xs x
unfolding contains dedup
contains-dedup [] x = refl
contains-dedup (y ∷ []) x = refl
contains-dedup (y ∷ z ∷ rest) x = ground (arith, contains-dedup (z ∷ rest) x, text_eq_iff y z)

pub contains-sorted_set : (xs : List Text) (x : Text) → contains (sorted_set xs) x ≡ contains xs x
unfolding sorted_set
contains-sorted_set xs x = simp (contains-dedup, contains-any, any-sort_by)

Below-ne : (x y z : Text) → Below x y → text_leb y z ≡ true → text_eq x z ≡ false
Below-ne x y z h k = ground (arith, text_leb_antisymm x y, text_eq_iff x z, text_eq_iff x y)

Below-step :
    (x y : Text) (ys : List Text) → Below x y → All (λ z. text_leb y z ≡ true) ys → All (Below x) ys
Below-step x y [] h k = tt
Below-step x y (z ∷ zs) h k =
    ((text_leb_trans x y z h.0 k.0, Below-ne x y z h k.0), Below-step x y zs h k.1)

All-dedup {κ} : (P : Text → Type κ) (xs : List Text) → All P xs → All P (dedup xs)
unfolding dedup
All-dedup P [] h = tt
All-dedup P (x ∷ []) h = h
All-dedup P (x ∷ y ∷ rest) h = elim (Bool-cases (text_eq x y)) [
  | inl same ↦ rw same (All-dedup P (y ∷ rest) h.1)
  | inr other ↦ rw other (h.0, All-dedup P (y ∷ rest) h.1)
]

dedup-IsStrict : (xs : List Text) → IsSortedBy text_leb xs → IsStrict (dedup xs)
unfolding dedup
dedup-IsStrict [] s = tt
dedup-IsStrict (x ∷ []) s = (tt, tt)
dedup-IsStrict (x ∷ y ∷ rest) s = elim (Bool-cases (text_eq x y)) [
  | inl same ↦ rw same (dedup-IsStrict (y ∷ rest) s.1)
  | inr other ↦ rw other (
    All-dedup (Below x) (y ∷ rest) ((s.0.0, other), Below-step x y rest (s.0.0, other) s.1.0),
    dedup-IsStrict (y ∷ rest) s.1,
  )
]

pub sorted_set-IsStrict : (xs : List Text) → IsStrict (sorted_set xs)
unfolding sorted_set
sorted_set-IsStrict xs = dedup-IsStrict (sort_by text_leb xs) (sort_by-IsSortedBy text-IsOrder xs)

pub contains-append :
    (xs ys : List Text) (x : Text) → contains (xs ++ ys) x ≡ (contains xs x || contains ys x)
unfolding contains
contains-append [] ys x = refl
contains-append (y ∷ xs) ys x = ground (arith, contains-append xs ys x)
