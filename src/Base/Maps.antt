-- ===== src/Base/Maps.antt =====
-- `HashMap<String, V>` as an association list. The program iterates over a map only to sort its
-- values, to take the one entry of a map of length 1, or to count.
use mathlib.Core.Path.{◌≡◌, refl, subst}
use mathlib.Core.Logic.{inl, inr}
use mathlib.Core.List.{List, [], ◌∷◌}
use mathlib.Core.Option.{Option, none, some}
use native.Mathlib.Omega.{arith}
use chaindash.Base.Tests.{if◌then◌else◌, Bool-cases}
use chaindash.Base.Strings.{Text, text_eq, text_eq_iff, text_eq_refl}

abbrev pub Map {ℓ} : Type ℓ → Type ℓ
Map V = List (Text × V)

module _ {ℓ} {V : Type ℓ} where
  -- `HashMap::get`
  unfoldable pub lookup : Text → Map V → Option V
  lookup k [] = none
  lookup k ((j, v) ∷ m) = let rest = lookup k m in if text_eq j k then some v else rest

  -- `HashMap::insert`; the old value that Rust returns is `lookup k m`.
  unfoldable pub insert : Text → V → Map V → Map V
  insert k v [] = (k, v) ∷ []
  insert k v ((j, w) ∷ m) =
      let rest = insert k v m in if text_eq j k then (k, v) ∷ m else (j, w) ∷ rest

  -- `HashMap::remove`
  unfoldable pub remove : Text → Map V → Map V
  remove k [] = []
  remove k ((j, v) ∷ m) = let rest = remove k m in if text_eq j k then rest else (j, v) ∷ rest

  -- `HashMap::values`
  unfoldable pub values : Map V → List V
  values [] = []
  values ((j, v) ∷ m) = v ∷ values m

  pub lookup-insert :
      (new key : Text) (v : V) (m : Map V)
      → lookup key (insert new v m) ≡ (if text_eq new key then some v else lookup key m)
  unfolding lookup insert
  lookup-insert new key v [] = refl
  lookup-insert new key v (entry ∷ m) = ground (
    arith,
    text_eq_iff new key,
    text_eq_iff (entry.0) new,
    text_eq_iff (entry.0) key,
    lookup-insert new key v m,
  )

  pub lookup-insert_self : (k : Text) (v : V) (m : Map V) → lookup k (insert k v m) ≡ some v
  lookup-insert_self k v m = simp (lookup-insert, text_eq_refl)

  pub lookup-remove :
      (k j : Text) (m : Map V) → lookup j (remove k m) ≡ (if text_eq k j then none else lookup j m)
  unfolding lookup remove
  lookup-remove k j [] = ground arith
  lookup-remove k j ((i, w) ∷ m) =
      ground (arith, text_eq_iff k j, text_eq_iff i k, text_eq_iff i j, lookup-remove k j m)

pub some_eq {ℓ} : {A : Type ℓ} (a b : A) → some a ≡ some b → a ≡ b
some_eq a b e = cc

module _ {ℓ} {V : Type ℓ} where
  -- To insert what is there changes nothing.
  pub insert-lookup : (k : Text) (v : V) (m : Map V) → lookup k m ≡ some v → insert k v m ≡ m
  unfolding lookup insert
  insert-lookup k v [] e = cc
  insert-lookup k v ((j, w) ∷ m) e =
      ground (arith, text_eq_iff j k, some_eq w v, insert-lookup k v m)

module _ {ℓ κ} {V : Type ℓ} where
  -- A predicate on every value.
  abbrev pub AllValues : (V → Type κ) → Map V → Type κ
  AllValues P [] = Unit
  AllValues P ((k, v) ∷ m) = P v × AllValues P m

  pub AllValues-insert :
      (P : V → Type κ) (k : Text) (v : V) (m : Map V)
      → P v
      → AllValues P m
      → AllValues P (insert k v m)
  unfolding insert
  AllValues-insert P k v [] h a = (h, tt)
  AllValues-insert P k v ((j, w) ∷ m) h a = elim (Bool-cases (text_eq j k)) [
    | inl same ↦ rw same (h, a.1)
    | inr other ↦ rw other (a.0, AllValues-insert P k v m h a.1)
  ]

  pub AllValues-remove :
      (P : V → Type κ) (k : Text) (m : Map V) → AllValues P m → AllValues P (remove k m)
  unfolding remove
  AllValues-remove P k [] a = tt
  AllValues-remove P k ((j, w) ∷ m) a = elim (Bool-cases (text_eq j k)) [
    | inl same ↦ rw same (AllValues-remove P k m a.1)
    | inr other ↦ rw other (a.0, AllValues-remove P k m a.1)
  ]

  pub AllValues-lookup :
      (P : V → Type κ) (k : Text) (m : Map V) {v : V} → AllValues P m → lookup k m ≡ some v → P v
  unfolding lookup
  AllValues-lookup P k [] a e = cc
  AllValues-lookup P k ((j, w) ∷ m) a e = elim (Bool-cases (text_eq j k)) [
    | inl same ↦ subst P (some_eq w _ (rw same at e)) a.0
    | inr other ↦ AllValues-lookup P k m a.1 (rw other at e)
  ]
