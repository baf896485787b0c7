-- ===== src/Widgets/Helpers/Priority/Ranks.antt =====
-- In a list of entries, sorted by rank and without a repeated index, the first n are those with less
-- than n entries before them.
use chaindash.Widgets.Helpers.Priority.{rank_leb, kept}
use chaindash.Base.{
  ltb, ◌==◌, not, Bool-cases, take, any, count, All, insert_by, sort_by, IsSortedBy, any-insert_by,
  any-sort_by, IsOrder, ℕ, zero, suc, ◌≡◌, refl, ◌∙◌, inl, inr, Bool, true, false, ◌&&◌, List, [],
  ◌∷◌, arith,
}

abbrev pub Entry : Type 0
Entry = ℕ × ℕ

-- `y` comes before `x`.
abbrev pub before : Entry → Entry → Bool
before x y = not (rank_leb x y)

abbrev pub same_index : Entry → Entry → Bool
same_index x y = x.0 == y.0

abbrev pub same : Entry → Entry → Bool
same x y = (x.0 == y.0) && (x.1 == y.1)

-- No index is repeated.
abbrev pub IsIndexed : List Entry → Type 0
IsIndexed [] = Unit
IsIndexed (x ∷ xs) = (any (same_index x) xs ≡ false) × IsIndexed xs

pub rank-IsOrder : IsOrder rank_leb
rank-IsOrder = record { total = λ a b h. ground arith; trans = λ a b c h k. ground arith }

insert_by-IsIndexed :
    (x : Entry) (ys : List Entry)
    → any (same_index x) ys ≡ false
    → IsIndexed ys
    → IsIndexed (insert_by rank_leb x ys)
unfolding any insert_by
insert_by-IsIndexed x [] h k = (refl, tt)
insert_by-IsIndexed x (y ∷ ys) h k = elim (Bool-cases (rank_leb x y)) [
  | inl less ↦ rw less (h, k)
  | inr more ↦ rw more (
    ground (arith, any-insert_by rank_leb (same_index y) x ys),
    insert_by-IsIndexed x ys (ground arith) k.1,
  )
]

pub sort_by-IsIndexed : (xs : List Entry) → IsIndexed xs → IsIndexed (sort_by rank_leb xs)
unfolding any sort_by
sort_by-IsIndexed [] h = tt
sort_by-IsIndexed (x ∷ xs) h =
    insert_by-IsIndexed x (sort_by rank_leb xs) (any-sort_by rank_leb (same_index x) xs ∙ h.0)
      (sort_by-IsIndexed xs h.1)

-- Nothing comes before the first entry.
pub count-first :
    (y : Entry) (ys : List Entry) → All (λ z. rank_leb y z ≡ true) ys → count (before y) ys ≡ 0
unfolding count
count-first y [] h = refl
count-first y (z ∷ zs) h = ground (arith, count-first y zs h.1)

first_le :
    (y x : Entry) (ys : List Entry)
    → All (λ z. rank_leb y z ≡ true) ys
    → any (same x) ys ≡ true
    → rank_leb y x ≡ true
unfolding any
first_le y x [] h k = cc
first_le y x (z ∷ zs) h k = ground (arith, first_le y x zs h.1)

same-index :
    (x y : Entry) (ys : List Entry)
    → any (same x) ys ≡ true
    → (y.0 == x.0) ≡ true
    → any (same_index y) ys ≡ true
unfolding any
same-index x y [] h k = cc
same-index x y (z ∷ zs) h k = ground (arith, same-index x y zs)

pub kept-take :
    (n : ℕ) (x : Entry) (ys : List Entry)
    → IsSortedBy rank_leb ys
    → IsIndexed ys
    → any (same x) ys ≡ true
    → kept (take n ys) x.0 ≡ ltb (count (before x) ys) n
unfolding any count kept
kept-take n x [] s d h = cc
kept-take zero x (y ∷ ys) s d h = ground arith
kept-take (suc n) x (y ∷ ys) s d h = elim (Bool-cases (same x y)) [
  | inl here ↦ ground (arith, count-first y ys s.0)
  | inr later ↦ ground (arith, kept-take n x ys s.1 d.1, first_le y x ys s.0, same-index x y ys)
]
