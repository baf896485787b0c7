-- ===== src/Collect/Endpoints/Ids.antt =====
-- The ids of the nodes: those that are given, without spaces around them, each of them once.
use chaindash.Base.{
  not, Bool-cases, Text, text_eq, text_eq_iff, is_empty, trim, contains, contains-append, ◌≡◌, refl,
  inl, inr, Bool, false, ◌&&◌, ◌||◌, List, [], ◌∷◌, ◌++◌, arith,
}
use chaindash.Collect.Endpoints.{add_node_id, unique_node_ids}

-- No text twice, and none that is empty.
abbrev pub IsUnique : List Text → Type 0
IsUnique [] = Unit
IsUnique (x ∷ xs) = (is_empty x ≡ false) × (contains xs x ≡ false) × IsUnique xs

-- The id is given, with or without spaces around it.
unfoldable pub given : List Text → Text → Bool
unfolding text_eq
given [] x = false
given (y ∷ ys) x = (text_eq (trim y) x && not (is_empty x)) || given ys x

append-IsUnique :
    (xs : List Text) (x : Text)
    → IsUnique xs
    → is_empty x ≡ false
    → contains xs x ≡ false
    → IsUnique (xs ++ x ∷ [])
unfolding contains
append-IsUnique [] x h e k = (e, refl, tt)
append-IsUnique (y ∷ ys) x h e k = (
  h.0,
  ground (arith, contains-append ys (x ∷ []) y, text_eq_iff x y, text_eq_iff y x, h.1, k),
  append-IsUnique ys x h.2 e (ground (arith, k)),
)

add-IsUnique : (xs : List Text) (x : Text) → IsUnique xs → IsUnique (add_node_id xs x)
add-IsUnique xs x h = elim (Bool-cases (is_empty x)) [
  | inl empty ↦ rw empty h
  | inr solid ↦ elim (Bool-cases (contains xs x)) [
    | inl known ↦ rw (solid, known) h
    | inr new ↦ rw (solid, new) (append-IsUnique xs x h solid new)
  ]
]

contains-add :
    (xs : List Text) (y x : Text)
    → contains (add_node_id xs y) x ≡ (contains xs x || (text_eq y x && not (is_empty x)))
unfolding contains
contains-add xs y x = ground (arith, contains-append xs (y ∷ []) x, text_eq_iff y x)

-- Whatever ids are given after those so far: the ids that are kept are not empty, no two of them are
-- the same, and they are those so far and the given ones without the spaces around them.
pub unique_node_ids-IsUnique :
    (ids options : List Text)
    → IsUnique ids
    → IsUnique (unique_node_ids ids options)
      × ((x : Text)
          → contains (unique_node_ids ids options) x ≡ (contains ids x || given options x))
unfolding unique_node_ids given
unique_node_ids-IsUnique ids [] h = (h, λ x. ground arith)
unique_node_ids-IsUnique ids (o ∷ os) h =
    let rest =
      unique_node_ids-IsUnique (add_node_id ids (trim o)) os (add-IsUnique ids (trim o) h) in
    (rest.0, λ x. ground (arith, rest.1 x, contains-add ids (trim o) x))
