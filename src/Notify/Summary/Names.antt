-- ===== src/Notify/Summary/Names.antt =====
-- The names that a bucket previews are the first three different ones.
use chaindash.Base.{
  leb, if◌then◌else◌, Bool-cases, length, take, any, length-append, take-append, length-take,
  take_all, Text, text_eq, text_eq_iff, ◌≡◌, refl, sym, ap, ◌∙◌, inl, inr, Bool, true, false, ◌||◌,
  List, [], ◌∷◌, ◌++◌, append-nil, arith,
}
use chaindash.Notify.Summary.{QuietSummaryBucket, record_name}

abbrev is_in : Text → List Text → Bool
is_in x xs = any (λ y. text_eq y x) xs

-- The names that are not among the seen ones, each where it first stands.
abbrev pub new_names : List Text → List Text → List Text
new_names seen [] = []
new_names seen (x ∷ xs) = if is_in x seen then new_names seen xs else x ∷ new_names (x ∷ seen) xs

-- The first three different names.
abbrev pub preview : List Text → List Text
preview names = take 3 (new_names [] names)

-- The bucket that has counted a name for each event.
abbrev pub bucket_of : List Text → QuietSummaryBucket
bucket_of names = record { count = length names; names = preview names }

seen_already : (a b c : Bool) → (b ≡ true → a ≡ true) → (a || c) ≡ (a || (b || c))
seen_already true b c h = refl
seen_already false true c h = absurd (cc (h refl))
seen_already false false c h = refl

or_rotate : (a b c : Bool) → ((b || a) || c) ≡ (a || (b || c))
or_rotate true true c = refl
or_rotate true false c = refl
or_rotate false true c = refl
or_rotate false false c = refl

new_names-snoc :
    (seen xs : List Text) (x : Text)
    → new_names seen (xs ++ x ∷ [])
      ≡ new_names seen xs ++ (if is_in x seen || is_in x xs then [] else x ∷ [])
unfolding any
new_names-snoc seen [] x = ground arith
new_names-snoc seen (y ∷ ys) x = elim (Bool-cases (is_in y seen)) [
  | inl old ↦
      rw (old, new_names-snoc seen ys x)
        (ap (λ b. new_names seen ys ++ (if b then [] else x ∷ []))
          (seen_already (is_in x seen) (text_eq y x) (is_in x ys)
            (λ e. ap (λ z. is_in z seen) (sym ((text_eq_iff y x).0 e)) ∙ old)))
  | inr new ↦
      rw (new, new_names-snoc (y ∷ seen) ys x)
        (ap (λ b. y ∷ (new_names (y ∷ seen) ys ++ (if b then [] else x ∷ [])))
          (or_rotate (is_in x seen) (text_eq y x) (is_in x ys)))
]

is_in-new_names :
    (seen xs : List Text) (x : Text)
    → (is_in x seen || is_in x (new_names seen xs)) ≡ (is_in x seen || is_in x xs)
unfolding any
is_in-new_names seen [] x = refl
is_in-new_names seen (y ∷ ys) x = elim (Bool-cases (is_in y seen)) [
  | inl old ↦ rw old (
      is_in-new_names seen ys x
      ∙ seen_already (is_in x seen) (text_eq y x) (is_in x ys)
          (λ e. ap (λ z. is_in z seen) (sym ((text_eq_iff y x).0 e)) ∙ old))
  | inr new ↦ rw new (
      sym (or_rotate (is_in x seen) (text_eq y x) (is_in x (new_names (y ∷ seen) ys)))
      ∙ is_in-new_names (y ∷ seen) ys x
      ∙ or_rotate (is_in x seen) (text_eq y x) (is_in x ys))
]

bucket_eq : (a b : QuietSummaryBucket) → a.count ≡ b.count → a.names ≡ b.names → a ≡ b
bucket_eq a b h k =
    ap (λ n. record { count = n; names = a.names }) h
    ∙ ap (λ l. record { count = b.count; names = l }) k

-- Recording a name is counting one name more.
pub record_name-bucket_of :
    (names : List Text) (name : Text)
    → record_name (bucket_of names) name ≡ bucket_of (names ++ name ∷ [])
unfolding record_name any
record_name-bucket_of names name =
    let shown : List Text = new_names [] names in
    let grown : new_names [] (names ++ name ∷ [])
        ≡ shown ++ (if is_in name shown then [] else name ∷ []) =
      new_names-snoc [] names name
      ∙ ap (λ b. shown ++ (if b then [] else name ∷ [])) (sym (is_in-new_names [] names name)) in
    let size = length-append names (name ∷ []) in
    elim (Bool-cases (leb 3 (length shown))) [
      | inl full ↦
          let cut : leb 3 (length (take 3 shown)) ≡ true = ground (arith, length-take 3 shown) in
          rw cut (
            bucket_eq _ _ (omega arith)
              (sym (ap (take 3) grown ∙ take-append 3 shown _ (ground arith))))
      | inr room ↦
          let whole = take_all 3 shown (ground arith) in
          elim (Bool-cases (is_in name shown)) [
            | inl old ↦
                rw (whole, room, old)
                  (bucket_eq _ _ (omega arith) (
                    sym (
                      ap (take 3) (
                        grown
                        ∙ ap (λ (b : Bool). shown ++ (if b then [] else name ∷ [])) old
                        ∙ append-nil shown)
                      ∙ whole)))
            | inr new ↦
                rw (whole, room, new)
                  (bucket_eq _ _ (omega arith) (
                    sym (
                      ap (take 3)
                        (grown ∙ ap (λ (b : Bool). shown ++ (if b then [] else name ∷ [])) new)
                      ∙ take_all 3 (shown ++ name ∷ [])
                          (ground (arith, length-append shown (name ∷ []))))))
          ]
    ]
