-- ===== src/Geo/Snapshot/Codes.antt =====
-- What `normalize_country_code` accepts, and what it makes of it.
use chaindash.Base.{
  ltb, leb, length, all, Text, is_whitespace, trim, ascii_upper, utf8, bytes, trim-solid, ℕ, suc,
  ◌≡◌, refl, sym, ap, ◌∙◌, Bool, true, false, ◌&&◌, some, List, [], ◌∷◌, ◌++◌, map, arith,
}
use mathlib.Core.Path.{subst}
use chaindash.Geo.Snapshot.{is_ascii_alphabetic, normalize_country_code}

abbrev pub is_capital : ℕ → Bool
is_capital c = leb b'A' c && leb c b'Z'

-- Two capital letters.
abbrev pub IsCode : Text → Type 0
IsCode code =
    (c : ℕ) × (d : ℕ) × (code ≡ c ∷ d ∷ []) × (is_capital c ≡ true) × (is_capital d ≡ true)

ascii-utf8 :
    (c : ℕ) (rest : List ℕ) → all is_ascii_alphabetic (utf8 c ++ rest) ≡ true → ltb c 0x80 ≡ true
unfolding all utf8
ascii-utf8 c rest h = ground arith

utf8-ascii : (c : ℕ) → ltb c 0x80 ≡ true → utf8 c ≡ c ∷ []
unfolding utf8
utf8-ascii c h = rw h refl

bytes-ascii :
    (c : ℕ) (s : Text)
    → all is_ascii_alphabetic (bytes (c ∷ s)) ≡ true
    → bytes (c ∷ s) ≡ c ∷ bytes s
unfolding bytes
bytes-ascii c s h = rw (utf8-ascii c (ascii-utf8 c (bytes s) h)) refl

all-first :
    (c : ℕ) (s : List ℕ)
    → all is_ascii_alphabetic (c ∷ s) ≡ true
    → (is_ascii_alphabetic c ≡ true) × (all is_ascii_alphabetic s ≡ true)
unfolding all
all-first c s h = (ground arith, ground arith)

-- The first character of a text whose bytes are letters is a letter, and one byte.
first_letter :
    (c : ℕ) (s : Text)
    → all is_ascii_alphabetic (bytes (c ∷ s)) ≡ true
    → (is_ascii_alphabetic c ≡ true)
      × (all is_ascii_alphabetic (bytes s) ≡ true)
      × (length (bytes (c ∷ s)) ≡ suc (length (bytes s)))
first_letter c s h =
    let e = bytes-ascii c s h in
    let (letter, rest) =
      all-first c (bytes s) (subst (λ l. all is_ascii_alphabetic l ≡ true) e h) in
    (letter, rest, ap length e)

one_letter :
    (c : ℕ) → all is_ascii_alphabetic (bytes (c ∷ [])) ≡ true → length (bytes (c ∷ [])) ≡ 2 → ⊥
one_letter c k h =
    let long : length (bytes (c ∷ [])) ≡ 1 = (first_letter c [] k).2 ∙ unfold bytes in refl in
    omega (arith, long, h)

three_letters :
    (c d e : ℕ) (s : Text)
    → all is_ascii_alphabetic (bytes (c ∷ d ∷ e ∷ s)) ≡ true
    → length (bytes (c ∷ d ∷ e ∷ s)) ≡ 2
    → ⊥
three_letters c d e s k h =
    let (_, k₁, first) = first_letter c (d ∷ e ∷ s) k in
    let (_, k₂, second) = first_letter d (e ∷ s) k₁ in
    omega (arith, first, second, (first_letter e s k₂).2, h)

-- Two bytes that are letters are two characters.
two_letters :
    (s : Text)
    → length (bytes s) ≡ 2
    → all is_ascii_alphabetic (bytes s) ≡ true
    → (c : ℕ) × (d : ℕ) × (s ≡ c ∷ d ∷ [])
      × (is_ascii_alphabetic c ≡ true)
      × (is_ascii_alphabetic d ≡ true)
two_letters [] h k = unfold bytes in cc
two_letters (c ∷ []) h k = elim (one_letter c k h) [ ]
two_letters (c ∷ d ∷ []) h k =
    let (letter, rest, long) = first_letter c (d ∷ []) k in
    (c, d, refl, letter, (first_letter d [] rest).0)
two_letters (c ∷ d ∷ e ∷ s) h k = elim (three_letters c d e s k h) [ ]

upper-is_capital : (c : ℕ) → is_ascii_alphabetic c ≡ true → is_capital (ascii_upper c) ≡ true
unfolding ascii_upper
upper-is_capital c h = ground arith

capital-solid : (c : ℕ) → is_capital c ≡ true → is_whitespace c ≡ false
unfolding is_whitespace
capital-solid c h = ground arith

capital-utf8 : (c : ℕ) → is_capital c ≡ true → utf8 c ≡ c ∷ []
capital-utf8 c h = utf8-ascii c (ground arith)

capital-upper : (c : ℕ) → is_capital c ≡ true → ascii_upper c ≡ c
unfolding ascii_upper
capital-upper c h = ground arith

capital-alphabetic : (c : ℕ) → is_capital c ≡ true → is_ascii_alphabetic c ≡ true
capital-alphabetic c h = ground arith

module _ (c d : ℕ) (hc : is_capital c ≡ true) (hd : is_capital d ≡ true) where
  bytes_pair : bytes (c ∷ d ∷ []) ≡ c ∷ d ∷ []
  unfolding bytes
  bytes_pair = rw (capital-utf8 c hc, capital-utf8 d hd) refl

  alphabetic_pair : all is_ascii_alphabetic (c ∷ d ∷ []) ≡ true
  unfolding all
  alphabetic_pair = rw (capital-alphabetic c hc, capital-alphabetic d hd) refl

  upper_pair : map ascii_upper (c ∷ d ∷ []) ≡ c ∷ d ∷ []
  upper_pair = rw (capital-upper c hc, capital-upper d hd) refl

  capital_pair : normalize_country_code (c ∷ d ∷ []) ≡ some (c ∷ d ∷ [])
  unfolding normalize_country_code
  capital_pair =
      rw
        (
          trim-solid c d [] (capital-solid c hc) (capital-solid d hd),
          bytes_pair,
          alphabetic_pair,
          upper_pair,
        )
        refl

module _ (country code : Text) (h : normalize_country_code country ≡ some code) where
  accepted :
      (length (bytes (trim country)) ≡ 2)
      × (all is_ascii_alphabetic (bytes (trim country)) ≡ true)
      × (map ascii_upper (trim country) ≡ code)
  unfolding normalize_country_code
  accepted = (ground arith, ground arith, ground arith)

  -- A country that is accepted gives two capital letters, which are accepted as they stand.
  pub normalize_country_code-IsCode : IsCode code × (normalize_country_code code ≡ some code)
  normalize_country_code-IsCode =
      let (long, letters, e) = accepted in
      let (c, d, pair, hc, hd) = two_letters (trim country) long letters in
      let code_is : code ≡ ascii_upper c ∷ ascii_upper d ∷ [] = sym e ∙ ap (map ascii_upper) pair in
      (
        (ascii_upper c, ascii_upper d, code_is, upper-is_capital c hc, upper-is_capital d hd),
        rw code_is (
            capital_pair (ascii_upper c) (ascii_upper d) (upper-is_capital c hc)
              (upper-is_capital d hd)),
      )
