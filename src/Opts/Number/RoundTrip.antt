-- ===== src/Opts/Number/RoundTrip.antt =====
-- Printing a number and parsing it again.
use chaindash.Base.{
  ltb, Bool-cases, All, Text, ℕ, zero, suc, ◌+◌, ◌-◌, ◌*◌, ◌/◌, ◌%◌, ◌≤◌, ◌<◌, ◌≡◌, refl, sym, ap,
  ◌∙◌, inl, inr, some, [], ◌∷◌, arith,
}
use chaindash.Opts.Number.{parse_digits, parse_unsigned, decimal_from, decimal}

abbrev pub IsDigit : ℕ → Type 0
IsDigit c = (48 ≤ c) × (c ≤ 57)

-- One digit more is read as the loop reads it.
parse_digits-step :
    (m n d : ℕ) (s : Text)
    → d < 10
    → n * 10 + d ≤ m
    → parse_digits m n ((48 + d) ∷ s) ≡ parse_digits m (n * 10 + d) s
unfolding parse_digits
parse_digits-step m n d s h k = let e : 48 + d - 48 ≡ d = omega arith in rw e (ground arith)

parse_digits-decimal_from :
    (m fuel n : ℕ) (s : Text)
    → n < fuel
    → n ≤ m
    → parse_digits m 0 (decimal_from fuel n s) ≡ parse_digits m n s
unfolding decimal_from
parse_digits-decimal_from m zero n s h k = elim h [ ]
parse_digits-decimal_from m (suc fuel) n s h k = elim (Bool-cases (ltb n 10)) [
  | inl small ↦ rw small (
      parse_digits-step m 0 n s (ground arith) (omega arith)
      ∙ ap (λ (t : ℕ). parse_digits m t s) (omega arith))
  | inr large ↦
      let e : n / 10 * 10 + n % 10 ≡ n = omega arith in
      rw large (
        parse_digits-decimal_from m fuel (n / 10) ((48 + n % 10) ∷ s) (ground arith) (omega arith)
        ∙ parse_digits-step m (n / 10) (n % 10) s (omega arith) (omega arith)
        ∙ ap (λ (t : ℕ). parse_digits m t s) e)
]

pub decimal_from-IsDigit :
    (fuel n : ℕ) (s : Text) → All IsDigit s → All IsDigit (decimal_from fuel n s)
unfolding decimal_from
decimal_from-IsDigit zero n s h = h
decimal_from-IsDigit (suc fuel) n s h = elim (Bool-cases (ltb n 10)) [
  | inl small ↦ rw small ((omega arith, ground arith), h)
  | inr large ↦
      rw large
        (decimal_from-IsDigit fuel (n / 10) ((48 + n % 10) ∷ s) ((omega arith, omega arith), h))
]

-- A text of digits has no sign, so it goes to the digit loop as it stands.
parse_unsigned-digits :
    (m c : ℕ) (s : Text) → IsDigit c → parse_unsigned m (c ∷ s) ≡ parse_digits m 0 (c ∷ s)
unfolding parse_unsigned
parse_unsigned-digits m c [] h = refl
parse_unsigned-digits m c (d ∷ s) h = ground arith

decimal-cons :
    (fuel n : ℕ) (s : Text) → n < fuel → (c : ℕ) × (r : Text) × (decimal_from fuel n s ≡ c ∷ r)
unfolding decimal_from
decimal-cons zero n s h = elim h [ ]
decimal-cons (suc fuel) n s h = elim (Bool-cases (ltb n 10)) [
  | inl small ↦ (48 + n, s, rw small)
  | inr large ↦ rw large (decimal-cons fuel (n / 10) ((48 + n % 10) ∷ s) (ground arith))
]

-- The decimal digits of a number within the bound are read back as that number.
pub parse_unsigned-decimal : (m n : ℕ) → n ≤ m → parse_unsigned m (decimal n) ≡ some n
unfolding decimal
parse_unsigned-decimal m n h =
    let (c, r, e) = decimal-cons (suc n) n [] (omega arith) in
    let digits : All IsDigit (decimal_from (suc n) n []) = decimal_from-IsDigit (suc n) n [] tt in
    let head : IsDigit c = (rw e at digits).0 in
    rw e (
      parse_unsigned-digits m c r head
      ∙ ap (parse_digits m 0) (sym e)
      ∙ parse_digits-decimal_from m (suc n) n [] (omega arith) h
      ∙ unfold parse_digits in refl)
