-- ===== src/Widgets/Helpers/Digits.antt =====
-- A grouped number is still that number.
use chaindash.Base.{
  Bool-cases, filter, All, Text, ℕ, suc, ◌+◌, ◌≤◌, ◌≡◌, refl, sym, ap, ◌∙◌, inl, inr, Bool, some,
  [], ◌∷◌, ◌++◌, reverse, append-nil, arith,
}
use mathlib.Core.List.{reverse-append, reverse-reverse}
use chaindash.Opts.Number.{is_digit, decimal, parse_unsigned}
use chaindash.Opts.Number.RoundTrip.{IsDigit, decimal_from-IsDigit, parse_unsigned-decimal}
use chaindash.Widgets.Helpers.{group_digits, format_grouped_u64}

filter-append : (p : ℕ → Bool) (xs ys : Text) → filter p (xs ++ ys) ≡ filter p xs ++ filter p ys
unfolding filter
filter-append p [] ys = refl
filter-append p (x ∷ xs) ys = ground (arith, filter-append p xs ys)

-- The first item goes to the end of the reversed list.
reverse-filter :
    (p : ℕ → Bool) (x : ℕ) (xs : Text)
    → reverse (filter p (x ∷ xs)) ≡ reverse (filter p xs) ++ filter p (x ∷ [])
unfolding filter
reverse-filter p x xs = elim (Bool-cases (p x)) [
  | inl kept ↦ rw kept (reverse-append (x ∷ []) (filter p xs))
  | inr left ↦ rw left (sym (append-nil (reverse (filter p xs))))
]

filter-reverse : (p : ℕ → Bool) (xs : Text) → filter p (reverse xs) ≡ reverse (filter p xs)
filter-reverse p [] = unfold filter in refl
filter-reverse p (x ∷ xs) =
    ap (filter p) (reverse-append (x ∷ []) xs)
    ∙ filter-append p (reverse xs) (x ∷ [])
    ∙ ap (λ l. l ++ filter p (x ∷ [])) (filter-reverse p xs)
    ∙ sym (reverse-filter p x xs)

filter-group_digits :
    (index : ℕ) (digits : Text)
    → filter is_digit (group_digits index digits) ≡ filter is_digit digits
unfolding filter group_digits is_digit
filter-group_digits index [] = refl
filter-group_digits index (ch ∷ digits) = ground (arith, filter-group_digits (index + 1) digits)

filter-digits : (s : Text) → All IsDigit s → filter is_digit s ≡ s
unfolding filter is_digit
filter-digits [] h = refl
filter-digits (c ∷ s) h = ground (arith, filter-digits s (h.1))

grouped_digits : (value : ℕ) → filter is_digit (format_grouped_u64 value) ≡ decimal value
unfolding format_grouped_u64
grouped_digits value =
    filter-reverse is_digit (group_digits 0 (reverse (decimal value)))
    ∙ ap reverse
        (filter-group_digits 0 (reverse (decimal value)) ∙ filter-reverse is_digit (decimal value))
    ∙ reverse-reverse (filter is_digit (decimal value))
    ∙ filter-digits (decimal value) (unfold decimal in decimal_from-IsDigit (suc value) value [] tt)

-- Without what is no digit a grouped number is the number in decimal, so that it is read back as
-- the number.
pub format_grouped_u64-decimal :
    (value max_value : ℕ)
    → value ≤ max_value
    → (filter is_digit (format_grouped_u64 value) ≡ decimal value)
      × (parse_unsigned max_value (filter is_digit (format_grouped_u64 value)) ≡ some value)
format_grouped_u64-decimal value max_value h =
    (grouped_digits value, rw (grouped_digits value) (parse_unsigned-decimal max_value value h))
