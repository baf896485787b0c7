-- ===== src/Widgets/Helpers/Cuts.antt =====
-- A text that is cut keeps one of its ends.
use chaindash.Base.{
  leb, ◌==◌, Bool-cases, length, drop, take, length-append, length-drop, length-take, take_all,
  Text, codes, ℕ, zero, suc, ◌+◌, ◌-◌, ◌≤◌, ◌<◌, ◌≡◌, refl, sym, ap, ◌∙◌, ◌⊎◌, inl, inr, [], ◌∷◌,
  ◌++◌, arith,
}
use chaindash.Widgets.Helpers.{prefix_chars, suffix_chars}

take-drop : (n : ℕ) (s : Text) → take n s ++ drop n s ≡ s
take-drop zero s = refl
take-drop (suc n) [] = refl
take-drop (suc n) (c ∷ s) = ap (λ r. c ∷ r) (take-drop n s)

drop_all : (s : Text) → drop (length s) s ≡ []
drop_all [] = refl
drop_all (c ∷ s) = drop_all s

drop_count : (s : Text) (n m : ℕ) → n ≡ m → drop n s ≡ drop m s
drop_count s n m e = ap (λ k. drop k s) e

pub prefix-take : (value : Text) (n : ℕ) → prefix_chars value n ≡ take n value
unfolding prefix_chars
prefix-take value n = ground (arith, take_all n value)

suffix-drop :
    (value : Text) (m : ℕ) → m ≤ length value → suffix_chars value m ≡ drop (length value - m) value
unfolding suffix_chars
suffix-drop value m h = elim (Bool-cases (m == 0)) [
  | inl nothing ↦
      rw nothing
        (sym (drop_count value (length value - m) (length value) (ground arith) ∙ drop_all value))
  | inr some_chars ↦ elim (Bool-cases (leb (length value) m)) [
    | inl whole ↦
        rw (some_chars, whole) (sym (drop_count value (length value - m) 0 (ground arith)))
    | inr part ↦ rw (some_chars, part) refl
  ]
]

-- A prefix and a suffix that together have as many characters as the text put it together again.
pub prefix-suffix :
    (value : Text) (n m : ℕ)
    → n + m ≡ length value
    → prefix_chars value n ++ suffix_chars value m ≡ value
prefix-suffix value n m h =
    ap (λ l. l ++ suffix_chars value m) (prefix-take value n)
    ∙ ap (λ l. take n value ++ l)
        (suffix-drop value m (omega arith) ∙ ap (λ k. drop k value) (omega arith))
    ∙ take-drop n value

-- `r` is the text itself where it has at most `n` characters. Else it has exactly `n`: a first part of
-- the text, …, and a last part of it, both parts with a character or more.
abbrev pub Shortened : Text → Text → ℕ → Type 0
Shortened s r n =
    ((length s ≤ n) × (r ≡ s))
    ⊎ ((a d : ℕ) × (r ≡ take a s ++ (codes "…" ++ drop d s))
        × (n < length s)
        × (0 < a)
        × (a < d)
        × (d < length s)
        × (length r ≡ n))

-- A text whose middle is replaced by …
pub cut-Shortened :
    (s r : Text) (n a d : ℕ)
    → r ≡ take a s ++ (codes "…" ++ drop d s)
    → n < length s
    → 0 < a
    → d < length s
    → a + (length s - d) + 1 ≡ n
    → Shortened s r n
cut-Shortened s r n a d e h k l m = inr (
  a,
  d,
  e,
  h,
  k,
  omega arith,
  l,
  omega (
    arith,
    ap length e,
    length-append {0} (take a s) (codes "…" ++ drop d s),
    length-take {0} a s,
    length-drop {0} d s,
  ),
)

pub ends-Shortened :
    (s : Text) (n prefix_len suffix_len : ℕ)
    → n < length s
    → 0 < prefix_len
    → 0 < suffix_len
    → prefix_len + suffix_len + 1 ≡ n
    → Shortened s (prefix_chars s prefix_len ++ (codes "…" ++ suffix_chars s suffix_len)) n
ends-Shortened s n prefix_len suffix_len h k l m =
    cut-Shortened s _ n prefix_len (length s - suffix_len)
      (rw (prefix-take s prefix_len, suffix-drop s suffix_len (omega arith)) refl) h k (omega arith)
      (omega arith)
