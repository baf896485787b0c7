-- ===== src/Notify/Template/Escapes.antt =====
-- Every text can be written as a template.
use chaindash.Base.{
  ◌==◌, if◌then◌else◌, Bool-cases, Text, ℕ, ◌≡◌, refl, ap, ◌∙◌, inl, inr, false, [], ◌∷◌, arith,
}
use chaindash.Notify.Template.{normalize_template}

-- Each backslash is doubled.
pub escape : Text → Text
escape [] = []
escape (c ∷ s) = let rest = escape s in if c == 92 then 92 ∷ 92 ∷ rest else c ∷ rest

normalize_template-plain :
    (c : ℕ) (s : Text) → (c == 92) ≡ false → normalize_template (c ∷ s) ≡ c ∷ normalize_template s
unfolding normalize_template
normalize_template-plain c [] h = refl
normalize_template-plain c (d ∷ s) h = rw h

normalize_template-back : (s : Text) → normalize_template (92 ∷ 92 ∷ s) ≡ 92 ∷ normalize_template s
unfolding normalize_template
normalize_template-back s = refl

normalize_template-nil : normalize_template [] ≡ []
unfolding normalize_template
normalize_template-nil = refl

-- An option whose backslashes are doubled is the template that it spells.
pub normalize_template-escape : (s : Text) → normalize_template (escape s) ≡ s
unfolding escape
normalize_template-escape [] = normalize_template-nil
normalize_template-escape (c ∷ s) = elim (Bool-cases (c == 92)) [
  | inl back ↦ rw (back, normalize_template-back) (ground (arith, normalize_template-escape s))
  | inr other ↦ rw other (
      normalize_template-plain c (escape s) other
      ∙ ap (λ (t : Text). c ∷ t) (normalize_template-escape s))
]
