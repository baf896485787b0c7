-- ===== src/Notify/Template/Braces.antt =====
-- A template without braces is sent as it stands.
use chaindash.Base.{◌==◌, any, Text, starts_with, ◌≡◌, refl, false, List, [], ◌∷◌, arith}
use chaindash.Notify.Template.{replace, replace_from, render_template, placeholder}

replace_from-no_brace :
    (key value s : Text)
    → any (λ c. c == b'{') s ≡ false
    → replace_from (placeholder key) value 0 s ≡ s
unfolding replace_from starts_with any
replace_from-no_brace key value [] h = refl
replace_from-no_brace key value (c ∷ s) h = ground (arith, replace_from-no_brace key value s)

replace-no_brace :
    (key value s : Text) → any (λ c. c == b'{') s ≡ false → replace (placeholder key) value s ≡ s
unfolding replace
replace-no_brace key value s h = replace_from-no_brace key value s h

-- A template without an opening brace is sent as it stands, whatever there is to fill in.
pub render_template-no_brace :
    (replacements : List (Text × Text)) (template : Text)
    → any (λ c. c == b'{') template ≡ false
    → render_template template replacements ≡ template
unfolding render_template
render_template-no_brace [] template h = refl
render_template-no_brace ((key, value) ∷ rest) template h =
    rw (replace-no_brace key value template h) (render_template-no_brace rest template h)
