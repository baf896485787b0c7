-- ===== src/Collect/Endpoints/Urls.antt =====
-- Endpoints are read back from the option that lists them.
use chaindash.Base.{
  ◌==◌, not, All, Text, join, ℕ, ◌≡◌, refl, ap, ◌∙◌, Bool, true, ◌&&◌, some, List, [], ◌∷◌, ◌++◌,
  map, arith,
}
use chaindash.Collect.Endpoints.{
  split, split_once, parse_all, parse_urls, is_websocket_endpoint, parsed,
}

-- The character does not occur.
unfoldable pub lacks : ℕ → Text → Bool
lacks c [] = true
lacks c (d ∷ s) = not (d == c) && lacks c s

-- `name@endpoint`
abbrev pub entry : Text × Text → Text
entry (name, endpoint) = name ++ b'@' ∷ endpoint

-- The entries with commas between them.
abbrev pub option_of : List (Text × Text) → Text
option_of urls = join (b',' ∷ []) (map entry urls)

-- The name has no `@` and no comma, and the endpoint is one for websockets without a comma.
abbrev pub IsEndpoint : Text × Text → Type 0
IsEndpoint (name, endpoint) =
    (lacks b'@' name ≡ true)
    × (lacks b',' name ≡ true)
    × (lacks b',' endpoint ≡ true)
    × (is_websocket_endpoint endpoint ≡ true)

split_once-entry :
    (name endpoint : Text)
    → lacks b'@' name ≡ true
    → split_once b'@' (name ++ b'@' ∷ endpoint) ≡ some (name, endpoint)
unfolding split_once lacks
split_once-entry [] endpoint h = refl
split_once-entry (c ∷ name) endpoint h = ground (arith, split_once-entry name endpoint)

split-piece : (s : Text) → lacks b',' s ≡ true → split b',' s ≡ s ∷ []
unfolding split lacks
split-piece [] h = refl
split-piece (c ∷ s) h = ground (arith, split-piece s)

split-comma :
    (s rest : Text) → lacks b',' s ≡ true → split b',' (s ++ b',' ∷ rest) ≡ s ∷ split b',' rest
unfolding split lacks
split-comma [] rest h = refl
split-comma (c ∷ s) rest h = ground (arith, split-comma s rest)

lacks-append : (c : ℕ) (s t : Text) → lacks c (s ++ t) ≡ (lacks c s && lacks c t)
unfolding lacks
lacks-append c [] t = refl
lacks-append c (d ∷ s) t = ground (arith, lacks-append c s t)

lacks-entry : (u : Text × Text) → IsEndpoint u → lacks b',' (entry u) ≡ true
unfolding lacks
lacks-entry (name, endpoint) h = rw (lacks-append b',' name (b'@' ∷ endpoint), h.1, h.2) refl

split-option_of :
    (u : Text × Text) (us : List (Text × Text))
    → All IsEndpoint (u ∷ us)
    → split b',' (option_of (u ∷ us)) ≡ map entry (u ∷ us)
unfolding join
split-option_of u [] h = split-piece (entry u) (lacks-entry u h.0)
split-option_of u (v ∷ us) h =
    split-comma (entry u) (option_of (v ∷ us)) (lacks-entry u h.0)
    ∙ ap (λ rest. entry u ∷ rest) (split-option_of v us h.1)

parse_all-entries :
    (us : List (Text × Text)) → All IsEndpoint us → parse_all (map entry us) ≡ parsed us
unfolding parse_all
parse_all-entries [] h = refl
parse_all-entries ((name, endpoint) ∷ us) h =
    rw (split_once-entry name endpoint h.0.0, h.0.3, parse_all-entries us h.1) refl

-- The option that lists one endpoint or more, `name@endpoint` with commas between them, is read
-- back, if no name has an `@` and nothing has a comma, and the endpoints start with ws:// or wss://.
pub parse_urls-option_of :
    (u : Text × Text) (us : List (Text × Text))
    → All IsEndpoint (u ∷ us)
    → parse_urls (option_of (u ∷ us)) ≡ parsed (u ∷ us)
unfolding parse_urls
parse_urls-option_of u us h = rw (split-option_of u us h) (parse_all-entries (u ∷ us) h)
