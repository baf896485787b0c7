-- ===== src/Collect/Endpoints/Hosts.antt =====
-- `str::trim_start_matches`, as a loop with fuel, comes to its end.
use chaindash.Base.{
  Bool-cases, length, drop, length-drop, Text, codes, starts_with, ℕ, zero, suc, ◌≤◌, ◌<◌, ◌≡◌,
  refl, sym, ap, ◌∙◌, inl, inr, true, false, [], ◌∷◌, ◌++◌, append_assoc, arith,
}
use chaindash.Collect.Endpoints.{trim_start_matches, websocket_host}

abbrev pub copies : ℕ → Text → Text
copies zero s = []
copies (suc n) s = s ++ copies n s

starts_with-drop :
    (prefix s : Text)
    → starts_with prefix s ≡ true
    → (s ≡ prefix ++ drop (length prefix) s) × (length prefix ≤ length s)
unfolding starts_with
starts_with-drop [] s h = (refl, omega arith)
starts_with-drop (c ∷ cs) [] h = cc
starts_with-drop (c ∷ cs) (d ∷ s) h = ground (arith, starts_with-drop cs s)

-- With a prefix that is not empty and the length of the text as fuel, the loop drops the prefix as
-- often as it stands at the start: the rest does not start with it, and more fuel changes nothing.
trim_start_matches-stops :
    (fuel : ℕ) (prefix s : Text)
    → 0 < length prefix
    → length s ≤ fuel
    → (n : ℕ) × (s ≡ copies n prefix ++ trim_start_matches fuel prefix s)
      × (starts_with prefix (trim_start_matches fuel prefix s) ≡ false)
      × (trim_start_matches (suc fuel) prefix s ≡ trim_start_matches fuel prefix s)
unfolding trim_start_matches
trim_start_matches-stops zero [] s p h = absurd (omega arith)
trim_start_matches-stops zero (c ∷ cs) [] p h = (0, refl, unfold starts_with in refl, refl)
trim_start_matches-stops zero (c ∷ cs) (d ∷ s) p h = absurd (omega arith)
trim_start_matches-stops (suc fuel) prefix s p h = elim (Bool-cases (starts_with prefix s)) [
  | inl starts ↦
      let (whole, fits) = starts_with-drop prefix s starts in
      let (n, e, stops, more) =
        trim_start_matches-stops fuel prefix (drop (length prefix) s) p
          (omega (arith, length-drop {0} (length prefix) s)) in
      rw starts (
        suc n,
        whole ∙ ap (λ r. prefix ++ r) e ∙ sym (append_assoc prefix (copies n prefix) _),
        stops,
        more,
      )
  | inr other ↦ rw other (0, refl, other, refl)
]

-- The fuel of both loops is enough: a host is its URL without each `ws://` that stands at the start,
-- and then without each `wss://`; what remains starts with neither at its turn.
pub websocket_host-stops :
    (url : Text)
    → (n m : ℕ) × (url
        ≡ copies n (codes "ws://") ++ (copies m (codes "wss://") ++ websocket_host url))
      × (starts_with (codes "wss://") (websocket_host url) ≡ false)
      × (starts_with (codes "ws://") (copies m (codes "wss://") ++ websocket_host url) ≡ false)
unfolding websocket_host
websocket_host-stops url =
    let once = trim_start_matches (length url) (codes "ws://") url in
    let (n, e, stops, more) =
      trim_start_matches-stops (length url) (codes "ws://") url (omega arith) (omega arith) in
    let (m, e', stops', more') =
      trim_start_matches-stops (length once) (codes "wss://") once (omega arith) (omega arith) in
    (
      n,
      m,
      e ∙ ap (λ r. copies n (codes "ws://") ++ r) e',
      stops',
      ap (starts_with (codes "ws://")) (sym e') ∙ stops,
    )
