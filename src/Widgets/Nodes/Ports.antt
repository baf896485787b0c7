-- ===== src/Widgets/Nodes/Ports.antt =====
-- A host that is shortened keeps its port.
use chaindash.Base.{
  leb, ◌==◌, Bool-cases, length, all, Text, codes, is_empty, rsplit_once, ℕ, ◌+◌, ◌-◌, ◌<◌, ◌≡◌,
  refl, sym, inl, inr, true, false, none, some, [], ◌∷◌, ◌++◌, append_assoc, arith,
}
use chaindash.Opts.Number.{is_digit}
use chaindash.Widgets.Nodes.{prefix_chars, port_fits, shorten_host_for_width}

no_colon : (port : Text) → all is_digit port ≡ true → rsplit_once b':' port ≡ none
unfolding rsplit_once all is_digit
no_colon [] h = refl
no_colon (c ∷ port) h =
    let rest = no_colon port (ground (arith, h)) in
    let other : (c == b':') ≡ false = ground (arith, h) in rw (rest, other) refl

-- The last colon is the one before the port.
rsplit_once-port :
    (base port : Text)
    → all is_digit port ≡ true
    → rsplit_once b':' (base ++ b':' ∷ port) ≡ some (base, port)
unfolding rsplit_once
rsplit_once-port [] port h = rw (no_colon port h) refl
rsplit_once-port (c ∷ base) port h = rw (rsplit_once-port base port h) refl

not_empty : (s : Text) → 0 < length s → is_empty s ≡ false
unfolding is_empty
not_empty [] h = absurd (omega arith)
not_empty (c ∷ s) h = refl

-- A host with a port of digits, in more columns than the colon, the port and … take: however much of
-- it is cut, the colon and the port stand at the end.
pub shorten_host_for_width-port :
    (base port : Text) (n : ℕ)
    → 0 < length base
    → 0 < length port
    → all is_digit port ≡ true
    → length port + 2 < n
    → (shown : Text) × (shorten_host_for_width (base ++ b':' ∷ port) n ≡ shown ++ b':' ∷ port)
unfolding shorten_host_for_width
shorten_host_for_width-port base port n b p digits room =
    let some_room : (n == 0) ≡ false = ground arith in
    elim (Bool-cases (leb (length (base ++ b':' ∷ port)) n)) [
      | inl fits ↦ (base, rw (some_room, fits) refl)
      | inr long ↦
          let fits : port_fits base port n ≡ true =
            ground (arith, not_empty base b, not_empty port p, digits) in
          (
            prefix_chars base (n - (length (b':' ∷ port) + 1)) ++ codes "…",
            rw (some_room, long, rsplit_once-port base port digits, fits)
                (sym (append_assoc (prefix_chars base (n - (length (b':' ∷ port) + 1))) _ _)),
          )
    ]
