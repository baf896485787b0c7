-- ===== src/Widgets/Details/Addresses.antt =====
-- A reward address is shortened to the columns that there are, and keeps both ends.
use chaindash.Base.{
  leb, ◌==◌, Bool-cases, length, Text, ℕ, ◌+◌, ◌-◌, ◌/◌, ◌<◌, ◌≡◌, inl, inr, false, arith,
}
use chaindash.Widgets.Helpers.Cuts.{Shortened, ends-Shortened}
use chaindash.Widgets.Nodes.{clamp}
use chaindash.Widgets.Details.{shorten_address_for_width}

-- With room for more than 15 characters, an address that fits is shown as it is. Any other is shown in
-- exactly as many characters as there is room for: a first part, then …, then a last part.
pub shorten_address_for_width-Shortened :
    (address : Text) (n : ℕ) → 15 < n → Shortened address (shorten_address_for_width address n) n
unfolding shorten_address_for_width
shorten_address_for_width-Shortened address n h = elim (Bool-cases (leb (length address) n)) [
  | inl fits ↦ inl (ground arith, ground arith)
  | inr long ↦
      let some_room : (n == 0) ≡ false = ground arith in
      let wide : leb n 15 ≡ false = ground arith in
      rw (some_room, long, wide)
        (ends-Shortened address n (n - (clamp ((n - 1) / 3) 6 8 + 1)) (clamp ((n - 1) / 3) 6 8)
          (ground arith) (ground arith) (ground arith) (ground arith))
]
