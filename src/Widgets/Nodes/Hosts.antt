-- ===== src/Widgets/Nodes/Hosts.antt =====
-- A host is shortened to the columns that there are, and keeps both ends.
use chaindash.Base.{
  leb, ◌==◌, Bool-cases, Option-cases, length, length-append, drop-append, take-append, Text, codes,
  rsplit_once, rsplit_once-join, ℕ, suc, ◌+◌, ◌-◌, ◌≤◌, ◌<◌, ◌≡◌, refl, ap, ◌∙◌, inl, inr, false,
  ◌∷◌, ◌++◌, arith,
}
use chaindash.Widgets.Helpers.Cuts.{Shortened, prefix-take, cut-Shortened, ends-Shortened}
use chaindash.Widgets.Nodes.{prefix_chars, shorten_middle, port_fits, shorten_host_for_width}

shorten_middle-Shortened :
    (host : Text) (n : ℕ) → 6 ≤ n → n < length host → Shortened host (shorten_middle host n) n
unfolding shorten_middle
shorten_middle-Shortened host n h k =
    ends-Shortened host n _ _ k (ground arith) (ground arith) (ground arith)

-- Before the port, the host's own prefix is cut.
with_port :
    (host base port : Text) (n : ℕ)
    → host ≡ base ++ b':' ∷ port
    → length (b':' ∷ port) + 1 < n
    → n < length host
    → Shortened host
        (prefix_chars base (n - (length (b':' ∷ port) + 1)) ++ (codes "…" ++ b':' ∷ port))
        n
with_port host base port n e h k =
    let size : length host ≡ length base + suc (length port) =
      ap length e ∙ length-append base (b':' ∷ port) in
    cut-Shortened host _ n (n - (length (b':' ∷ port) + 1)) (length base)
      (rw e (
        rw
          (
            prefix-take base (n - (length (b':' ∷ port) + 1)),
            drop-append base (b':' ∷ port),
            take-append (n - (length (b':' ∷ port) + 1)) base (b':' ∷ port) (omega arith),
          )
          refl))
      k (omega arith) (omega arith) (omega arith)

-- With room for six characters or more, a host that fits is shown as it is. Any other is shown in
-- exactly as many characters as there is room for: a first part of it, then …, then a last part of it,
-- both with a character or more.
pub shorten_host_for_width-Shortened :
    (host : Text) (n : ℕ) → 6 ≤ n → Shortened host (shorten_host_for_width host n) n
unfolding shorten_host_for_width
shorten_host_for_width-Shortened host n h = elim (Bool-cases (leb (length host) n)) [
  | inl fits ↦ inl (ground arith, ground arith)
  | inr long ↦
      let none_left : (n == 0) ≡ false = ground arith in
      let middle = shorten_middle-Shortened host n h (ground arith) in
      rw (none_left, long)
        (elim (Option-cases (rsplit_once b':' host)) [
          | inl plain ↦ rw plain middle
          | inr ((base, port), found) ↦ rw found (elim (Bool-cases (port_fits base port n)) [
            | inl fits ↦ rw fits (
                with_port host base port n (rsplit_once-join b':' host base port found)
                  (ground arith) (ground arith))
            | inr large ↦ rw large middle
          ])
        ])
]
