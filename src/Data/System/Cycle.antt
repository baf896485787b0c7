-- ===== src/Data/System/Cycle.antt =====
-- The keys go round the disks.
use native.Mathlib.Nat.{mod-add-mod, mod_self}
use chaindash.Base.{
  ◌==◌, if◌then◌else◌, Bool-cases, length, ℕ, zero, suc, ◌+◌, ◌-◌, ◌%◌, ◌<◌, ◌≡◌, sym, ap, ◌∙◌, inl,
  inr, true, false, arith,
}
use chaindash.Data.System.{
  SystemStats, update_disk_index, switch_disk_selection, handle_tab_key, handle_shift_tab_key,
}
use chaindash.Data.System.Selection.{clamp_index-eq}

mod-bound : (a n : ℕ) → 1 < n → a % n < n
mod-bound a n many = grind arith

next_index-bound : (i n : ℕ) → 1 < n → (i + 1) % n < n
next_index-bound i n many = mod-bound (i + 1) n many

rest_index : (i n : ℕ) → i < n → (i + 0) % n ≡ i
rest_index i n here = grind arith

next_mod : (i k n : ℕ) → 1 < n → ((i + k) % n + 1) % n ≡ (i + suc k) % n
next_mod i k n many = mod-add-mod (i + k) n 1 ∙ ap (λ a. a % n) (omega arith)

is_next : (i n : ℕ) → (i + 1 == n) ≡ true → i + 1 ≡ n
is_next i n last = ground arith

last_mod : (i n : ℕ) → 1 < n → (i + 1 == n) ≡ true → (i + 1) % n ≡ 0
last_mod i n many last = rw (is_next i n last) (mod_self n)

inner_mod : (i n : ℕ) → i < n → (i + 1 == n) ≡ false → (i + 1) % n ≡ i + 1
inner_mod i n here inner = grind arith

-- The disk before the one after `i` is `i`.
previous_next :
    (i n : ℕ) → 1 < n → i < n → (if (i + 1) % n == 0 then n - 1 else (i + 1) % n - 1) ≡ i
previous_next i n many here = elim (Bool-cases (i + 1 == n)) [
  | inl last ↦ rw (last_mod i n many last) (ground arith)
  | inr inner ↦ rw (inner_mod i n here inner) (ground arith)
]

module _ {F D : Type 0} where
  module _ (s : SystemStats F D) (many : 1 < length s.disk_details)
      (here : s.current_disk_index < length s.disk_details) where
    -- With two disks or more, a key that chooses a disk selects it.
    switch-index :
        (next_index : ℕ → ℕ → ℕ)
        → next_index s.current_disk_index (length s.disk_details) < length s.disk_details
        → (switch_disk_selection s next_index).0 ≡ record s {
          current_disk_index = next_index s.current_disk_index (length s.disk_details);
        }
    unfolding switch_disk_selection update_disk_index
    switch-index next_index h = ground (
      arith,
      clamp_index-eq (next_index s.current_disk_index (length s.disk_details)) s.disk_details h,
    )

    tab-index :
        (handle_tab_key s).0
        ≡ record s { current_disk_index = (s.current_disk_index + 1) % length s.disk_details }
    unfolding handle_tab_key
    tab-index = switch-index (λ i n. (i + 1) % n) (grind arith)

    shift_tab-index : (handle_shift_tab_key s).0 ≡ record s {
      current_disk_index =
          if s.current_disk_index == 0 then length s.disk_details - 1 else s.current_disk_index - 1;
    }
    unfolding handle_shift_tab_key
    shift_tab-index = switch-index (λ i n. if i == 0 then n - 1 else i - 1) (ground arith)

  -- With two disks or more and one of them selected, Shift-Tab takes back Tab.
  pub shift_tab-tab :
      (s : SystemStats F D)
      → 1 < length s.disk_details
      → s.current_disk_index < length s.disk_details
      → (handle_shift_tab_key (handle_tab_key s).0).0 ≡ s
  shift_tab-tab s many here = rw (tab-index s many here) (
      shift_tab-index
        (record s { current_disk_index = (s.current_disk_index + 1) % length s.disk_details }) many
        (next_index-bound s.current_disk_index (length s.disk_details) many)
      ∙ ap (λ i. record s { current_disk_index = i })
          (previous_next s.current_disk_index (length s.disk_details) many here))

  unfoldable pub tabs : SystemStats F D → ℕ → SystemStats F D
  tabs s zero = s
  tabs s (suc k) = (handle_tab_key (tabs s k)).0

  -- With two disks or more and disk `i` of `n` selected, `k` presses of Tab select disk
  -- `(i + k) % n` and change nothing else.
  pub tabs-index :
      (s : SystemStats F D) (k : ℕ)
      → 1 < length s.disk_details
      → s.current_disk_index < length s.disk_details
      → tabs s k
        ≡ record s { current_disk_index = (s.current_disk_index + k) % length s.disk_details }
  unfolding tabs
  tabs-index s zero many here =
      ap (λ i. record s { current_disk_index = i })
        (sym (rest_index s.current_disk_index (length s.disk_details) here))
  tabs-index s (suc k) many here =
      ap (λ t. (handle_tab_key t).0) (tabs-index s k many here)
      ∙ (tab-index
            (record s { current_disk_index = (s.current_disk_index + k) % length s.disk_details })
            many (mod-bound (s.current_disk_index + k) (length s.disk_details) many)
          ∙ ap (λ i. record s { current_disk_index = i })
              (next_mod s.current_disk_index k (length s.disk_details) many))
