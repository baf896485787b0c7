-- ===== src/Data/System/Selection.antt =====
-- The disk that is selected.
use chaindash.Base.{
  leb, ◌==◌, Bool-cases, length, ℕ, ◌<◌, ◌≡◌, refl, ◌⊎◌, inl, inr, List, [], ◌∷◌, arith,
}
use chaindash.Data.System.{
  SystemStats, clamp_index, replace_stats, switch_disk_selection, handle_tab_key,
  handle_shift_tab_key,
}

clamp_index-bound :
    {D : Type 0} (index : ℕ) (ds : List D)
    → (clamp_index index ds ≡ 0) ⊎ (clamp_index index ds < length ds)
unfolding clamp_index
clamp_index-bound index [] = inl refl
clamp_index-bound index (d ∷ ds) = inr (omega arith)

pub clamp_index-eq :
    {D : Type 0} (index : ℕ) (ds : List D) → index < length ds → clamp_index index ds ≡ index
unfolding clamp_index
clamp_index-eq index [] h = elim h [ ]
clamp_index-eq index (d ∷ ds) h = omega arith

-- What changes the statistics: a new sample, or a key.
pub data Change (F D : Type 0) : Type 0 where
  sample : SystemStats F D → Change F D
  tab : Change F D
  shift_tab : Change F D

module _ {F D : Type 0} where
  -- The index names a disk, or is 0.
  abbrev pub InRange : SystemStats F D → Type 0
  InRange s = (s.current_disk_index ≡ 0) ⊎ (s.current_disk_index < length s.disk_details)

  unfoldable pub apply : SystemStats F D → Change F D → SystemStats F D
  apply s (sample new) = (replace_stats s new).0
  apply s tab = (handle_tab_key s).0
  apply s shift_tab = (handle_shift_tab_key s).0

  unfoldable pub apply_all : SystemStats F D → List (Change F D) → SystemStats F D
  apply_all s [] = s
  apply_all s (c ∷ cs) = apply_all (apply s c) cs

  replace_stats-InRange : (s new : SystemStats F D) → InRange (replace_stats s new).0
  unfolding replace_stats
  replace_stats-InRange s new = clamp_index-bound s.current_disk_index new.disk_details

  switch_disk_selection-InRange :
      (s : SystemStats F D) (next_index : ℕ → ℕ → ℕ)
      → InRange s
      → InRange (switch_disk_selection s next_index).0
  unfolding switch_disk_selection
  switch_disk_selection-InRange s next_index h = elim (Bool-cases (leb (length s.disk_details) 1)) [
    | inl few ↦ rw few h
    | inr many ↦
        elim (Bool-cases
          (next_index s.current_disk_index (length s.disk_details) == s.current_disk_index)) [
            | inl same ↦ rw (many, same) h
            | inr other ↦
                rw (many, other)
                  (clamp_index-bound (next_index s.current_disk_index (length s.disk_details))
                    s.disk_details)
          ]
  ]

  apply-InRange : (s : SystemStats F D) (c : Change F D) → InRange s → InRange (apply s c)
  unfolding apply
  apply-InRange s (sample new) h = replace_stats-InRange s new
  apply-InRange s tab h = unfold handle_tab_key in switch_disk_selection-InRange s _ h
  apply-InRange s shift_tab h = unfold handle_shift_tab_key in switch_disk_selection-InRange s _ h

  -- Whatever samples and keys arrive, with more or fewer disks each time: if the index names a
  -- disk or is 0 before them, it does so after them.
  pub apply_all-InRange :
      (s : SystemStats F D) (cs : List (Change F D)) → InRange s → InRange (apply_all s cs)
  unfolding apply_all
  apply_all-InRange s [] h = h
  apply_all-InRange s (c ∷ cs) h = apply_all-InRange (apply s c) cs (apply-InRange s c h)
