-- ===== src/Widgets/Helpers/Priority.antt =====
-- `select_prioritized_lines` of src/widgets/helpers.rs: which lines stay where there are too few rows.
pub mod Ranks
pub mod Best
pub mod Count
pub mod First
use chaindash.Base.{
  leb, ◌==◌, if◌then◌else◌, length, take, any, then_with, insert_by, sort_by, ℕ, ◌+◌, Bool, List,
  [], ◌∷◌, map,
}

-- A line with its priority: the smaller the number, the longer it stays.
abbrev pub PriorityLine {ℓ} : Type ℓ → Type ℓ
PriorityLine A = ℕ × A

-- The order by priority, and among equals by index.
abbrev pub rank_leb : ℕ × ℕ → ℕ × ℕ → Bool
rank_leb (index, priority) (index', priority') =
    then_with (priority == priority') (leb priority priority') (leb index index')

-- A `BTreeSet` of indices, of which only membership is asked.
unfoldable pub kept : List (ℕ × ℕ) → ℕ → Bool
kept keep index = any (λ r. r.0 == index) keep

module _ {ℓ} {A : Type ℓ} where
  -- `specs.iter().enumerate()`, from an index on.
  abbrev pub ranked : ℕ → List (PriorityLine A) → List (ℕ × ℕ)
  ranked index [] = []
  ranked index ((priority, line) ∷ specs) = (index, priority) ∷ ranked (index + 1) specs

  unfoldable pub keep_lines : List (ℕ × ℕ) → ℕ → List (PriorityLine A) → List A
  unfolding kept
  keep_lines keep index [] = []
  keep_lines keep index ((priority, line) ∷ specs) =
      let rest = keep_lines keep (index + 1) specs in if kept keep index then line ∷ rest else rest

  unfoldable pub select_prioritized_lines : List (PriorityLine A) → ℕ → List A
  unfolding keep_lines sort_by insert_by
  select_prioritized_lines specs max_rows =
      if max_rows == 0
      then []
      else if leb (length specs) max_rows
      then map (λ spec. spec.1) specs
      else keep_lines (take max_rows (sort_by rank_leb (ranked 0 specs))) 0 specs
