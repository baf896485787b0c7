-- ===== src/Collect/Snapshots/Files.antt =====
-- `read_store`, `write_store` and `save_snapshot` of src/collect/daily_snapshot.rs. The file is what
-- `read_to_string` finds at the path; each call of the file system can fail, as `Faults` says.
use chaindash.Data.NodeDetails.{NodeDetail}
use chaindash.Collect.Snapshots.{
  StoredDailyNodeSnapshotStore, save_to, from_node_details, no_snapshots, upsert, prune,
}
use chaindash.Base.{
  if◌then◌else◌, Bool-cases, Text, codes, is_empty, trim, remove, ◌≡◌, refl, ◌⊎◌, inl, inr, Bool,
  false, ◌||◌, Option, none, some, List, [], ◌∷◌,
}

-- The calls that fail, with their errors. `unreadable` is an error of `read_to_string` other than
-- that there is no file.
pub record Faults : Type 0 where
  pub unreadable : Bool
  pub no_parent : Bool
  pub create_dir_all : Option Text
  pub to_vec_pretty : Option Text
  pub write : Option Text
  pub remove_file : Option Text
  pub rename : Option Text

-- `serde_json` for the store.
pub record Json (F : Type 0) : Type 0 where
  pub print : StoredDailyNodeSnapshotStore F → Text
  pub parse : Text → Option (StoredDailyNodeSnapshotStore F)

module _ {F : Type 0} (json : Json F) where
  abbrev parsed : Option (StoredDailyNodeSnapshotStore F) → StoredDailyNodeSnapshotStore F
  parsed none = no_snapshots
  parsed (some store) = store

  unfoldable pub read_store : Faults → Option Text → StoredDailyNodeSnapshotStore F
  unfolding trim is_empty
  read_store faults none = no_snapshots
  read_store faults (some content) =
      if faults.unreadable || is_empty (trim content)
      then no_snapshots
      else parsed (json.parse content)

  -- `?` on each call in turn: the first error.
  abbrev first_error : List (Option Text) → Option Text
  first_error [] = none
  first_error (none ∷ rest) = first_error rest
  first_error (some e ∷ rest) = some e

  abbrev rename_to : Option Text → Text → Option Text × Option Text
  rename_to none content = (some content, none)
  rename_to (some e) content = (none, some e)

  -- The file is removed, where there is one, and the new one takes its name.
  abbrev replace_file : Faults → Option Text → Text → Option Text → Option Text × Option Text
  replace_file faults none content e = rename_to faults.rename content
  replace_file faults (some old) content none = rename_to faults.rename content
  replace_file faults (some old) content (some e) = (some old, some e)

  abbrev written : Faults → Option Text → Text → Option Text → Option Text × Option Text
  written faults file content none = replace_file faults file content faults.remove_file
  written faults file content (some e) = (file, some e)

  -- The file afterwards, and the error if there is one.
  unfoldable pub write_store :
      Faults → Option Text → StoredDailyNodeSnapshotStore F → Option Text × Option Text
  write_store faults file store =
      if faults.no_parent
      then (file, some (codes "daily node snapshot path has no parent directory"))
      else written faults file (json.print store)
          (first_error (faults.create_dir_all ∷ faults.to_vec_pretty ∷ faults.write ∷ []))

  unfoldable pub save_snapshot :
      Faults → Option Text → Text → List (NodeDetail F) → Option Text × Option Text
  unfolding upsert prune from_node_details read_store write_store
  save_snapshot faults file date [] = (file, none)
  save_snapshot faults file date (d ∷ ds) =
      write_store faults file (save_to (read_store faults file) (from_node_details date (d ∷ ds)))

  -- The file has the new content, or there is an error and the file is as it was or gone.
  abbrev pub IsOutcome : Option Text → Text → Option Text × Option Text → Type 0
  IsOutcome file content (after, error) =
      ((after ≡ some content) × (error ≡ none))
      ⊎ ((e : Text) × (error ≡ some e) × ((after ≡ file) ⊎ (after ≡ none)))

  rename_to-IsOutcome :
      (file : Option Text) (content : Text) (rename : Option Text)
      → IsOutcome file content (rename_to rename content)
  rename_to-IsOutcome file content none = inl (refl, refl)
  rename_to-IsOutcome file content (some e) = inr (e, refl, inr refl)

  replace_file-IsOutcome :
      (faults : Faults) (file : Option Text) (content : Text) (remove : Option Text)
      → IsOutcome file content (replace_file faults file content remove)
  replace_file-IsOutcome faults none content remove = rename_to-IsOutcome none content faults.rename
  replace_file-IsOutcome faults (some old) content none =
      rename_to-IsOutcome (some old) content faults.rename
  replace_file-IsOutcome faults (some old) content (some e) = inr (e, refl, inl refl)

  written-IsOutcome :
      (faults : Faults) (file : Option Text) (content : Text) (error : Option Text)
      → IsOutcome file content (written faults file content error)
  written-IsOutcome faults file content none =
      replace_file-IsOutcome faults file content faults.remove_file
  written-IsOutcome faults file content (some e) = inr (e, refl, inl refl)

  write_store-IsOutcome :
      (faults : Faults) (file : Option Text) (store : StoredDailyNodeSnapshotStore F)
      → IsOutcome file (json.print store) (write_store faults file store)
  unfolding write_store
  write_store-IsOutcome faults file store = elim (Bool-cases faults.no_parent) [
    | inl missing ↦ rw missing (inr (_, refl, inl refl))
    | inr there ↦ rw there (written-IsOutcome faults file (json.print store) _)
  ]

  -- Where the store that is written is printed to a text that is not blank and parses back: after a
  -- save of one node or more the store that was read, with the snapshot, is read again; or there is
  -- an error, and the file is as it was or gone.
  pub read_store-save_snapshot :
      (faults : Faults) (file : Option Text) (date : Text) (d : NodeDetail F)
      (ds : List (NodeDetail F)) (next : StoredDailyNodeSnapshotStore F)
      → next ≡ save_to (read_store faults file) (from_node_details date (d ∷ ds))
      → is_empty (trim (json.print next)) ≡ false
      → json.parse (json.print next) ≡ some next
      → (later : Faults) → later.unreadable ≡ false
      → ((read_store later (save_snapshot faults file date (d ∷ ds)).0 ≡ next)
          × ((save_snapshot faults file date (d ∷ ds)).1 ≡ none))
        ⊎ ((e : Text) × ((save_snapshot faults file date (d ∷ ds)).1 ≡ some e)
            × (((save_snapshot faults file date (d ∷ ds)).0 ≡ file)
                ⊎ ((save_snapshot faults file date (d ∷ ds)).0 ≡ none)))
  unfolding save_snapshot
  read_store-save_snapshot faults file date d ds next same printed parses later readable =
      elim (write_store-IsOutcome faults file next) [
        | inl saved ↦
            rw (← same)
              (inl (rw saved.0 (unfold read_store in rw (readable, printed, parses) refl), saved.1))
        | inr failed ↦ rw (← same) (inr failed)
      ]
