-- ===== src/Collect/SystemStats/Totals.antt =====
-- What a sample says of the disks together.
use chaindash.Base.{
  Bool-cases, filter, any, any-append, Text, contains, ℕ, ◌+◌, ◌≤◌, min, ◌≡◌, refl, sym, ◌∙◌, inl,
  inr, Bool, List, [], ◌∷◌, ◌++◌, map, append-nil, append_assoc, arith,
}
use chaindash.Collect.SystemStats.{
  add_if, Percentages, Disk, DiskDetail, DiskTally, u64_max, no_disks, saturating_add, disk_detail,
  add_disk, tally_disks,
}

unfoldable pub sum_by : {A : Type 0} → (A → ℕ) → List A → ℕ
sum_by f [] = 0
sum_by f (x ∷ xs) = f x + sum_by f xs

sum_by-append :
    {A : Type 0} (f : A → ℕ) (xs ys : List A) → sum_by f (xs ++ ys) ≡ sum_by f xs + sum_by f ys
unfolding sum_by
sum_by-append f [] ys = omega arith
sum_by-append f (x ∷ xs) ys = omega (arith, sum_by-append f xs ys)

module _ {F : Type 0} where
  abbrev pub totals : List (DiskDetail F) → ℕ
  totals ds = sum_by (λ (d : DiskDetail F). d.total) ds

  abbrev pub uses : List (DiskDetail F) → ℕ
  uses ds = sum_by (λ (d : DiskDetail F). d.used) ds

  abbrev pub alerting : List (DiskDetail F) → Bool
  alerting ds = any (λ (d : DiskDetail F). d.is_alert) ds

  -- The sums over the disks that are listed, up to the largest `u64`, and whether one alerts; no
  -- more is used than there is.
  abbrev pub IsTally : DiskTally F → Type 0
  IsTally t =
      (t.disk_total ≡ min (totals t.disk_details) u64_max)
      × (t.disk_used ≡ min (uses t.disk_details) u64_max)
      × (t.has_disk_alerts ≡ alerting t.disk_details)
      × (uses t.disk_details ≤ totals t.disk_details)

  add_disk-IsTally :
      (t : DiskTally F) (d : DiskDetail F) → d.used ≤ d.total → IsTally t → IsTally (add_disk t d)
  unfolding add_disk saturating_add sum_by any
  add_disk-IsTally t d h i = (
    omega (arith, i.0, sum_by-append (λ (d : DiskDetail F). d.total) t.disk_details (d ∷ [])),
    omega (arith, i.1, sum_by-append (λ (d : DiskDetail F). d.used) t.disk_details (d ∷ [])),
    ground (arith, i.2, any-append (λ (d : DiskDetail F). d.is_alert) t.disk_details (d ∷ [])),
    omega (
      arith,
      h,
      i.3,
      sum_by-append (λ (d : DiskDetail F). d.total) t.disk_details (d ∷ []),
      sum_by-append (λ (d : DiskDetail F). d.used) t.disk_details (d ∷ []),
    ),
  )

  details-add_disk :
      (t : DiskTally F) (d : DiskDetail F) (ds : List (DiskDetail F))
      → (add_disk t d).disk_details ++ ds ≡ t.disk_details ++ d ∷ ds
  unfolding add_disk
  details-add_disk t d ds = append_assoc t.disk_details (d ∷ []) ds

module _ {F : Type 0} (floats : Percentages F) (to_lowercase : Text → Text) (threshold : F) where
  used-disk_detail :
      (disk : Disk)
      → (disk_detail floats to_lowercase threshold disk).used
        ≤ (disk_detail floats to_lowercase threshold disk).total
  unfolding disk_detail
  used-disk_detail disk = omega arith

  -- The details of the disks at the mount points, in order.
  abbrev pub details_at : List Text → List Disk → List (DiskDetail F)
  details_at mount_points disks =
      map (disk_detail floats to_lowercase threshold)
        (filter (λ (disk : Disk). contains mount_points disk.mount_point) disks)

  tally-step :
      (mount_points : List Text) (t : DiskTally F) (disk : Disk) (disks : List Disk) {b : Bool}
      → contains mount_points disk.mount_point ≡ b
      → tally_disks floats to_lowercase threshold mount_points t (disk ∷ disks)
        ≡ tally_disks floats to_lowercase threshold mount_points
            (add_if b t (disk_detail floats to_lowercase threshold disk))
            disks
  unfolding tally_disks
  tally-step mount_points t disk disks h = rw h refl

  tally-nil :
      (mount_points : List Text) (t : DiskTally F)
      → tally_disks floats to_lowercase threshold mount_points t [] ≡ t
  unfolding tally_disks
  tally-nil mount_points t = refl

  tally_disks-from :
      (mount_points : List Text) (t : DiskTally F) (disks : List Disk)
      → IsTally t
      → IsTally (tally_disks floats to_lowercase threshold mount_points t disks)
        × ((tally_disks floats to_lowercase threshold mount_points t disks).disk_details
            ≡ t.disk_details ++ details_at mount_points disks)
  unfolding filter
  tally_disks-from mount_points t [] i =
      rw (tally-nil mount_points t) (i, sym (append-nil t.disk_details))
  tally_disks-from mount_points t (disk ∷ disks) i =
      let d = disk_detail floats to_lowercase threshold disk in
      elim (Bool-cases (contains mount_points disk.mount_point)) [
        | inl listed ↦
            let rest =
              tally_disks-from mount_points (add_disk t d) disks
                (add_disk-IsTally t d (used-disk_detail disk) i) in
            rw (tally-step mount_points t disk disks listed)
              (rw listed (rest.0, rest.1 ∙ details-add_disk t d (details_at mount_points disks)))
        | inr skipped ↦
            rw (tally-step mount_points t disk disks skipped)
              (rw skipped (tally_disks-from mount_points t disks i))
      ]

  -- A sample lists the disks at the monitored mount points, in order, and no others. Its totals are
  -- the sums over them, or the largest `u64`; it has an alert exactly if one of them does; and no
  -- more is used than there is.
  pub tally_disks-IsTally :
      (mount_points : List Text) (disks : List Disk)
      → let t = tally_disks floats to_lowercase threshold mount_points no_disks disks in
        IsTally t × (t.disk_details ≡ details_at mount_points disks) × (t.disk_used ≤ t.disk_total)
  unfolding sum_by any
  tally_disks-IsTally mount_points disks =
      let tallied =
        tally_disks-from mount_points no_disks disks
          (omega arith, omega arith, refl, omega arith) in
      (tallied.0, tallied.1, omega (arith, tallied.0.0, tallied.0.1, tallied.0.3))
