-- ===== src/Geo/Store/Locations.antt =====
-- What the Location Cache keeps.
use chaindash.Base.{
  Bool-cases, All, Text, text_eq, text_eq→eq, Map, lookup, lookup-insert, ℕ, ◌≡◌, refl, ◌⊎◌, inl,
  inr, true, false, some, List, [], ◌∷◌,
}
use chaindash.Geo.Store.{Location, LocationEntry, location_of, upsert_location, upsert_locations}

-- The entry is about another address, or it reports a failure.
abbrev pub IsHarmless : Text → LocationEntry → Type 0
IsHarmless ip entry = (text_eq entry.ip ip ≡ false) ⊎ ((error : Text) × (entry.error ≡ some error))

module _ (cache : Map Location) (entry : LocationEntry) (now : ℕ) (ip : Text) (l : Location)
    (there : lookup ip cache ≡ some l) where
  IsKept : Type 0
  IsKept =
      (error : Text) × (lookup ip (upsert_location cache entry now)
        ≡ some (record l { last_error = error }))

  kept-other : text_eq entry.ip ip ≡ false → IsKept
  unfolding IsKept upsert_location
  kept-other other = (
    l.last_error,
    rw
        (
          lookup-insert entry.ip ip (location_of (lookup entry.ip cache) entry entry.error now)
              cache,
          other,
        )
        there,
  )

  kept-failed : (error : Text) → entry.error ≡ some error → text_eq entry.ip ip ≡ true → IsKept
  unfolding IsKept upsert_location
  kept-failed error failed same = (
    error,
    rw
        (
          lookup-insert entry.ip ip (location_of (lookup entry.ip cache) entry entry.error now)
              cache,
          same,
          failed,
          text_eq→eq entry.ip ip same,
          there,
        )
        (unfold location_of in refl),
  )

  lookup-upsert_location : IsHarmless ip entry → IsKept
  lookup-upsert_location (inl other) = kept-other other
  lookup-upsert_location (inr (error, failed)) = elim (Bool-cases (text_eq entry.ip ip)) [
    | inl same ↦ kept-failed error failed same
    | inr other ↦ kept-other other
  ]

-- Failures keep what was found: however many entries are written, at any time, if none of them is a
-- success for the address, its row keeps the country, the location and the time of refreshing.
pub lookup-upsert_locations :
    (cache : Map Location) (entries : List LocationEntry) (now : ℕ) (ip : Text) (l : Location)
    → lookup ip cache ≡ some l
    → All (IsHarmless ip) entries
    → (error : Text) × (lookup ip (upsert_locations cache entries now)
        ≡ some (record l { last_error = error }))
unfolding upsert_locations IsKept
lookup-upsert_locations cache [] now ip l there h = (l.last_error, there)
lookup-upsert_locations cache (entry ∷ entries) now ip l there h =
    let (error, there') = lookup-upsert_location cache entry now ip l there h.0 in
    lookup-upsert_locations (upsert_location cache entry now) entries now ip
      (record l { last_error = error }) there' h.1
