-- ===== src/Collect/PeerGeo.antt =====
-- src/collect/peer_geo.rs: when the peers are polled, which lookups are started, and what becomes of
-- them; with the address tests of src/geo/peers.rs as a parameter, as `IpAddr` is not of this
-- repository. Durations are in nanoseconds. A round starts a task for each address to enrich that no
-- task looks up yet; the tasks run concurrently, and each one ends with its entry written.
pub mod Single
use chaindash.Base.{
  ltb, if◌then◌else◌, not, filter, Text, codes, text_eq, contains, ℕ, ◌+◌, ◌*◌, ◌≡◌, Bool, true,
  false, Option, none, some, List, [], ◌∷◌,
}
use chaindash.Geo.Store.{LocationEntry}

abbrev pub peer_poll_interval : ℕ
peer_poll_interval = 60 * 1_000_000_000

-- Whether a poll is due, and the time of the next one.
unfoldable pub poll_due : ℕ → ℕ → Bool × ℕ
poll_due elapsed next_poll =
    if ltb elapsed next_poll then (false, next_poll) else (true, elapsed + peer_poll_interval)

-- What IPinfo says of an address.
pub record IpInfoEntry : Type 0 where
  pub ip : Text
  pub country : Option Text
  pub loc : Option Text

pub data Lookup : Type 0 where
  found : IpInfoEntry → Lookup
  unusable : Lookup
  lookup_error : Text → Lookup

unfoldable pub build_location_entry : Text → Lookup → LocationEntry
build_location_entry ip (found entry) = record {
  ip = ip;
  country = entry.country;
  loc = entry.loc;
  error = none;
}
build_location_entry ip unusable = record {
  ip = ip;
  country = none;
  loc = none;
  error = some (codes "ipinfo returned no usable location data");
}
build_location_entry ip (lookup_error e) = record {
  ip = ip;
  country = none;
  loc = none;
  error = some e;
}

-- `pending`, and the addresses that the running tasks look up.
pub record Lookups : Type 0 where
  pub pending : List Text
  pub tasks : List Text

-- `HashSet::insert` on `pending`: an address that is there already is passed over.
unfoldable pub spawn_lookup : Lookups → Text → Lookups
unfolding contains
spawn_lookup s ip =
    if contains s.pending ip then s else record { pending = ip ∷ s.pending; tasks = ip ∷ s.tasks }

-- An address that must not be sent anywhere is filtered out.
abbrev pub spawn_if : Bool → Lookups → Text → Lookups
spawn_if true s ip = spawn_lookup s ip
spawn_if false s ip = s

-- The loop over `needs_enrichment`, given the filter.
unfoldable pub spawn_lookups : (Text → Bool) → List Text → Lookups → Lookups
unfolding spawn_lookup
spawn_lookups is_enrichable [] s = s
spawn_lookups is_enrichable (ip ∷ ips) s =
    spawn_lookups is_enrichable ips (spawn_if (is_enrichable ip) s ip)

-- One task for the address is over.
unfoldable pub end_task : Text → List Text → List Text
unfolding text_eq
end_task ip [] = []
end_task ip (task ∷ tasks) =
    let rest = end_task ip tasks in if text_eq task ip then tasks else task ∷ rest

-- The end of a task: `pending.remove`.
unfoldable pub end_lookup : Text → Lookups → Lookups
unfolding end_task filter text_eq
end_lookup ip s = record {
  pending = filter (λ pending_ip. not (text_eq pending_ip ip)) s.pending;
  tasks = end_task ip s.tasks;
}

-- What happens next: a round finds addresses to enrich, or a running task ends.
pub data Step (is_enrichable : Text → Bool) (s : Lookups) : Lookups → Type 0 where
  round :
      (needs_enrichment : List Text)
      → Step is_enrichable s (spawn_lookups is_enrichable needs_enrichment s)
  ended : (ip : Text) → contains s.tasks ip ≡ true → Step is_enrichable s (end_lookup ip s)

pub data Steps (is_enrichable : Text → Bool) (s : Lookups) : Lookups → Type 0 where
  here : Steps is_enrichable s s
  then_step :
      {t u : Lookups} → Steps is_enrichable s t → Step is_enrichable t u → Steps is_enrichable s u

abbrev pub no_lookups : Lookups
no_lookups = record { pending = []; tasks = [] }
