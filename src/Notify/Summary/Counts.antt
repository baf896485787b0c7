-- ===== src/Notify/Summary/Counts.antt =====
-- The counts and the previewed names of the quiet summary.
use chaindash.Base.{
  leb, Bool-cases, length, any, length-append, Text, text_eq, text_eq_iff, ◌+◌, ◌≤◌, ◌<◌, ◌≡◌, refl,
  ◌≢◌, inl, inr, true, false, List, [], ◌∷◌, ◌++◌, arith,
}
use chaindash.Notify.Filter.{
  EventKind, connection_failed, connection_recovered, ranking_changed, daily_summary,
}
use chaindash.Notify.Summary.{
  QuietSummaryBucket, QuietSummaryBuffer, empty_buffer, record_name, record_event,
  quiet_summary_preview_limit,
}

-- No name stands twice.
abbrev pub Distinct : List Text → Type 0
Distinct [] = Unit
Distinct (x ∷ xs) = (any (λ y. text_eq y x) xs ≡ false) × Distinct xs

pub record IsTidy (bucket : QuietSummaryBucket) : Type 0 where
  pub few : length bucket.names ≤ quiet_summary_preview_limit
  pub counted : length bucket.names ≤ bucket.count
  pub distinct : Distinct bucket.names
  pub named : 0 < bucket.count → 0 < length bucket.names

any-snoc :
    (x y : Text) (xs : List Text)
    → any (λ z. text_eq z x) xs ≡ false
    → text_eq y x ≡ false
    → any (λ z. text_eq z x) (xs ++ y ∷ []) ≡ false
unfolding any
any-snoc x y [] h k = ground arith
any-snoc x y (z ∷ xs) h k = ground (arith, any-snoc x y xs)

text_eq_sym : (x y : Text) → text_eq x y ≡ false → text_eq y x ≡ false
text_eq_sym x y h = ground (arith, text_eq_iff x y, text_eq_iff y x)

Distinct-snoc :
    (xs : List Text) (y : Text)
    → Distinct xs
    → any (λ z. text_eq z y) xs ≡ false
    → Distinct (xs ++ y ∷ [])
unfolding any
Distinct-snoc [] y d h = (refl, tt)
Distinct-snoc (x ∷ xs) y d h =
    (any-snoc x y xs d.0 (text_eq_sym x y (ground arith)), Distinct-snoc xs y d.1 (ground arith))

length-any : (name : Text) (xs : List Text) → any (λ e. text_eq e name) xs ≡ true → 0 < length xs
unfolding any
length-any name [] h = cc
length-any name (x ∷ xs) h = omega arith

record_name-IsTidy :
    (bucket : QuietSummaryBucket) (name : Text) → IsTidy bucket → IsTidy (record_name bucket name)
unfolding record_name
record_name-IsTidy bucket name t = elim (Bool-cases (leb 3 (length bucket.names))) [
  | inl full ↦ rw full (record {
    few = t.few;
    counted = omega (arith, t.counted);
    distinct = t.distinct;
    named = λ _. ground arith;
  })
  | inr room ↦ elim (Bool-cases (any (λ e. text_eq e name) bucket.names)) [
    | inl old ↦
        rw (room, old)
          (record {
            few = t.few;
            counted = omega (arith, t.counted);
            distinct = t.distinct;
            named = λ _. length-any name bucket.names old;
          })
    | inr new ↦
        rw (room, new)
          (record {
            few = rw length-append (ground arith);
            counted = rw length-append (omega (arith, t.counted));
            distinct = Distinct-snoc bucket.names name t.distinct new;
            named = λ _. rw length-append (omega arith);
          })
  ]
]

-- The invariant of the buffer: the total is the sum of the counts, as long as no daily summary
-- is buffered, and each bucket previews at most three names, each once.
pub record IsConsistent (buffer : QuietSummaryBuffer) : Type 0 where
  pub total :
      buffer.total_count ≡ buffer.failed.count + buffer.recovered.count + buffer.ranking.count
  pub failed_tidy : IsTidy buffer.failed
  pub recovered_tidy : IsTidy buffer.recovered
  pub ranking_tidy : IsTidy buffer.ranking

count-record_name :
    (bucket : QuietSummaryBucket) (name : Text) → (record_name bucket name).count ≡ bucket.count + 1
unfolding record_name
count-record_name bucket name = ground arith

pub IsConsistent-empty : IsConsistent empty_buffer
IsConsistent-empty = omega arith

-- Recording an event that the quiet hours hold back keeps the buffer consistent: the total stays
-- the sum of the counts, each bucket previews at most three names, no name twice, and at least
-- one where it counts anything.
pub record_event-IsConsistent :
    (buffer : QuietSummaryBuffer) (event : EventKind) (subject : Text)
    → IsConsistent buffer
    → event ≢ daily_summary
    → IsConsistent (record_event buffer event subject)
unfolding record_event
record_event-IsConsistent buffer connection_failed subject c h = record {
  total = omega (arith, c.total, count-record_name buffer.failed subject);
  failed_tidy = record_name-IsTidy buffer.failed subject c.failed_tidy;
  recovered_tidy = c.recovered_tidy;
  ranking_tidy = c.ranking_tidy;
}
record_event-IsConsistent buffer connection_recovered subject c h = record {
  total = omega (arith, c.total, count-record_name buffer.recovered subject);
  failed_tidy = c.failed_tidy;
  recovered_tidy = record_name-IsTidy buffer.recovered subject c.recovered_tidy;
  ranking_tidy = c.ranking_tidy;
}
record_event-IsConsistent buffer ranking_changed subject c h = record {
  total = omega (arith, c.total, count-record_name buffer.ranking subject);
  failed_tidy = c.failed_tidy;
  recovered_tidy = c.recovered_tidy;
  ranking_tidy = record_name-IsTidy buffer.ranking subject c.ranking_tidy;
}
record_event-IsConsistent buffer daily_summary subject c h = absurd (h refl)
