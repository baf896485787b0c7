-- ===== src/Notify/Summary/Tally.antt =====
-- What a summary reports of the events that it counts: an independent description.
use chaindash.Base.{
  ◌==◌, if◌then◌else◌, length, any, length-append, Text, codes, join, ◌≡◌, refl, sym, ap, ◌∙◌, Bool,
  true, false, Option, none, some, List, [], ◌∷◌, ◌++◌, append-nil, arith,
}
use chaindash.Opts.Number.{decimal}
use chaindash.Notify.Filter.{
  EventKind, connection_failed, connection_recovered, ranking_changed, daily_summary,
}
use chaindash.Notify.Summary.{
  QuietSummaryBuffer, QuietSummarySnapshot, record_name, record_event, push_some, render_line,
  summary_lines, render_snapshot,
}
use chaindash.Notify.Summary.Names.{preview, bucket_of, record_name-bucket_of}

-- An event that is held back: its kind and its subject.
abbrev pub Held : Type 0
Held = EventKind × Text

abbrev pub same_kind : EventKind → EventKind → Bool
same_kind connection_failed connection_failed = true
same_kind connection_recovered connection_recovered = true
same_kind ranking_changed ranking_changed = true
same_kind daily_summary daily_summary = true
same_kind a b = false

-- The subjects of the events of a kind, in order.
abbrev pub subjects_of : EventKind → List Held → List Text
subjects_of kind [] = []
subjects_of kind ((event, subject) ∷ held) =
    if same_kind event kind then subject ∷ subjects_of kind held else subjects_of kind held

-- The line of a kind: how many events, and the first three different subjects.
abbrev pub line_of : Text → List Text → List Text
line_of label [] = []
line_of label (x ∷ xs) =
    ((label ++ (codes " " ++ (decimal (length (x ∷ xs)) ++ codes " 次")))
      ++ (codes "：" ++ join (codes ", ") (preview (x ∷ xs))))
    ∷ []

abbrev pub lines_of : List Held → List Text
lines_of held =
    line_of (codes "连接失败") (subjects_of connection_failed held)
    ++ (line_of (codes "连接恢复") (subjects_of connection_recovered held)
        ++ line_of (codes "排名变化") (subjects_of ranking_changed held))

-- The summary of some events: their number, and the lines of the kinds that there are.
abbrev pub report : List Held → Option QuietSummarySnapshot
report [] = none
report (h ∷ held) =
    some
      (record { total_count = length (h ∷ held); details = join (10 ∷ []) (lines_of (h ∷ held)) })

-- The buffer that has counted some events.
abbrev pub buffer_of : List Held → QuietSummaryBuffer
buffer_of held = record {
  total_count = length held;
  failed = bucket_of (subjects_of connection_failed held);
  recovered = bucket_of (subjects_of connection_recovered held);
  ranking = bucket_of (subjects_of ranking_changed held);
}

subjects_of-snoc :
    (kind : EventKind) (held : List Held) (event : EventKind) (subject : Text)
    → subjects_of kind (held ++ (event, subject) ∷ [])
      ≡ subjects_of kind held ++ (if same_kind event kind then subject ∷ [] else [])
subjects_of-snoc kind [] event subject = ground arith
subjects_of-snoc kind ((e, s) ∷ held) event subject =
    ground (arith, subjects_of-snoc kind held event subject)

buffer_eq :
    (a b : QuietSummaryBuffer)
    → a.total_count ≡ b.total_count
    → a.failed ≡ b.failed
    → a.recovered ≡ b.recovered
    → a.ranking ≡ b.ranking
    → a ≡ b
buffer_eq a b h k l m =
    λ i. record { total_count = h i; failed = k i; recovered = l i; ranking = m i }

-- A bucket of another kind stays.
same_bucket :
    (kind : EventKind) (held : List Held) (event : EventKind) (subject : Text)
    → same_kind event kind ≡ false
    → bucket_of (subjects_of kind held)
      ≡ bucket_of (subjects_of kind (held ++ (event, subject) ∷ []))
same_bucket kind held event subject h =
    ap bucket_of (sym (subjects_of-snoc kind held event subject ∙ rw h (append-nil _)))

grown_bucket :
    (kind : EventKind) (held : List Held) (event : EventKind) (subject : Text)
    → same_kind event kind ≡ true
    → record_name (bucket_of (subjects_of kind held)) subject
      ≡ bucket_of (subjects_of kind (held ++ (event, subject) ∷ []))
grown_bucket kind held event subject h =
    record_name-bucket_of (subjects_of kind held) subject
    ∙ ap bucket_of (sym (subjects_of-snoc kind held event subject ∙ rw h refl))

-- Recording an event is counting one more.
pub record_event-buffer_of :
    (held : List Held) (event : EventKind) (subject : Text)
    → record_event (buffer_of held) event subject ≡ buffer_of (held ++ (event, subject) ∷ [])
unfolding record_event
record_event-buffer_of held connection_failed subject =
    buffer_eq _ _ (sym (length-append held _))
      (grown_bucket connection_failed held connection_failed subject refl)
      (same_bucket connection_recovered held connection_failed subject refl)
      (same_bucket ranking_changed held connection_failed subject refl)
record_event-buffer_of held connection_recovered subject =
    buffer_eq _ _ (sym (length-append held _))
      (same_bucket connection_failed held connection_recovered subject refl)
      (grown_bucket connection_recovered held connection_recovered subject refl)
      (same_bucket ranking_changed held connection_recovered subject refl)
record_event-buffer_of held ranking_changed subject =
    buffer_eq _ _ (sym (length-append held _))
      (same_bucket connection_failed held ranking_changed subject refl)
      (same_bucket connection_recovered held ranking_changed subject refl)
      (grown_bucket ranking_changed held ranking_changed subject refl)
record_event-buffer_of held daily_summary subject =
    buffer_eq _ _ (sym (length-append held _))
      (same_bucket connection_failed held daily_summary subject refl)
      (same_bucket connection_recovered held daily_summary subject refl)
      (same_bucket ranking_changed held daily_summary subject refl)

push-line :
    (label : Text) (names lines : List Text)
    → push_some (render_line (bucket_of names) label) lines ≡ line_of label names ++ lines
unfolding render_line any
push-line label [] lines = refl
push-line label (x ∷ xs) lines =
    let counted : (length (x ∷ xs) == 0) ≡ false = ground arith in rw counted refl

pub render_snapshot-buffer_of : (held : List Held) → render_snapshot (buffer_of held) ≡ report held
unfolding render_snapshot summary_lines
render_snapshot-buffer_of [] = refl
render_snapshot-buffer_of (h ∷ held) =
    let counted : (length (h ∷ held) == 0) ≡ false = ground arith in
    let failed = subjects_of connection_failed (h ∷ held) in
    let recovered = subjects_of connection_recovered (h ∷ held) in
    let ranking = subjects_of ranking_changed (h ∷ held) in
    let lines : summary_lines (buffer_of (h ∷ held)) ≡ lines_of (h ∷ held) =
      push-line (codes "连接失败") failed _
      ∙ ap (λ l. line_of (codes "连接失败") failed ++ l)
          (push-line (codes "连接恢复") recovered _
            ∙ ap (λ l. line_of (codes "连接恢复") recovered ++ l)
                (push-line (codes "排名变化") ranking [] ∙ append-nil _)) in
    rw (counted, lines) refl
