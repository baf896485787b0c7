-- ===== src/Notify/Summary.antt =====
-- `QuietSummaryBucket`, `QuietSummarySnapshot` and `QuietSummaryBuffer` of src/notify.rs.
pub mod Counts
pub mod Names
pub mod Tally
use chaindash.Base.{
  leb, ◌==◌, if◌then◌else◌, length, any, Text, codes, text_eq, join, ℕ, ◌+◌, ◌||◌, Option, none,
  some, List, [], ◌∷◌, ◌++◌,
}
use chaindash.Opts.Number.{decimal}
use chaindash.Notify.Filter.{
  EventKind, connection_failed, connection_recovered, ranking_changed, daily_summary,
}

abbrev pub quiet_summary_preview_limit : ℕ
quiet_summary_preview_limit = 3

pub record QuietSummaryBucket : Type 0 where
  pub count : ℕ
  pub names : List Text

abbrev pub empty_bucket : QuietSummaryBucket
empty_bucket = record { count = 0; names = [] }

unfoldable pub record_name : QuietSummaryBucket → Text → QuietSummaryBucket
record_name bucket name =
    if leb quiet_summary_preview_limit (length bucket.names)
      || any (λ existing. text_eq existing name) bucket.names
    then record bucket { count = bucket.count + 1 }
    else record { count = bucket.count + 1; names = bucket.names ++ name ∷ [] }

unfoldable pub render_line : QuietSummaryBucket → Text → Option Text
unfolding decimal join
render_line bucket label =
    let counted = label ++ (codes " " ++ (decimal bucket.count ++ codes " 次")) in
    if bucket.count == 0 then none else elim bucket.names [
      | [] ↦ some counted
      | name ∷ rest ↦ some (counted ++ (codes "：" ++ join (codes ", ") (name ∷ rest)))
    ]

pub record QuietSummarySnapshot : Type 0 where
  pub total_count : ℕ
  pub details : Text

pub record QuietSummaryBuffer : Type 0 where
  pub total_count : ℕ
  pub failed : QuietSummaryBucket
  pub recovered : QuietSummaryBucket
  pub ranking : QuietSummaryBucket

abbrev pub empty_buffer : QuietSummaryBuffer
empty_buffer = record {
  total_count = 0;
  failed = empty_bucket;
  recovered = empty_bucket;
  ranking = empty_bucket;
}

unfoldable pub record_event : QuietSummaryBuffer → EventKind → Text → QuietSummaryBuffer
record_event buffer connection_failed subject = record buffer {
  total_count = buffer.total_count + 1;
  failed = record_name buffer.failed subject;
}
record_event buffer connection_recovered subject = record buffer {
  total_count = buffer.total_count + 1;
  recovered = record_name buffer.recovered subject;
}
record_event buffer ranking_changed subject = record buffer {
  total_count = buffer.total_count + 1;
  ranking = record_name buffer.ranking subject;
}
record_event buffer daily_summary subject = record buffer { total_count = buffer.total_count + 1 }

-- `lines.push(line)` under `if let Some(line)`.
abbrev pub push_some : Option Text → List Text → List Text
push_some none lines = lines
push_some (some line) lines = line ∷ lines

unfoldable pub summary_lines : QuietSummaryBuffer → List Text
unfolding render_line
summary_lines buffer = push_some (render_line buffer.failed (codes "连接失败")) (
    push_some (render_line buffer.recovered (codes "连接恢复"))
      (push_some (render_line buffer.ranking (codes "排名变化")) []))

unfoldable pub render_snapshot : QuietSummaryBuffer → Option QuietSummarySnapshot
render_snapshot buffer =
    if buffer.total_count == 0
    then none
    else some (record {
      total_count = buffer.total_count;
      details = join (10 ∷ []) (summary_lines buffer);
    })

-- `std::mem::take` leaves the default buffer behind.
unfoldable pub take_snapshot : QuietSummaryBuffer → QuietSummaryBuffer × Option QuietSummarySnapshot
take_snapshot buffer = (empty_buffer, render_snapshot buffer)
