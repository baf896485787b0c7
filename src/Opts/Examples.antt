-- ===== src/Opts/Examples.antt =====
-- Quiet hours over midnight, parsed and tested.
use chaindash.Base.{ltb, codes, trim, ◌≡◌, refl, some, arith}
use chaindash.Opts.QuietHours.{
  QuietHours, ok, parse_quiet_hours, parse_time_of_day, contains_minutes_since_midnight, split_once,
}
use chaindash.Opts.QuietHours.Window.{minutes_after, contains-minutes_after}
use chaindash.Opts.Number.{decimal, parse_unsigned, parse_u16}
use chaindash.Opts.Number.RoundTrip.{parse_unsigned-decimal}
use chaindash.Opts.NotifyEvent
use chaindash.Opts.NotifyEvent.{parse_notify_event}

abbrev overnight : QuietHours
overnight = record { start_minutes = 1380; end_minutes = 480 }

overnight_parses : parse_quiet_hours (codes " 23:00-08:00 ") ≡ ok overnight
unfolding parse_quiet_hours parse_time_of_day split_once trim parse_u16 parse_unsigned
overnight_parses = refl

event_parses :
    parse_notify_event (codes " Ranking_Changed") ≡ NotifyEvent.ok NotifyEvent.ranking_changed
unfolding parse_notify_event
event_parses = refl

contains-minutes_after_example :
    contains_minutes_since_midnight overnight 60
    ≡ ltb (minutes_after 1380 60) (minutes_after 1380 480)
contains-minutes_after_example = contains-minutes_after overnight 60 (omega arith) (omega arith)

parse_unsigned-decimal_example : parse_unsigned 65535 (decimal 65535) ≡ some 65535
parse_unsigned-decimal_example = parse_unsigned-decimal 65535 65535 (omega arith)
