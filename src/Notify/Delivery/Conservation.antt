-- ===== src/Notify/Delivery/Conservation.antt =====
-- The events that the quiet hours hold back are kept until a summary reports them.
use chaindash.Base.{
  not, Bool-cases, Text, ℕ, ◌≡◌, refl, ap, ◌∙◌, inl, inr, ◌&&◌, List, [], ◌∷◌, ◌++◌, arith,
}
use chaindash.Notify.Filter.{EventKind}
use chaindash.Notify.Config.{TelegramConfig, is_quiet_time}
use chaindash.Notify.Summary.{record_event, take_snapshot, render_snapshot}
use chaindash.Notify.Summary.Tally.{
  Held, report, buffer_of, record_event-buffer_of, render_snapshot-buffer_of,
}
use chaindash.Notify.State.{
  NotificationState, initial, allow_delivery, record_quiet_summary, take_quiet_summary_snapshot,
}
use chaindash.Notify.Delivery.{
  Now, SendDecision, suppressed_by_rate_limit, suppressed_by_quiet_hours, send, decide,
  is_daily_summary,
}

-- A call of `send_if_enabled` for a kind that is enabled, without its message.
pub record Call : Type 0 where
  pub now : Now
  pub event : EventKind
  pub key : Text
  pub subject : Text

-- The state after a list of calls, and what was decided.
pub decide_all :
    TelegramConfig → NotificationState → List Call → NotificationState × List SendDecision
decide_all config s [] = (s, [])
decide_all config s (c ∷ cs) =
    let (s', d) = decide config c.now c.event c.key c.subject s in
    let (s'', ds) = decide_all config s' cs in (s'', d ∷ ds)

-- The events that wait for a summary after a call.
abbrev pub waiting_after : List Held → Call → SendDecision → List Held
waiting_after waiting c suppressed_by_rate_limit = waiting
waiting_after waiting c suppressed_by_quiet_hours = waiting ++ (c.event, c.subject) ∷ []
waiting_after waiting c (send summary) = []

-- A summary goes out with a call that is sent, and reports all events that wait.
abbrev pub IsReported : List Held → SendDecision → Type 0
IsReported waiting (send summary) = summary ≡ report waiting
IsReported waiting d = Unit

-- So it is for each call; at the end the next summary would report what waits then.
abbrev pub AreReported : List Held → List Call → List SendDecision → NotificationState → Type 0
AreReported waiting [] [] s = (take_quiet_summary_snapshot s).1 ≡ report waiting
AreReported waiting [] (d ∷ ds) s = ⊥
AreReported waiting (c ∷ cs) [] s = ⊥
AreReported waiting (c ∷ cs) (d ∷ ds) s =
    IsReported waiting d × AreReported (waiting_after waiting c d) cs ds s

quiet_summary-allow_delivery :
    (s : NotificationState) (key : Text) (now rate_limit : ℕ)
    → (allow_delivery s key now rate_limit).0.quiet_summary ≡ s.quiet_summary
unfolding allow_delivery
quiet_summary-allow_delivery s key now rate_limit = ground arith

-- One call.
decide-IsReported :
    (config : TelegramConfig) (c : Call) (waiting : List Held) (s : NotificationState)
    → s.quiet_summary ≡ buffer_of waiting
    → let (s', d) = decide config c.now c.event c.key c.subject s in
      IsReported waiting d × (s'.quiet_summary ≡ buffer_of (waiting_after waiting c d))
unfolding decide record_quiet_summary take_quiet_summary_snapshot take_snapshot
decide-IsReported config c waiting s e =
    let kept = quiet_summary-allow_delivery s c.key c.now.instant config.rate_limit ∙ e in
    elim (Bool-cases (allow_delivery s c.key c.now.instant config.rate_limit).1) [
      | inr limited ↦ rw limited (tt, kept)
      | inl allowed ↦
          elim (Bool-cases
            (not (is_daily_summary c.event) && is_quiet_time config c.now.hour c.now.minute)) [
              | inl quiet ↦
                  rw (allowed, quiet)
                    (
                      tt,
                      ap (λ b. record_event b c.event c.subject) kept
                          ∙ record_event-buffer_of waiting c.event c.subject,
                    )
              | inr loud ↦
                  rw (allowed, loud)
                    (ap render_snapshot kept ∙ render_snapshot-buffer_of waiting, refl)
            ]
    ]

decide_all-AreReported :
    (config : TelegramConfig) (s : NotificationState) (waiting : List Held) (cs : List Call)
    → s.quiet_summary ≡ buffer_of waiting
    → AreReported waiting cs (decide_all config s cs).1 (decide_all config s cs).0
unfolding decide_all take_quiet_summary_snapshot take_snapshot
decide_all-AreReported config s waiting [] e =
    ap render_snapshot e ∙ render_snapshot-buffer_of waiting
decide_all-AreReported config s waiting (c ∷ cs) e =
    let (now, next) = decide-IsReported config c waiting s e in
    (
      now,
      decide_all-AreReported config (decide config c.now c.event c.key c.subject s).0
          (waiting_after waiting c (decide config c.now c.event c.key c.subject s).1) cs next,
    )

-- In every run from a new notifier: each summary that is handed over for sending reports all events
-- that the quiet hours held back since the one before it, and no others: how many they are, and for
-- each kind their number and the first three different names. What is held back after the last one
-- is what the next summary would report.
pub held_back-AreReported :
    (config : TelegramConfig) (cs : List Call)
    → AreReported [] cs (decide_all config initial cs).1 (decide_all config initial cs).0
held_back-AreReported config cs = decide_all-AreReported config initial [] cs refl
