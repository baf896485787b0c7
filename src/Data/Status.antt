-- ===== src/Data/Status.antt =====
-- `StatusLevel`, `StatusMessage` and `UiStatusStore` of src/collect/data.rs. The calls of
-- `Instant::now` are an argument, in nanoseconds.
pub mod Lifetime
use chaindash.Base.{
  ltb, if◌then◌else◌, Text, text_eq, ℕ, ◌+◌, ◌*◌, Bool, true, false, ◌&&◌, Option, none, some,
}

pub data StatusLevel : Type 0 where
  info warning error : StatusLevel

pub record StatusMessage : Type 0 where
  pub level : StatusLevel
  pub text : Text
  pub expires_at : Option ℕ

pub record UiStatusStore : Type 0 where
  pub status_message : Option StatusMessage

abbrev pub info_status_ttl : ℕ
info_status_ttl = 5 * 1_000_000_000

abbrev pub warn_status_ttl : ℕ
warn_status_ttl = 15 * 1_000_000_000

abbrev pub same_level : StatusLevel → StatusLevel → Bool
same_level info info = true
same_level warning warning = true
same_level error error = true
same_level a b = false

-- `is_none_or(|expires_at| now < expires_at)`
abbrev pub unexpired : Option ℕ → ℕ → Bool
unexpired none now = true
unexpired (some expires_at) now = ltb now expires_at

unfoldable pub expire_message : Option StatusMessage → ℕ → Option StatusMessage
expire_message none now = none
expire_message (some message) now = if unexpired message.expires_at now then some message else none

unfoldable pub expire_if_needed : UiStatusStore → ℕ → UiStatusStore
unfolding expire_message
expire_if_needed s now = record { status_message = expire_message s.status_message now }

abbrev pub expires_at : StatusLevel → ℕ → Option ℕ
expires_at info now = some (now + info_status_ttl)
expires_at warning now = some (now + warn_status_ttl)
expires_at error now = none

-- The message that stands already is the one that is set.
unfoldable pub is_repeat : Option StatusMessage → StatusLevel → Text → ℕ → Bool
unfolding text_eq
is_repeat none level text now = false
is_repeat (some message) level text now =
    same_level message.level level && text_eq message.text text && unexpired message.expires_at now

unfoldable pub set : UiStatusStore → StatusLevel → Text → ℕ → UiStatusStore × Bool
unfolding is_repeat
set s level text now = if is_repeat s.status_message level text now then (s, false) else (
  record {
    status_message =
        some (record { level = level; text = text; expires_at = expires_at level now });
  },
  true,
)

abbrev is_some : Option StatusMessage → Bool
is_some none = false
is_some (some message) = true

unfoldable pub clear : UiStatusStore → UiStatusStore × Bool
clear s = (record { status_message = none }, is_some s.status_message)
