-- ===== src/Utils/Alerts.antt =====
-- utils/alerts.py: which alerts are sent, and the text of a duration. Times are microseconds of the
-- monotonic clock.
use mt5_connector.Common.{
  Bool, String, false, if◌then◌else◌, is_some, keep, ltb, nat_eq, not, string_eq, true, ℕ, ◌%◌,
  ◌&&◌, ◌*◌, ◌+◌, ◌/◌, ◌==◌,
}
use mt5_connector.Common.Dict.{Dict, insert, lookup}

-- `Telegram`: its settings and `_recent`
pub record Telegram : Type 0 where
  pub token : String
  pub chat_id : String
  pub recent : Dict String ℕ

-- `_DEDUPE_SECONDS`
abbrev pub dedupe : ℕ
dedupe = 600 * 1_000_000

-- `enabled`
abbrev pub is_enabled : Telegram → Bool
is_enabled t = not (t.token == "") && not (t.chat_id == "")

-- `now - at < _DEDUPE_SECONDS`
abbrev pub is_recent : ℕ → ℕ → Bool
is_recent now at = ltb now (at + dedupe)

-- The texts of the last ten minutes.
abbrev pub still_recent : ℕ → Dict String ℕ → Dict String ℕ
still_recent now recent = keep (λ entry. is_recent now entry.1) recent

-- `notify`: whether the text is sent
unfoldable pub notify : ℕ → String → Telegram → Telegram × Bool
notify now text t =
    let recent = still_recent now t.recent in
    if not (is_enabled t)
    then (t, false)
    else if is_some (lookup text recent)
    then (record t { recent = recent }, false)
    else (record t { recent = insert text now recent }, true)

-- `describe_duration`: days and hours, hours and minutes, or minutes
pub data Duration : Type 0 where
  in_days : ℕ → ℕ → Duration
  in_hours : ℕ → ℕ → Duration
  in_minutes : ℕ → Duration

abbrev pub duration_of : ℕ → Duration
duration_of seconds =
    let minutes = seconds / 60 in
    let hours = minutes / 60 in
    let days_ = hours / 24 in
    if not (days_ == 0)
    then in_days days_ (hours % 24)
    else if not (hours == 0)
    then in_hours hours (minutes % 60)
    else in_minutes minutes
