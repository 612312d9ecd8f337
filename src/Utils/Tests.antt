-- ===== src/Utils/Tests.antt =====
-- Events and alerts at concrete inputs.
use mt5_connector.Common.{[], false, nat_eq, refl, string_eq, true, ◌≡◌}
use mt5_connector.Common.Int.{pos}
use mt5_connector.Utils.Alerts.{Telegram, duration_of, in_days, in_hours, in_minutes, notify}
use mt5_connector.Utils.Logging.{
  Fields, dict_value, is_sensitive, log_event, more_fields, no_fields, null_value, number_value,
  safe, text_value,
}
use mt5_connector.Utils.Redacted.{AreRedacted, log_event-AreRedacted}

abbrev login_fields : Fields
login_fields = more_fields "login" (number_value (pos 7)) (
    more_fields "proxy"
      (dict_value
        (more_fields "host" (text_value "h") (more_fields "Api_Key" (text_value "k") no_fields)))
      (more_fields "MasterPassword" (text_value "pw") (more_fields "token" null_value no_fields)))

login_redacted :
    log_event "login" login_fields
    ≡ more_fields "event" (text_value "login") (
        more_fields "login" (number_value (pos 7)) (
          more_fields "proxy"
            (dict_value (
              more_fields "host"
                (text_value "h")
                (more_fields "Api_Key" (text_value "[redacted]") no_fields)))
            (more_fields "MasterPassword"
              (text_value "[redacted]")
              (more_fields "token" null_value no_fields))))
unfolding log_event safe is_sensitive
login_redacted = refl

log_event-AreRedacted_example : AreRedacted (log_event "login" login_fields)
log_event-AreRedacted_example = log_event-AreRedacted "login" login_fields

abbrev quiet_bot : Telegram
quiet_bot = record { token = "t"; chat_id = "c"; recent = [] }

-- The same text is sent again only after ten minutes.
sent_again :
    ((notify 1 "down" quiet_bot).1 ≡ true)
    × ((notify 599_000_000 "down" (notify 1 "down" quiet_bot).0).1 ≡ false)
    × ((notify 600_000_001 "down" (notify 1 "down" quiet_bot).0).1 ≡ true)
unfolding notify
sent_again = (refl, refl, refl)

durations :
    (duration_of 59 ≡ in_minutes 0)
    × (duration_of 7_260 ≡ in_hours 2 1)
    × (duration_of 93_600 ≡ in_days 1 2)
durations = (refl, refl, refl)
