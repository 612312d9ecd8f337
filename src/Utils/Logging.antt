-- ===== src/Utils/Logging.antt =====
-- utils/logging.py: the redaction of what is logged. Keys are texts, as `str(key)` makes them, and
-- their letters ASCII; a value that is neither a text, a number, a dict nor a list is the text that
-- `str` prints of it.
use Prim.Native.Char.{code as code_of}
use mt5_connector.Common.{
  Bool, List, String, [], any, false, if◌then◌else◌, leb, map, nat_eq, string_eq, true, ℕ, ◌&&◌,
  ◌+◌, ◌==◌, ◌||◌, ◌∷◌,
}
use mt5_connector.Common.Int.{ℤ}
use mt5_connector.Mt5api.Build.Comment.{chars_of}

mutual
  pub data Value : Type 0 where
    null_value : Value
    text_value : String → Value
    number_value : ℤ → Value
    truth_value : Bool → Value
    dict_value : Fields → Value
    list_value : Items → Value
    printed_value : String → Value

  pub data Items : Type 0 where
    no_items : Items
    more_items : Value → Items → Items

  pub data Fields : Type 0 where
    no_fields : Fields
    more_fields : String → Value → Fields → Fields

-- `_SENSITIVE`
abbrev pub sensitive_markers : List String
sensitive_markers =
    "authorization" ∷ "token" ∷ "secret" ∷ "password" ∷ "api_key" ∷ "apikey" ∷ "credential" ∷ []

abbrev pub lower_code : ℕ → ℕ
lower_code c = if leb 65 c && leb c 90 then c + 32 else c

abbrev pub codes_of : String → List ℕ
codes_of s = map code_of (chars_of s)

-- `key.lower()`
abbrev pub lowered : String → List ℕ
lowered s = map lower_code (codes_of s)

abbrev pub starts_with : List ℕ → List ℕ → Bool
starts_with [] text_ = true
starts_with (m ∷ ms) [] = false
starts_with (m ∷ ms) (c ∷ cs) = m == c && starts_with ms cs

-- `marker in text`
abbrev pub is_within : List ℕ → List ℕ → Bool
is_within marker [] = starts_with marker []
is_within marker (c ∷ cs) = starts_with marker (c ∷ cs) || is_within marker cs

unfoldable pub is_sensitive : String → Bool
is_sensitive key = any (λ marker. is_within (codes_of marker) (lowered key)) sensitive_markers

-- `value in (None, "")`
abbrev pub is_blank : Value → Bool
is_blank null_value = true
is_blank (text_value s) = s == ""
is_blank _ = false

abbrev pub redacted_text : String
redacted_text = "[redacted]"

-- `redact`
unfoldable pub redact : String → Value → Value
unfolding is_sensitive
redact key value =
    if is_sensitive key then (if is_blank value then value else text_value redacted_text) else value

-- `_safe(redact(key, value))`, where `made` is `_safe(value)`; `_safe` leaves the blank values and the
-- redacted text as they are.
abbrev pub masked : String → Value → Value → Value
masked key value made =
    if is_sensitive key then (if is_blank value then value else text_value redacted_text) else made

-- `_safe`
unfoldable mutual
  unfolding is_sensitive

  pub safe : Value → Value
  safe null_value = null_value
  safe (text_value s) = text_value s
  safe (number_value n) = number_value n
  safe (truth_value b) = truth_value b
  safe (dict_value fields) = dict_value (safe_fields fields)
  safe (list_value items) = list_value (safe_items items)
  safe (printed_value s) = text_value s

  pub safe_items : Items → Items
  safe_items no_items = no_items
  safe_items (more_items value items) = more_items (safe value) (safe_items items)

  pub safe_fields : Fields → Fields
  safe_fields no_fields = no_fields
  safe_fields (more_fields key value fields) =
      more_fields key (masked key value (safe value)) (safe_fields fields)

-- The fields that `log_event` hands to the logger.
unfoldable pub log_event : String → Fields → Fields
unfolding safe
log_event event fields = more_fields "event" (text_value event) (safe_fields fields)
