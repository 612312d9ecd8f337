-- ===== src/Utils/Redacted.antt =====
-- That nothing sensitive is left in what is logged, at any depth.
use mathlib.Core.Bool.{false≢true}
use mt5_connector.Common.{
  Bool-cases, String, if-cases, if◌then◌else◌, inl, inr, nat_eq, refl, string_eq, sym, true, ◌∙◌,
  ◌≡◌, ◌⊎◌,
}
use mt5_connector.Utils.Logging.{
  Fields, Items, Value, dict_value, is_blank, is_sensitive, list_value, log_event, masked,
  more_fields, more_items, no_fields, no_items, null_value, number_value, printed_value, redact,
  redacted_text, safe, safe_fields, safe_items, text_value, truth_value,
}

-- What may stand under a sensitive key.
abbrev pub IsMasked : Value → Type 0
IsMasked value = (is_blank value ≡ true) ⊎ (value ≡ text_value redacted_text)

unfoldable mutual
  pub IsRedacted : Value → Type 0
  IsRedacted (dict_value fields) = AreRedacted fields
  IsRedacted (list_value items) = AllRedacted items
  IsRedacted null_value = Unit {0}
  IsRedacted (text_value s) = Unit {0}
  IsRedacted (number_value n) = Unit {0}
  IsRedacted (truth_value b) = Unit {0}
  IsRedacted (printed_value s) = Unit {0}

  pub AllRedacted : Items → Type 0
  AllRedacted no_items = Unit {0}
  AllRedacted (more_items value items) = IsRedacted value × AllRedacted items

  pub AreRedacted : Fields → Type 0
  AreRedacted no_fields = Unit {0}
  AreRedacted (more_fields key value fields) =
      (is_sensitive key ≡ true → IsMasked value) × IsRedacted value × AreRedacted fields

blank-IsRedacted : (value : Value) → is_blank value ≡ true → IsRedacted value
unfolding IsRedacted
blank-IsRedacted null_value blank = tt
blank-IsRedacted (text_value s) blank = tt
blank-IsRedacted (number_value n) blank = tt
blank-IsRedacted (truth_value b) blank = tt
blank-IsRedacted (dict_value inner) blank = absurd (false≢true blank)
blank-IsRedacted (list_value inner) blank = absurd (false≢true blank)
blank-IsRedacted (printed_value s) blank = tt

blank-safe : (value : Value) → is_blank value ≡ true → safe value ≡ value
unfolding safe
blank-safe null_value blank = refl
blank-safe (text_value s) blank = refl
blank-safe (number_value n) blank = refl
blank-safe (truth_value b) blank = refl
blank-safe (dict_value inner) blank = absurd (false≢true blank)
blank-safe (list_value inner) blank = absurd (false≢true blank)
blank-safe (printed_value s) blank = absurd (false≢true blank)

-- The value of a field is what `_safe(redact(key, value))` is.
safe-redact :
    (key : String) (value : Value) → masked key value (safe value) ≡ safe (redact key value)
unfolding safe redact
safe-redact key value = elim (Bool-cases (is_sensitive key)) [
  | inl hidden ↦ elim (Bool-cases (is_blank value)) [
    | inl blank ↦ rw (hidden, blank) (sym (blank-safe value blank))
    | inr filled ↦ rw (hidden, filled) refl
  ]
  | inr shown ↦ rw shown refl
]

masked-IsMasked :
    (key : String) (value made : Value) → is_sensitive key ≡ true → IsMasked (masked key value made)
masked-IsMasked key value made hidden =
    if-cases IsMasked (is_sensitive key)
      (if is_blank value then value else text_value redacted_text) made
      (λ again.
        if-cases IsMasked (is_blank value) value (text_value redacted_text) (λ blank. inl blank)
          (λ filled. inr refl))
      (λ shown. absurd (false≢true (sym shown ∙ hidden)))

masked-IsRedacted :
    (key : String) (value made : Value) → IsRedacted made → IsRedacted (masked key value made)
unfolding IsRedacted
masked-IsRedacted key value made rest =
    if-cases IsRedacted (is_sensitive key)
      (if is_blank value then value else text_value redacted_text) made
      (λ hidden.
        if-cases IsRedacted (is_blank value) value (text_value redacted_text)
          (λ blank. blank-IsRedacted value blank) (λ filled. tt))
      (λ shown. rest)

mutual
  unfolding safe IsRedacted

  safe-IsRedacted : (value : Value) → IsRedacted (safe value)
  safe-IsRedacted null_value = tt
  safe-IsRedacted (text_value s) = tt
  safe-IsRedacted (number_value n) = tt
  safe-IsRedacted (truth_value b) = tt
  safe-IsRedacted (dict_value fields) = safe_fields-AreRedacted fields
  safe-IsRedacted (list_value items) = safe_items-AllRedacted items
  safe-IsRedacted (printed_value s) = tt

  safe_items-AllRedacted : (items : Items) → AllRedacted (safe_items items)
  safe_items-AllRedacted no_items = tt
  safe_items-AllRedacted (more_items value items) =
      (safe-IsRedacted value, safe_items-AllRedacted items)

  safe_fields-AreRedacted : (fields : Fields) → AreRedacted (safe_fields fields)
  safe_fields-AreRedacted no_fields = tt
  safe_fields-AreRedacted (more_fields key value fields) = (
    masked-IsMasked key value (safe value),
    masked-IsRedacted key value (safe value) (safe-IsRedacted value),
    safe_fields-AreRedacted fields,
  )

-- Whatever fields an event is logged with: in those that reach the logger, at any depth of their
-- dicts and lists, a value under a key with a sensitive word in it is empty or the text [redacted].
pub log_event-AreRedacted :
    (event : String) (fields : Fields) → AreRedacted (log_event event fields)
unfolding log_event is_sensitive IsRedacted
log_event-AreRedacted event fields =
    (λ hidden. absurd (false≢true hidden), tt, safe_fields-AreRedacted fields)
