-- ===== src/Mt5api/Clock/Defs.antt =====
-- `ServerClock`: its steps, its rows, and the two conversions.
use mathlib.Core.Option  --keep
use mathlib.Core.List.{reverse}
use mt5_connector.Common.{
  Bool, List, Option, String, [], false, find, if◌then◌else◌, map, none, or_else, some, true, ◌&&◌,
  ◌||◌, ◌∷◌, ◌≡◌,
}
use mt5_connector.Common.Int.{eqb_ℤ, leb_ℤ, ltb_ℤ, ℤ, ◌+ℤ◌, ◌-ℤ◌}
use mt5_connector.Mt5api.Clock.Times.{Stamp, as_mt5_time, as_server_time, minutes, naive, utc}
use mt5_connector.Pool.Manager.Steps.{step}

pub record ServerClock : Type 0 where
  pub steps : List (ℤ × ℤ)
  pub scanned : Bool

abbrev pub unknown_clock : ServerClock
unknown_clock = record { steps = []; scanned = false }

abbrev pub is_known : ServerClock → Bool
is_known clock = elim clock.steps [ [] ↦ false | _ ∷ _ ↦ true ]

-- `steps[-1]`
abbrev pub last_of {ℓ} : {A : Type ℓ} → List A → Option A
last_of [] = none
last_of (x ∷ xs) = or_else (last_of xs) (some x)

-- `offset_minutes`
abbrev pub offset_minutes : ServerClock → Option ℤ
offset_minutes clock = Option.map (λ step. step.1) (last_of clock.steps)

abbrev pub has_begun : ℤ → ℤ × ℤ → Bool
has_begun label step = leb_ℤ step.0 label

-- `offset_at` and the offset of a datetime that is not None
abbrev pub offset_of : ServerClock → ℤ → Option ℤ
offset_of clock label = Option.map (λ step. step.1) (find (has_begun label) (reverse clock.steps))

unfoldable pub offset_at : ServerClock → Option Stamp → Option ℤ
offset_at clock none = none
offset_at clock (some value) = offset_of clock (as_server_time value)

unfoldable pub to_utc : ServerClock → Option Stamp → Option Stamp
unfolding offset_at
to_utc clock none = none
to_utc clock (some value) =
    Option.map (λ offset. utc (as_server_time value -ℤ minutes offset))
      (offset_at clock (some value))

abbrev pub has_begun_utc : ℤ → ℤ × ℤ → Bool
has_begun_utc instant step = leb_ℤ step.0 (instant +ℤ minutes step.1)

-- `instant`: the naive UTC time
abbrev pub instant_of : Stamp → ℤ
instant_of value = as_mt5_time value

unfoldable pub to_server : ServerClock → Option Stamp → Option Stamp
to_server clock none = none
to_server clock (some value) =
    Option.map (λ step. record value { reads = value.reads +ℤ minutes step.1 })
      (find (has_begun_utc (instant_of value)) (reverse clock.steps))

-- `steps.sort()`: pairs in lexicographic order
abbrev pub step_before : ℤ × ℤ → ℤ × ℤ → Bool
step_before a b = ltb_ℤ a.0 b.0 || (eqb_ℤ a.0 b.0 && leb_ℤ a.1 b.1)

abbrev pub insert_step : ℤ × ℤ → List (ℤ × ℤ) → List (ℤ × ℤ)
insert_step s [] = s ∷ []
insert_step s (t ∷ ts) = if step_before s t then s ∷ t ∷ ts else t ∷ insert_step s ts

abbrev pub sort_steps : List (ℤ × ℤ) → List (ℤ × ℤ)
sort_steps [] = []
sort_steps (s ∷ ss) = insert_step s (sort_steps ss)

-- The first entry of a row: a datetime, or its ISO text.
pub data RowTime : Type 0 where
  dated : Stamp → RowTime
  iso : String → RowTime

-- `datetime.fromisoformat` and `isoformat`
pub record IsoText : Type 0 where
  pub parse_iso : String → Option Stamp
  pub print_iso : ℤ → String
  pub parse-print : (t : ℤ) → parse_iso (print_iso t) ≡ some (naive t)

module _ (text : IsoText) where
  abbrev pub time_of_row : RowTime → Option ℤ
  time_of_row (dated value) = some (as_server_time value)
  time_of_row (iso s) = Option.map as_server_time (text.parse_iso s)

  abbrev pub read_rows : List (RowTime × ℤ) → Option (List (ℤ × ℤ))
  read_rows [] = some []
  read_rows ((t, offset) ∷ rows) = elim (time_of_row t) [
    | none ↦ none
    | some at_ ↦ Option.map (λ steps. (at_, offset) ∷ steps) (read_rows rows)
  ]

  -- `from_rows`: `none` where `fromisoformat` raises
  unfoldable pub from_rows : List (RowTime × ℤ) → Option ServerClock
  from_rows rows =
      Option.map (λ steps. record { steps = sort_steps steps; scanned = false }) (read_rows rows)

  -- `rows`
  unfoldable pub rows_of : ServerClock → List (RowTime × ℤ)
  rows_of clock = map (λ step. (iso (text.print_iso step.0), step.1)) clock.steps
