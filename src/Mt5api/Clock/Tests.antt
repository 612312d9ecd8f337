-- ===== src/Mt5api/Clock/Tests.antt =====
-- A clock that goes from winter to summer time, and the theorems at it.
use mt5_connector.Common.{All, List, [], arith, refl, some, true, ℕ, ◌+◌, ◌∷◌, ◌≡◌}
use mt5_connector.Common.Int.{pos, ℤ, ◌+ℤ◌, ◌-ℤ◌}
use mt5_connector.Mt5api.Clock.Defs.{ServerClock, offset_at, to_server, to_utc}
use mt5_connector.Mt5api.Clock.Reading.{
  IsAscending, IsLatest, offset_at-IsLatest, to_server-to_utc, to_utc-to_server,
}
use mt5_connector.Mt5api.Clock.Steps.{steps_of}
use mt5_connector.Mt5api.Clock.Switches.{
  IsGradualClock, IsShown, steps_of-IsAscending, steps_of-IsShown,
}
use mt5_connector.Mt5api.Clock.Times.{naive, scale, utc}
use mt5_connector.Mt5api.Clock.Week.{Weekend}

abbrev winter : ℤ
winter = pos 0

abbrev summer : ℤ
summer = pos 7776000000000000

abbrev broker_clock : ServerClock
broker_clock = record { steps = (winter, pos 120) ∷ (summer, pos 180) ∷ []; scanned = true }

abbrev noon : ℤ
noon = pos 43200000000

broker_clock_reads : offset_at broker_clock (some (naive noon)) ≡ some (pos 120)
unfolding offset_at
broker_clock_reads = refl

broker_clock-IsAscending : IsAscending broker_clock.steps
broker_clock-IsAscending = ((omega arith, tt), (tt, tt))

offset_at-IsLatest_example : (start : ℤ) × IsLatest noon broker_clock.steps (start, pos 120)
offset_at-IsLatest_example =
    offset_at-IsLatest broker_clock (naive noon) (pos 120) broker_clock-IsAscending
      broker_clock_reads

abbrev weekend : ℕ → ℤ → Weekend
weekend n offset = record { closed_at = pos n; opens_at = pos (n + 10); offset = offset }

abbrev five_weekends : List Weekend
five_weekends =
    weekend 100 (pos 120)
    ∷ weekend 200 (pos 120)
    ∷ weekend 300 (pos 120)
    ∷ weekend 400 (pos 180)
    ∷ weekend 500 (pos 180)
    ∷ weekend 600 (pos 180)
    ∷ []

five_weekends_steps : steps_of (pos 0) five_weekends ≡ (pos 0, pos 120) ∷ (pos 310, pos 180) ∷ []
unfolding steps_of ◌-ℤ◌
five_weekends_steps = refl

steps_of-IsShown_example : All (λ s. IsShown five_weekends s.1) (steps_of (pos 0) five_weekends)
steps_of-IsShown_example = steps_of-IsShown (pos 0) five_weekends

steps_of-IsAscending_example :
    IsAscending (steps_of (pos 0) five_weekends) × IsGradualClock (steps_of (pos 0) five_weekends)
steps_of-IsAscending_example =
    steps_of-IsAscending (pos 0) five_weekends
      (omega arith, (omega arith, (omega arith, (omega arith, (omega arith, (omega arith, tt))))))

abbrev steady_clock : ServerClock
steady_clock = record { steps = (winter, pos 120) ∷ []; scanned = true }

steady_reads : offset_at steady_clock (some (naive noon)) ≡ some (pos 120)
unfolding offset_at
steady_reads = refl

to_server-to_utc_example :
    to_server steady_clock (to_utc steady_clock (some (naive noon))) ≡ some (utc noon)
to_server-to_utc_example =
    to_server-to_utc steady_clock noon (pos 120) steady_reads ((λ _. omega arith), tt)

abbrev ten : ℤ
ten = pos 36000000000

steady_shows : to_server steady_clock (some (naive ten)) ≡ some (naive noon)
unfolding to_server ◌-ℤ◌ ◌+ℤ◌ scale
steady_shows = refl

to_utc-to_server_example : to_utc steady_clock (some (naive noon)) ≡ some (utc ten)
unfolding ◌+ℤ◌ scale
to_utc-to_server_example =
    to_utc-to_server steady_clock ten noon steady_shows ((λ _. omega arith), tt)
