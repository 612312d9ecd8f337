-- ===== src/Mt5api/Clock/Times.antt =====
-- The datetimes of mt5api/clock.py and mt5api/timeutil.py, in microseconds from 1970 on, and the
-- days and weekdays of the calendar.
use mt5_connector.Common.{
  Option, arith, if◌then◌else◌, ltb, none, some, suc, ℕ, ◌%◌, ◌*◌, ◌+◌, ◌-◌, ◌/◌, ◌<◌, ◌≡◌,
}
use mt5_connector.Common.Int.{neg_part, negsuc, pos, pos_part, sub_ℕ, ℤ, ◌-ℤ◌}

-- A datetime: what it reads, and the UTC offset of its zone where it has one.
pub record Stamp : Type 0 where
  pub reads : ℤ
  pub zone : Option ℤ

abbrev pub naive : ℤ → Stamp
naive t = record { reads = t; zone = none }

abbrev pub utc : ℤ → Stamp
utc t = record { reads = t; zone = some (pos 0) }

-- `as_server_time`: the zone is dropped, not converted
abbrev pub as_server_time : Stamp → ℤ
as_server_time value = value.reads

-- `as_mt5_time`, as the instant: a naive value is read as UTC
abbrev pub as_mt5_time : Stamp → ℤ
as_mt5_time value = elim value.zone [ none ↦ value.reads | some zone ↦ value.reads -ℤ zone ]

-- `c` times a signed number, for `c` above 0
unfoldable pub scale : ℕ → ℤ → ℤ
scale c (pos n) = pos (c * n)
scale c (negsuc n) = negsuc (c * suc n - 1)

-- `timedelta(minutes=m)`
abbrev pub minutes : ℤ → ℤ
minutes m = scale 60000000 m

-- `from_epoch`
abbrev pub from_epoch : ℕ → ℤ
from_epoch seconds = pos (1000000 * seconds)

pub minutes_parts :
    (m : ℤ)
    → (pos_part (minutes m) ≡ 60000000 * pos_part m)
      × (neg_part (minutes m) ≡ 60000000 * neg_part m)
unfolding scale
minutes_parts (pos n) = (omega arith, omega arith)
minutes_parts (negsuc n) = (omega arith, omega arith)

abbrev pub hour : ℤ
hour = pos 3600000000

abbrev pub day : ℕ
day = 86400000000

-- `label.date()`, counted in days
abbrev pub date_of : ℤ → ℤ
date_of (pos n) = pos (n / day)
date_of (negsuc n) = negsuc (n / day)

-- `date.weekday()`, Monday being 0: day 0 is a Thursday.
abbrev pub weekday : ℤ → ℕ
weekday (pos n) = (n + 3) % 7
weekday (negsuc n) = (9 - n % 7) % 7

abbrev pub friday : ℕ
friday = 4

abbrev pub IsBefore : ℤ → ℤ → Type 0
IsBefore a b = pos_part a + neg_part b < pos_part b + neg_part a

-- The quotient `n / d` rounded to the nearest whole number, a half to the even one.
abbrev pub round_ℕ : ℕ → ℕ → ℕ
round_ℕ n d =
    let low = n / d in
    let twice = 2 * (n % d) in
    if ltb twice d then low else if ltb d twice then low + 1 else low + low % 2

-- `round`, which treats both signs alike
abbrev pub round_ℤ : ℤ → ℕ → ℤ
round_ℤ a d = sub_ℕ (round_ℕ (pos_part a) d) (round_ℕ (neg_part a) d)
