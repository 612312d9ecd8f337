-- ===== src/Mt5api/Clock/Week.antt =====
-- The trading week, and what the weekends among the hourly bars say of the offset.
use mt5_connector.Common.{
  Bool, List, Option, [], if◌then◌else◌, ltb, nat_eq, none, some, string_eq, suc, zero, ℕ, ◌&&◌,
  ◌*◌, ◌-◌, ◌==◌, ◌∷◌,
}
use mt5_connector.Common.Int.{abs, leb_ℤ, ltb_ℤ, pos, ℤ, ◌+ℤ◌, ◌-ℤ◌}
use mt5_connector.Mt5api.Clock.Defs.{ServerClock}
use mt5_connector.Mt5api.Clock.Times.{
  date_of, day, friday, from_epoch, hour, minutes, round_ℤ, scale, weekday,
}

-- The close of the New York week on a day, in UTC: what the time zone database answers.
abbrev pub Closes : Type 0
Closes = ℤ → ℤ

abbrev pub max_offset_minutes : ℕ
max_offset_minutes = 840

abbrev pub round_to_minutes : ℕ
round_to_minutes = 30

abbrev pub min_gap_seconds : ℕ
min_gap_seconds = 86400

pub record Weekend : Type 0 where
  pub closed_at : ℤ
  pub opens_at : ℤ
  pub offset : ℤ

pub record Scan : Type 0 where
  pub clock : Option ServerClock
  pub weekends : ℕ
  pub continuous : Bool

-- The days that `_week_bounds_utc` steps over: at most six.
abbrev pub next_friday : ℕ → ℤ → ℤ
next_friday zero d = d
next_friday (suc fuel) d = if weekday d == friday then d else next_friday fuel (d +ℤ pos 1)

abbrev pub days : ℕ → ℤ
days n = pos (n * day)

module _ (closes : Closes) where
  -- `_week_bounds_utc`
  unfoldable pub week_bounds_utc : ℤ → ℤ × ℤ
  week_bounds_utc now =
      let close = closes (next_friday 6 (date_of now)) in
      let close' = if ltb_ℤ close now then close +ℤ days 7 else close in (close' -ℤ days 5, close')

  -- `_market_is_open`
  unfoldable pub market_is_open : ℤ → Bool
  unfolding week_bounds_utc
  market_is_open now = let bounds = week_bounds_utc now in leb_ℤ bounds.0 now && leb_ℤ now bounds.1

  -- `_current_weekfrom_epoch`
  unfoldable pub current_week : ℤ → ℤ → ℤ
  unfolding week_bounds_utc
  current_week now offset =
      let opened = (week_bounds_utc now).0 in
      (if ltb_ℤ now opened then opened -ℤ days 7 else opened) +ℤ minutes offset

  abbrev pub nearer : ℤ → Option ℤ → ℤ → Option ℤ
  nearer label none close = some close
  nearer label (some best) close =
      if ltb (abs (label -ℤ close)) (abs (label -ℤ best)) then some close else some best

  abbrev pub closest : ℤ → List ℤ → Option ℤ → Option ℤ
  closest label [] best = best
  closest label (d ∷ ds) best =
      closest label ds (if weekday d == friday then nearer label best (closes d) else best)

  -- `_friday_close_utc`
  unfoldable pub friday_close_utc : ℤ → Option ℤ
  friday_close_utc label =
      let date = date_of label in
      closest label
        ((date -ℤ pos 2) ∷ (date -ℤ pos 1) ∷ date ∷ (date +ℤ pos 1) ∷ (date +ℤ pos 2) ∷ []) none

  -- One gap of `_weekends`, between the hours that start at these times.
  abbrev pub reading_of : ℕ → ℕ → Option Weekend
  reading_of before after =
      let closed_at = from_epoch before +ℤ hour in
      if ltb (after - before) min_gap_seconds then none else elim (friday_close_utc closed_at) [
        | none ↦ none
        | some close ↦
            let apart = closed_at -ℤ close in
            if ltb (60000000 * max_offset_minutes) (abs apart)
            then none
            else some (record {
              closed_at = closed_at;
              opens_at = from_epoch after;
              offset = scale round_to_minutes (round_ℤ apart (60000000 * round_to_minutes));
            })
      ]

  -- `_weekends`, on the start times of the bars
  abbrev pub weekends_from : ℕ → List ℕ → List Weekend
  weekends_from before [] = []
  weekends_from before (after ∷ times) =
      let rest = weekends_from after times in
      elim (reading_of before after) [ none ↦ rest | some weekend ↦ weekend ∷ rest ]

  unfoldable pub weekends_of : List ℕ → List Weekend
  weekends_of [] = []
  weekends_of (t ∷ times) = weekends_from t times
