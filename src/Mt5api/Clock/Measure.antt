-- ===== src/Mt5api/Clock/Measure.antt =====
-- `measure_server_clock`: the scan of the symbols and the reading of a tick.
use mt5_connector.Common.{
  Bool, List, Option, String, [], add_elem, elem, false, if◌then◌else◌, leb, length, ltb, nat_eq,
  none, not, some, string_eq, true, ℕ, ◌&&◌, ◌*◌, ◌++◌, ◌==◌, ◌||◌, ◌∷◌,
}
use mt5_connector.Common.Int.{abs, eqb_ℤ, ℤ, ◌-ℤ◌}
use mt5_connector.Mt5api.Clock.Defs.{ServerClock, is_known, offset_minutes, unknown_clock}
use mt5_connector.Mt5api.Clock.Steps.{steps_of}
use mt5_connector.Mt5api.Clock.Times.{from_epoch, round_ℤ, scale}
use mt5_connector.Mt5api.Clock.Week.{
  Closes, Scan, current_week, market_is_open, max_offset_minutes, weekends_of,
}

abbrev pub min_weekends : ℕ
min_weekends = 3

abbrev pub scan_bars : ℕ
scan_bars = 6000

-- What a round of `_scan_symbol` reads, and whether its deadline is over by then.
pub data Reading : Type 0 where
  refused failing : Reading
  bars : List ℕ → Reading

pub record Round : Type 0 where
  pub reading : Reading
  pub is_late : Bool

abbrev pub no_scan : Bool → Scan
no_scan continuous = record { clock = none; weekends = 0; continuous = continuous }

module _ (closes : Closes) where
  -- The clock that the bars give, where they give one.
  unfoldable pub clock_of_bars : ℕ → List ℕ → Option ServerClock
  unfolding weekends_of steps_of
  clock_of_bars first times =
      let weekends = weekends_of closes (first ∷ times) in
      let clock : ServerClock = record {
        steps = steps_of (from_epoch first) weekends;
        scanned = true;
      } in
      if leb min_weekends (length weekends) && is_known clock then some clock else none

  -- A round: the scan that it ends with, or none where the loop goes on.
  unfoldable pub scan_round : Reading → Option Scan
  unfolding clock_of_bars
  scan_round refused = some (no_scan false)
  scan_round failing = none
  scan_round (bars []) = none
  scan_round (bars (_ ∷ [])) = none
  scan_round (bars (first ∷ next ∷ times)) =
      let weekends = weekends_of closes (first ∷ next ∷ times) in
      elim (clock_of_bars first (next ∷ times)) [
        | some clock ↦
            some (record { clock = some clock; weekends = length weekends; continuous = false })
        | none ↦
            if leb scan_bars (length (first ∷ next ∷ times))
            then some (no_scan (elim weekends [ [] ↦ true | _ ∷ _ ↦ false ]))
            else none
      ]

  -- `_scan_symbol`, on the rounds that it gets to: `none` while it still waits for the next one
  unfoldable pub scan_symbol : List Round → Option Scan
  unfolding scan_round
  scan_symbol [] = none
  scan_symbol (r ∷ rounds) =
      let rest = scan_symbol rounds in
      elim (scan_round r.reading) [
        | some scan ↦ some scan
        | none ↦ if r.is_late then some (no_scan false) else rest
      ]

  -- `_offset_from_tick`: `tick` is the time of a symbol's last tick, `none` where there is none or
  -- the terminal raises.
  unfoldable pub offset_from_tick : ℤ → (String → Option ℕ) → List String → List String → Option ℤ
  unfolding market_is_open
  offset_from_tick now tick continuous [] = none
  offset_from_tick now tick continuous (symbol ∷ symbols) =
      let rest = offset_from_tick now tick continuous symbols in
      if symbol == "" || (not (market_is_open closes now) && not (elem symbol continuous))
      then rest
      else elim (tick symbol) [
        | none ↦ rest
        | some time ↦
            let apart = from_epoch time -ℤ now in
            if time == 0 || ltb (60000000 * max_offset_minutes) (abs apart)
            then rest
            else some (scale 60 (round_ℤ apart 3600000000))
      ]

  -- The loop of `measure_server_clock`: the continuous symbols, last first, and the first scan with
  -- a clock.
  abbrev pub scan_candidates :
      (String → Scan) → List String → List String → List String × Option ServerClock
  scan_candidates scan continuous [] = (continuous, none)
  scan_candidates scan continuous (symbol ∷ symbols) =
      let found = scan symbol in
      let continuous' = if found.continuous then symbol ∷ continuous else continuous in
      elim found.clock [
        | none ↦ scan_candidates scan continuous' symbols
        | some clock ↦ (continuous', some clock)
      ]

  abbrev pub add_candidates : List String → List String → List String
  add_candidates seen [] = seen
  add_candidates seen (symbol ∷ symbols) =
      add_candidates (if symbol == "" then seen else add_elem symbol seen) symbols

  abbrev pub probe_symbols : List String
  probe_symbols = "EURUSD" ∷ "GBPUSD" ∷ "USDJPY" ∷ "EURUSD_i" ∷ "XAUUSD" ∷ []

  -- `live != clock.offset_minutes`
  abbrev pub differs : ℤ → Option ℤ → Bool
  differs live none = true
  differs live (some offset) = not (eqb_ℤ live offset)

  abbrev pub pinned : ℤ → Option ℤ → ServerClock → ServerClock
  pinned now none clock = clock
  pinned now (some live) clock =
      if differs live (offset_minutes clock)
      then record {
        steps = clock.steps ++ (current_week closes now live, live) ∷ [];
        scanned = true;
      }
      else clock

  -- `measure_server_clock`; `now` is the clock when the ticks are read.
  unfoldable pub measure_server_clock :
      (String → Scan) → ℤ → (String → Option ℕ) → List String → ServerClock
  unfolding offset_from_tick current_week
  measure_server_clock scan now tick symbols =
      let candidates = add_candidates [] (symbols ++ probe_symbols) in
      let (continuous, scanned) = scan_candidates scan [] candidates in
      let live = offset_from_tick now tick continuous candidates in
      elim scanned [
        | some clock ↦ pinned now live clock
        | none ↦ elim live [
          | some offset ↦ record {
            steps = (current_week closes now offset, offset) ∷ [];
            scanned = false;
          }
          | none ↦ unknown_clock
        ]
      ]
