-- ===== src/Mt5api/Enrich/Loop.antt =====
-- `enrich_mae_mfe` of mt5api/enrichment.py. A closed position is its place among all the positions
-- and itself; what `enrich_mae_mfe` sets is kept by place, as the source sets it on the position.
use mathlib.Core.Option
use mt5_connector.Common.{
  Bool, List, Option, String, [], add_elem, elem, false, if◌then◌else◌, is_some, keep, leb, length,
  map, nat_eq, none, not, some, string_eq, take, true, ℕ, ◌&&◌, ◌++◌, ◌+◌, ◌-◌, ◌==◌, ◌∷◌,
}
use mt5_connector.Common.Dict.{Dict, erase, insert, lookup}
use mt5_connector.Common.Float.{Float, maximum, minimum}
use mt5_connector.Common.Sort.{none_last, sort_by}
use mt5_connector.Domain.Fx.{FxPosition}
use mt5_connector.Mt5api.Enrich.Levels.{apply_mae_mfe, resolve_value, value_per_lot}
use mt5_connector.Mt5api.Enrich.Segments.{Segment, segments}
use mt5_connector.Mt5api.Raw.{RawCandle}

-- What the fetch of a segment's candles comes to: the candles, an error, or a terminal that is lost.
pub data CandleReply (F : Type 0) : Type 0 where
  candles : List (RawCandle F) → CandleReply F
  candles_failed terminal_gone : CandleReply F

-- A round of the loop: whether the budget of seconds is used up, and what each segment answers.
pub record Visit (F : Type 0) : Type 0 where
  pub is_over : Bool
  pub reply : Segment → CandleReply F

-- What the loop keeps. `measured` is what has been set, by the place of the position.
pub record Enriching (F : Type 0) : Type 0 where
  pub measured : Dict ℕ (FxPosition F)
  pub failures : Dict String ℕ
  pub abandoned : List String
  pub enriched : ℕ
  pub rejected : ℕ
  pub skipped : ℕ
  pub deferred : ℕ
  pub out_of_time : Bool

abbrev pub symbol_failure_limit : ℕ
symbol_failure_limit = 3

abbrev pub count_of : Option ℕ → ℕ
count_of none = 0
count_of (some n) = n

module _ {F : Type 0} where
  abbrev pub nothing_yet : Enriching F
  nothing_yet = record {
    measured = [];
    failures = [];
    abandoned = [];
    enriched = 0;
    rejected = 0;
    skipped = 0;
    deferred = 0;
    out_of_time = false;
  }

  -- The candles of the segments, or the first failure.
  abbrev pub extend : CandleReply F → CandleReply F → CandleReply F
  extend (candles cs) (candles ds) = candles (cs ++ ds)
  extend (candles cs) other = other
  extend other rest = other

  abbrev pub fetch_segments : (Segment → CandleReply F) → List Segment → CandleReply F
  fetch_segments reply [] = candles []
  fetch_segments reply (s ∷ ss) = extend (reply s) (fetch_segments reply ss)

  abbrev pub is_candidate : List String → FxPosition F → Bool
  is_candidate measured p =
      is_some p.closed_at && is_some p.created_at && not (p.pair == "") && not (elem p.id measured)

  abbrev pub numbered : ℕ → List (FxPosition F) → List (ℕ × FxPosition F)
  numbered n [] = []
  numbered n (p ∷ ps) = (n, p) ∷ numbered (n + 1) ps

  -- `closed`, the last close first
  abbrev pub latest_first : ℕ × FxPosition F → ℕ × FxPosition F → Bool
  latest_first a b = none_last b.1.closed_at a.1.closed_at

  abbrev pub candidates_of : List String → List (FxPosition F) → List (ℕ × FxPosition F)
  candidates_of measured ps =
      sort_by latest_first (keep (λ item. is_candidate measured item.1) (numbered 0 ps))

  abbrev pub limited : Option ℕ → List (ℕ × FxPosition F) → List (ℕ × FxPosition F)
  limited none closed = closed
  limited (some limit) closed = take limit closed

  abbrev pub note_failure : String → Enriching F → Enriching F
  note_failure pair s =
      let count = count_of (lookup pair s.failures) + 1 in
      record s {
        failures = insert pair count s.failures;
        abandoned =
            if leb symbol_failure_limit count then add_elem pair s.abandoned else s.abandoned;
      }

  abbrev pub span_of : FxPosition F → List Segment
  span_of p = elim p.created_at [
    | none ↦ []
    | some start ↦ elim p.closed_at [ none ↦ [] | some end_ ↦ segments start end_ ]
  ]

module _ {F : Type 0} ⦃fl : Float F⦄ where
  abbrev pub note_measured : ℕ → Option (FxPosition F) → Enriching F → Enriching F
  note_measured place none s = record s { rejected = s.rejected + 1 }
  note_measured place (some p) s = record s {
    measured = insert place p s.measured;
    enriched = s.enriched + 1;
  }

  abbrev pub note_candles :
      Dict String F → ℕ × FxPosition F → List (RawCandle F) → Enriching F → Enriching F
  note_candles per_lot (place, p) [] s = s
  note_candles per_lot (place, p) (c ∷ cs) s =
      let high = maximum c.high (map (λ d. d.high) cs) in
      let low = minimum c.low (map (λ d. d.low) cs) in
      note_measured place (apply_mae_mfe p high low (resolve_value p per_lot)) s

  -- A position that is visited: `none` where the terminal is lost.
  abbrev pub note_reply :
      Dict String F → ℕ × FxPosition F → CandleReply F → Enriching F → Option (Enriching F)
  note_reply per_lot item terminal_gone s = none
  note_reply per_lot item candles_failed s = some (note_failure item.1.pair s)
  note_reply per_lot item (candles cs) s =
      some (note_candles per_lot item cs (record s { failures = erase item.1.pair s.failures }))

  unfoldable pub enrich_position :
      Dict String F
      → (Segment → CandleReply F)
      → ℕ × FxPosition F
      → Enriching F
      → Option (Enriching F)
  enrich_position per_lot reply item s =
      if elem item.1.pair s.abandoned
      then some (record s { skipped = s.skipped + 1 })
      else note_reply per_lot item (fetch_segments reply (span_of item.1)) s

  -- The loop, from the position with the given index on.
  unfoldable pub enrich_from :
      Dict String F
      → (ℕ → Visit F)
      → ℕ
      → List (ℕ × FxPosition F)
      → Enriching F
      → Option (Enriching F)
  enrich_from per_lot visit index [] s = some s
  enrich_from per_lot visit index (item ∷ items) s =
      if (visit index).is_over
      then some (record s { out_of_time = true; deferred = s.deferred + length (item ∷ items) })
      else elim (enrich_position per_lot (visit index).reply item s) [
        | none ↦ none
        | some s' ↦ enrich_from per_lot visit (index + 1) items s'
      ]

  -- The positions with what has been set.
  abbrev pub apply_measured : Dict ℕ (FxPosition F) → List (ℕ × FxPosition F) → List (FxPosition F)
  apply_measured measured items =
      map (λ item. elim (lookup item.0 measured) [ none ↦ item.1 | some p ↦ p ]) items

  -- `deferred` before the loop
  abbrev pub deferred_at_first : Option ℕ → List (ℕ × FxPosition F) → ℕ
  deferred_at_first none closed = 0
  deferred_at_first (some limit) closed = length closed - limit

  abbrev pub enrich_closed :
      (ℕ → Visit F)
      → Option ℕ
      → List (FxPosition F)
      → List (ℕ × FxPosition F)
      → Option (Enriching F)
  enrich_closed visit limit ps [] = some nothing_yet
  enrich_closed visit limit ps (item ∷ items) =
      enrich_from (value_per_lot ps) visit 0 (limited limit (item ∷ items))
        (record nothing_yet { deferred = deferred_at_first limit (item ∷ items) })

  abbrev pub enrich_state :
      (ℕ → Visit F) → Option ℕ → List String → List (FxPosition F) → Option (Enriching F)
  enrich_state visit limit measured ps = enrich_closed visit limit ps (candidates_of measured ps)

  -- `enrich_mae_mfe`: the positions that it leaves, `none` where the terminal is lost
  unfoldable pub enrich_mae_mfe :
      (ℕ → Visit F) → Option ℕ → List String → List (FxPosition F) → Option (List (FxPosition F))
  enrich_mae_mfe visit limit measured ps =
      Option.map (λ s. apply_measured s.measured (numbered 0 ps))
        (enrich_state visit limit measured ps)
