-- ===== src/Mt5api/Enrich/Tests.antt =====
-- Segments and enrichments at concrete inputs, over whole numbers.
use mt5_connector.Common.{
  List, String, [], arith, false, is_some, length, map, none, refl, some, true, ℕ, ◌∷◌, ◌≡◌, ◌≤◌,
}
use mt5_connector.Common.Int.{negsuc, pos, ℤ, ◌+ℤ◌, ◌-ℤ◌}
use mt5_connector.Common.Whole.{whole_float}
use mt5_connector.Domain.Fx.{FxPosition}
use mt5_connector.Mt5api.Clock.Times.{scale}
use mt5_connector.Mt5api.Enrich.Bounds.{enrich_mae_mfe-ends, enrich_state-bounded, total_of}
use mt5_connector.Mt5api.Enrich.Levels.{apply_mae_mfe, resolve_value, value_per_lot}
use mt5_connector.Mt5api.Enrich.Loop.{
  Enriching, Visit, candidates_of, candles, enrich_from, enrich_mae_mfe, enrich_position,
  enrich_state, nothing_yet,
}
use mt5_connector.Mt5api.Enrich.Outcome.{AreKept, enrich_mae_mfe-AreKept}
use mt5_connector.Mt5api.Enrich.Segments.{
  IsCovering, by_day, by_minute, midnight_of, segments, segments-IsTiling,
}

-- From Monday noon to Friday noon: half a day, three days and half a day.
segments_days :
    map (λ s. s.interval) (segments (pos 43200000000) (pos 388800000000))
    ≡ by_minute ∷ by_day ∷ by_minute ∷ []
unfolding segments midnight_of scale ◌+ℤ◌ ◌-ℤ◌
segments_days = refl

segments-IsTiling_example :
    IsCovering (pos 43200000000) (pos 388800000000) (segments (pos 43200000000) (pos 388800000000))
segments-IsTiling_example = segments-IsTiling (pos 43200000000) (pos 388800000000) (omega arith)

abbrev closed_position : String → ℕ → FxPosition ℤ
closed_position id closed_at = record {
  id = id;
  side = "LONG";
  pair = "EURUSD";
  amount = pos 1;
  entry_price = pos 100;
  exit_price = pos 110;
  pnl = pos 10;
  net_pnl = pos 9;
  commission = pos 1;
  swap = pos 0;
  mae = none;
  mfe = none;
  rr = none;
  rr_planned = none;
  tp = none;
  sl = none;
  liquidation_price = pos 0;
  multiplier = 1;
  isolated = false;
  closed = true;
  status = none;
  created_at = some (pos 0);
  closed_at = some (pos closed_at);
  created_at_utc = none;
  closed_at_utc = none;
  orders = [];
  balance_init = pos 0;
}

abbrev positions : List (FxPosition ℤ)
positions = closed_position "a" 60 ∷ closed_position "b" 120 ∷ closed_position "c" 180 ∷ []

abbrev all_answer : ℕ → Visit ℤ
all_answer index = record {
  is_over = false;
  reply = λ s. candles (record { time = some s.begins; high = pos 120; low = pos 90 } ∷ []);
}

abbrev measured_c : FxPosition ℤ
measured_c = record (closed_position "c" 180) { mae = some (negsuc 9); mfe = some (pos 20) }

-- The limit is one, so that the last position that was closed is measured, and "b" is already.
abbrev enriched_positions : List (FxPosition ℤ)
enriched_positions = closed_position "a" 60 ∷ closed_position "b" 120 ∷ measured_c ∷ []

enriched_last : enrich_mae_mfe all_answer (some 1) ("b" ∷ []) positions ≡ some enriched_positions
unfolding enrich_mae_mfe enrich_from enrich_position apply_mae_mfe resolve_value value_per_lot
    segments ◌+ℤ◌ ◌-ℤ◌
enriched_last = refl

enrich_mae_mfe-AreKept_example : AreKept ("b" ∷ []) positions enriched_positions
enrich_mae_mfe-AreKept_example =
    enrich_mae_mfe-AreKept all_answer (some 1) ("b" ∷ []) positions enriched_positions enriched_last

abbrev final_state : Enriching ℤ
final_state = record nothing_yet { measured = (2, measured_c) ∷ []; enriched = 1; deferred = 1 }

state_reached : enrich_state all_answer (some 1) ("b" ∷ []) positions ≡ some final_state
unfolding enrich_from enrich_position apply_mae_mfe resolve_value value_per_lot segments ◌+ℤ◌ ◌-ℤ◌
state_reached = refl

enrich_state-bounded_example :
    (total_of final_state ≤ length (candidates_of ("b" ∷ []) positions))
    × (final_state.enriched ≤ 1)
enrich_state-bounded_example =
    enrich_state-bounded all_answer 1 ("b" ∷ []) positions final_state state_reached

enrich_mae_mfe-ends_example :
    is_some (enrich_mae_mfe all_answer (some 1) ("b" ∷ []) positions) ≡ true
enrich_mae_mfe-ends_example =
    enrich_mae_mfe-ends all_answer (some 1) ("b" ∷ []) positions (λ i g. refl)
