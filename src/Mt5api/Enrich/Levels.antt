-- ===== src/Mt5api/Enrich/Levels.antt =====
-- mt5api/enrichment.py: the value of a price unit, the ratio of reward to risk, and the excursions.
use mt5_connector.Common.{
  Bool, List, Option, String, [], if◌then◌else◌, is_some, nat_eq, none, not, or_else, some,
  string_eq, ◌&&◌, ◌==◌, ◌||◌, ◌∷◌,
}
use mt5_connector.Common.Dict.{Dict, insert, lookup}
use mt5_connector.Common.Float.{Float, is_truthy, max, min}
use mt5_connector.Domain.Fx.{FxPosition}

module _ {F : Type 0} ⦃fl : Float F⦄ where
  abbrev pub price_delta : FxPosition F → F
  price_delta p =
      let delta = fl.sub p.exit_price p.entry_price in
      if p.side == "SHORT" then fl.neg delta else delta

  -- `_value_per_price_unit`
  abbrev pub own_value : FxPosition F → Option F
  own_value p =
      if is_truthy (price_delta p) && is_truthy p.pnl
      then some (fl.abs (fl.div p.pnl (price_delta p)))
      else none

  abbrev pub note_rate : FxPosition F → Option F → Dict String F → Dict String F
  note_rate p none rates = rates
  note_rate p (some unit) rates = insert p.pair (fl.div unit p.amount) rates

  abbrev pub has_rate : FxPosition F → Dict String F → Bool
  has_rate p rates = p.pair == "" || is_some (lookup p.pair rates) || not (is_truthy p.amount)

  abbrev pub rates_after : Dict String F → List (FxPosition F) → Dict String F
  rates_after rates [] = rates
  rates_after rates (p ∷ ps) =
      rates_after (if has_rate p rates then rates else note_rate p (own_value p) rates) ps

  unfoldable pub value_per_lot : List (FxPosition F) → Dict String F
  value_per_lot positions = rates_after [] positions

  abbrev pub by_rate : FxPosition F → Option F → Option F
  by_rate p none = none
  by_rate p (some rate) = if is_truthy p.amount then some (fl.mul rate p.amount) else none

  unfoldable pub resolve_value : FxPosition F → Dict String F → Option F
  resolve_value p per_lot = or_else (own_value p) (by_rate p (lookup p.pair per_lot))

  -- `apply_rr` from where the risk is known
  abbrev pub plan_rr : F → FxPosition F → FxPosition F
  plan_rr risk_price p = elim p.tp [
    | none ↦ p
    | some tp ↦
        if is_truthy tp
        then record p {
          rr_planned = some (fl.round8 (fl.div (fl.abs (fl.sub tp p.entry_price)) risk_price));
        }
        else p
  ]

  abbrev pub rate_rr : F → Option F → FxPosition F → FxPosition F
  rate_rr risk_price none p = p
  rate_rr risk_price (some unit) p =
      let risk_money = fl.mul risk_price unit in
      if fl.lt fl.nought risk_money
      then record p { rr = some (fl.round8 (fl.div p.net_pnl risk_money)) }
      else p

  abbrev pub risk_rr : F → Option F → FxPosition F → FxPosition F
  risk_rr risk_price unit p =
      if fl.eq risk_price fl.nought then p else rate_rr risk_price unit (plan_rr risk_price p)

  abbrev pub apply_rr_at : Option F → Option F → FxPosition F → FxPosition F
  apply_rr_at none unit p = p
  apply_rr_at (some sl) unit p =
      if is_truthy sl && is_truthy p.entry_price
      then risk_rr (fl.abs (fl.sub p.entry_price sl)) unit p
      else p

  unfoldable pub apply_rr : FxPosition F → Option F → FxPosition F
  apply_rr p unit = apply_rr_at p.sl unit p

  abbrev pub overlap_tolerance : F
  overlap_tolerance = fl.of_text "0.01"

  abbrev pub measure : FxPosition F → F → F → F → FxPosition F
  measure p high low unit =
      if p.side == "LONG"
      then record p {
        mae = some (fl.round8 (min fl.nought (fl.mul (fl.sub low p.entry_price) unit)));
        mfe = some (fl.round8 (max fl.nought (fl.mul (fl.sub high p.entry_price) unit)));
      }
      else record p {
        mae = some (fl.round8 (min fl.nought (fl.mul (fl.sub p.entry_price high) unit)));
        mfe = some (fl.round8 (max fl.nought (fl.mul (fl.sub p.entry_price low) unit)));
      }

  -- `_apply_mae_mfe`: `none` where it answers False
  unfoldable pub apply_mae_mfe : FxPosition F → F → F → Option F → Option (FxPosition F)
  apply_mae_mfe p high low none = none
  apply_mae_mfe p high low (some unit) =
      let traded_low = min p.entry_price p.exit_price in
      let traded_high = max p.entry_price p.exit_price in
      let slack = fl.mul traded_high overlap_tolerance in
      if fl.lt (fl.add traded_high slack) low || fl.lt high (fl.sub traded_low slack)
      then none
      else some (measure p (max high traded_high) (min low traded_low) unit)
