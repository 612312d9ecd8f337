-- ===== src/Mt5api/Build/Position.antt =====
-- mt5api/builders/position.py: the closed positions, from the deals and the orders.
use mt5_connector.Common.{
  Bool, List, Option, String, [], any, false, if◌then◌else◌, keep, leb, ltb, map, nat_eq, none, not,
  or_else, some, string_eq, true, ℕ, ◌&&◌, ◌==◌, ◌||◌, ◌∷◌,
}
use mt5_connector.Common.Decimal.{str}
use mt5_connector.Common.Dict.{Dict, insert, lookup}
use mt5_connector.Common.Float.{Float, abs8, is_truthy, weighted_price}
use mt5_connector.Common.Group.{group_into, values_of}
use mt5_connector.Common.Sort.{none_last, sort_by}
use mt5_connector.Domain.Fx.{FxOrder, FxPosition}
use mt5_connector.Mt5api.Build.Comment.{Level, protection_marks, stop_loss, take_profit}
use mt5_connector.Mt5api.Build.Orders.{build_orders, build_orders_from_deals, trade_side}
use mt5_connector.Mt5api.Build.Others.{orders_by_position}
use mt5_connector.Mt5api.Enrich.Levels.{apply_rr, resolve_value, value_per_lot}
use mt5_connector.Mt5api.Raw.{RawDeal, RawOrder, balance_delta, is_closing, is_opening, is_trading}

module _ {F : Type 0} where
  -- `sorted` by (time_msc, ticket)
  abbrev pub deal_before : RawDeal F → RawDeal F → Bool
  deal_before a b = ltb a.time_msc b.time_msc || (a.time_msc == b.time_msc && leb a.ticket b.ticket)

  unfoldable pub sort_deals : List (RawDeal F) → List (RawDeal F)
  sort_deals deals = sort_by deal_before deals

  abbrev pub has_position : RawDeal F → Bool
  has_position deal = is_trading deal && not (deal.position_id == 0)

  abbrev pub group_deals : List (RawDeal F) → Dict ℕ (List (RawDeal F))
  group_deals deals = group_into (λ deal. deal.position_id) [] (keep has_position deals)

  abbrev pub by_setup : RawOrder F → RawOrder F → Bool
  by_setup a b = none_last a.time_setup b.time_setup

  abbrev pub by_creation : FxPosition F → FxPosition F → Bool
  by_creation a b = none_last a.created_at b.created_at

  -- The first of a list that is not empty.
  abbrev pub first_of : RawDeal F → List (RawDeal F) → RawDeal F
  first_of fallback [] = fallback
  first_of fallback (deal ∷ deals) = deal

  abbrev pub final_of : RawDeal F → List (RawDeal F) → RawDeal F
  final_of fallback [] = fallback
  final_of fallback (deal ∷ deals) = final_of deal deals

module _ {F : Type 0} ⦃fl : Float F⦄ where
  abbrev pub note_balance : RawDeal F → F → Dict ℕ F → Dict ℕ F
  note_balance deal balance balances =
      if has_position deal && is_closing deal
      then insert deal.position_id balance balances
      else balances

  abbrev pub walk_balances : F → Dict ℕ F → List (RawDeal F) → Dict ℕ F
  walk_balances balance balances [] = balances
  walk_balances balance balances (deal ∷ deals) =
      let next = fl.round8 (fl.add balance (balance_delta deal)) in
      walk_balances next (note_balance deal next balances) deals

  abbrev pub opening_balance : List (RawDeal F) → F → F
  opening_balance deals current_balance =
      fl.round8 (fl.sub current_balance (fl.sum (map balance_delta deals)))

  -- `_balance_after_close`
  unfoldable pub balance_after_close : List (RawDeal F) → F → Dict ℕ F
  balance_after_close deals current_balance =
      walk_balances (opening_balance deals current_balance) [] (sort_deals deals)

  -- `_protection`: the take profit and the stop loss, from the orders, then from the comments
  abbrev pub level_or : Option F → F → Option F
  level_or none x = if is_truthy x then some x else none
  level_or (some level) x = some level

  abbrev pub order_levels : Option F × Option F → List (RawOrder F) → Option F × Option F
  order_levels levels [] = levels
  order_levels (tp, sl) (order ∷ orders) =
      order_levels (level_or tp order.tp, level_or sl order.sl) orders

  abbrev pub mark_level : Option F × Option F → Level × String → Option F × Option F
  mark_level (tp, sl) (take_profit, price) = (or_else tp (some (fl.of_text price)), sl)
  mark_level (tp, sl) (stop_loss, price) = (tp, or_else sl (some (fl.of_text price)))

  abbrev pub mark_levels : Option F × Option F → List (Level × String) → Option F × Option F
  mark_levels levels [] = levels
  mark_levels levels (mark ∷ marks) = mark_levels (mark_level levels mark) marks

  abbrev pub deal_levels : Option F × Option F → List (RawDeal F) → Option F × Option F
  deal_levels levels [] = levels
  deal_levels levels (deal ∷ deals) =
      deal_levels (mark_levels levels (protection_marks deal.comment)) deals

  unfoldable pub protection : List (RawOrder F) → List (RawDeal F) → Option F × Option F
  protection orders deals = deal_levels (order_levels (none, none) (sort_by by_setup orders)) deals

  abbrev pub legs_of : List (RawDeal F) → List (F × F)
  legs_of deals = map (λ deal. (deal.volume, deal.price)) deals

  abbrev pub orders_or_deals : List (FxOrder F) → List (FxOrder F) → List (FxOrder F)
  orders_or_deals [] from_deals = from_deals
  orders_or_deals (order ∷ orders) from_deals = order ∷ orders

  -- `_build_fx_position` on the deals `first ∷ more`
  unfoldable pub build_position :
      ℕ → RawDeal F → List (RawDeal F) → List (RawOrder F) → F → ℕ → FxPosition F
  build_position position_id first more orders balance_after leverage =
      let deals = first ∷ more in
      let position_key = str position_id in
      let opening = keep is_opening deals in
      let closing = keep is_closing deals in
      let first_open = first_of first opening in
      let last_close = final_of first closing in
      let pnl = fl.sum (map (λ deal. deal.profit) closing) in
      let swap = fl.sum (map (λ deal. deal.swap) deals) in
      let commission = abs8 (fl.sum (map (λ deal. deal.commission) deals)) in
      let fee = abs8 (fl.sum (map (λ deal. deal.fee) deals)) in
      let net = fl.sub (fl.sub (fl.add pnl swap) commission) fee in
      let levels = protection orders deals in
      record {
        id = position_key;
        side = trade_side first_open.kind;
        pair = if first_open.symbol == "" then last_close.symbol else first_open.symbol;
        amount = fl.round8 (fl.sum (map (λ deal. deal.volume) closing));
        entry_price = weighted_price (legs_of opening);
        exit_price = weighted_price (legs_of closing);
        pnl = fl.round8 pnl;
        net_pnl = fl.round8 net;
        commission = commission;
        swap = fl.round8 swap;
        mae = none;
        mfe = none;
        rr = none;
        rr_planned = none;
        tp = levels.0;
        sl = levels.1;
        liquidation_price = fl.nought;
        multiplier = if ltb 0 leverage then leverage else 1;
        isolated = false;
        closed = true;
        status = some (if fl.lt fl.nought net then "win" else "lose");
        created_at = first_open.time;
        closed_at = last_close.time;
        created_at_utc = none;
        closed_at_utc = none;
        orders =
            orders_or_deals (build_orders orders deals position_key)
              (build_orders_from_deals deals position_key);
        balance_init = fl.round8 (fl.sub balance_after net);
      }

  -- What is looked up for a position.
  abbrev pub or_nought_balance : Option F → F
  or_nought_balance none = fl.nought
  or_nought_balance (some balance) = balance

  abbrev pub build_group : ℕ → List (RawDeal F) → List (RawOrder F) → F → ℕ → Option (FxPosition F)
  build_group position_id [] orders balance_after leverage = none
  build_group position_id (first ∷ more) orders balance_after leverage =
      if any is_closing (first ∷ more)
      then some (build_position position_id first more orders balance_after leverage)
      else none

  abbrev pub cons_if_some : Option (FxPosition F) → List (FxPosition F) → List (FxPosition F)
  cons_if_some none ps = ps
  cons_if_some (some p) ps = p ∷ ps

  abbrev pub build_groups :
      Dict ℕ (List (RawOrder F)) → Dict ℕ F → ℕ → Dict ℕ (List (RawDeal F)) → List (FxPosition F)
  build_groups orders balances leverage [] = []
  build_groups orders balances leverage ((position_id, deals) ∷ groups) =
      cons_if_some
        (build_group position_id (sort_deals deals) (values_of (lookup position_id orders))
          (or_nought_balance (lookup position_id balances)) leverage)
        (build_groups orders balances leverage groups)

  -- The positions before their ratios and their order.
  abbrev pub built_positions : List (RawDeal F) → List (RawOrder F) → F → ℕ → List (FxPosition F)
  built_positions deals orders current_balance leverage =
      build_groups (orders_by_position orders) (balance_after_close deals current_balance) leverage
        (group_deals deals)

  abbrev pub rate_positions : List (FxPosition F) → List (FxPosition F)
  rate_positions ps = map (λ p. apply_rr p (resolve_value p (value_per_lot ps))) ps

  unfoldable pub build_fx_positions :
      List (RawDeal F) → List (RawOrder F) → F → ℕ → List (FxPosition F)
  build_fx_positions deals orders current_balance leverage =
      sort_by by_creation (rate_positions (built_positions deals orders current_balance leverage))
