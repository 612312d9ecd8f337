-- ===== src/Mt5api/Build/Orders.antt =====
-- mt5api/builders/orders.py: the orders of a position.
use mt5_connector.Common.{
  List, Option, String, [], elem, if◌then◌else◌, is_some, map, nat_eq, none, or_else, some,
  string_eq, ℕ, ◌%◌, ◌==◌, ◌||◌, ◌∷◌,
}
use mt5_connector.Common.Decimal.{str}
use mt5_connector.Common.Dict.{Dict, insert, lookup}
use mt5_connector.Common.Float.{Float, abs8, max}
use mt5_connector.Domain.Fx.{FxOrder, FxTrade, no_trade}
use mt5_connector.Mt5api.Raw.{RawDeal, RawOrder, deal_type_buy}

abbrev pub order_kind : ℕ → String
order_kind kind =
    if elem kind (2 ∷ 3 ∷ [])
    then "LIMIT"
    else if elem kind (4 ∷ 5 ∷ [])
    then "STOP"
    else if elem kind (6 ∷ 7 ∷ [])
    then "STOP_LIMIT"
    else "MARKET"

abbrev pub order_state : ℕ → String
order_state state =
    if state == 4
    then "FILLED"
    else if state == 5
    then "REJECTED"
    else if state == 6
    then "EXPIRED"
    else if state == 2
    then "CANCELLED"
    else "ACCEPTED"

abbrev pub trade_side : ℕ → String
trade_side kind = if kind == deal_type_buy then "LONG" else "SHORT"

abbrev pub execution_side : ℕ → String
execution_side kind = if kind == deal_type_buy then "BUY" else "SELL"

-- The side of an order without a deal: the kinds of buying are even.
abbrev pub order_side : ℕ → String
order_side kind = if kind % 2 == 0 then "BUY" else "SELL"

module _ {F : Type 0} where
  -- `deal_by_order`: the last deal of an order stays
  abbrev pub index_deals : Dict ℕ (RawDeal F) → List (RawDeal F) → Dict ℕ (RawDeal F)
  index_deals known [] = known
  index_deals known (deal ∷ deals) =
      index_deals (if deal.order == 0 then known else insert deal.order deal known) deals

module _ {F : Type 0} ⦃fl : Float F⦄ where
  abbrev pub order_status : RawOrder F → Option (RawDeal F) → String
  order_status order deal =
      if is_some deal || fl.lt order.volume_current order.volume_initial
      then "FILLED"
      else order_state order.state

  -- `_prices`: the stop price and the original price
  abbrev pub prices_of : RawOrder F → String → F × F
  prices_of order kind =
      if kind == "STOP_LIMIT"
      then (order.price_open, order.price_stoplimit)
      else if kind == "STOP"
      then (order.price_open, fl.nought)
      else if kind == "LIMIT"
      then (fl.nought, order.price_open)
      else (fl.nought, fl.nought)

  abbrev pub trade_of : RawDeal F → String → FxTrade F
  trade_of deal order_id = record {
    order_id = order_id;
    side = execution_side deal.kind;
    price = deal.price;
    amount = deal.volume;
    commission = abs8 (fl.add deal.commission deal.fee);
    profit = fl.round8 deal.profit;
    done_at = deal.time;
  }

  -- The order as it was placed, without what its deal says.
  abbrev pub plain_order : String → RawOrder F → Option (RawDeal F) → FxOrder F
  plain_order position_id order deal =
      let kind = order_kind order.kind in
      let prices = prices_of order kind in
      record {
        id = str order.ticket;
        position_id = position_id;
        kind = kind;
        status = order_status order deal;
        side = order_side order.kind;
        amount = order.volume_initial;
        amount_filled = max (fl.sub order.volume_initial order.volume_current) fl.nought;
        average_price = order.price_open;
        stop_price = prices.0;
        original_price = prices.1;
        updated_at = or_else order.time_done order.time_setup;
        trade = no_trade;
      }

  abbrev pub built_order : String → RawOrder F → Option (RawDeal F) → FxOrder F
  built_order position_id order none = plain_order position_id order none
  built_order position_id order (some deal) = record (plain_order position_id order (some deal)) {
    side = execution_side deal.kind;
    amount_filled = deal.volume;
    average_price = deal.price;
    trade = trade_of deal (str order.ticket);
  }

  unfoldable pub build_orders : List (RawOrder F) → List (RawDeal F) → String → List (FxOrder F)
  build_orders orders deals position_id =
      let deal_by_order = index_deals [] deals in
      map (λ order. built_order position_id order (lookup order.ticket deal_by_order)) orders

  abbrev pub order_of_deal : String → RawDeal F → FxOrder F
  order_of_deal position_id deal =
      let order_id = str (if deal.order == 0 then deal.ticket else deal.order) in
      record {
        id = order_id;
        position_id = position_id;
        kind = "MARKET";
        status = "FILLED";
        side = execution_side deal.kind;
        amount = deal.volume;
        amount_filled = deal.volume;
        average_price = deal.price;
        stop_price = fl.nought;
        original_price = fl.nought;
        updated_at = deal.time;
        trade = trade_of deal order_id;
      }

  unfoldable pub build_orders_from_deals : List (RawDeal F) → String → List (FxOrder F)
  build_orders_from_deals deals position_id = map (order_of_deal position_id) deals
