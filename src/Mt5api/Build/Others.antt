-- ===== src/Mt5api/Build/Others.antt =====
-- mt5api/builders/transactions.py, open_position.py and balance_snapshots.py.
use mathlib.Core.Option
use mt5_connector.Common.{
  Bool, List, Option, [], elem, false, if◌then◌else◌, is_some, keep, map, nat_eq, none, not, some,
  string_eq, true, ℕ, ◌&&◌, ◌==◌, ◌∷◌,
}
use mt5_connector.Common.Decimal.{str}
use mt5_connector.Common.Dict.{Dict, lookup}
use mt5_connector.Common.Float.{Float, abs8}
use mt5_connector.Common.Group.{group_into, values_of}
use mt5_connector.Common.Int.{leb_ℤ, ℤ}
use mt5_connector.Common.Sort.{none_last, sort_by}
use mt5_connector.Domain.Fx.{BalanceSnapshot, FxOpenPosition, FxPosition, Transaction}
use mt5_connector.Mt5api.Build.Orders.{build_orders}
use mt5_connector.Mt5api.Clock.Defs.{ServerClock, to_utc}
use mt5_connector.Mt5api.Clock.Times.{naive}
use mt5_connector.Mt5api.Raw.{
  RawDeal, RawOrder, RawPosition, balance_deal_types, position_type_sell,
}

module _ {F : Type 0} where
  -- `sorted` by a time that may be missing, which comes last
  abbrev pub by_time : Transaction F → Transaction F → Bool
  by_time a b = none_last a.time b.time

  abbrev pub by_close : FxPosition F → FxPosition F → Bool
  by_close a b = none_last a.closed_at b.closed_at

  abbrev pub is_since : Option ℤ → BalanceSnapshot F → Bool
  is_since none snapshot = true
  is_since (some since) snapshot = elim snapshot.created_at [
    | none ↦ false
    | some made ↦ leb_ℤ since made
  ]

  abbrev pub orders_with_position : List (RawOrder F) → List (RawOrder F)
  orders_with_position orders = keep (λ order. not (order.position_id == 0)) orders

  -- `orders_by_position`
  unfoldable pub orders_by_position : List (RawOrder F) → Dict ℕ (List (RawOrder F))
  orders_by_position orders =
      group_into (λ order. order.position_id) [] (orders_with_position orders)

  abbrev pub position_key : RawPosition F → ℕ
  position_key position = if position.identifier == 0 then position.ticket else position.identifier

module _ {F : Type 0} ⦃fl : Float F⦄ where
  abbrev pub is_balance_deal : RawDeal F → Bool
  is_balance_deal deal =
      elem deal.kind balance_deal_types && not (fl.eq (abs8 deal.profit) fl.nought)

  abbrev pub transaction_of : RawDeal F → Transaction F
  transaction_of deal = record {
    time = deal.time;
    time_utc = none;
    kind = if fl.lt fl.nought deal.profit then "DEPOSIT" else "WITHDRAWAL";
    amount = abs8 deal.profit;
  }

  abbrev pub transactions_of : List (RawDeal F) → List (Transaction F)
  transactions_of [] = []
  transactions_of (deal ∷ deals) =
      let rest = transactions_of deals in
      if not (elem deal.kind balance_deal_types)
      then rest
      else if fl.eq (abs8 deal.profit) fl.nought
      then rest
      else transaction_of deal ∷ rest

  unfoldable pub build_transactions : List (RawDeal F) → List (Transaction F)
  build_transactions deals = sort_by by_time (transactions_of deals)

  abbrev pub open_position_of : Dict ℕ (List (RawOrder F)) → RawPosition F → FxOpenPosition F
  open_position_of grouped position =
      let key = str (position_key position) in
      record {
        id = key;
        pair = position.symbol;
        amount = position.volume;
        side = if position.kind == position_type_sell then "SHORT" else "LONG";
        entry_price = position.price_open;
        current_price = position.price_current;
        open_time = position.time;
        open_time_utc = none;
        orders = build_orders (values_of (lookup (position_key position) grouped)) [] key;
      }

  unfoldable pub build_open_positions :
      List (RawPosition F) → List (RawOrder F) → List (FxOpenPosition F)
  build_open_positions positions orders =
      map (open_position_of (orders_by_position orders)) positions

  abbrev pub snapshot_of : ServerClock → Option ℤ → F → BalanceSnapshot F
  snapshot_of clock time balance = record {
    created_at = time;
    created_at_utc = to_utc clock (Option.map naive time);
    balance = balance;
  }

  abbrev pub close_snapshots : ServerClock → List (FxPosition F) → List (BalanceSnapshot F)
  close_snapshots clock [] = []
  close_snapshots clock (p ∷ ps) =
      let rest = close_snapshots clock ps in
      if is_some p.closed_at
      then snapshot_of clock p.closed_at (fl.round8 (fl.add p.balance_init p.net_pnl)) ∷ rest
      else rest

  abbrev pub snapshots_of : Option ℤ → ServerClock → List (FxPosition F) → List (BalanceSnapshot F)
  snapshots_of since clock [] = []
  snapshots_of since clock (first ∷ ps) =
      keep (is_since since)
        (snapshot_of clock first.created_at first.balance_init ∷ close_snapshots clock (first ∷ ps))

  unfoldable pub build_balance_snapshots :
      List (FxPosition F) → Option ℤ → ServerClock → List (BalanceSnapshot F)
  build_balance_snapshots positions since clock =
      snapshots_of since clock (sort_by by_close positions)
