-- ===== src/Mt5api/Build/Tests.antt =====
-- Builders at concrete inputs, over whole numbers.
use mathlib.Core.Option
use mathlib.Core.List.{Perm}
use mt5_connector.Common.{
  List, [], arith, keep, map, nat_eq, none, refl, some, string_eq, ℕ, ◌*◌, ◌∷◌, ◌≡◌,
}
use mt5_connector.Common.Decimal.{str}
use mt5_connector.Common.Dict.{lookup}
use mt5_connector.Common.Float.{weighted_price}
use mt5_connector.Common.Group.{Distinct}
use mt5_connector.Common.Int.{negsuc, pos, ℤ, ◌+ℤ◌, ◌-ℤ◌}
use mt5_connector.Common.Sort.{IsSorted}
use mt5_connector.Common.Whole.{whole_float}
use mt5_connector.Mt5api.Build.Comment.{protection_marks, stop_loss, take_profit}
use mt5_connector.Mt5api.Build.Groups.{
  build_fx_positions-ids, built_positions-collect, collect, is_closed, position_alone, position_ids,
}
use mt5_connector.Mt5api.Build.Orders.{build_orders, build_orders_from_deals, built_order}
use mt5_connector.Mt5api.Build.Others.{
  build_transactions, by_time, is_balance_deal, orders_by_position, transaction_of,
}
use mt5_connector.Mt5api.Build.Position.{
  balance_after_close, build_fx_positions, build_position, built_positions, by_creation,
  opening_balance, protection, sort_deals,
}
use mt5_connector.Mt5api.Build.Totals.{
  balance_after_close-last, balance_over, build_orders-last, build_transactions-Perm, last_deal,
}
use mt5_connector.Mt5api.Enrich.Levels.{apply_rr, resolve_value, value_per_lot}
use mt5_connector.Mt5api.Raw.{RawDeal, RawOrder}

protection_marks_both :
    protection_marks "a[SL 12.50]x[sl 3.]b[tp 4]" ≡ (stop_loss, "12.50") ∷ (take_profit, "4") ∷ []
unfolding protection_marks Option.bind
protection_marks_both = refl

str_12345 : str 12345 ≡ "12345"
unfolding str
str_12345 = refl

abbrev deal_with : ℕ → ℕ → ℕ → ℕ → ℕ → ℤ → RawDeal ℤ
deal_with ticket order position_id kind entry profit = record {
  ticket = ticket;
  order = order;
  position_id = position_id;
  time = some (pos (1000000 * ticket));
  time_msc = 1000 * ticket;
  kind = kind;
  entry = entry;
  volume = pos 1;
  price = pos (10 * ticket);
  commission = negsuc 0;
  swap = pos 0;
  profit = profit;
  fee = pos 0;
  symbol = "EURUSD";
  comment = "";
}

-- A deposit, and two positions whose deals are mixed; the second one stays open.
abbrev deals : List (RawDeal ℤ)
deals =
    deal_with 1 0 0 2 0 (pos 1000)
    ∷ deal_with 2 21 7 0 0 (pos 0)
    ∷ deal_with 3 31 8 0 0 (pos 0)
    ∷ deal_with 4 22 7 1 1 (pos 50)
    ∷ []

abbrev order_with : ℕ → ℕ → RawOrder ℤ
order_with ticket position_id = record {
  ticket = ticket;
  position_id = position_id;
  time_setup = some (pos ticket);
  time_done = none;
  kind = 2;
  state = 4;
  volume_initial = pos 1;
  volume_current = pos 0;
  price_open = pos 20;
  price_stoplimit = pos 0;
  sl = pos 10;
  tp = pos 0;
}

abbrev orders : List (RawOrder ℤ)
orders = order_with 21 7 ∷ order_with 31 8 ∷ []

built_ids : map (λ p. p.id) (build_fx_positions deals orders (pos 1046) 100) ≡ "7" ∷ []
unfolding build_fx_positions sort_deals build_position balance_after_close orders_by_position
    apply_rr resolve_value value_per_lot str build_orders build_orders_from_deals protection
    protection_marks Option.bind weighted_price ◌+ℤ◌ ◌-ℤ◌
built_ids = refl

built_positions-collect_example :
    built_positions deals orders (pos 1046) 100
    ≡ collect (position_alone deals orders (pos 1046) 100) (position_ids deals)
built_positions-collect_example = built_positions-collect deals orders (pos 1046) 100

build_fx_positions-ids_example :
    IsSorted by_creation (build_fx_positions deals orders (pos 1046) 100)
    × Perm
        (map (λ p. p.id) (build_fx_positions deals orders (pos 1046) 100))
        (map str (keep (is_closed deals) (position_ids deals)))
    × Distinct (position_ids deals)
build_fx_positions-ids_example = build_fx_positions-ids deals orders (pos 1046) 100

deals_sorted : sort_deals deals ≡ deals
unfolding sort_deals
deals_sorted = refl

balance_after_close-last_example :
    lookup 7 (balance_after_close deals (pos 1046))
    ≡ some (balance_over (opening_balance deals (pos 1046)) deals)
balance_after_close-last_example =
    balance_after_close-last deals (pos 1046) 7
      (deal_with 1 0 0 2 0 (pos 1000)
        ∷ deal_with 2 21 7 0 0 (pos 0)
        ∷ deal_with 3 31 8 0 0 (pos 0)
        ∷ [])
      (deal_with 4 22 7 1 1 (pos 50)) [] deals_sorted refl refl

build_transactions-Perm_example :
    IsSorted by_time (build_transactions deals)
    × Perm (build_transactions deals) (map transaction_of (keep is_balance_deal deals))
build_transactions-Perm_example = build_transactions-Perm deals

build_orders-last_example :
    build_orders orders deals "7"
    ≡ map (λ order. built_order "7" order (last_deal order.ticket deals)) orders
build_orders-last_example =
    build_orders-last orders deals "7"
      (λ e. absurd (omega arith), ((λ e. absurd (omega arith)), tt))
