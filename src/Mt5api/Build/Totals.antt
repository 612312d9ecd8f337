-- ===== src/Mt5api/Build/Totals.antt =====
-- What the balances, the transactions and the orders of a sync come to.
use mathlib.Core.List.{Perm, reverse}
use mt5_connector.Common.{
  All, Bool, List, Option, String, [], any, ap, arith, false, find, if◌then◌else◌, keep, map,
  nat_eq, none, or_else, refl, some, string_eq, subst, sym, true, ℕ, ◌&&◌, ◌++◌, ◌==◌, ◌∙◌, ◌∷◌,
  ◌≡◌, ◌≢◌,
}
use mt5_connector.Common.Dict.{Dict, insert, lookup, lookup-insert}
use mt5_connector.Common.Float.{Float}
use mt5_connector.Common.Search.{find-reverse_cons}
use mt5_connector.Common.Sort.{
  IsSorted, none_last-IsTotal, none_last-IsTransitive, sort_by, sort_by-IsSorted, sort_by-Perm,
}
use mt5_connector.Mt5api.Build.Orders.{build_orders, built_order, index_deals}
use mt5_connector.Mt5api.Build.Others.{
  build_transactions, by_time, is_balance_deal, transaction_of, transactions_of,
}
use mt5_connector.Mt5api.Build.Position.{
  balance_after_close, has_position, note_balance, opening_balance, sort_deals, walk_balances,
}
use mt5_connector.Mt5api.Raw.{RawDeal, RawOrder, balance_delta, is_closing}

or_else_assoc {ℓ} :
    {A : Type ℓ} (a b c : Option A) → or_else a (or_else b c) ≡ or_else (or_else a b) c
or_else_assoc none b c = refl
or_else_assoc (some a) b c = refl

or_else-none {ℓ} : {A : Type ℓ} (a : Option A) → or_else a none ≡ a
or_else-none none = refl
or_else-none (some a) = refl

module _ {F : Type 0} ⦃fl : Float F⦄ where
  -- The balance after each of the deals, one after the other.
  abbrev pub balance_over : F → List (RawDeal F) → F
  balance_over balance [] = balance
  balance_over balance (deal ∷ deals) =
      balance_over (fl.round8 (fl.add balance (balance_delta deal))) deals

  abbrev pub closes : ℕ → RawDeal F → Bool
  closes k deal = has_position deal && is_closing deal && deal.position_id == k

  note_balance-other :
      (k : ℕ) (deal : RawDeal F) (balance : F) (balances : Dict ℕ F)
      → closes k deal ≡ false
      → lookup k (note_balance deal balance balances) ≡ lookup k balances
  note_balance-other k deal balance balances other =
      ground (arith, lookup-insert k deal.position_id balance balances)

  note_balance-own :
      (k : ℕ) (deal : RawDeal F) (balance : F) (balances : Dict ℕ F)
      → closes k deal ≡ true
      → lookup k (note_balance deal balance balances) ≡ some balance
  note_balance-own k deal balance balances own =
      ground (arith, lookup-insert k deal.position_id balance balances)

  walk_balances-later :
      (k : ℕ) (balance : F) (balances : Dict ℕ F) (deals : List (RawDeal F))
      → any (closes k) deals ≡ false
      → lookup k (walk_balances balance balances deals) ≡ lookup k balances
  walk_balances-later k balance balances [] none_closes = refl
  walk_balances-later k balance balances (deal ∷ deals) none_closes =
      let next = fl.round8 (fl.add balance (balance_delta deal)) in
      walk_balances-later k next (note_balance deal next balances) deals (ground arith)
      ∙ note_balance-other k deal next balances (ground arith)

  walk_balances-last :
      (k : ℕ) (balance : F) (balances : Dict ℕ F) (before : List (RawDeal F)) (deal : RawDeal F)
      (after : List (RawDeal F))
      → closes k deal ≡ true
      → any (closes k) after ≡ false
      → lookup k (walk_balances balance balances (before ++ deal ∷ after))
        ≡ some (balance_over balance (before ++ deal ∷ []))
  walk_balances-last k balance balances [] deal after closing none_closes =
      let next = fl.round8 (fl.add balance (balance_delta deal)) in
      walk_balances-later k next (note_balance deal next balances) after none_closes
      ∙ note_balance-own k deal next balances closing
  walk_balances-last k balance balances (other ∷ before) deal after closing none_closes =
      let next = fl.round8 (fl.add balance (balance_delta other)) in
      walk_balances-last k next (note_balance other next balances) before deal after closing
        none_closes

  -- The balance kept for a position is that after its last close: the opening balance, with the
  -- delta of each deal up to that close added and rounded, in the order of the deals' times.
  pub balance_after_close-last :
      (deals : List (RawDeal F)) (current_balance : F) (k : ℕ) (before : List (RawDeal F))
      (deal : RawDeal F) (after : List (RawDeal F))
      → sort_deals deals ≡ before ++ deal ∷ after
      → closes k deal ≡ true
      → any (closes k) after ≡ false
      → lookup k (balance_after_close deals current_balance)
        ≡ some (balance_over (opening_balance deals current_balance) (before ++ deal ∷ []))
  unfolding balance_after_close
  balance_after_close-last deals current_balance k before deal after split closing none_closes =
      let balance = opening_balance deals current_balance in
      ap (λ ds. lookup k (walk_balances balance [] ds)) split
      ∙ walk_balances-last k balance [] before deal after closing none_closes

  transactions_of-keep :
      (deals : List (RawDeal F))
      → transactions_of deals ≡ map transaction_of (keep is_balance_deal deals)
  transactions_of-keep [] = refl
  transactions_of-keep (deal ∷ deals) = ground (arith, transactions_of-keep deals)

  -- The transactions of a sync are sorted by time, and they are, in another order, one for each
  -- deal of a balance kind whose amount is not zero.
  pub build_transactions-Perm :
      (deals : List (RawDeal F))
      → IsSorted by_time (build_transactions deals)
        × Perm (build_transactions deals) (map transaction_of (keep is_balance_deal deals))
  unfolding build_transactions
  build_transactions-Perm deals = (
    sort_by-IsSorted by_time (transactions_of deals)
        (λ a b c. none_last-IsTransitive a.time b.time c.time)
        (λ a b. none_last-IsTotal a.time b.time),
    subst (Perm (sort_by by_time (transactions_of deals))) (transactions_of-keep deals)
        (sort_by-Perm by_time (transactions_of deals)),
  )

  -- The deal that `build_orders` takes for an order: the last one with its ticket.
  abbrev pub last_deal : ℕ → List (RawDeal F) → Option (RawDeal F)
  last_deal ticket deals = find (λ deal. ticket == deal.order) (reverse deals)

  lookup-known :
      (ticket : ℕ) (known : Dict ℕ (RawDeal F)) (deal : RawDeal F)
      → ticket ≢ 0
      → lookup ticket (if deal.order == 0 then known else insert deal.order deal known)
        ≡ or_else (if ticket == deal.order then some deal else none) (lookup ticket known)
  lookup-known ticket known deal real = ground (arith, lookup-insert ticket deal.order deal known)

  index_deals-last :
      (ticket : ℕ) (known : Dict ℕ (RawDeal F)) (deals : List (RawDeal F))
      → ticket ≢ 0
      → lookup ticket (index_deals known deals)
        ≡ or_else (last_deal ticket deals) (lookup ticket known)
  index_deals-last ticket known [] real = refl
  index_deals-last ticket known (deal ∷ deals) real =
      let next = if deal.order == 0 then known else insert deal.order deal known in
      let hit : Option (RawDeal F) = if ticket == deal.order then some deal else none in
      index_deals-last ticket next deals real
      ∙ ap (or_else (last_deal ticket deals)) (lookup-known ticket known deal real)
      ∙ or_else_assoc (last_deal ticket deals) hit (lookup ticket known)
      ∙ ap (λ o. or_else o (lookup ticket known))
          (sym (find-reverse_cons (λ d. ticket == d.order) deal deals))

  -- The orders of a position that have a ticket are built one for one, each with the last of the
  -- deals that name its ticket, or as it was placed where none does.
  pub build_orders-last :
      (orders : List (RawOrder F)) (deals : List (RawDeal F)) (position_id : String)
      → All (λ order. order.ticket ≢ 0) orders
      → build_orders orders deals position_id
        ≡ map (λ order. built_order position_id order (last_deal order.ticket deals)) orders
  unfolding build_orders
  build_orders-last [] deals position_id real = refl
  build_orders-last (order ∷ orders) deals position_id real =
      let own =
        index_deals-last order.ticket [] deals real.0
        ∙ or_else-none (last_deal order.ticket deals) in
      let rest = build_orders-last orders deals position_id real.1 in
      ap
        (λ d.
          built_order position_id order d
          ∷ map (λ o. built_order position_id o (lookup o.ticket (index_deals [] deals))) orders)
        own
      ∙ ap (λ os. built_order position_id order (last_deal order.ticket deals) ∷ os) rest
