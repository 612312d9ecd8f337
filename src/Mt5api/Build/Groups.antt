-- ===== src/Mt5api/Build/Groups.antt =====
-- That grouping in one pass gives each position all its deals and all its orders.
use mathlib.Core.List.Perm
use mathlib.Core.List.{Perm}
use mt5_connector.Common.{
  Bool, List, Option, String, [], any, ap, arith, if◌then◌else◌, keep, map, nat_eq, refl, string_eq,
  subst, ℕ, ◌==◌, ◌||◌, ◌∙◌, ◌∷◌, ◌≡◌,
}
use mt5_connector.Common.Decimal.{str}
use mt5_connector.Common.Dict.{Dict, lookup}
use mt5_connector.Common.Float.{Float}
use mt5_connector.Common.Group.{
  Distinct, Distinct-distinct_after, distinct_after, group_into-having, lookup-group_into, tabulate,
}
use mt5_connector.Common.Sort.{
  IsSorted, insert_by, none_last-IsTotal, none_last-IsTransitive, sort_by, sort_by-IsSorted,
  sort_by-Perm,
}
use mt5_connector.Domain.Fx.{FxPosition}
use mt5_connector.Mt5api.Build.Others.{orders_by_position, orders_with_position}
use mt5_connector.Mt5api.Build.Position.{
  balance_after_close, build_fx_positions, build_group, build_groups, build_position,
  built_positions, by_creation, cons_if_some, deal_before, group_deals, has_position,
  or_nought_balance, rate_positions, sort_deals,
}
use mt5_connector.Mt5api.Enrich.Levels.{apply_rr, resolve_value, value_per_lot}
use mt5_connector.Mt5api.Raw.{RawDeal, RawOrder, is_closing}

module _ {F : Type 0} where
  -- The deals of a position, by filtering the history.
  abbrev pub deals_of : List (RawDeal F) → ℕ → List (RawDeal F)
  deals_of deals position_id =
      keep (λ deal. position_id == deal.position_id) (keep has_position deals)

  abbrev pub orders_of : List (RawOrder F) → ℕ → List (RawOrder F)
  orders_of orders position_id =
      keep (λ order. position_id == order.position_id) (orders_with_position orders)

  -- The positions that have deals, in the order of their first one.
  abbrev pub position_ids : List (RawDeal F) → List ℕ
  position_ids deals = distinct_after [] (map (λ deal. deal.position_id) (keep has_position deals))

  abbrev pub is_closed : List (RawDeal F) → ℕ → Bool
  is_closed deals position_id = any is_closing (deals_of deals position_id)

  pub group_deals-tabulate :
      (deals : List (RawDeal F))
      → group_deals deals ≡ tabulate (deals_of deals) (position_ids deals)
  group_deals-tabulate deals =
      group_into-having (λ deal. deal.position_id) (keep has_position deals)

  any-insert_by :
      (p : RawDeal F → Bool) (le : RawDeal F → RawDeal F → Bool) (a : RawDeal F)
      (bs : List (RawDeal F))
      → any p (insert_by le a bs) ≡ (p a || any p bs)
  any-insert_by p le a [] = refl
  any-insert_by p le a (b ∷ bs) = ground (arith, any-insert_by p le a bs)

  any-sort_by :
      (p : RawDeal F → Bool) (le : RawDeal F → RawDeal F → Bool) (bs : List (RawDeal F))
      → any p (sort_by le bs) ≡ any p bs
  any-sort_by p le [] = refl
  any-sort_by p le (b ∷ bs) =
      ground (arith, any-insert_by p le b (sort_by le bs), any-sort_by p le bs)

module _ {F : Type 0} ⦃fl : Float F⦄ where
  build_group-id :
      (k : ℕ) (deals : List (RawDeal F)) (orders : List (RawOrder F)) (b : F) (leverage : ℕ)
      (ps : List (FxPosition F))
      → map (λ p. p.id) (cons_if_some (build_group k deals orders b leverage) ps)
        ≡ (if any is_closing deals then str k ∷ map (λ p. p.id) ps else map (λ p. p.id) ps)
  unfolding build_position
  build_group-id k [] orders b leverage ps = refl
  build_group-id k (first ∷ more) orders b leverage ps = ground arith

  abbrev pub collect : (ℕ → Option (FxPosition F)) → List ℕ → List (FxPosition F)
  collect g [] = []
  collect g (k ∷ ks) = cons_if_some (g k) (collect g ks)

  -- A position from its own deals and orders.
  abbrev pub position_alone :
      List (RawDeal F) → List (RawOrder F) → F → ℕ → ℕ → Option (FxPosition F)
  position_alone deals orders current_balance leverage k =
      build_group k (sort_deals (deals_of deals k)) (orders_of orders k)
        (or_nought_balance (lookup k (balance_after_close deals current_balance))) leverage

  build_groups-collect :
      (orders : List (RawOrder F)) (balances : Dict ℕ F) (leverage : ℕ) (f : ℕ → List (RawDeal F))
      (ks : List ℕ)
      → build_groups (orders_by_position orders) balances leverage (tabulate f ks)
        ≡ collect
            (λ k.
              build_group k
                (sort_deals (f k))
                (orders_of orders k)
                (or_nought_balance (lookup k balances))
                leverage)
            ks
  unfolding orders_by_position
  build_groups-collect orders balances leverage f [] = refl
  build_groups-collect orders balances leverage f (k ∷ ks) =
      let own = lookup-group_into (λ order. order.position_id) (orders_with_position orders) k in
      let g : List (RawOrder F) → Option (FxPosition F) = λ os.
        build_group k (sort_deals (f k)) os (or_nought_balance (lookup k balances)) leverage in
      ap
        (λ os.
          cons_if_some (g os)
            (build_groups (orders_by_position orders) balances leverage (tabulate f ks)))
        own
      ∙ ap (cons_if_some (g (orders_of orders k)))
          (build_groups-collect orders balances leverage f ks)

  -- The positions that one pass over the deals and the orders builds, with its dicts of lists and of
  -- balances, are those that are built one by one, each from the deals and the orders that a filter
  -- of the whole history by its id gives, in the order of their first deals.
  pub built_positions-collect :
      (deals : List (RawDeal F)) (orders : List (RawOrder F)) (current_balance : F) (leverage : ℕ)
      → built_positions deals orders current_balance leverage
        ≡ collect (position_alone deals orders current_balance leverage) (position_ids deals)
  built_positions-collect deals orders current_balance leverage =
      let balances = balance_after_close deals current_balance in
      ap (build_groups (orders_by_position orders) balances leverage) (group_deals-tabulate deals)
      ∙ build_groups-collect orders balances leverage (deals_of deals) (position_ids deals)

  collect-ids :
      (deals : List (RawDeal F)) (orders : List (RawOrder F)) (current_balance : F) (leverage : ℕ)
      (ks : List ℕ)
      → map (λ p. p.id) (collect (position_alone deals orders current_balance leverage) ks)
        ≡ map str (keep (is_closed deals) ks)
  unfolding sort_deals
  collect-ids deals orders current_balance leverage [] = refl
  collect-ids deals orders current_balance leverage (k ∷ ks) =
      let own = sort_deals (deals_of deals k) in
      let head =
        build_group-id k own (orders_of orders k)
          (or_nought_balance (lookup k (balance_after_close deals current_balance))) leverage
          (collect (position_alone deals orders current_balance leverage) ks) in
      let rest = collect-ids deals orders current_balance leverage ks in
      let same = any-sort_by is_closing deal_before (deals_of deals k) in
      ground (arith, head, rest, same)

  apply_rr-id : (p : FxPosition F) (unit : Option F) → (apply_rr p unit).id ≡ p.id
  unfolding apply_rr
  apply_rr-id p unit = ground arith

  rate-ids :
      (rates : Dict String F) (ps : List (FxPosition F))
      → map (λ p. p.id) (map (λ p. apply_rr p (resolve_value p rates)) ps) ≡ map (λ p. p.id) ps
  rate-ids rates [] = refl
  rate-ids rates (p ∷ ps) = rw (apply_rr-id p (resolve_value p rates), rate-ids rates ps) refl

  -- The positions of a sync are sorted by their creation, those without it last, and their ids are
  -- those of the positions with a trading deal that closes, each once.
  pub build_fx_positions-ids :
      (deals : List (RawDeal F)) (orders : List (RawOrder F)) (current_balance : F) (leverage : ℕ)
      → IsSorted by_creation (build_fx_positions deals orders current_balance leverage)
        × Perm
            (map (λ p. p.id) (build_fx_positions deals orders current_balance leverage))
            (map str (keep (is_closed deals) (position_ids deals)))
        × Distinct (position_ids deals)
  unfolding build_fx_positions
  build_fx_positions-ids deals orders current_balance leverage =
      let built = built_positions deals orders current_balance leverage in
      let ids =
        rate-ids (value_per_lot built) built
        ∙ ap (map (λ p. p.id)) (built_positions-collect deals orders current_balance leverage)
        ∙ collect-ids deals orders current_balance leverage (position_ids deals) in
      (
        sort_by-IsSorted by_creation (rate_positions built)
            (λ a b c. none_last-IsTransitive a.created_at b.created_at c.created_at)
            (λ a b. none_last-IsTotal a.created_at b.created_at),
        subst (Perm (map (λ p. p.id) (sort_by by_creation (rate_positions built)))) ids
            (Perm.map (λ p. p.id) (sort_by-Perm by_creation (rate_positions built))),
        Distinct-distinct_after [] (map (λ deal. deal.position_id) (keep has_position deals)) tt,
      )
