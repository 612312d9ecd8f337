-- ===== src/Mt5api/History/Withheld.antt =====
-- That nothing is lost where a withheld history is not stored.
use mt5_connector.Common.{List, [], ap, arith, inl, inr, map, refl, true, ◌∷◌, ◌≡◌, ◌⊎◌}
use mt5_connector.Common.Float.{Float}
use mt5_connector.Mt5api.Build.Others.{build_transactions}
use mt5_connector.Mt5api.Build.Payload.{build_sync_payload, date_position, date_transaction}
use mt5_connector.Mt5api.Build.Position.{build_fx_positions}
use mt5_connector.Mt5api.Clock.Defs.{IsoText}
use mt5_connector.Mt5api.History.{history_withheld}
use mt5_connector.Mt5api.Raw.{RawHistory}

List-cases {ℓ} :
    {A : Type ℓ} (xs : List A) → (xs ≡ []) ⊎ ((x : A) × (more : List A) × (xs ≡ x ∷ more))
List-cases [] = inl refl
List-cases (x ∷ more) = inr (x, more, refl)

module _ {F : Type 0} ⦃fl : Float F⦄ where
  no_deals : (history : RawHistory F) → history_withheld history ≡ true → history.deals ≡ []
  unfolding history_withheld
  no_deals history e = elim (List-cases history.deals) [
    | inl empty ↦ empty
    | inr (deal, more, full) ↦ absurd (ground arith)
  ]

  -- A history that is judged to be withheld gives no closed positions and no transactions, so that
  -- nothing of it is lost where only its open positions are stored; and one with a deal is never
  -- judged so.
  pub history_withheld-empty :
      (text : IsoText) (history : RawHistory F)
      → history_withheld history ≡ true
      → ((build_sync_payload text history).positions ≡ [])
        × ((build_sync_payload text history).transactions ≡ [])
        × (history.deals ≡ [])
  unfolding build_sync_payload build_fx_positions build_transactions
  history_withheld-empty text history e =
      let empty = no_deals history e in
      (
        ap
            (λ deals. map (date_position history.clock) (
              build_fx_positions deals history.orders history.account.balance
                history.account.leverage))
            empty,
        ap (λ deals. map (date_transaction history.clock) (build_transactions deals)) empty,
        empty,
      )
