-- ===== src/Services/Kept.antt =====
-- What a sync keeps of an account's rows, and what it removes.
use mt5_connector.Common.{
  Bool, Bool-cases, List, Option, Option-cases, String, [], arith, false, inl, inr, is_some, map,
  nat_eq, none, not, refl, some, string_eq, subst, sym, true, ℕ, ◌&&◌, ◌||◌, ◌∙◌, ◌∷◌, ◌≡◌,
}
use mt5_connector.Common.Dict.{
  Dict, beq_refl, insert, lookup, lookup-erase, lookup-insert_ne, lookup-insert_self,
}
use mt5_connector.Pool.Manager.Defs.{is_code}
use mt5_connector.Pool.Protocol.{SyncResult, authorization_failed, is_initial}
use mt5_connector.Services.Accounts.{delete_account}
use mt5_connector.Services.Persisted.{IsKeyed}
use mt5_connector.Services.Rows.{
  batches, has_repeats, merge, put_position, put_positions, upsert_batches, upsert_positions,
}
use mt5_connector.Services.Store.{
  Account, PositionData, Row, Store, SyncRows, erase_account, key_eq, same_key, same_key_iff,
}
use mt5_connector.Services.Sync.{Settings, persist, persist_result, persist_withheld}

module _ {D : Type 0} where
  lookup-erase_account_own :
      (account ext : String) (rows : Dict (String × String) D)
      → lookup (account, ext) (erase_account account rows) ≡ none
  lookup-erase_account_own account ext [] = refl
  lookup-erase_account_own account ext ((j, row) ∷ rows) = ground (
    arith,
    lookup-erase_account_own account ext rows,
    string_eq.equal_iff j.0 account,
    string_eq.equal_iff account j.0,
  )

module _ {F O : Type 0} where
  -- The store has a measured excursion for this position, both of its sides.
  abbrev pub IsMeasured : String → String → Store F O → Type 0
  IsMeasured account ext db =
      (row : Row (PositionData F O)) × (lookup (account, ext) db.positions ≡ some row)
      × (is_some row.values.mae ≡ true)
      × (is_some row.values.mfe ≡ true)

  merge-measured :
      (old : Row (PositionData F O)) (now : ℕ) (p : PositionData F O)
      → (is_some old.values.mae ≡ true) × (is_some old.values.mfe ≡ true)
      → (is_some (merge (some old) now p).values.mae ≡ true)
        × (is_some (merge (some old) now p).values.mfe ≡ true)
  merge-measured old now p h = (ground (arith, h), ground (arith, h))

  put_position-IsMeasured :
      (account ext own : String) (now : ℕ) (p : PositionData F O) (db : Store F O)
      → IsMeasured account ext db
      → IsMeasured account ext (put_position own now p db)
  put_position-IsMeasured account ext own now p db (row, found, mae, mfe) =
      let key : String × String = (own, p.external_id) in
      let j : String × String = (account, ext) in
      elim (Bool-cases (same_key j key)) [
        | inl same ↦
            let path = (same_key_iff j key).0 same in
            let old : lookup key db.positions ≡ some row =
              subst (λ k. lookup k db.positions ≡ some row) path found in
            (
              merge (some row) now p,
              subst
                  (λ o.
                    lookup j (insert key (merge o now p) db.positions)
                    ≡ some (merge (some row) now p))
                  (sym old)
                  (subst
                    (λ k.
                      lookup k (insert key (merge (some row) now p) db.positions)
                      ≡ some (merge (some row) now p))
                    (sym path) (lookup-insert_self key (merge (some row) now p) db.positions)),
              (merge-measured row now p (mae, mfe)).0,
              (merge-measured row now p (mae, mfe)).1,
            )
        | inr other ↦ (
          row,
          lookup-insert_ne j key (merge (lookup key db.positions) now p) db.positions
                (λ path. absurd (ground (arith, (same_key_iff j key).1 path)))
              ∙ found,
          mae,
          mfe,
        )
      ]

  put_positions-IsMeasured :
      (account ext own : String) (now : ℕ) (ps : List (PositionData F O)) (db : Store F O)
      → IsMeasured account ext db
      → IsMeasured account ext (put_positions own now ps db)
  put_positions-IsMeasured account ext own now [] db h = h
  put_positions-IsMeasured account ext own now (p ∷ ps) db h =
      put_positions-IsMeasured account ext own now ps (put_position own now p db)
        (put_position-IsMeasured account ext own now p db h)

  upsert_batches-IsMeasured :
      (account ext own : String) (now : ℕ) (bs : List (List (PositionData F O)))
      (db db' : Store F O)
      → upsert_batches own now bs db ≡ some db'
      → IsMeasured account ext db
      → IsMeasured account ext db'
  upsert_batches-IsMeasured account ext own now [] db db' e h =
      let same : db ≡ db' = ground arith in subst (IsMeasured account ext) same h
  upsert_batches-IsMeasured account ext own now (b ∷ bs) db db' e h =
      elim (Bool-cases (has_repeats (map (λ p. p.external_id) b))) [
        | inl bad ↦ absurd (ground arith)
        | inr fine ↦
            upsert_batches-IsMeasured account ext own now bs (put_positions own now b db) db'
              (ground arith) (put_positions-IsMeasured account ext own now b db h)
      ]

  -- A position whose excursion has been measured, mae and mfe, keeps both when positions are written,
  -- of whichever account they are and whether or not they bring an excursion.
  pub upsert_positions-IsMeasured :
      (account ext own : String) (now : ℕ) (ps : List (PositionData F O)) (db db' : Store F O)
      → upsert_positions own now ps db ≡ some db'
      → IsMeasured account ext db
      → IsMeasured account ext db'
  unfolding upsert_positions
  upsert_positions-IsMeasured account ext own now ps db db' e h =
      upsert_batches-IsMeasured account ext own now (batches ps) db db' e h

  -- Nothing is left of the account.
  abbrev pub IsGone : String → Store F O → Type 0
  IsGone account db =
      (lookup account db.accounts ≡ none)
      × ((ext : String) → lookup (account, ext) db.positions ≡ none)
      × ((ext : String) → lookup (account, ext) db.open_positions ≡ none)
      × ((ext : String) → lookup (account, ext) db.transactions ≡ none)

  delete_account-IsGone :
      (account : String) (db : Store F O) → IsGone account (delete_account account db)
  unfolding delete_account
  delete_account-IsGone account db = (
    ground (arith, lookup-erase account account db.accounts, beq_refl account),
    λ ext. lookup-erase_account_own account ext db.positions,
    λ ext. lookup-erase_account_own account ext db.open_positions,
    λ ext. lookup-erase_account_own account ext db.transactions,
  )

  -- What a result of a first sync says of an account that is not to be kept.
  abbrev pub is_refused : SyncResult (SyncRows F O) → Bool
  is_refused result =
      is_initial result.kind
      && not result.quarantined
      && (is_code authorization_failed result.error_code
          || (result.ok && is_some result.payload && result.history_withheld))

  -- After the first sync of a known account, when it is not quarantined and either the credentials
  -- were rejected or the history was withheld, nothing is left of the account, in any table.
  pub persist_refused :
      (settings : Settings) (now : ℕ) (result : SyncResult (SyncRows F O)) (db : Store F O)
      (a : Account F)
      → IsKeyed db
      → lookup result.account_id db.accounts ≡ some a
      → is_refused result ≡ true
      → IsGone result.account_id (persist settings now result db)
  unfolding persist persist_result persist_withheld
  persist_refused settings now result db a keyed found unwanted =
      let own = keyed result.account_id a found in
      let gone = delete_account-IsGone result.account_id db in
      let deleted : Option (Store F O) = some (delete_account a.account_id db) in
      let first : is_initial result.kind ≡ true = ground (arith, unwanted) in
      let heard : result.quarantined ≡ false = ground (arith, unwanted) in
      let same : persist_result settings now result db ≡ deleted =
        elim (Bool-cases (is_code authorization_failed result.error_code)) [
          | inl rejected ↦ ground arith
          | inr accepted ↦ elim (Option-cases result.payload) [
            | inl empty ↦ absurd (ground arith)
            | inr (rows, has) ↦
                let good : result.ok ≡ true = ground arith in
                let held : result.history_withheld ≡ true = ground arith in ground arith
          ]
        ] in
      subst (λ o. IsGone result.account_id (elim o [ none ↦ db | some db' ↦ db' ])) (sym same)
        (subst (λ id. IsGone result.account_id (delete_account id db)) (sym own) gone)
