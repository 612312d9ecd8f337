-- ===== src/Services/Persisted.antt =====
-- A result of a sync changes nothing of any other account.
use mt5_connector.Common.{
  Bool-cases, Option-cases, String, arith, if◌then◌else◌, inl, inr, nat_eq, some, string_eq, subst,
  ℕ, ◌&&◌, ◌*◌, ◌+◌, ◌∙◌, ◌≡◌, ◌≢◌,
}
use mt5_connector.Common.Dict.{Holds}
use mt5_connector.Pool.Manager.Defs.{is_code}
use mt5_connector.Pool.Protocol.{SyncResult, authorization_failed, is_initial}
use mt5_connector.Services.Account.{failed_again, minute, synced}
use mt5_connector.Services.Accounts.{
  delete_account, get_account, mark_synced, mark_withheld, update_row,
}
use mt5_connector.Services.Isolation.{
  Untouched, Untouched-refl, Untouched-trans, delete_account-Untouched, put_account-Untouched,
  replace_open_positions-Untouched, upsert_batches-Untouched, upsert_transactions-Untouched,
}
use mt5_connector.Services.Rows.{
  batches, replace_open_positions, upsert_positions, upsert_transactions,
}
use mt5_connector.Services.Store.{
  Account, Store, SyncRows, key_eq, stored_open_positions, stored_positions, stored_transactions,
}
use mt5_connector.Services.Sync.{
  Settings, error_or_unknown, figures_of, persist, persist_error, persist_result, persist_rows,
  persist_withheld,
}

module _ {F O : Type 0} where
  -- Every account stands under its own id.
  abbrev pub IsKeyed : Store F O → Type 0
  IsKeyed db = Holds (λ id account. account.account_id ≡ id) db.accounts

  update_row-Untouched :
      (other : String) (now : ℕ) (a : Account F) (db : Store F O)
      → other ≢ a.account_id
      → Untouched other db (update_row now a db)
  update_row-Untouched other now a db ne =
      put_account-Untouched other (record a { updated_at = now }) db ne

  persist_withheld-Untouched :
      (other : String) (settings : Settings) (now : ℕ) (a : Account F)
      (result : SyncResult (SyncRows F O)) (rows : SyncRows F O) (db db' : Store F O)
      → other ≢ a.account_id
      → persist_withheld settings now a result rows db ≡ some db'
      → Untouched other db db'
  unfolding persist_withheld mark_withheld
  persist_withheld-Untouched other settings now a result rows db db' ne e =
      elim (Bool-cases (is_initial result.kind)) [
        | inl first ↦
            let same : delete_account a.account_id db ≡ db' = ground arith in
            subst (Untouched other db) same (delete_account-Untouched other a.account_id db ne)
        | inr later ↦
            elim (Option-cases
              (replace_open_positions a.account_id now (stored_open_positions rows) db)) [
                | inl fails ↦ absurd (ground arith)
                | inr (db1, done) ↦
                    let marked =
                      mark_withheld now settings.history_withheld_pause_minutes (figures_of rows) a
                        db1 in
                    let same : marked ≡ db' = ground arith in
                    subst (Untouched other db) same (
                      Untouched-trans other db db1 marked
                        (replace_open_positions-Untouched other a.account_id now
                          (stored_open_positions rows) db db1 ne done)
                        (update_row-Untouched other now
                          (record (synced now (figures_of rows) a) {
                            history_withheld_until =
                                some (now + settings.history_withheld_pause_minutes * minute);
                          })
                          db1 ne))
              ]
      ]

  persist_rows-Untouched :
      (other : String) (now : ℕ) (a : Account F) (rows : SyncRows F O) (db db' : Store F O)
      → other ≢ a.account_id
      → persist_rows now a rows db ≡ some db'
      → Untouched other db db'
  unfolding mark_synced upsert_positions
  persist_rows-Untouched other now a rows db db' ne e =
      elim (Option-cases (upsert_positions a.account_id now (stored_positions rows) db)) [
        | inl fails ↦ absurd (ground arith)
        | inr (db1, first) ↦
            elim (Option-cases
              (replace_open_positions a.account_id now (stored_open_positions rows) db1)) [
                | inl fails ↦ absurd (ground arith)
                | inr (db2, second) ↦
                    let db3 = upsert_transactions a.account_id now (stored_transactions rows) db2 in
                    let marked = mark_synced now (figures_of rows) a db3 in
                    let same : marked ≡ db' = ground arith in
                    subst (Untouched other db) same (
                      Untouched-trans other db db1 marked
                        (upsert_batches-Untouched other a.account_id now
                          (batches (stored_positions rows)) db db1 ne first)
                        (Untouched-trans other db1 db2 marked
                          (replace_open_positions-Untouched other a.account_id now
                            (stored_open_positions rows) db1 db2 ne second)
                          (Untouched-trans other db2 db3 marked
                            (upsert_transactions-Untouched other a.account_id now
                              (stored_transactions rows) db2 ne)
                            (update_row-Untouched other now (synced now (figures_of rows) a) db3
                              ne))))
              ]
      ]

  persist_error-Untouched :
      (other : String) (settings : Settings) (now : ℕ) (a : Account F)
      (result : SyncResult (SyncRows F O)) (db : Store F O)
      → other ≢ a.account_id
      → Untouched other db (persist_error settings now a result db)
  unfolding failed_again
  persist_error-Untouched other settings now a result db ne =
      update_row-Untouched other now
        (failed_again (error_or_unknown result.error) (is_initial result.kind)
          settings.account_error_threshold a)
        db ne

  persist_ok-Untouched :
      (other : String) (settings : Settings) (now : ℕ) (a : Account F)
      (result : SyncResult (SyncRows F O)) (rows : SyncRows F O) (db db' : Store F O)
      → other ≢ a.account_id
      → (if result.history_withheld
          then persist_withheld settings now a result rows db
          else persist_rows now a rows db)
        ≡ some db'
      → Untouched other db db'
  persist_ok-Untouched other settings now a result rows db db' ne e =
      elim (Bool-cases result.history_withheld) [
        | inl withheld ↦
            persist_withheld-Untouched other settings now a result rows db db' ne (ground arith)
        | inr whole ↦ persist_rows-Untouched other now a rows db db' ne (ground arith)
      ]

  persist_result-Untouched :
      (other : String) (settings : Settings) (now : ℕ) (result : SyncResult (SyncRows F O))
      (db db' : Store F O)
      → IsKeyed db
      → other ≢ result.account_id
      → persist_result settings now result db ≡ some db'
      → Untouched other db db'
  unfolding persist_result
  persist_result-Untouched other settings now result db db' keyed ne e =
      elim (Option-cases (get_account result.account_id db)) [
        | inl missing ↦
            let same : db ≡ db' = ground arith in
            subst (Untouched other db) same (Untouched-refl other db)
        | inr (a, found) ↦
            let own : other ≢ a.account_id = λ h. ne (h ∙ keyed result.account_id a found) in
            elim (Bool-cases result.quarantined) [
              | inl held ↦
                  let same : db ≡ db' = ground arith in
                  subst (Untouched other db) same (Untouched-refl other db)
              | inr heard ↦
                  elim (Bool-cases
                    (is_initial result.kind && is_code authorization_failed result.error_code)) [
                      | inl rejected ↦
                          let same : delete_account a.account_id db ≡ db' = ground arith in
                          subst (Untouched other db) same
                            (delete_account-Untouched other a.account_id db own)
                      | inr trusted ↦ elim (Bool-cases result.ok) [
                        | inr bad ↦
                            let same : persist_error settings now a result db ≡ db' =
                              ground arith in
                            subst (Untouched other db) same
                              (persist_error-Untouched other settings now a result db own)
                        | inl good ↦ elim (Option-cases result.payload) [
                          | inl empty ↦
                              let same : persist_error settings now a result db ≡ db' =
                                ground arith in
                              subst (Untouched other db) same
                                (persist_error-Untouched other settings now a result db own)
                          | inr (rows, has) ↦
                              persist_ok-Untouched other settings now a result rows db db' own
                                (ground arith)
                        ]
                      ]
                    ]
            ]
      ]

  -- In a store whose accounts stand under their own ids, a result changes neither the account nor
  -- any row of an account other than its own.
  pub persist-Untouched :
      (other : String) (settings : Settings) (now : ℕ) (result : SyncResult (SyncRows F O))
      (db : Store F O)
      → IsKeyed db
      → other ≢ result.account_id
      → Untouched other db (persist settings now result db)
  unfolding persist
  persist-Untouched other settings now result db keyed ne =
      elim (Option-cases (persist_result settings now result db)) [
        | inl fails ↦ subst (Untouched other db) (ground arith) (Untouched-refl other db)
        | inr (db', done) ↦
            subst (Untouched other db) (ground arith)
              (persist_result-Untouched other settings now result db db' keyed ne done)
      ]
