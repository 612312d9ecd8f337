-- ===== src/Services/Sync.antt =====
-- services/sync_service.py: what a result does to the store, and how a sync is asked for.
use mathlib.Core.Option
use mt5_connector.Common.{
  Bool, List, Option, String, [], if◌then◌else◌, is_some, nat_eq, none, not, some, string_eq, true,
  ℕ, ◌&&◌, ◌==◌, ◌∷◌,
}
use mt5_connector.Pool.Health.Board.{keepable, placeable}
use mt5_connector.Pool.Manager.Defs.{Pool, is_code, pending_for, submit}
use mt5_connector.Pool.Protocol.{
  ErrorText, SyncResult, SyncTask, authorization_failed, is_initial, reported,
}
use mt5_connector.Services.Account.{Figures}
use mt5_connector.Services.Accounts.{
  delete_account, ensure_assigned, get_account, mark_error, mark_synced, mark_withheld,
}
use mt5_connector.Services.Rows.{
  measured_external_ids, replace_open_positions, upsert_positions, upsert_transactions,
}
use mt5_connector.Services.Store.{
  Account, Store, SyncRows, key_eq, stored_open_positions, stored_positions, stored_transactions,
}

-- `settings`: what the service reads of them
pub record Settings : Type 0 where
  pub account_error_threshold : ℕ
  pub history_withheld_pause_minutes : ℕ

-- `result.error or "unknown error"`
abbrev pub error_or_unknown : Option ErrorText → ErrorText
error_or_unknown none = reported "unknown error"
error_or_unknown (some (reported why)) =
    if why == "" then reported "unknown error" else reported why
error_or_unknown (some why) = why

module _ {F O : Type 0} where
  abbrev pub figures_of : SyncRows F O → Figures F
  figures_of rows = record {
    balance = rows.balance;
    equity = rows.equity;
    leverage = rows.leverage;
    currency = rows.currency;
    server_clock = rows.server_clock;
  }

  -- `_persist_withheld`
  unfoldable pub persist_withheld :
      Settings
      → ℕ
      → Account F
      → SyncResult (SyncRows F O)
      → SyncRows F O
      → Store F O
      → Option (Store F O)
  persist_withheld settings now account result rows db =
      if is_initial result.kind
      then some (delete_account account.account_id db)
      else Option.map
          (mark_withheld now settings.history_withheld_pause_minutes (figures_of rows) account)
          (replace_open_positions account.account_id now (stored_open_positions rows) db)

  -- The end of `_persist`: the rows of a whole history.
  abbrev pub persist_rows : ℕ → Account F → SyncRows F O → Store F O → Option (Store F O)
  persist_rows now account rows db =
      elim (upsert_positions account.account_id now (stored_positions rows) db) [
        | none ↦ none
        | some db1 ↦
            elim (replace_open_positions account.account_id now (stored_open_positions rows) db1) [
              | none ↦ none
              | some db2 ↦ some (
                  mark_synced now (figures_of rows) account
                    (upsert_transactions account.account_id now (stored_transactions rows) db2))
            ]
      ]

  abbrev pub persist_error :
      Settings → ℕ → Account F → SyncResult (SyncRows F O) → Store F O → Store F O
  persist_error settings now account result db =
      mark_error now (error_or_unknown result.error) (is_initial result.kind)
        settings.account_error_threshold account db

  -- `_persist`
  unfoldable pub persist_result :
      Settings → ℕ → SyncResult (SyncRows F O) → Store F O → Option (Store F O)
  unfolding persist_withheld
  persist_result settings now result db = elim (get_account result.account_id db) [
    | none ↦ some db
    | some account ↦
        if result.quarantined
        then some db
        else if is_initial result.kind && is_code authorization_failed result.error_code
        then some (delete_account account.account_id db)
        else if not result.ok
        then some (persist_error settings now account result db)
        else elim result.payload [
          | none ↦ some (persist_error settings now account result db)
          | some rows ↦
              if result.history_withheld
              then persist_withheld settings now account result rows db
              else persist_rows now account rows db
        ]
  ]

  -- `persist`: the session is committed, or rolled back where a statement fails.
  unfoldable pub persist : Settings → ℕ → SyncResult (SyncRows F O) → Store F O → Store F O
  unfolding persist_result
  persist settings now result db = elim (persist_result settings now result db) [
    | none ↦ db
    | some db' ↦ db'
  ]

  -- The submission at the end of `request`: without a future where the pool lacks the path.
  abbrev pub submit_sync :
      String
      → SyncTask
      → Account F
      → Store F O
      → Pool (SyncRows F O)
      → Option ℕ × Store F O × Pool (SyncRows F O)
  submit_sync path task account db pool =
      let task' : SyncTask = record task {
        account_id = account.account_id;
        login = account.login;
        password = account.password;
        server = account.server;
        already_measured = measured_external_ids account.account_id db;
      } in
      elim (submit (record { task = task'; path = path }) pool) [
        | none ↦ (none, db, pool)
        | some (future, pool') ↦ (some future, db, pool')
      ]

  -- `request`: the future, the store and the pool. There is no future where it raises: there is
  -- nowhere to place the account, or the pool does not have its path.
  unfoldable pub request :
      ℕ
      → Bool
      → SyncTask
      → Account F
      → Store F O
      → Pool (SyncRows F O)
      → Option ℕ × Store F O × Pool (SyncRows F O)
  request now dedupe task account db pool =
      elim (if dedupe then pending_for account.account_id pool else none) [
        | some future ↦ (some future, db, pool)
        | none ↦
            elim (ensure_assigned now (keepable pool.health) (placeable pool.health) account db) [
              | none ↦ (none, db, pool)
              | some (path, db') ↦ submit_sync path task account db' pool
            ]
      ]

  -- One tick of `run_scheduler` on the accounts that are due; an account that cannot be asked for
  -- ends the tick. `task_for` gives the scheduled task with its fresh ids.
  unfoldable pub scheduler_tick :
      ℕ
      → (Account F → SyncTask)
      → List (Account F)
      → Store F O
      → Pool (SyncRows F O)
      → Store F O × Pool (SyncRows F O)
  unfolding request
  scheduler_tick now task_for [] db pool = (db, pool)
  scheduler_tick now task_for (account ∷ accounts) db pool =
      let (future, db', pool') = request now true (task_for account) account db pool in
      let rest = scheduler_tick now task_for accounts db' pool' in
      if is_some future then rest else (db', pool')
