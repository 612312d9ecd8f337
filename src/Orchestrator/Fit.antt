-- ===== src/Orchestrator/Fit.antt =====
-- That what `create_account` answers fits the store and the results of the syncs.
use mt5_connector.Common.{Bool, String, false, none, not, some, true, ◌&&◌, ◌||◌, ◌≡◌, ◌⊎◌}
use mt5_connector.Orchestrator.Answers.{
  CreateAnswer, InitialSync, account_missing, already_exists, history_kept_back,
  invalid_credentials, never_connected, not_found, not_requested, registered, server_error, waited,
}
use mt5_connector.Pool.Manager.Defs.{is_code}
use mt5_connector.Pool.Protocol.{SyncResult, authorization_failed}
use mt5_connector.Services.Account.{is_synced}
use mt5_connector.Services.Accounts.{
  created, get_account, retaken, Created, exists_already, no_terminal,
}
use mt5_connector.Services.Store.{Account, Store, SyncRows, is_error_connection, key_eq}

module _ {F O : Type 0} where
  abbrev pub is_final : (SyncResult (SyncRows F O) → Bool) → InitialSync (SyncRows F O) → Bool
  is_final p (waited (some result)) = p result
  is_final p _ = false

  abbrev pub is_refused : SyncResult (SyncRows F O) → Bool
  is_refused result = is_code authorization_failed result.error_code

  abbrev pub is_kept_back : SyncResult (SyncRows F O) → Bool
  is_kept_back result = result.ok && result.history_withheld

  -- What an answer says of the sync that counts and of the store after it.
  abbrev pub IsFit : String → InitialSync (SyncRows F O) → Store F O → CreateAnswer F → Type 0
  IsFit id sync db (registered account) =
      (get_account id db ≡ some account)
      × (is_error_connection account.status ≡ false)
      × (is_synced account ≡ true)
      × (is_final is_refused sync ≡ false)
      × (is_final is_kept_back sync ≡ false)
  IsFit id sync db (never_connected account) =
      (get_account id db ≡ some account)
      × ((is_error_connection account.status || not (is_synced account)) ≡ true)
      × (is_final is_refused sync ≡ false)
      × (is_final is_kept_back sync ≡ false)
  IsFit id sync db invalid_credentials = is_final is_refused sync ≡ true
  IsFit id sync db history_kept_back =
      (is_final is_kept_back sync ≡ true) × (is_final is_refused sync ≡ false)
  IsFit id sync db not_found = (sync ≡ account_missing) ⊎ (get_account id db ≡ none)
  IsFit id sync db server_error = sync ≡ not_requested
  IsFit id sync db already_exists = ⊥

  -- What an answer says of the account that the service has made, or has not.
  abbrev pub IsAnswer :
      Created F O
      → InitialSync (SyncRows F O)
      → InitialSync (SyncRows F O)
      → Store F O
      → CreateAnswer F
      → Type 0
  IsAnswer exists_already first second db answer = answer ≡ already_exists
  IsAnswer no_terminal first second db answer = answer ≡ server_error
  IsAnswer (created account made) first second db answer =
      (is_final (λ result. result.quarantined) first ≡ true
        → IsFit account.account_id second db answer)
      × (is_final (λ result. result.quarantined) first ≡ false
          → IsFit account.account_id first db answer)
  IsAnswer (retaken account made) first second db answer =
      (is_final (λ result. result.quarantined) first ≡ true
        → IsFit account.account_id second db answer)
      × (is_final (λ result. result.quarantined) first ≡ false
          → IsFit account.account_id first db answer)
