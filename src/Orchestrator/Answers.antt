-- ===== src/Orchestrator/Answers.antt =====
-- orchestrator/deps.py, orchestrator/routes/accounts.py and orchestrator/routes/sync.py: the answers
-- of the routes, with the code of each.
use mt5_connector.Common.{
  Bool, List, Option, String, [], false, if◌then◌else◌, nat_eq, none, not, some, string_eq, true, ℕ,
  ◌&&◌, ◌==◌, ◌||◌,
}
use mt5_connector.Domain.Fx.{FxAccountInfo, FxOpenPosition, FxPosition, Transaction}
use mt5_connector.Domain.Rows.{Documents, payload_from_rows}
use mt5_connector.Pool.Manager.Defs.{is_code}
use mt5_connector.Pool.Protocol.{ErrorText, SyncResult, authorization_failed}
use mt5_connector.Services.Account.{is_synced}
use mt5_connector.Services.Accounts.{
  Created, created, exists_already, get_account, no_terminal, retaken,
}
use mt5_connector.Services.Store.{Account, Store, SyncRows, is_error_connection, key_eq}

-- What `create_account` answers: 201, 409, the two kinds of 422, 404, 502, and the 500 of a pool
-- without terminals, which the code leaves to the framework.
pub data CreateAnswer (F : Type 0) : Type 0 where
  registered : Account F → CreateAnswer F
  already_exists : CreateAnswer F
  invalid_credentials : CreateAnswer F
  history_kept_back : CreateAnswer F
  not_found : CreateAnswer F
  never_connected : Account F → CreateAnswer F
  server_error : CreateAnswer F

-- What an initial sync comes to: the account is not there, it cannot be asked for, or it has been
-- waited for, with the result if the future is done.
pub data InitialSync (P : Type 0) : Type 0 where
  account_missing : InitialSync P
  not_requested : InitialSync P
  waited : Option (SyncResult P) → InitialSync P

-- `verify_auth`: whether a request with the bearer token may pass
unfoldable pub verify_auth : String → Option String → Bool
verify_auth api_token none = api_token == ""
verify_auth api_token (some credentials) = api_token == "" || credentials == api_token

-- The end of `create_account`, on the account that is loaded anew.
abbrev pub answer_account : {F : Type 0} → Option (Account F) → CreateAnswer F
answer_account none = not_found
answer_account (some account) =
    if is_error_connection account.status || not (is_synced account)
    then never_connected account
    else registered account

module _ {F O : Type 0} where
  -- `load_account`: `none` is 404
  unfoldable pub load_account : String → Store F O → Option (Account F)
  load_account account_id db = get_account account_id db

  abbrev pub answer_result :
      String → Option (SyncResult (SyncRows F O)) → Store F O → CreateAnswer F
  answer_result account_id none db = answer_account (load_account account_id db)
  answer_result account_id (some result) db =
      if is_code authorization_failed result.error_code
      then invalid_credentials
      else if result.ok && result.history_withheld
      then history_kept_back
      else answer_account (load_account account_id db)

  abbrev pub answer_sync : String → InitialSync (SyncRows F O) → Store F O → CreateAnswer F
  answer_sync account_id account_missing db = not_found
  answer_sync account_id not_requested db = server_error
  answer_sync account_id (waited result) db = answer_result account_id result db

  abbrev pub was_quarantined : InitialSync (SyncRows F O) → Bool
  was_quarantined (waited (some result)) = result.quarantined
  was_quarantined _ = false

  -- The sync that counts: the second one, where the first met a terminal that was quarantined.
  abbrev pub last_sync :
      InitialSync (SyncRows F O) → InitialSync (SyncRows F O) → InitialSync (SyncRows F O)
  last_sync first second = if was_quarantined first then second else first

  -- `create_account` of the routes, on what the service makes of the request, what the initial
  -- syncs come to, and the store after them
  unfoldable pub create_answer :
      Created F O
      → InitialSync (SyncRows F O)
      → InitialSync (SyncRows F O)
      → Store F O
      → CreateAnswer F
  unfolding load_account
  create_answer exists_already first second db = already_exists
  create_answer no_terminal first second db = server_error
  create_answer (created account _) first second db =
      answer_sync account.account_id (last_sync first second) db
  create_answer (retaken account _) first second db =
      answer_sync account.account_id (last_sync first second) db

-- What `sync_account` answers: 202 with the depth of the queue, 504, or the result and its payload.
pub record SyncBody (F : Type 0) : Type 0 where
  pub account_id : String
  pub ok : Bool
  pub history_withheld : Bool
  pub error : Option ErrorText
  pub duration_ms : ℕ
  pub worker_id : Option String
  pub account_info : Option (FxAccountInfo F)
  pub positions : List (FxPosition F)
  pub open_positions : List (FxOpenPosition F)
  pub transactions : List (Transaction F)

pub data SyncAnswer (F : Type 0) : Type 0 where
  queued_at : ℕ → SyncAnswer F
  still_running : SyncAnswer F
  synced_with : SyncBody F → SyncAnswer F

module _ {F O : Type 0} (docs : Documents F O) where
  abbrev pub empty_body : SyncResult (SyncRows F O) → SyncBody F
  empty_body result = record {
    account_id = result.account_id;
    ok = result.ok;
    history_withheld = result.history_withheld;
    error = result.error;
    duration_ms = result.duration_ms;
    worker_id = result.worker_id;
    account_info = none;
    positions = [];
    open_positions = [];
    transactions = [];
  }

  abbrev pub body_with : Option (SyncRows F O) → SyncBody F → SyncBody F
  body_with none body = body
  body_with (some rows) body =
      let payload = payload_from_rows docs rows in
      record body {
        account_info = some payload.account_info;
        positions = payload.positions;
        open_positions = payload.open_positions;
        transactions = payload.transactions;
      }

  abbrev pub body_of : SyncResult (SyncRows F O) → SyncBody F
  body_of result = body_with result.payload (empty_body result)

  -- The end of `sync_account`: `none` where the wait for the future timed out
  unfoldable pub sync_answer : Bool → ℕ → Option (SyncResult (SyncRows F O)) → SyncAnswer F
  sync_answer false depth result = queued_at depth
  sync_answer true depth none = still_running
  sync_answer true depth (some result) = synced_with (body_of result)
