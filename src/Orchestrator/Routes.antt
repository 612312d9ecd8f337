-- ===== src/Orchestrator/Routes.antt =====
-- orchestrator/routes/pool.py, orchestrator/routes/data.py, the short routes of
-- orchestrator/routes/accounts.py, schemas/account.py, and the views of the
-- pool that they show (pool/manager.py).
use mathlib.Core.Option
use mt5_connector.Common.{
  Bool, List, Option, String, [], all, count_if, false, if◌then◌else◌, length, map, nat_eq, none,
  not, some, string_eq, true, ℕ, ◌+◌, ◌==◌, ◌∷◌,
}
use mt5_connector.Common.Dict.{Dict, lookup}
use mt5_connector.Common.Float.{Float}
use mt5_connector.Common.Int.{pos, ℤ}
use mt5_connector.Domain.Fx.{BalanceSnapshot, FxOpenPosition, FxPosition, Transaction}
use mt5_connector.Domain.Rows.{Documents}
use mt5_connector.Mt5api.Clock.Defs.{IsoText, ServerClock, from_rows, offset_minutes}
use mt5_connector.Mt5api.Clock.Week.{days}
use mt5_connector.Orchestrator.Answers.{load_account}
use mt5_connector.Pool.Manager.Defs.{Pool}
use mt5_connector.Pool.Protocol.{ErrorText, WorkerState, busy, idle}
use mt5_connector.Pool.Worker.{Worker}
use mt5_connector.Services.Accounts.{delete_account}
use mt5_connector.Services.Queries.{
  list_accounts, query_balance_snapshots, query_open_positions, query_positions, query_transactions,
}
use mt5_connector.Services.Store.{Account, AccountStatus, Store, key_eq}

-- `AccountResponse`
pub record AccountView (F : Type 0) : Type 0 where
  pub account_id : String
  pub login : ℕ
  pub server : String
  pub terminal : Option String
  pub enabled : Bool
  pub status : AccountStatus
  pub consecutive_failures : ℕ
  pub server_utc_offset_minutes : Option ℤ
  pub balance : F
  pub equity : F
  pub leverage : ℕ
  pub currency : String
  pub last_synced_at : Option String
  pub last_error : Option ErrorText
  pub history_withheld_until : Option String
  pub created_at : Option String

abbrev pub iso_of : IsoText → Option ℕ → Option String
iso_of text time = Option.map (λ t. text.print_iso (pos t)) time

-- `account_to_response`: `none` where a row of the clock does not parse
unfoldable pub account_to_response : {F : Type 0} → IsoText → Account F → Option (AccountView F)
account_to_response text account =
    Option.map
      (λ clock. record {
        account_id = account.account_id;
        login = account.login;
        server = account.server;
        terminal = account.terminal_path;
        enabled = account.enabled;
        status = account.status;
        consecutive_failures = account.consecutive_failures;
        server_utc_offset_minutes = offset_minutes clock;
        balance = account.balance;
        equity = account.equity;
        leverage = account.leverage;
        currency = account.currency;
        last_synced_at = iso_of text account.last_synced_at;
        last_error = account.last_error;
        history_withheld_until = iso_of text account.history_withheld_until;
        created_at = iso_of text (some account.created_at);
      })
      (from_rows text account.server_clock)

abbrev pub is_idle : WorkerState → Bool
is_idle idle = true
is_idle _ = false

abbrev pub is_idle_or_busy : WorkerState → Bool
is_idle_or_busy idle = true
is_idle_or_busy busy = true
is_idle_or_busy _ = false

-- `PoolStatus`
pub record PoolStatus (P : Type 0) : Type 0 where
  pub workers : List (Worker P)
  pub queue_depth : ℕ
  pub hard_sync_queue_depth : ℕ
  pub idle_workers : ℕ

-- The status of a worker with the accounts that are pinned to its terminal.
pub record WorkerView (P : Type 0) : Type 0 where
  pub worker : Worker P
  pub assigned_accounts : ℕ

abbrev pub total : List ℕ → ℕ
total [] = 0
total (n ∷ ns) = n + total ns

-- `dispatcher_alive`, on whether each dispatcher is done
abbrev pub dispatcher_alive : List Bool → Bool
dispatcher_alive done = elim done [ [] ↦ false | d ∷ ds ↦ all (λ is_done. not is_done) (d ∷ ds) ]

module _ {P : Type 0} where
  abbrev pub queue_depth : Worker P → ℕ
  queue_depth w = length w.queue

  abbrev pub workers_of : Pool P → List (Worker P)
  workers_of s = map (λ entry. entry.1) s.workers

  -- `queue_depth_for`
  abbrev pub queue_depth_for : String → Pool P → Option ℕ
  queue_depth_for path s = Option.map (λ w. queue_depth w) (lookup path s.workers)

  -- `healthy_workers`
  unfoldable pub healthy_workers : Pool P → ℕ
  healthy_workers s = count_if (λ w. is_idle_or_busy w.state) (workers_of s)

  -- `status`
  unfoldable pub pool_status : Pool P → PoolStatus P
  pool_status s = record {
    workers = workers_of s;
    queue_depth = total (map (λ w. queue_depth w) (workers_of s));
    hard_sync_queue_depth = total (map (λ w. w.hard_queued) (workers_of s));
    idle_workers = count_if (λ w. is_idle w.state) (workers_of s);
  }

  -- `pool_status_to_response`
  unfoldable pub pool_status_to_response : PoolStatus P → Dict String ℕ → List (WorkerView P)
  pool_status_to_response status assigned =
      map
        (λ w. record {
          worker = w;
          assigned_accounts = elim (lookup w.terminal_path assigned) [ none ↦ 0 | some n ↦ n ];
        })
        status.workers

  -- `_overall`
  unfoldable pub overall : List Bool → List String → Pool P → String
  overall done terminal_paths s =
      if not (dispatcher_alive done)
      then "stalled"
      else if healthy_workers s == length terminal_paths
      then "ok"
      else "degraded"

  -- `healthz`: the status, the healthy workers and the workers
  unfoldable pub healthz : List Bool → List String → Option (Pool P) → String × ℕ × ℕ
  healthz done terminal_paths none = ("starting", 0, 0)
  healthz done terminal_paths (some s) =
      (overall done terminal_paths s, healthy_workers s, length terminal_paths)

-- The routes of the data: the account, then the query with its clock. `none` is 404, or a row of
-- the clock that does not parse.
module _ {F O : Type 0} (text : IsoText) (docs : Documents F O) where
  abbrev pub with_clock : {A : Type 0} → String → Store F O → (ServerClock → A) → Option A
  with_clock account_id db query = elim (load_account account_id db) [
    | none ↦ none
    | some account ↦ Option.map query (from_rows text account.server_clock)
  ]

  unfoldable pub get_positions : String → ℕ → ℕ → ℕ → ℕ → Store F O → Option (List (FxPosition F))
  get_positions account_id now days limit offset db =
      with_clock account_id db
        (λ clock. query_positions docs clock account_id now (some days) limit offset db)

  unfoldable pub get_open_positions : String → Store F O → Option (List (FxOpenPosition F))
  get_open_positions account_id db =
      with_clock account_id db (λ clock. query_open_positions docs clock account_id db)

  unfoldable pub get_transactions :
      String → ℕ → ℕ → ℕ → ℕ → Store F O → Option (List (Transaction F))
  get_transactions account_id now days limit offset db =
      with_clock account_id db
        (λ clock. query_transactions docs clock account_id now (some days) limit offset db)

  unfoldable pub get_balance_snapshots :
      ⦃fl : Float F⦄ → String → ℕ → ℕ → Store F O → Option (List (BalanceSnapshot F))
  get_balance_snapshots account_id now days db =
      with_clock account_id db
        (λ clock. query_balance_snapshots docs clock account_id now (some days) db)

-- The routes of the accounts that only read or change one row. The outer `none` is 404, as the inner
-- one of an answer is a clock that does not parse.
module _ {F O : Type 0} (text : IsoText) where
  unfoldable pub get_account_view : String → Store F O → Option (Option (AccountView F))
  unfolding load_account account_to_response
  get_account_view account_id db =
      Option.map (λ account. account_to_response text account) (load_account account_id db)

  unfoldable pub list_account_views :
      Option Bool → ℕ → ℕ → Store F O → List (Option (AccountView F))
  unfolding list_accounts account_to_response
  list_account_views enabled limit offset db =
      map (λ account. account_to_response text account) (list_accounts enabled limit offset db)

module _ {F O : Type 0} where
  -- `delete_account` of the routes
  unfoldable pub remove_account : String → Store F O → Option (Store F O)
  unfolding load_account delete_account
  remove_account account_id db =
      Option.map (λ account. delete_account account.account_id db) (load_account account_id db)
