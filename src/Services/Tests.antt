-- ===== src/Services/Tests.antt =====
-- A store with two accounts, and the theorems at it. The floating point numbers are natural here.
use mathlib.Core.Bool.{false≢true}
use mathlib.Core.List.{Mem}
use mt5_connector.Common.{
  List, String, [], arith, false, if◌then◌else◌, nat_eq, none, refl, some, string_eq, true, ℕ, ◌==◌,
  ◌∷◌, ◌≡◌, ◌≢◌,
}
use mt5_connector.Common.Dict.{Dict, Holds-insert, lookup}
use mt5_connector.Pool.Protocol.{SyncResult, authorization_failed, initial, reported}
use mt5_connector.Pool.Worker.{Proxy}
use mt5_connector.Services.Account.{pick_terminal}
use mt5_connector.Services.Accounts.{due_for_sync}
use mt5_connector.Services.Isolation.{Untouched}
use mt5_connector.Services.Kept.{IsGone, IsMeasured, persist_refused, upsert_positions-IsMeasured}
use mt5_connector.Services.Persisted.{IsKeyed, persist-Untouched}
use mt5_connector.Services.Placing.{fail_all, fail_all-status}
use mt5_connector.Services.Proxies.{load_proxies, rotate, set_proxy}
use mt5_connector.Services.Rows.{put_positions, upsert_positions}
use mt5_connector.Services.Sharing.{load_proxies-apart, rotate_fresh}
use mt5_connector.Services.Store.{
  Account, PositionData, Row, Store, SyncRows, active, is_error_connection, key_eq,
}
use mt5_connector.Services.Sync.{Settings, persist}
use mt5_connector.Services.Due.{IsBatch, due_for_sync-IsBatch}

abbrev account_of : String → ℕ → Account ℕ
account_of id login = record {
  account_id = id;
  login = login;
  password = "pw";
  server = "srv";
  terminal_path = some "a";
  enabled = true;
  status = active;
  consecutive_failures = 0;
  balance = 0;
  equity = 0;
  leverage = 100;
  currency = "USD";
  server_clock = [];
  last_synced_at = none;
  last_error = none;
  history_withheld_until = none;
  created_at = 0;
  updated_at = 0;
}

abbrev measured_position : PositionData ℕ Unit
measured_position = record {
  external_id = "p1";
  side = "LONG";
  pair = "EURUSD";
  amount = 1;
  entry_price = 1;
  exit_price = 2;
  pnl = 1;
  net_pnl = 1;
  commission = 0;
  swap = 0;
  mae = some 3;
  mfe = some 4;
  rr = none;
  rr_planned = none;
  tp = none;
  sl = none;
  liquidation_price = 0;
  multiplier = 1;
  isolated = false;
  closed = true;
  status = none;
  balance_init = 0;
  created_at = none;
  closed_at = none;
  orders = [];
}

abbrev plain_position : PositionData ℕ Unit
plain_position = record measured_position { mae = none; mfe = none; pnl = 2 }

abbrev row_of : PositionData ℕ Unit → Row (PositionData ℕ Unit)
row_of p = record { values = p; synced_at = 0 }

abbrev two_accounts : Store ℕ Unit
two_accounts = record {
  accounts = ("x", account_of "x" 1) ∷ ("y", account_of "y" 2) ∷ [];
  positions =
      (("x", "p1"), row_of measured_position) ∷ (("y", "p1"), row_of measured_position) ∷ [];
  open_positions = [];
  transactions = [];
}

abbrev first_of : Account ℕ
first_of = account_of "x" 1

two_accounts-IsKeyed : IsKeyed two_accounts
two_accounts-IsKeyed =
    Holds-insert (λ id account. account.account_id ≡ id) "y" (account_of "y" 2)
      (("x", account_of "x" 1) ∷ []) refl
      (Holds-insert (λ id account. account.account_id ≡ id) "x" (account_of "x" 1) [] refl
        (λ k v h. absurd (ground arith)))

y≢x : ◌≢◌ {A = String} "y" "x"
y≢x h = false≢true ((string_eq.equal_iff "y" "x").1 h)

abbrev limits : Settings
limits = record { account_error_threshold = 3; history_withheld_pause_minutes = 60 }

abbrev rejected_result : SyncResult (SyncRows ℕ Unit)
rejected_result = record {
  task_id = 1;
  account_id = "x";
  ok = false;
  payload = none;
  error = none;
  error_code = some authorization_failed;
  terminal_lost = false;
  duration_ms = 0;
  worker_id = none;
  sync_run_id = 1;
  kind = initial;
  history_withheld = false;
  proxy_dead = false;
  terminal = none;
  quarantined = false;
}

persist-Untouched_example :
    Untouched "y" two_accounts (persist limits 9 rejected_result two_accounts)
persist-Untouched_example =
    persist-Untouched "y" limits 9 rejected_result two_accounts two_accounts-IsKeyed y≢x

persist_refused_example : IsGone "x" (persist limits 9 rejected_result two_accounts)
persist_refused_example =
    persist_refused limits 9 rejected_result two_accounts first_of two_accounts-IsKeyed refl refl

abbrev resynced : Store ℕ Unit
resynced = put_positions "x" 9 (plain_position ∷ []) two_accounts

resynced_writes : upsert_positions "x" 9 (plain_position ∷ []) two_accounts ≡ some resynced
unfolding upsert_positions
resynced_writes = refl

upsert_positions-IsMeasured_example : IsMeasured "x" "p1" resynced
upsert_positions-IsMeasured_example =
    upsert_positions-IsMeasured "x" "p1" "x" 9 (plain_position ∷ []) two_accounts resynced
      resynced_writes (row_of measured_position, refl, refl, refl)

abbrev three : List String
three = "a" ∷ "b" ∷ "c" ∷ []

abbrev loads : String → ℕ
loads path = if path == "a" then 2 else 1

pick_terminal_runs : pick_terminal three loads ≡ some "b"
unfolding pick_terminal
pick_terminal_runs = refl

fail_all-status_example :
    ((fail_all (reported "no") 3 (false ∷ false ∷ []) first_of).consecutive_failures ≡ 2)
    × (is_error_connection (fail_all (reported "no") 3 (false ∷ false ∷ []) first_of).status
        ≡ false)
fail_all-status_example = fail_all-status (reported "no") 3 (false ∷ false ∷ []) first_of refl refl

due_for_sync-IsBatch_example : IsBatch 0 15 two_accounts (due_for_sync 0 15 two_accounts)
due_for_sync-IsBatch_example = due_for_sync-IsBatch 0 15 two_accounts

abbrev proxy_of : ℕ → Proxy
proxy_of port = record { address = "10.0.0.1"; port = port }

abbrev two_proxies : List Proxy
two_proxies = proxy_of 1 ∷ proxy_of 2 ∷ []

abbrev same_rows : Dict String Proxy
same_rows = ("a", proxy_of 1) ∷ ("b", proxy_of 1) ∷ []

load_proxies_runs :
    (load_proxies (some two_proxies) ("a" ∷ "b" ∷ []) same_rows).0
    ≡ ("a", some (proxy_of 1)) ∷ ("b", some (proxy_of 2)) ∷ []
unfolding load_proxies
load_proxies_runs = refl

load_proxies-apart_example : ◌≡◌ {A = String} "b" "b"
unfolding load_proxies
load_proxies-apart_example =
    load_proxies-apart two_proxies ("a" ∷ "b" ∷ []) same_rows "b" "b" (proxy_of 2) refl refl

-- Terminal a loses its proxy; terminal b keeps its own.
abbrev rows_of_two : Dict String Proxy
rows_of_two = ("a", proxy_of 1) ∷ ("b", proxy_of 2) ∷ []

abbrev three_proxies : List Proxy
three_proxies = proxy_of 1 ∷ proxy_of 2 ∷ proxy_of 3 ∷ []

rotate_fresh_example :
    Mem (proxy_of 3) three_proxies
    × ((d : Proxy) → some (proxy_of 1) ≡ some d → proxy_of 3 ≢ d)
    × ((other : String) (r : Proxy)
        → other ≢ "a"
        → lookup other rows_of_two ≡ some r
        → proxy_of 3 ≢ r)
    × (lookup "a" (rotate "a" (some (proxy_of 1)) (some three_proxies) rows_of_two rows_of_two).1
        ≡ some (proxy_of 3))
    × ((other : String)
        → other ≢ "a"
        → lookup other
            (rotate "a" (some (proxy_of 1)) (some three_proxies) rows_of_two rows_of_two).1
          ≡ lookup other rows_of_two)
unfolding rotate
rotate_fresh_example =
    rotate_fresh "a" (some (proxy_of 1)) (proxy_of 3) three_proxies rows_of_two rows_of_two refl

-- Two rotations that overlap, each reading the rows before the other writes: both take one proxy.
overlap_shares :
    let first = rotate "a" none (some two_proxies) [] [] in
    let second = rotate "b" none (some two_proxies) [] first.1 in
    second.1 ≡ ("a", proxy_of 1) ∷ ("b", proxy_of 1) ∷ []
unfolding rotate set_proxy
overlap_shares = refl
