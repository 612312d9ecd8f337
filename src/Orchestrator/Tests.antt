-- ===== src/Orchestrator/Tests.antt =====
-- Registrations of accounts at concrete inputs.
use mt5_connector.Common.{
  All, Bool, List, Option, [], false, ltb, map, nat_eq, none, refl, some, string_eq, true, ℕ, ◌∷◌,
  ◌≡◌,
}
use mt5_connector.Orchestrator.Answers.{create_answer, load_account, registered, waited}
use mt5_connector.Orchestrator.Clean.{IsWell, pool_health_to_response-IsWell}
use mt5_connector.Orchestrator.Report.{
  PoolInspection, PoolProblem, PoolReport, Problem, differs_from_quorum, is_other_build,
  master_is_behind, not_launched_by_worker, pool_health_to_response, quarantined_since, stale_count,
  stranded, stranded_accounts, terminal_views,
}
use mt5_connector.Pool.Health.Defs.{new_board, new_health, quarantined}
use mt5_connector.Pool.Manager.Defs.{Pool}
use mt5_connector.Pool.Protocol.{SyncResult, idle, initial}
use mt5_connector.Pool.Worker.{Worker, new_worker}
use mt5_connector.Services.Accounts.{created}
use mt5_connector.Services.Store.{Account, Store, SyncRows, active}

abbrev fresh_account : Account ℕ
fresh_account = record {
  account_id = "x";
  login = 7;
  password = "pw";
  server = "srv";
  terminal_path = some "a";
  enabled = true;
  status = active;
  consecutive_failures = 0;
  balance = 0;
  equity = 0;
  leverage = 100;
  currency = "USD";
  server_clock = [];
  last_synced_at = some 5;
  last_error = none;
  history_withheld_until = none;
  created_at = 0;
  updated_at = 0;
}

abbrev one_account : Store ℕ Unit
one_account = record {
  accounts = ("x", fresh_account) ∷ [];
  positions = [];
  open_positions = [];
  transactions = [];
}

abbrev empty_store : Store ℕ Unit
empty_store = record { accounts = []; positions = []; open_positions = []; transactions = [] }

abbrev unanswered_result : SyncResult (SyncRows ℕ Unit)
unanswered_result = record {
  task_id = 1;
  account_id = "x";
  ok = false;
  payload = none;
  error = none;
  error_code = none;
  terminal_lost = false;
  duration_ms = 0;
  worker_id = none;
  sync_run_id = 1;
  kind = initial;
  history_withheld = false;
  proxy_dead = false;
  terminal = none;
  quarantined = true;
}

-- The first sync met a quarantined terminal, the second one went through.
abbrev went_through : SyncResult (SyncRows ℕ Unit)
went_through = record unanswered_result { ok = true; quarantined = false }

registered_after_two :
    create_answer
      (created fresh_account empty_store)
      (waited (some unanswered_result))
      (waited (some went_through))
      one_account
    ≡ registered fresh_account
unfolding create_answer load_account
registered_after_two = refl

-- A pool of one worker, whose terminal is healthy and runs as the worker launched it.
abbrev one_worker : Worker Unit
one_worker = record (new_worker Unit "w1" "a" none) { state = idle }

abbrev one_worker_pool : Pool Unit
one_worker_pool = record {
  workers = ("a", one_worker) ∷ [];
  health = new_board ("a" ∷ []) 0;
  pending = [];
  futures = [];
  delivered = [];
  abandoned = [];
  next_future = 0;
  next_sequence = 0;
  closing = false;
  max_task_retries = 1;
  has_registry = false;
}

abbrev well_inspection : PoolInspection
well_inspection = record {
  terminals =
      record {
        health = record (new_health "a") { build = some "b5" };
        pids = 12 ∷ [];
        marker = some (record { proxy = none; pid = some 12 });
        launched_at = some 3;
      }
      ∷ [];
  quorum = some ("b5", "a");
  master_build = some "b5";
  updaters = (40, 1_000_000) ∷ [];
}

abbrev sick_inspection : PoolInspection
sick_inspection = record well_inspection {
  terminals =
      record {
        health = record (new_health "a") {
          state = quarantined;
          quarantined_at = some 7;
          build = some "b4";
        };
        pids = 13 ∷ [];
        marker = some (record { proxy = none; pid = some 12 });
        launched_at = none;
      }
      ∷ [];
  master_build = some "b4";
}

-- What a report says: the problems of the pool and those of its terminals.
abbrev told : Option PoolReport → Option (List PoolProblem × List (List Problem))
told none = none
told (some report) = some (report.problems, map (λ v. v.problems) report.terminals)

sick_problems :
    told (pool_health_to_response one_worker_pool true sick_inspection (("a", 3) ∷ []) "ok")
    ≡ some (
      master_is_behind ∷ stranded_accounts 3 ∷ [],
      (quarantined_since 7 none ∷ differs_from_quorum ∷ not_launched_by_worker ∷ []) ∷ [],
    )
unfolding pool_health_to_response terminal_views stranded new_board
sick_problems = refl

abbrev well_report : Option PoolReport
unfolding pool_health_to_response terminal_views stranded new_board
well_report = pool_health_to_response one_worker_pool true well_inspection (("a", 3) ∷ []) "ok"

abbrev report_or : PoolReport → Option PoolReport → PoolReport
report_or other none = other
report_or other (some report) = report

abbrev no_report : PoolReport
no_report = record {
  status = "";
  quorum_build = none;
  master_build = none;
  updaters = 0;
  terminals = [];
  problems = [];
}

pool_health_to_response-IsWell_example :
    All (IsWell (some "b5") one_worker_pool.workers) well_inspection.terminals
    × (is_other_build (some "b5") (some "b5") ≡ false)
    × (ltb 0 (stale_count well_inspection.updaters) ≡ false)
    × (ltb 0 (stranded (("a", 3) ∷ []) well_inspection.terminals) ≡ false)
    × (◌≡◌ {A = Bool} true true)
unfolding pool_health_to_response terminal_views stranded new_board
pool_health_to_response-IsWell_example =
    pool_health_to_response-IsWell one_worker_pool true well_inspection (("a", 3) ∷ []) "ok"
      (report_or no_report well_report) refl refl (refl, tt)
