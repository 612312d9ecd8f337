-- ===== src/Pool/Tests.antt =====
-- Runs of the pool at concrete inputs, and the theorems at inputs that meet their hypotheses.
use mt5_connector.Common.{
  Bool, List, Option, String, [], arith, false, nat_eq, none, refl, some, string_eq, true, ℕ, ◌∷◌,
  ◌≡◌, ◌≤◌, ◌+◌, ◌≢◌, inr,
}
use mt5_connector.Common.Dict.{Holds-insert, lookup}
use mt5_connector.Pool.Health.Board.{ballot, has_state, placeable, quorum, votes}
use mt5_connector.Pool.Health.Defs.{
  HealthBoard, TerminalHealth, TerminalState, healthy, is_healthy, is_usable, new_health, no_tally,
  recloning, quarantined,
}
use mt5_connector.Pool.Health.Invariant.{
  IsSound, IsSoundBoard, new_health-IsSound, record_result-IsSoundBoard,
}
use mt5_connector.Pool.Health.Placement.{has_entry, placeable_best}
use mt5_connector.Pool.Health.Quorum.{quorum_sound}
use mt5_connector.Pool.Health.Record.{record_result}
use mt5_connector.Pool.Health.Verdict.{
  Outcome, hard_failures_quarantine, record_result-Keeps, run_events,
}
use mt5_connector.Pool.Manager.Count.{in_workers, in_items}
use mt5_connector.Pool.Manager.Defs.{Pool, enqueue, new_item, resolve, should_retry, submit}
use mt5_connector.Pool.Manager.History.{custody, new_pool, results_final}
use mt5_connector.Pool.Manager.Retry.{executions, executions_bound, IsQueue, enqueue-IsQueue}
use mt5_connector.Pool.Manager.Run.{Times, arrived}
use mt5_connector.Pool.Manager.Steps.{
  Event, answers, at, closes, handle, persisted, run, spawned, started, submitted, taken, woken,
  timed_out_of_drain, on_drain_timeout,
}
use mt5_connector.Pool.Protocol.{
  StartReport, SyncKind, SyncResult, SyncTask, hard, initial, new_report, scheduled,
}
use mt5_connector.Pool.Worker.{QueuedTask, answered, claim, release, spawn, Worker, new_worker}

abbrev path_a : String
path_a = "a"

abbrev path_b : String
path_b = "b"

abbrev died_report : StartReport
died_report = record new_report { died = true }

abbrev task_of : SyncKind → SyncTask
task_of kind = record {
  task_id = 1;
  account_id = "acc";
  login = 7;
  password = "pw";
  server = "srv";
  kind = kind;
  sync_run_id = 1;
  connect_timeout_ms = none;
  already_measured = [];
}

abbrev result_of : Bool → Option StartReport → SyncResult ℕ
result_of ok report = record {
  task_id = 1;
  account_id = "acc";
  ok = ok;
  payload = none;
  error = none;
  error_code = none;
  terminal_lost = false;
  duration_ms = 0;
  worker_id = some "w1";
  sync_run_id = 1;
  kind = scheduled;
  history_withheld = false;
  proxy_dead = false;
  terminal = report;
  quarantined = false;
}

abbrev pool : Pool ℕ
unfolding new_pool
pool = new_pool (λ n. "w1") (λ p. none) (path_a ∷ path_b ∷ []) 0 2 false

abbrev clock : Times
clock = record { now = 5; mono = 5 }

-- Two submissions to one terminal; the hard one is answered first.
abbrev history : List (Event ℕ)
history =
    at path_a (spawned (answered 1 1 "w1"))
    ∷ at path_a woken
    ∷ submitted (record { task = task_of scheduled; path = path_a })
    ∷ submitted (record { task = task_of hard; path = path_a })
    ∷ at path_a taken
    ∷ at path_a (started 5)
    ∷ at path_a (answers clock (arrived (result_of true none)))
    ∷ at path_a persisted
    ∷ []

history_runs :
    let s = run history pool in
    (lookup 0 s.futures ≡ some none) × (lookup 1 s.futures ≡ some (some (result_of true none)))
unfolding run new_pool handle spawn submit enqueue claim release record_result resolve should_retry
history_runs = (refl, refl)

results_final_example :
    lookup 1 (run (closes ∷ []) (run history pool)).futures ≡ some (some (result_of true none))
unfolding run new_pool handle spawn submit enqueue claim release record_result resolve should_retry
results_final_example =
    results_final (λ n. "w1") (λ p. none) (path_a ∷ path_b ∷ []) 0 2 false history (closes ∷ []) 1
      (result_of true none) refl

-- The drain timeout of `stop` cancels a task that runs: its future is never set.
abbrev cut_history : List (Event ℕ)
cut_history =
    at path_a (spawned (answered 1 1 "w1"))
    ∷ at path_a woken
    ∷ submitted (record { task = task_of hard; path = path_a })
    ∷ at path_a taken
    ∷ at path_a (started 5)
    ∷ closes
    ∷ at path_a timed_out_of_drain
    ∷ []

cut_history_runs :
    let s = run cut_history pool in (lookup 0 s.futures ≡ some none) × (in_workers 0 s.workers ≡ 0)
unfolding run new_pool handle spawn submit enqueue claim on_drain_timeout
cut_history_runs = (refl, refl)

custody_example :
    in_workers 0 (run cut_history pool).workers + in_items 0 (run cut_history pool).abandoned ≡ 1
unfolding run new_pool handle spawn submit enqueue claim on_drain_timeout
custody_example = custody (λ n. "w1") (λ p. none) (path_a ∷ path_b ∷ []) 0 2 false cut_history 0

executions_bound_example :
    executions 2 (new_item (task_of initial) 0) (result_of false none ∷ result_of false none ∷ [])
    ≤ 3
executions_bound_example =
    executions_bound 2 0 (task_of initial) (result_of false none ∷ result_of false none ∷ [])

abbrev entry_of : ℕ → ℕ → ℕ × ℕ × QueuedTask
entry_of priority sequence = (priority, sequence, new_item (task_of scheduled) sequence)

abbrev busy_worker : Worker ℕ
busy_worker = record (new_worker ℕ "w1" path_a none) { queue = entry_of 1 0 ∷ entry_of 1 1 ∷ [] }

enqueue-IsQueue_example : IsQueue 3 (enqueue 2 (new_item (task_of hard) 2) busy_worker).queue
enqueue-IsQueue_example =
    enqueue-IsQueue 2 (new_item (task_of hard) 2) busy_worker (
      (((inr (refl, omega arith), tt), (tt, tt))),
      ((refl, omega arith), ((refl, omega arith), tt)),
    )

abbrev board : HealthBoard
board = record {
  terminals = (path_a, new_health path_a) ∷ (path_b, new_health path_b) ∷ [];
  warmup = 0;
  warm_until = 0;
  tally = no_tally;
}

board-IsSoundBoard : IsSoundBoard board
board-IsSoundBoard =
    Holds-insert (λ _ h. IsSound h) path_b (new_health path_b) ((path_a, new_health path_a) ∷ [])
      (new_health-IsSound path_b)
      (Holds-insert (λ _ h. IsSound h) path_a (new_health path_a) [] (new_health-IsSound path_a)
        (λ k v e. absurd (ground arith)))

abbrev struck_board : HealthBoard
unfolding record_result
struck_board = elim (record_result 5 5 path_a "srv" (result_of false (some died_report)) board) [
  | none ↦ board
  | some (s, b) ↦ b
]

record_result-IsSoundBoard_example : IsSoundBoard struck_board
unfolding record_result
record_result-IsSoundBoard_example =
    record_result-IsSoundBoard 5 5 path_a "srv" (result_of false (some died_report)) board
      struck_board healthy board-IsSoundBoard refl

abbrev sick_health : TerminalHealth
sick_health = record (new_health path_a) { state = quarantined }

abbrev sick_board : HealthBoard
sick_board = record board { terminals = (path_a, sick_health) ∷ (path_b, new_health path_b) ∷ [] }

abbrev after_success : HealthBoard
unfolding record_result
after_success = elim (record_result 5 5 path_a "srv" (result_of true none) sick_board) [
  | none ↦ board
  | some (s, b) ↦ b
]

record_result-Keeps_example :
    (h' : TerminalHealth) × (lookup path_a after_success.terminals ≡ some h')
    × (h'.state ≡ quarantined)
    × (is_usable sick_health ≡ false → h'.state ≡ quarantined)
    × (h'.state ≡ recloning → ◌≡◌ {A = TerminalState} quarantined recloning)
    × ((other : String)
        → other ≢ path_a
        → lookup other after_success.terminals ≡ lookup other sick_board.terminals)
unfolding record_result
record_result-Keeps_example =
    record_result-Keeps 5 5 path_a "srv" (result_of true none) sick_board after_success quarantined
      sick_health refl refl

abbrev died_at : ℕ → Outcome
died_at now = (now, true, "srv", false, some died_report)

hard_failures_quarantine_example :
    is_usable (run_events (died_at 1 ∷ died_at 2 ∷ died_at 3 ∷ []) (new_health path_a)) ≡ false
hard_failures_quarantine_example =
    hard_failures_quarantine (died_at 1 ∷ died_at 2 ∷ died_at 3 ∷ []) (new_health path_a)
      (new_health-IsSound path_a)
      ((refl, refl, refl), ((refl, refl, refl), ((refl, refl, refl), tt))) (omega arith)

placeable_best_example : has_entry (has_state is_healthy) path_a board.terminals ≡ true
unfolding placeable
placeable_best_example = (placeable_best board path_a refl).0 refl

abbrev built : String → String → String × TerminalHealth
built path build = (path, record (new_health path) { build = some build })

abbrev built_board : HealthBoard
built_board = record board { terminals = built path_a "x" ∷ built path_b "y" ∷ built "c" "y" ∷ [] }

quorum_sound_example : 2 ≤ votes "y" (ballot built_board.terminals)
unfolding quorum
quorum_sound_example = (quorum_sound built_board "y" path_b refl).0
