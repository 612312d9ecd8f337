-- ===== src/Mt5api/Terminal/Task.antt =====
-- pool/worker.py: `_run_task`.
use mt5_connector.Common.{Bool, String, false, if◌then◌else◌, none, some, true, ℕ}
use mt5_connector.Mt5api.Terminal.Connect.{Session, connect, forget_login, shut_down, take_report}
use mt5_connector.Mt5api.Terminal.Start.{
  Login, Outcome, Setup, Terminal, TerminalError, raised, returned,
}
use mt5_connector.Pool.Protocol.{SyncResult, SyncTask, reported}

-- What fetching the history, building the payload and enriching it come to, each with whether the
-- history is withheld, which is noted before the payload is built.
pub data Fetched (P : Type 0) : Type 0 where
  fetched : P → Bool → Fetched P
  broken : Bool → TerminalError → Fetched P
  crashed : Bool → String → Fetched P

-- What `run_task` does with a terminal that raised this: `reset`, or `forget_login`.
abbrev pub after_error : TerminalError → Terminal → Terminal
after_error error t = if error.terminal_lost then shut_down t else forget_login t

abbrev pub login_of : SyncTask → Login
login_of task = record { login = task.login; password = task.password; server = task.server }

module _ {P : Type 0} where
  abbrev pub result_of : String → SyncTask → SyncResult P
  result_of worker_id task = record {
    task_id = task.task_id;
    account_id = task.account_id;
    ok = false;
    payload = none;
    error = none;
    error_code = none;
    terminal_lost = false;
    duration_ms = 0;
    worker_id = some worker_id;
    sync_run_id = task.sync_run_id;
    kind = task.kind;
    history_withheld = false;
    proxy_dead = false;
    terminal = none;
    quarantined = false;
  }

  abbrev pub task_failed :
      SyncResult P → ℕ → String → TerminalError → Terminal → SyncResult P × Terminal
  task_failed result duration why error t =
      let (report, t') = take_report (after_error error t) in
      (
        record result {
          error = some (reported why);
          error_code = error.code;
          terminal_lost = error.terminal_lost;
          proxy_dead = error.proxy_dead;
          terminal = report;
          duration_ms = duration;
        },
        t',
      )

  abbrev pub task_crashed : SyncResult P → ℕ → String → Terminal → SyncResult P × Terminal
  task_crashed result duration why t =
      let (report, t') = take_report (forget_login t) in
      (record result { error = some (reported why); terminal = report; duration_ms = duration }, t')

  abbrev pub task_done : SyncResult P → ℕ → P → Bool → Terminal → SyncResult P × Terminal
  task_done result duration payload withheld t =
      let (report, t') = take_report t in
      (
        record result {
          ok = true;
          payload = some payload;
          terminal = report;
          history_withheld = withheld;
          duration_ms = duration;
        },
        t',
      )

  abbrev pub answer_task :
      SyncResult P → ℕ → String → Fetched P → Terminal → SyncResult P × Terminal
  answer_task result duration why (fetched payload withheld) t =
      task_done result duration payload withheld t
  answer_task result duration why (broken withheld error) t =
      task_failed (record result { history_withheld = withheld }) duration why error t
  answer_task result duration why (crashed withheld what) t =
      task_crashed (record result { history_withheld = withheld }) duration what t

  -- After `connect`: the fetch, or its failure.
  abbrev pub fetch_task :
      (Terminal → Fetched P × Terminal)
      → SyncResult P
      → ℕ
      → String
      → Outcome Unit
      → Terminal
      → SyncResult P × Terminal
  fetch_task fetch result duration why (raised error) t = task_failed result duration why error t
  fetch_task fetch result duration why (returned _) t =
      let (answer, t') = fetch t in answer_task result duration why answer t'

  -- `_run_task`; `why` is the text of the terminal's error, `duration` the time that it took.
  unfoldable pub run_task :
      Setup
      → Session
      → (Terminal → Fetched P × Terminal)
      → String
      → SyncTask
      → ℕ
      → String
      → Terminal
      → SyncResult P × Terminal
  unfolding connect
  run_task setup session fetch worker_id task duration why t =
      let (outcome, t') = connect setup session (login_of task) task.connect_timeout_ms t in
      fetch_task fetch (result_of worker_id task) duration why outcome t'
