-- ===== src/Mt5api/Terminal/Served.antt =====
-- What a task leaves of the terminal.
use mt5_connector.Common.{
  Bool-cases, String, arith, false, inl, inr, none, refl, subst, sym, true, ℕ, ◌∙◌, ◌≡◌, Option,
}
use mt5_connector.Mt5api.Terminal.Binding.{IsCoherent, IsConnected, connect-IsConnected}
use mt5_connector.Mt5api.Terminal.Connect.{Session, connect, is_logged_in}
use mt5_connector.Mt5api.Terminal.Start.{
  Login, Outcome, Setup, Terminal, TerminalError, raised, returned,
}
use mt5_connector.Mt5api.Terminal.Task.{
  Fetched, after_error, answer_task, broken, crashed, fetch_task, fetched, login_of, result_of,
  run_task, task_failed,
}
use mt5_connector.Pool.Protocol.{SyncResult, SyncTask, StartReport}

after_error-unset :
    (error : TerminalError) (t : Terminal)
    → IsCoherent t
    → (after_error error t).current_login ≡ none
after_error-unset error t coherent = elim (Bool-cases t.is_bound) [
  | inl bound ↦ ground arith
  | inr loose ↦ ground (arith, coherent loose)
]

after_error-report :
    (error : TerminalError) (t : Terminal) → (after_error error t).report ≡ t.report
after_error-report error t = ground arith

module _ {P : Type 0} where
  -- After a task, when it ends with this report: a good result comes from a terminal bound with the
  -- login of the task; after any other the terminal remembers no login; and the result has the
  -- report, which the terminal then has no more.
  abbrev pub IsServed : Login → Option StartReport → SyncResult P × Terminal → Type 0
  IsServed wanted report (result, t) =
      (result.ok ≡ true → (t.is_bound ≡ true) × (is_logged_in wanted t.current_login ≡ true))
      × (result.ok ≡ false → t.current_login ≡ none)
      × (result.terminal ≡ report)
      × (t.report ≡ none)

  -- Fetching neither binds the terminal nor logs in.
  abbrev pub KeepsLogin : (Terminal → Fetched P × Terminal) → Type 0
  KeepsLogin fetch =
      (t : Terminal)
      → ((fetch t).1.is_bound ≡ t.is_bound) × ((fetch t).1.current_login ≡ t.current_login)

  -- The terminal as connecting and fetching leave it.
  abbrev pub left_by : (Terminal → Fetched P × Terminal) → Outcome Unit × Terminal → Terminal
  left_by fetch (raised error, t) = t
  left_by fetch (returned _, t) = (fetch t).1

  failed-IsServed :
      (wanted : Login) (result : SyncResult P) (duration : ℕ) (why : String) (error : TerminalError)
      (t : Terminal)
      → result.ok ≡ false
      → IsCoherent t
      → IsServed wanted t.report (task_failed result duration why error t)
  failed-IsServed wanted result duration why error t bad coherent = (
    λ good. absurd (ground arith),
    λ _. after_error-unset error t coherent,
    after_error-report error t,
    refl,
  )

  fetched-IsServed :
      (wanted : Login) (result : SyncResult P) (duration : ℕ) (why : String) (answer : Fetched P)
      (t : Terminal)
      → result.ok ≡ false
      → t.is_bound ≡ true
      → is_logged_in wanted t.current_login ≡ true
      → IsServed wanted t.report (answer_task result duration why answer t)
  fetched-IsServed wanted result duration why (fetched payload withheld) t bad bound same =
      (λ _. (bound, same), λ not_ok. absurd (ground arith), refl, refl)
  fetched-IsServed wanted result duration why (broken withheld error) t bad bound same =
      failed-IsServed wanted (record result { history_withheld = withheld }) duration why error t
        bad (λ loose. absurd (ground arith))
  fetched-IsServed wanted result duration why (crashed withheld what) t bad bound same =
      (λ good. absurd (ground arith), λ _. refl, refl, refl)

  fetch_task-IsServed :
      (wanted : Login) (fetch : Terminal → Fetched P × Terminal) (result : SyncResult P)
      (duration : ℕ) (why : String) (outcome : Outcome Unit) (t : Terminal)
      → KeepsLogin fetch
      → result.ok ≡ false
      → IsConnected wanted (outcome, t)
      → IsServed wanted
          (left_by fetch (outcome, t)).report
          (fetch_task fetch result duration why outcome t)
  fetch_task-IsServed wanted fetch result duration why (raised error) t keeps bad unset =
      failed-IsServed wanted result duration why error t bad (λ _. unset)
  fetch_task-IsServed wanted fetch result duration why (returned _) t keeps bad connected =
      fetched-IsServed wanted result duration why (fetch t).0 (fetch t).1 bad
        ((keeps t).0 ∙ connected.0)
        (subst (λ l. is_logged_in wanted l ≡ true) (sym (keeps t).1) connected.1)

  -- When fetching keeps the login and the terminal remembers none while it is not bound: a task
  -- that is done leaves the terminal bound with the login of the task, any other leaves it without a
  -- login, so that the next task logs in anew; and the result has the report of the terminal as
  -- connecting and fetching leave it, while the terminal has none any more.
  pub run_task-IsServed :
      (setup : Setup) (session : Session) (fetch : Terminal → Fetched P × Terminal)
      (worker_id : String) (task : SyncTask) (duration : ℕ) (why : String) (t : Terminal)
      → KeepsLogin fetch
      → IsCoherent t
      → IsServed
          (login_of task)
          (left_by fetch (connect setup session (login_of task) task.connect_timeout_ms t)).report
          (run_task setup session fetch worker_id task duration why t)
  unfolding run_task
  run_task-IsServed setup session fetch worker_id task duration why t keeps coherent =
      let outcome = connect setup session (login_of task) task.connect_timeout_ms t in
      fetch_task-IsServed (login_of task) fetch (result_of worker_id task) duration why outcome.0
        outcome.1 keeps refl
        (connect-IsConnected setup session (login_of task) task.connect_timeout_ms t coherent)
