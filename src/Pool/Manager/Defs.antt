-- ===== src/Pool/Manager/Defs.antt =====
-- The state of `PoolManager`, its submissions, retries and completions.
use mt5_connector.Common.{
  Bool, List, Option, String, false, if◌then◌else◌, ltb, nat_eq, none, not, some, string_eq, true,
  ℕ, ◌&&◌, ◌+◌, ◌-◌, ◌==◌, ◌||◌, ◌∷◌,
}
use mt5_connector.Common.Dict.{Dict, erase, insert, lookup, setdefault}
use mt5_connector.Common.Int.{eqb_ℤ, ℤ}
use mt5_connector.Pool.Health.Defs.{HealthBoard, TerminalHealth, is_usable}
use mt5_connector.Pool.Protocol.{
  ErrorText, SyncKind, SyncResult, SyncTask, authorization_failed, is_initial, is_ipc, is_scheduled,
  priority_hard, priority_scheduled, shutting_down, terminal_quarantined,
}
use mt5_connector.Pool.Worker.{QueuedTask, Worker, enqueue_at}

pub record Pool (P : Type 0) : Type 0 where
  pub workers : Dict String (Worker P)
  pub health : HealthBoard
  -- `_pending`: account to future
  pub pending : Dict String ℕ
  -- every future made by `submit`: `none` until its result is set
  pub futures : Dict ℕ (Option (SyncResult P))
  -- the results handed to `on_result`, last first
  pub delivered : List (SyncResult P)
  -- the items of the tasks that the drain timeout of `stop` has cancelled, last first
  pub abandoned : List QueuedTask
  pub next_future : ℕ
  pub next_sequence : ℕ
  pub closing : Bool
  pub max_task_retries : ℕ
  pub has_registry : Bool

-- What `submit` is given, with the fresh task id.
pub record Request : Type 0 where
  pub task : SyncTask
  pub path : String

abbrev pub drop_pending : String → ℕ → Dict String ℕ → Dict String ℕ
drop_pending account future pending = elim (lookup account pending) [
  | none ↦ pending
  | some other ↦ if other == future then erase account pending else pending
]

abbrev pub priority_of : SyncKind → ℕ
priority_of kind = if is_scheduled kind then priority_scheduled else priority_hard

abbrev pub new_item : SyncTask → ℕ → QueuedTask
new_item task future = record {
  task = task;
  priority = priority_of task.kind;
  future = future;
  max_retries = if is_initial task.kind then some 0 else none;
  attempts = 0;
  proxy_rotations = 0;
  replacements = 0;
}

abbrev pub is_code : ℤ → Option ℤ → Bool
is_code code none = false
is_code code (some other) = eqb_ℤ other code

abbrev pub retry_limit : ℕ → QueuedTask → ℕ
retry_limit max_task_retries item = elim item.max_retries [ none ↦ max_task_retries | some n ↦ n ]

module _ {P : Type 0} where
  abbrev pub put_worker : String → Worker P → Pool P → Pool P
  put_worker path w s = record s { workers = insert path w s.workers }

  -- `_failure`
  abbrev pub failure : Worker P → QueuedTask → ErrorText → SyncResult P
  failure w item why = record {
    task_id = item.task.task_id;
    account_id = item.task.account_id;
    ok = false;
    payload = none;
    error = some why;
    error_code = none;
    terminal_lost = false;
    duration_ms = 0;
    worker_id = some w.worker_id;
    sync_run_id = item.task.sync_run_id;
    kind = item.task.kind;
    history_withheld = false;
    proxy_dead = false;
    terminal = none;
    quarantined = false;
  }

  -- `_quarantined_failure`
  abbrev pub quarantined_failure : Worker P → QueuedTask → SyncResult P
  quarantined_failure w item = record (failure w item terminal_quarantined) { quarantined = true }

  -- `_enqueue`
  unfoldable pub enqueue : ℕ → QueuedTask → Worker P → Worker P
  unfolding enqueue_at
  enqueue sequence item w = record w {
    hard_queued = if item.priority == priority_hard then w.hard_queued + 1 else w.hard_queued;
    queue = enqueue_at item.priority sequence item w.queue;
  }

  -- `future.set_result` unless it is done
  abbrev pub set_result :
      ℕ → SyncResult P → Dict ℕ (Option (SyncResult P)) → Dict ℕ (Option (SyncResult P))
  set_result future result futures = elim (lookup future futures) [
    | some (some _) ↦ futures
    | _ ↦ insert future (some result) futures
  ]

  -- `_resolve`
  unfoldable pub resolve : QueuedTask → SyncResult P → Pool P → Pool P
  resolve item result s = record s {
    pending = drop_pending item.task.account_id item.future s.pending;
    futures = set_result item.future result s.futures;
  }

  -- The call of `on_result` in `_complete`; what it raises is caught there.
  abbrev pub deliver : SyncResult P → Pool P → Pool P
  deliver result s = record s { delivered = result ∷ s.delivered }

  -- The future that `submit` makes, with the result that it is given at once, or none.
  abbrev pub add_future : Option (SyncResult P) → Pool P → Pool P
  add_future result s = record s {
    futures = insert s.next_future result s.futures;
    next_future = s.next_future + 1;
  }

  abbrev pub submit_to : Request → Worker P → TerminalHealth → Pool P → Pool P
  submit_to request w h s =
      let item = new_item request.task s.next_future in
      if s.closing
      then add_future (some (failure w item shutting_down)) s
      else if not (is_usable h)
      then add_future (some (quarantined_failure w item)) s
      else record (put_worker request.path (enqueue s.next_sequence item w) (add_future none s)) {
        pending = setdefault request.task.account_id s.next_future s.pending;
        next_sequence = s.next_sequence + 1;
      }

  -- `submit`: the future and the pool, `none` for a path that the pool does not have (KeyError).
  unfoldable pub submit : Request → Pool P → Option (ℕ × Pool P)
  unfolding enqueue
  submit request s = elim (lookup request.path s.workers) [
    | none ↦ none
    | some w ↦ elim (lookup request.path s.health.terminals) [
      | none ↦ none
      | some h ↦ some (s.next_future, submit_to request w h s)
    ]
  ]

  -- `pending_for`
  abbrev pub pending_for : String → Pool P → Option ℕ
  pending_for account s = lookup account s.pending

  abbrev pub was_replaced : SyncResult P → Bool
  was_replaced result = elim result.terminal [ none ↦ false | some report ↦ report.replaced ]

  abbrev pub is_final : SyncResult P → Bool
  is_final result =
      is_code authorization_failed result.error_code
      || (is_ipc result.error_code && not result.terminal_lost && not result.proxy_dead)

  -- `_should_retry`: the answer, and the item with its new counters. `attempts` is at least 1 when
  -- it runs, so that the `- 1` of the source is the one of ℕ.
  unfoldable pub should_retry : ℕ → QueuedTask → SyncResult P → Bool × QueuedTask
  should_retry max_task_retries item result =
      if result.ok
      then (false, item)
      else if is_final result
      then (false, item)
      else if was_replaced result && item.replacements == 0
      then (
        true,
        record item { replacements = item.replacements + 1; attempts = item.attempts - 1 },
      )
      else if result.proxy_dead && item.proxy_rotations == 0
      then (
        true,
        record item { proxy_rotations = item.proxy_rotations + 1; attempts = item.attempts - 1 },
      )
      else if ltb (retry_limit max_task_retries item) item.attempts
      then (false, item)
      else (true, item)
