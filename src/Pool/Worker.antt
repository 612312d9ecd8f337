-- ===== src/Pool/Worker.antt =====
-- pool/worker_handle.py: the handle of one worker process, and the queue of `pool/manager.py` that
-- it carries. What the operating system answers is an argument.
use mt5_connector.Common.{
  Bool, List, Option, String, [], false, if◌then◌else◌, ltb, nat_eq, none, some, string_eq, true, ℕ,
  ◌&&◌, ◌+◌, ◌==◌, ◌||◌, ◌∷◌,
}
use mt5_connector.Pool.Protocol.{
  ErrorText, SyncResult, SyncTask, WorkerState, busy, failed, idle, reported, restarting, starting,
}

-- mt5api/proxy.py: `Proxy`. Its `endpoint` is `address:port`, and no port prints a colon, so two
-- endpoints are the same text when the addresses and the ports are the same.
pub record Proxy : Type 0 where
  pub address : String
  pub port : ℕ

abbrev pub same_endpoint : Proxy → Proxy → Bool
same_endpoint p q = p.address == q.address && p.port == q.port

-- `_QueuedTask` of pool/manager.py; a future is known by a number.
pub record QueuedTask : Type 0 where
  pub task : SyncTask
  pub priority : ℕ
  pub future : ℕ
  pub max_retries : Option ℕ
  pub attempts : ℕ
  pub proxy_rotations : ℕ
  pub replacements : ℕ

-- The entries of an `asyncio.PriorityQueue`, least first: `(priority, sequence, item)`.
abbrev pub TaskQueue : Type 0
TaskQueue = List (ℕ × ℕ × QueuedTask)

abbrev pub key_before : ℕ → ℕ → ℕ × ℕ × QueuedTask → Bool
key_before priority sequence (p, s, _) = ltb priority p || (priority == p && ltb sequence s)

unfoldable pub enqueue_at : ℕ → ℕ → QueuedTask → TaskQueue → TaskQueue
enqueue_at priority sequence item [] = (priority, sequence, item) ∷ []
enqueue_at priority sequence item (entry ∷ queue) =
    if key_before priority sequence entry
    then (priority, sequence, item) ∷ entry ∷ queue
    else entry ∷ enqueue_at priority sequence item queue

-- Where the dispatcher of a worker stands, and the task that it has started: at which `await` each
-- waits, with the local variables that are used after it.
pub data Phase (P : Type 0) : Type 0 where
  -- the dispatcher waits for `ready`
  waiting : Phase P
  -- it waits for an item
  getting : Phase P
  -- it took an item and waits for `ready` again
  holding : QueuedTask → Phase P
  -- `_roundtrip`
  running : QueuedTask → Phase P
  -- `_proxy_registry.rotate`
  rotating : QueuedTask → SyncResult P → Phase P
  -- `worker.restart`
  restarting_for : QueuedTask → SyncResult P → Phase P
  -- `on_result` in `_complete`, at the end of the task
  persisting : QueuedTask → SyncResult P → Phase P
  -- `on_result` in `_complete`, in `_quarantine`
  draining : QueuedTask → SyncResult P → Phase P

pub record Worker (P : Type 0) : Type 0 where
  pub worker_id : String
  pub terminal_path : String
  pub proxy : Option Proxy
  pub state : WorkerState
  pub process : Option ℕ
  pub connection : Option ℕ
  pub current_account_id : Option String
  pub current_task_started_at : Option ℕ
  pub tasks_completed : ℕ
  pub tasks_failed : ℕ
  pub restarts : ℕ
  pub last_error : Option ErrorText
  pub queue : TaskQueue
  pub ready : Bool
  pub hard_queued : ℕ
  pub phase : Phase P

abbrev pub new_worker : (P : Type 0) → String → String → Option Proxy → Worker P
new_worker P worker_id path proxy = record {
  worker_id = worker_id;
  terminal_path = path;
  proxy = proxy;
  state = starting;
  process = none;
  connection = none;
  current_account_id = none;
  current_task_started_at = none;
  tasks_completed = 0;
  tasks_failed = 0;
  restarts = 0;
  last_error = none;
  queue = [];
  ready = false;
  hard_queued = 0;
  phase = waiting;
}

-- What a start of the process comes to: it does not spawn, it does not answer in time, or it answers.
pub data Start : Type 0 where
  would_not_spawn : String → Start
  did_not_start : ℕ → ℕ → String → Start
  answered : ℕ → ℕ → String → Start

module _ {P : Type 0} where
  abbrev pub mark_idle : Worker P → Worker P
  mark_idle w = record w { state = idle; ready = true }

  abbrev pub mark_failed : Worker P → Worker P
  mark_failed w = record w { state = failed; ready = false }

  abbrev pub terminate : Worker P → Worker P
  terminate w = record w { process = none; connection = none }

  -- `_start_failed`
  abbrev pub start_failed : ErrorText → Worker P → Worker P
  start_failed reason w = mark_failed (terminate (record w { last_error = some reason }))

  abbrev pub begin_start : ℕ → ℕ → Worker P → Worker P
  begin_start process connection w = record w {
    process = some process;
    connection = some connection;
    state = starting;
  }

  unfoldable pub spawn : Start → Worker P → Worker P × Bool
  spawn (would_not_spawn why) w = (start_failed (reported why) w, false)
  spawn (did_not_start process connection why) w =
      (start_failed (reported why) (begin_start process connection w), false)
  spawn (answered process connection who) w =
      let w' = begin_start process connection w in
      if who == w.worker_id
      then (mark_idle (record w' { last_error = none }), true)
      else (start_failed (reported who) w', false)

  -- the attempts of `restart` that are left
  unfoldable pub restart_loop : List Start → Worker P → Worker P × Bool
  unfolding spawn
  restart_loop [] w = (w, false)
  restart_loop (start ∷ starts) w =
      let tried = spawn start (record w { restarts = w.restarts + 1 }) in
      let rest = restart_loop starts tried.0 in if tried.1 then tried else rest

  -- `restart`: its three attempts come to the three starts that it is given.
  unfoldable pub restart : Start × Start × Start → Worker P → Worker P × Bool
  unfolding restart_loop
  restart (first, second, third) w =
      restart_loop (first ∷ second ∷ third ∷ [])
        (terminate (record w { state = restarting; ready = false }))

  unfoldable pub claim : ℕ → SyncTask → Worker P → Worker P
  claim now task w = record w {
    state = busy;
    current_account_id = some task.account_id;
    current_task_started_at = some now;
  }

  unfoldable pub release : SyncResult P → Worker P → Worker P
  release result w = record w {
    current_account_id = none;
    current_task_started_at = none;
    tasks_completed = if result.ok then w.tasks_completed + 1 else w.tasks_completed;
    tasks_failed = if result.ok then w.tasks_failed else w.tasks_failed + 1;
  }
