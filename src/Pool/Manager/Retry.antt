-- ===== src/Pool/Manager/Retry.antt =====
-- How often a task runs.
use mt5_connector.Common.{
  All, Bool-cases, List, Option-cases, [], arith, false, if◌then◌else◌, inl, inr, some, true, ℕ,
  ◌+◌, ◌-◌, ◌<◌, ◌∷◌, ◌≡◌, ◌≤◌, ◌⊎◌, refl,
}
use mt5_connector.Pool.Manager.Defs.{new_item, retry_limit, should_retry, enqueue}
use mt5_connector.Pool.Protocol.{SyncResult, SyncTask, authorization_failed, is_initial, is_ipc}
use mt5_connector.Pool.Worker.{QueuedTask, TaskQueue, enqueue_at, key_before, Worker}
use mt5_connector.Common.Search.{All-map}

-- The attempts, proxy rotations and replacements that a queued item has left.
abbrev pub credit : ℕ → QueuedTask → ℕ
credit max_task_retries item =
    (retry_limit max_task_retries item + 1 - item.attempts)
    + (1 - item.proxy_rotations)
    + (1 - item.replacements)

-- The item as `_run_item` hands it to `_should_retry`.
abbrev pub ran : QueuedTask → QueuedTask
ran item = record item { attempts = item.attempts + 1 }

module _ {P : Type 0} where
  -- Every retry spends at least one of them, and an item that is queued again has an attempt left.
  retry_spends :
      (max_task_retries : ℕ) (item : QueuedTask) (result : SyncResult P)
      → item.attempts ≤ retry_limit max_task_retries item
      → (should_retry max_task_retries (ran item) result).0 ≡ true
      → let item' = (should_retry max_task_retries (ran item) result).1 in
        (credit max_task_retries item' < credit max_task_retries item)
        × (item'.attempts ≤ retry_limit max_task_retries item')
  unfolding should_retry
  retry_spends max_task_retries item result left again = elim (Option-cases item.max_retries) [
    | inl default ↦ (ground arith, ground arith)
    | inr (n, own) ↦ (ground arith, ground arith)
  ]

  -- The runs of an item whose attempts come to these results in turn.
  unfoldable pub executions : ℕ → QueuedTask → List (SyncResult P) → ℕ
  executions max_task_retries item [] = 0
  executions max_task_retries item (result ∷ results) =
      let (again, item') = should_retry max_task_retries (ran item) result in
      let rest = executions max_task_retries item' results in 1 + (if again then rest else 0)

  executions-le :
      (max_task_retries : ℕ) (item : QueuedTask) (results : List (SyncResult P))
      → item.attempts ≤ retry_limit max_task_retries item
      → executions max_task_retries item results ≤ credit max_task_retries item
  unfolding executions
  executions-le max_task_retries item [] left = omega arith
  executions-le max_task_retries item (result ∷ results) left =
      let (again, item') = should_retry max_task_retries (ran item) result in
      elim (Bool-cases again) [
        | inl retry ↦
            let spent = retry_spends max_task_retries item result left retry in
            rw retry (omega (arith, executions-le max_task_retries item' results spent.1, spent.0))
        | inr over ↦ rw over (omega (arith, left))
      ]

  -- A task that is new runs at most three times more than its retries, whatever its results are: an
  -- initial sync has no retries, any other has as many as the pool allows.
  pub executions_bound :
      (max_task_retries future : ℕ) (task : SyncTask) (results : List (SyncResult P))
      → executions max_task_retries (new_item task future) results
        ≤ (if is_initial task.kind then 0 else max_task_retries) + 3
  executions_bound max_task_retries future task results =
      ground (arith, executions-le max_task_retries (new_item task future) results)

  -- A success, rejected credentials, and an IPC failure with neither the terminal lost nor the proxy
  -- dead, end the task at once.
  executions_final :
      (max_task_retries : ℕ) (item : QueuedTask) (result : SyncResult P)
      (results : List (SyncResult P))
      → (result.ok ≡ true)
        ⊎ (result.error_code ≡ some authorization_failed)
        ⊎ ((is_ipc result.error_code ≡ true)
            × (result.terminal_lost ≡ false)
            × (result.proxy_dead ≡ false))
      → executions max_task_retries item (result ∷ results) ≡ 1
  unfolding executions should_retry
  executions_final max_task_retries item result results (inl fine) = ground arith
  executions_final max_task_retries item result results (inr (inl rejected)) =
      rw rejected (ground arith)
  executions_final max_task_retries item result results (inr (inr silent)) = ground (arith, silent)

-- The entries of a queue in the order of their keys, all with a sequence number below the bound.
abbrev pub ComesBefore : ℕ × ℕ × QueuedTask → ℕ × ℕ × QueuedTask → Type 0
ComesBefore (p, s, _) (q, t, _) = (p < q) ⊎ ((p ≡ q) × (s < t))

abbrev pub IsOrdered : TaskQueue → Type 0
IsOrdered [] = Unit {0}
IsOrdered (entry ∷ queue) = All (ComesBefore entry) queue × IsOrdered queue

abbrev NumberedBelow : ℕ → ℕ × ℕ × QueuedTask → Type 0
NumberedBelow bound (_, s, _) = s < bound

All-enqueue_at :
    (Q : ℕ × ℕ × QueuedTask → Type 0) (priority sequence : ℕ) (item : QueuedTask)
    (queue : TaskQueue)
    → Q (priority, sequence, item)
    → All Q queue
    → All Q (enqueue_at priority sequence item queue)
unfolding enqueue_at
All-enqueue_at Q priority sequence item [] here rest = (here, tt)
All-enqueue_at Q priority sequence item (entry ∷ queue) here rest =
    elim (Bool-cases (key_before priority sequence entry)) [
      | inl first ↦ rw first (here, rest)
      | inr later ↦ rw later (rest.0, All-enqueue_at Q priority sequence item queue here rest.1)
    ]

All-ComesBefore :
    (a b : ℕ × ℕ × QueuedTask) (queue : TaskQueue)
    → ComesBefore a b
    → All (ComesBefore b) queue
    → All (ComesBefore a) queue
All-ComesBefore a b [] h rest = tt
All-ComesBefore a b (entry ∷ queue) h rest =
    (omega (arith, h, rest.0), All-ComesBefore a b queue h rest.1)

-- A queue keeps its order, hard syncs first and each kind first in first out, when an item is added
-- under a new sequence number.
enqueue_at-IsOrdered :
    (priority sequence : ℕ) (item : QueuedTask) (queue : TaskQueue)
    → All (NumberedBelow sequence) queue
    → IsOrdered queue
    → IsOrdered (enqueue_at priority sequence item queue)
unfolding enqueue_at
enqueue_at-IsOrdered priority sequence item [] below order = (tt, tt)
enqueue_at-IsOrdered priority sequence item (entry ∷ queue) below order =
    elim (Bool-cases (key_before priority sequence entry)) [
      | inl first ↦ rw first (
        (
          ground arith,
          All-ComesBefore (priority, sequence, item) entry queue (ground arith) order.0,
        ),
        order,
      )
      | inr later ↦ rw later (
        All-enqueue_at (ComesBefore entry) priority sequence item queue (ground (arith, below.0))
            order.0,
        enqueue_at-IsOrdered priority sequence item queue below.1 order.1,
      )
    ]

-- The queue of a worker: in order, each entry under the priority of its item and a sequence number
-- that the pool has given out.
abbrev pub IsEntry : ℕ → ℕ × ℕ × QueuedTask → Type 0
IsEntry next (priority, sequence, item) = (priority ≡ item.priority) × (sequence < next)

abbrev pub IsQueue : ℕ → TaskQueue → Type 0
IsQueue next queue = IsOrdered queue × All (IsEntry next) queue

-- Queueing an item keeps the queue of the worker in order, hard syncs first and each kind first in
-- first out, each entry under the priority of its item, when the numbers given out so far are below
-- the next one; they are then below the one after it.
pub enqueue-IsQueue :
    {P : Type 0} (next : ℕ) (item : QueuedTask) (w : Worker P)
    → IsQueue next w.queue
    → IsQueue (next + 1) (enqueue next item w).queue
unfolding enqueue
enqueue-IsQueue next item w (order, entries) = (
  enqueue_at-IsOrdered item.priority next item w.queue
      (All-map (IsEntry next) (NumberedBelow next) w.queue (λ entry own. own.1) entries) order,
  All-enqueue_at (IsEntry (next + 1)) item.priority next item w.queue (refl, omega arith)
      (All-map (IsEntry next) (IsEntry (next + 1)) w.queue
        (λ entry own. (own.0, omega (arith, own.1))) entries),
)
