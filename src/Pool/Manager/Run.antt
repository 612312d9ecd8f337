-- ===== src/Pool/Manager/Run.antt =====
-- `_dispatch_loop`, `_execute`, `_run_item`, `_quarantine`, `_complete`: one function for what a
-- worker's coroutines do from one `await` to the next.
use mt5_connector.Common.{
  Bool, Option, String, [], false, if◌then◌else◌, nat_eq, none, not, some, string_eq, true, ℕ, ◌&&◌,
  ◌+◌, ◌-◌, ◌==◌, ◌∷◌,
}
use mt5_connector.Pool.Health.Defs.{HealthBoard, is_quarantined, Reason}
use mt5_connector.Pool.Health.Record.{record_result}
use mt5_connector.Pool.Manager.Defs.{
  Pool, deliver, enqueue, failure, put_worker, quarantined_failure, resolve, should_retry,
}
use mt5_connector.Pool.Protocol.{
  SyncResult, pool_error, priority_hard, quarantined_for, reported, shutting_down, timed_out,
  worker_lost,
}
use mt5_connector.Pool.Worker.{
  Phase, Proxy, QueuedTask, Start, Worker, claim, draining, holding, mark_failed, mark_idle,
  persisting, release, restart, restarting_for, rotating, running, waiting,
}
use mt5_connector.Common.Dict.{lookup}

-- What `worker.roundtrip` comes to in `_roundtrip`: a result, a timeout, or a lost pipe.
pub data Answer (P : Type 0) : Type 0 where
  arrived : SyncResult P → Answer P
  too_late : Answer P
  lost : String → Answer P

-- The time at a step: the wall clock and the monotonic clock, in microseconds.
pub record Times : Type 0 where
  pub now : ℕ
  pub mono : ℕ

abbrev reason_at : String → HealthBoard → Option Reason
reason_at path board = elim (lookup path board.terminals) [
  | none ↦ none
  | some h ↦ h.quarantine_reason
]

module _ {P : Type 0} where
  abbrev with_phase : Phase P → Worker P → Worker P
  with_phase phase w = record w { phase = phase }

  -- `queue.get`: the dispatcher takes the least entry.
  abbrev pub take_item : String → Worker P → Pool P → Pool P
  take_item path w s = elim w.queue [
    | [] ↦ s
    | entry ∷ queue ↦ put_worker path (record w { queue = queue; phase = holding entry.2 }) s
  ]

  -- From `hard_queued -= 1` to the round trip.
  abbrev pub start_item : ℕ → String → Worker P → QueuedTask → Pool P → Pool P
  start_item now path w item s =
      let item' = record item { attempts = item.attempts + 1 } in
      let w' = record w {
        hard_queued = if item.priority == priority_hard then w.hard_queued - 1 else w.hard_queued;
      } in
      put_worker path (with_phase (running item') (claim now item.task w')) s

  -- The end of `_run_item`: another attempt, or `_complete`.
  abbrev pub settle : String → Worker P → QueuedTask → SyncResult P → Pool P → Pool P
  settle path w item result s =
      let (again, item') = should_retry s.max_task_retries item result in
      if again
      then record (put_worker path (with_phase waiting (enqueue s.next_sequence item' w)) s) {
        next_sequence = s.next_sequence + 1;
      }
      else put_worker path (with_phase (persisting item' result) w) (deliver result s)

  -- `_roundtrip`: the result, whether the worker is healthy, and the worker's last error
  abbrev pub receive : Worker P → QueuedTask → Answer P → SyncResult P × Bool × Worker P
  receive w item (arrived result) = (result, true, w)
  receive w item too_late =
      (failure w item timed_out, false, record w { last_error = some timed_out })
  receive w item (lost why) =
      (failure w item worker_lost, false, record w { last_error = some (reported why) })

  -- `_record_health`: nothing comes out where `record` raises.
  abbrev pub record_health :
      Times → String → String → SyncResult P → HealthBoard → Bool × HealthBoard
  record_health t path server result board =
      elim (record_result t.now t.mono path server result board) [
        | none ↦ (false, board)
        | some (state, board') ↦ (is_quarantined state, board')
      ]

  -- The head of `_quarantine`.
  abbrev pub begin_quarantine : String → Worker P → QueuedTask → SyncResult P → Pool P → Pool P
  begin_quarantine path w item result s =
      let result' = record result { quarantined = true } in
      let w' =
        mark_failed (record w { last_error = some (quarantined_for (reason_at path s.health)) }) in
      put_worker path (with_phase (draining item result') w') (deliver result' s)

  -- What `_run_item` does once the health of the terminal is recorded, up to the next `await`:
  -- `alive` says that neither the worker nor its terminal was lost.
  abbrev pub after_record :
      Bool → Bool → String → Worker P → QueuedTask → SyncResult P → Pool P → Pool P
  after_record condemned alive path w item result s =
      if condemned
      then begin_quarantine path w item result s
      else if result.proxy_dead && s.has_registry
      then put_worker path (with_phase (rotating item result) w) s
      else if not alive
      then put_worker path (with_phase (restarting_for item result) w) s
      else settle path (mark_idle w) item result s

  -- From `release` to the next `await`.
  abbrev pub answer_item : Times → String → Worker P → QueuedTask → Answer P → Pool P → Pool P
  answer_item t path w item answer s =
      let (result, alive, w1) = receive w item answer in
      let w2 = release result w1 in
      let (condemned, board) = record_health t path item.task.server result s.health in
      if s.closing
      then resolve item (failure w2 item shutting_down) (put_worker path (with_phase waiting w2) s)
      else after_record condemned (alive && not result.terminal_lost) path w2 item result
          (record s { health = board })

  -- `rotate` has answered: the worker is restarted with the new proxy.
  abbrev pub rotated_item :
      String → Worker P → QueuedTask → SyncResult P → Option Proxy → Pool P → Pool P
  rotated_item path w item result proxy s =
      put_worker path (with_phase (restarting_for item result) (record w { proxy = proxy })) s

  -- `if await worker.restart(): worker.mark_idle() else: worker.mark_failed()`
  abbrev pub settle_start : Worker P × Bool → Worker P
  settle_start (w, up) = if up then mark_idle w else mark_failed w

  -- `restart` has returned.
  abbrev pub restarted_item :
      String → Worker P → QueuedTask → SyncResult P → Start × Start × Start → Pool P → Pool P
  restarted_item path w item result starts s =
      settle path (settle_start (restart starts w)) item result s

  -- An exception in `_run_item`, caught by `_execute`.
  abbrev pub crashed_item : String → Worker P → QueuedTask → String → Pool P → Pool P
  crashed_item path w item why s =
      let result = failure w item (pool_error why) in
      put_worker path (with_phase (persisting item result) (mark_failed w)) (deliver result s)

  -- The loop of `_quarantine`: the next queued task fails, or the queue is empty.
  abbrev pub drain_next : String → Worker P → Pool P → Pool P
  drain_next path w s = elim w.queue [
    | [] ↦ put_worker path (record w { hard_queued = 0; phase = waiting }) s
    | entry ∷ queue ↦
        let result = quarantined_failure w entry.2 in
        put_worker path (record w { queue = queue; phase = draining entry.2 result })
          (deliver result s)
  ]
