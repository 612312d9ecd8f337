-- ===== src/Pool/Manager/Steps.antt =====
-- The events of the pool, and what each does. An event that its worker does not wait for changes
-- nothing, so that every sequence of events is a history, those that cannot happen included.
use mt5_connector.Common.{
  Bool, List, Option, String, [], false, if◌then◌else◌, is_some, nat_eq, none, not, some, string_eq,
  true, ℕ, ◌&&◌, ◌∷◌,
}
use mt5_connector.Common.Dict.{lookup}
use mt5_connector.Pool.Health.Defs.{TerminalHealth, is_healthy, is_usable}
use mt5_connector.Pool.Manager.Defs.{Pool, Request, failure, put_worker, resolve, submit}
use mt5_connector.Pool.Manager.Run.{
  Answer, Times, answer_item, crashed_item, drain_next, restarted_item, rotated_item, settle_start,
  start_item, take_item,
}
use mt5_connector.Pool.Protocol.{WorkerState, failed, idle, shutting_down, starting, stopped}
use mt5_connector.Pool.Worker.{
  Phase, Proxy, Start, Worker, draining, getting, holding, persisting, restart, restarting_for,
  rotating, running, spawn, terminate, waiting, QueuedTask,
}

-- What can happen to one worker.
pub data Local (P : Type 0) : Type 0 where
  woken : Local P
  taken : Local P
  started : ℕ → Local P
  answers : Times → Answer P → Local P
  rotated : Option Proxy → Local P
  restarted : Start × Start × Start → Local P
  crashed : String → Local P
  persisted : Local P
  reaped : Start × Start × Start → Local P
  reproxied : Option Proxy → Start × Start × Start → Local P
  spawned : Start → Local P
  cancelled : Local P
  stopped_one : Local P
  drained : Local P
  timed_out_of_drain : Local P

pub data Event (P : Type 0) : Type 0 where
  submitted : Request → Event P
  at : String → Local P → Event P
  closes : Event P

abbrev pub is_idle : WorkerState → Bool
is_idle idle = true
is_idle _ = false

abbrev pub is_failed : WorkerState → Bool
is_failed failed = true
is_failed _ = false

abbrev pub is_starting : WorkerState → Bool
is_starting starting = true
is_starting _ = false

module _ {P : Type 0} where
  abbrev is_terminal : (TerminalHealth → Bool) → String → Pool P → Bool
  is_terminal p path s = elim (lookup path s.health.terminals) [ none ↦ false | some h ↦ p h ]

  -- The dispatcher passes its first `ready.wait`; the loop ends when the pool is closing.
  unfoldable pub on_woken : String → Worker P → Phase P → Pool P → Pool P
  on_woken path w waiting s =
      if w.ready && not s.closing then put_worker path (record w { phase = getting }) s else s
  on_woken path w _ s = s

  unfoldable pub on_taken : String → Worker P → Phase P → Pool P → Pool P
  on_taken path w getting s = take_item path w s
  on_taken path w _ s = s

  unfoldable pub on_started : ℕ → String → Worker P → Phase P → Pool P → Pool P
  on_started now path w (holding item) s = if w.ready then start_item now path w item s else s
  on_started now path w _ s = s

  unfoldable pub on_answer : Times → Answer P → String → Worker P → Phase P → Pool P → Pool P
  on_answer t answer path w (running item) s = answer_item t path w item answer s
  on_answer t answer path w _ s = s

  unfoldable pub on_rotated : Option Proxy → String → Worker P → Phase P → Pool P → Pool P
  on_rotated proxy path w (rotating item result) s = rotated_item path w item result proxy s
  on_rotated proxy path w _ s = s

  unfoldable pub on_restarted :
      Start × Start × Start → String → Worker P → Phase P → Pool P → Pool P
  on_restarted starts path w (restarting_for item result) s =
      restarted_item path w item result starts s
  on_restarted starts path w _ s = s

  unfoldable pub on_crashed : String → String → Worker P → Phase P → Pool P → Pool P
  on_crashed why path w (running item) s = crashed_item path w item why s
  on_crashed why path w (rotating item _) s = crashed_item path w item why s
  on_crashed why path w (restarting_for item _) s = crashed_item path w item why s
  on_crashed why path w _ s = s

  -- `on_result` has returned or raised: the future is resolved.
  unfoldable pub on_persisted : String → Worker P → Phase P → Pool P → Pool P
  on_persisted path w (persisting item result) s =
      resolve item result (put_worker path (record w { phase = waiting }) s)
  on_persisted path w (draining item result) s = resolve item result (drain_next path w s)
  on_persisted path w _ s = s

  -- `_reap_loop`: a failed worker of a usable terminal is restarted.
  unfoldable pub on_reaped : Start × Start × Start → String → Worker P → Pool P → Pool P
  on_reaped starts path w s =
      if is_failed w.state && is_terminal is_usable path s && not s.closing
      then put_worker path (restart starts w).0 s
      else s

  -- the guards of `_reproxy_idle`
  abbrev pub can_reproxy : String → Worker P → Pool P → Bool
  can_reproxy path w s =
      not (is_some w.proxy)
      && is_idle w.state
      && not s.closing
      && is_terminal (λ h. is_healthy h.state) path s

  -- `_reproxy_idle`, with the answer of `rotate`
  unfoldable pub on_reproxied :
      Option Proxy → Start × Start × Start → String → Worker P → Pool P → Pool P
  on_reproxied none starts path w s = s
  on_reproxied (some proxy) starts path w s =
      if can_reproxy path w s
      then put_worker path (settle_start (restart starts (record w { proxy = some proxy }))) s
      else s

  -- `stop` cancels the dispatcher: the item that it holds fails.
  unfoldable pub on_cancelled : String → Worker P → Phase P → Pool P → Pool P
  on_cancelled path w (holding item) s =
      resolve item (failure w item shutting_down) (put_worker path (record w { phase = waiting }) s)
  on_cancelled path w getting s = put_worker path (record w { phase = waiting }) s
  on_cancelled path w _ s = s

  -- `worker.terminate()` and the state that `stop` sets
  unfoldable pub on_stopped : String → Worker P → Pool P → Pool P
  on_stopped path w s = put_worker path (record (terminate w) { state = stopped }) s

  -- The last loop of `stop`: one entry of the queue fails.
  unfoldable pub on_drained : String → Worker P → Pool P → Pool P
  on_drained path w s = elim w.queue [
    | [] ↦ s
    | entry ∷ queue ↦
        resolve entry.2 (failure w entry.2 shutting_down)
          (put_worker path (record w { queue = queue }) s)
  ]

  -- The drain timeout of `stop`: `wait_for` cancels the tasks that still run, and `_execute` raises
  -- the CancelledError again, so that the future of the item is never set.
  unfoldable pub on_abandoned : QueuedTask → String → Worker P → Pool P → Pool P
  on_abandoned item path w s = record (put_worker path (record w { phase = waiting }) s) {
    abandoned = item ∷ s.abandoned;
  }

  unfoldable pub on_drain_timeout : String → Worker P → Phase P → Pool P → Pool P
  unfolding on_abandoned
  on_drain_timeout path w (running item) s = on_abandoned item path w s
  on_drain_timeout path w (rotating item _) s = on_abandoned item path w s
  on_drain_timeout path w (restarting_for item _) s = on_abandoned item path w s
  on_drain_timeout path w (persisting item _) s = on_abandoned item path w s
  on_drain_timeout path w (draining item _) s = on_abandoned item path w s
  on_drain_timeout path w _ s = s

  -- `start` spawns the worker, which is still in the state that it was made in.
  unfoldable pub on_spawned : Start → String → Worker P → Pool P → Pool P
  on_spawned start path w s = if is_starting w.state then put_worker path (spawn start w).0 s else s

  unfoldable pub handle : Local P → String → Worker P → Pool P → Pool P
  unfolding on_woken on_taken on_started on_answer on_rotated on_restarted on_crashed on_persisted
      on_reaped on_reproxied on_cancelled on_stopped on_drained on_drain_timeout on_spawned
  handle woken path w s = on_woken path w w.phase s
  handle taken path w s = on_taken path w w.phase s
  handle (started now) path w s = on_started now path w w.phase s
  handle (answers t answer) path w s = on_answer t answer path w w.phase s
  handle (rotated proxy) path w s = on_rotated proxy path w w.phase s
  handle (restarted starts) path w s = on_restarted starts path w w.phase s
  handle (crashed why) path w s = on_crashed why path w w.phase s
  handle persisted path w s = on_persisted path w w.phase s
  handle (reaped starts) path w s = on_reaped starts path w s
  handle (reproxied proxy starts) path w s = on_reproxied proxy starts path w s
  handle (spawned start) path w s = on_spawned start path w s
  handle cancelled path w s = if s.closing then on_cancelled path w w.phase s else s
  handle stopped_one path w s = if s.closing then on_stopped path w s else s
  handle drained path w s = if s.closing then on_drained path w s else s
  handle timed_out_of_drain path w s = if s.closing then on_drain_timeout path w w.phase s else s

  -- The event happens to the worker of its path; a path that the pool does not have is a fault of
  -- the schedule, and nothing happens.
  abbrev pub at_worker : String → Local P → Pool P → Pool P
  at_worker path local s = elim (lookup path s.workers) [
    | none ↦ s
    | some w ↦ handle local path w s
  ]

  abbrev pub after_submit : Option (ℕ × Pool P) → Pool P → Pool P
  after_submit none s = s
  after_submit (some (future, s')) s = s'

  unfoldable pub step : Event P → Pool P → Pool P
  step (submitted request) s = after_submit (submit request s) s
  step (at path local) s = at_worker path local s
  step closes s = record s { closing = true }

  unfoldable pub run : List (Event P) → Pool P → Pool P
  unfolding step
  run [] s = s
  run (event ∷ events) s = run events (step event s)
