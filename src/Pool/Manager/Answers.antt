-- ===== src/Pool/Manager/Answers.antt =====
-- The answer of a worker, and the end of the pool, as moves.
use mt5_connector.Common.{
  Bool, Option-cases, String, [], ap, arith, eqb_iff, false, if◌then◌else◌, inl, inr, nat_eq, none,
  not, refl, some, string_eq, true, ℕ, ◌&&◌, ◌+◌, ◌∷◌, ◌≡◌,
}
use mt5_connector.Common.Dict.{lookup, lookup-insert}
use mt5_connector.Pool.Health.Defs.{HealthBoard, TerminalHealth, is_usable}
use mt5_connector.Pool.Manager.Count.{
  in_phase, in_queue, in_queue-enqueue_at, in_worker, in_workers-insert, one_for,
}
use mt5_connector.Pool.Manager.Custody.{HasCustody, Moved, dropped, kept, still, lost}
use mt5_connector.Pool.Manager.Defs.{
  Pool, Request, add_future, enqueue, failure, new_item, quarantined_failure, resolve, submit,
  submit_to,
}
use mt5_connector.Pool.Manager.Moves.{Moved-if, SameWork, settle-Moved}
use mt5_connector.Pool.Manager.Run.{
  Answer, Times, after_record, answer_item, arrived, lost, receive, record_health, too_late,
}
use mt5_connector.Pool.Manager.Steps.{
  after_submit, on_answer, on_cancelled, on_drained, on_stopped, on_abandoned, on_drain_timeout,
}
use mt5_connector.Pool.Protocol.{SyncResult, shutting_down}
use mt5_connector.Pool.Worker.{
  Phase, QueuedTask, TaskQueue, Worker, getting, holding, mark_idle, release, running, rotating,
  restarting_for, persisting, draining,
}

module _ {P : Type 0} where
  receive-SameWork :
      (w : Worker P) (item : QueuedTask) (answer : Answer P) → SameWork w (receive w item answer).2
  receive-SameWork w item (arrived result) = (refl, refl)
  receive-SameWork w item too_late = (refl, refl)
  receive-SameWork w item (lost why) = (refl, refl)

  -- `v` is the worker with what `_run_item` has changed on it so far.
  after_record-Moved :
      (condemned alive : Bool) (path : String) (w v : Worker P) (item : QueuedTask)
      (result : SyncResult P) (s : Pool P) (board : HealthBoard)
      → v.queue ≡ w.queue
      → ((future : ℕ) → in_phase future w.phase ≡ one_for future item)
      → Moved path w s
          (after_record condemned alive path v item result (record s { health = board }))
  after_record-Moved true alive path w v item result s board queue h =
      kept _ refl (λ f. omega (arith, h f, ap (in_queue f) queue)) refl refl
  after_record-Moved false alive path w v item result s board queue h =
      let moved : (f : ℕ) → in_queue f v.queue + one_for f item ≡ in_worker f w =
        λ f. omega (arith, h f, ap (in_queue f) queue) in
      Moved-if path w s _ _ (result.proxy_dead && s.has_registry) (kept _ refl moved refl refl) (
        Moved-if path w s _ _ (not alive) (kept _ refl moved refl refl) (
          settle-Moved path w (mark_idle v) item result s (record s { health = board }) refl refl
            refl queue h))

  answer_item-Moved :
      (t : Times) (path : String) (w : Worker P) (item : QueuedTask) (answer : Answer P)
      (s : Pool P)
      → ((future : ℕ) → in_phase future w.phase ≡ one_for future item)
      → Moved path w s (answer_item t path w item answer s)
  unfolding release resolve
  answer_item-Moved t path w item answer s h =
      let queue = (receive-SameWork w item answer).0 in
      let (result, alive, w1) = receive w item answer in
      let (condemned, board) = record_health t path item.task.server result s.health in
      Moved-if path w s _ _ s.closing
        (dropped _ item _ refl (λ f. omega (arith, h f, ap (in_queue f) queue)) refl refl)
        (after_record-Moved condemned (alive && not result.terminal_lost) path w (release result w1)
          item result s board queue h)

  pub on_answer-Moved :
      (t : Times) (answer : Answer P) (path : String) (w : Worker P) (phase : Phase P) (s : Pool P)
      → w.phase ≡ phase
      → Moved path w s (on_answer t answer path w phase s)
  unfolding on_answer
  on_answer-Moved t answer path w (running item) s e =
      answer_item-Moved t path w item answer s (λ f. ap (in_phase f) e)
  on_answer-Moved t answer path w _ s e = still refl

  pub on_cancelled-Moved :
      (path : String) (w : Worker P) (phase : Phase P) (s : Pool P)
      → w.phase ≡ phase
      → Moved path w s (on_cancelled path w phase s)
  unfolding on_cancelled resolve
  on_cancelled-Moved path w (holding item) s e =
      dropped _ item _ refl (λ f. omega (arith, ap (in_phase f) e)) refl refl
  on_cancelled-Moved path w getting s e =
      kept _ refl (λ f. omega (arith, ap (in_phase f) e)) refl refl
  on_cancelled-Moved path w _ s e = still refl

  pub on_stopped-Moved :
      (path : String) (w : Worker P) (s : Pool P) → Moved path w s (on_stopped path w s)
  unfolding on_stopped
  on_stopped-Moved path w s = kept _ refl (λ f. refl) refl refl

  on_abandoned-Moved :
      (item : QueuedTask) (path : String) (w : Worker P) (s : Pool P)
      → ((future : ℕ) → in_phase future w.phase ≡ one_for future item)
      → Moved path w s (on_abandoned item path w s)
  unfolding on_abandoned
  on_abandoned-Moved item path w s h = lost _ item refl (λ f. omega (arith, h f)) refl refl refl

  pub on_drain_timeout-Moved :
      (path : String) (w : Worker P) (phase : Phase P) (s : Pool P)
      → w.phase ≡ phase
      → Moved path w s (on_drain_timeout path w phase s)
  unfolding on_drain_timeout
  on_drain_timeout-Moved path w (running item) s e =
      on_abandoned-Moved item path w s (λ f. ap (in_phase f) e)
  on_drain_timeout-Moved path w (rotating item _) s e =
      on_abandoned-Moved item path w s (λ f. ap (in_phase f) e)
  on_drain_timeout-Moved path w (restarting_for item _) s e =
      on_abandoned-Moved item path w s (λ f. ap (in_phase f) e)
  on_drain_timeout-Moved path w (persisting item _) s e =
      on_abandoned-Moved item path w s (λ f. ap (in_phase f) e)
  on_drain_timeout-Moved path w (draining item _) s e =
      on_abandoned-Moved item path w s (λ f. ap (in_phase f) e)
  on_drain_timeout-Moved path w _ s e = still refl

  drained-Moved :
      (path : String) (w : Worker P) (queue : TaskQueue) (s : Pool P)
      → w.queue ≡ queue
      → Moved path w s (on_drained path w s)
  unfolding on_drained resolve
  drained-Moved path w [] s q = rw (q, on_drained) (still refl)
  drained-Moved path w (entry ∷ queue) s q =
      rw (q, on_drained)
        (dropped _ entry.2 _ refl (λ f. omega (arith, ap (in_queue f) q)) refl refl)

  pub on_drained-Moved :
      (path : String) (w : Worker P) (s : Pool P) → Moved path w s (on_drained path w s)
  on_drained-Moved path w s = drained-Moved path w w.queue s refl

  -- A future that `submit` sets at once.
  set_at_once :
      (result : SyncResult P) (s : Pool P) → HasCustody s → HasCustody (add_future (some result) s)
  set_at_once result s v =
      let unknown = v.fresh s.next_future (omega arith) in
      record {
        held = λ f.
            rw (lookup-insert f s.next_future (some result) s.futures)
              (ground (arith, v.held f, unknown, eqb_iff f s.next_future));
        fresh = λ f h.
            rw (lookup-insert f s.next_future (some result) s.futures)
              (ground (arith, v.fresh f, eqb_iff f s.next_future));
      }

  custody_if :
      (b : Bool) (a c : Pool P) → HasCustody a → HasCustody c → HasCustody (if b then a else c)
  custody_if true a c yes_case no_case = yes_case
  custody_if false a c yes_case no_case = no_case

  -- A submission makes one future, and queues one item for it unless the future is set at once.
  submit_to-HasCustody :
      (request : Request) (w : Worker P) (h : TerminalHealth) (s : Pool P)
      → lookup request.path s.workers ≡ some w
      → HasCustody s
      → HasCustody (submit_to request w h s)
  unfolding enqueue
  submit_to-HasCustody request w h s found v =
      let item = new_item request.task s.next_future in
      custody_if s.closing _ _ (set_at_once (failure w item shutting_down) s v) (
        custody_if (not (is_usable h)) _ _ (set_at_once (quarantined_failure w item) s v) (record {
          held = λ f. rw (lookup-insert f s.next_future none s.futures) (
              ground (
                arith,
                v.held f,
                v.fresh s.next_future,
                eqb_iff f s.next_future,
                in_workers-insert f request.path w (enqueue s.next_sequence item w) s.workers found,
                in_queue-enqueue_at f item.priority s.next_sequence item w.queue,
              ));
          fresh = λ f h'.
              rw (lookup-insert f s.next_future none s.futures)
                (ground (arith, v.fresh f, eqb_iff f s.next_future));
        }))

  pub submit-HasCustody :
      (request : Request) (s : Pool P)
      → HasCustody s
      → HasCustody (after_submit (submit request s) s)
  unfolding submit
  submit-HasCustody request s v = elim (Option-cases (lookup request.path s.workers)) [
    | inl unknown ↦ rw (unknown, submit) v
    | inr (w, found) ↦ elim (Option-cases (lookup request.path s.health.terminals)) [
      | inl unknown ↦ rw (found, unknown, submit) v
      | inr (h, known) ↦ rw (found, known, submit) (submit_to-HasCustody request w h s found v)
    ]
  ]
