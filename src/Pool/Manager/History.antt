-- ===== src/Pool/Manager/History.antt =====
-- What holds after every history of the pool.
use mt5_connector.Common.{
  Bool, Bool-cases, List, Option, Option-cases, String, [], arith, eqb_iff, false, inl, inr, nat_eq,
  none, refl, some, string_eq, subst, sym, ℕ, ◌+◌, ◌==◌, ◌∷◌, ◌≡◌,
}
use mt5_connector.Common.Dict.{Dict, insert, lookup, lookup-insert}
use mt5_connector.Pool.Health.Defs.{TerminalHealth, is_usable, new_board}
use mt5_connector.Pool.Manager.Answers.{
  on_answer-Moved, on_cancelled-Moved, on_drained-Moved, on_stopped-Moved, submit-HasCustody,
  on_drain_timeout-Moved,
}
use mt5_connector.Pool.Manager.Count.{
  in_workers, in_workers-insert, in_workers-insert_new, in_items,
}
use mt5_connector.Pool.Manager.Custody.{
  HasCustody, Moved, Moved-HasCustody, dropped, kept, owed, set_result-final, still, lost,
}
use mt5_connector.Pool.Manager.Defs.{
  Pool, Request, failure, new_item, quarantined_failure, submit, submit_to,
}
use mt5_connector.Pool.Manager.Events.{
  on_crashed-Moved, on_persisted-Moved, on_reaped-Moved, on_reproxied-Moved, on_restarted-Moved,
  on_rotated-Moved, on_spawned-Moved, on_started-Moved, on_taken-Moved, on_woken-Moved,
}
use mt5_connector.Pool.Manager.Moves.{Moved-if}
use mt5_connector.Pool.Manager.Steps.{
  Event, Local, after_submit, answers, at, at_worker, cancelled, closes, crashed, drained, handle,
  persisted, reaped, reproxied, restarted, rotated, run, spawned, started, step, stopped_one,
  submitted, taken, woken, timed_out_of_drain,
}
use mt5_connector.Pool.Protocol.{SyncResult, shutting_down}
use mt5_connector.Pool.Worker.{Proxy, Worker, new_worker}

module _ {P : Type 0} where
  -- `start` builds a worker for each path; `name` is the text of `w{index + 1}`.
  start_workers :
      (ℕ → String)
      → (String → Option Proxy)
      → ℕ
      → List String
      → Dict String (Worker P)
      → Dict String (Worker P)
  start_workers name proxy index [] workers = workers
  start_workers name proxy index (path ∷ paths) workers =
      start_workers name proxy (index + 1) paths
        (insert path (new_worker P (name (index + 1)) path (proxy path)) workers)

  -- The pool that `start` makes, before it spawns the workers.
  unfoldable pub new_pool :
      (ℕ → String) → (String → Option Proxy) → List String → ℕ → ℕ → Bool → Pool P
  unfolding start_workers new_board
  new_pool name proxy paths warmup max_task_retries has_registry = record {
    workers = start_workers name proxy 0 paths [];
    health = new_board paths warmup;
    pending = [];
    futures = [];
    delivered = [];
    abandoned = [];
    next_future = 0;
    next_sequence = 0;
    closing = false;
    max_task_retries = max_task_retries;
    has_registry = has_registry;
  }

  start_workers-empty :
      (name : ℕ → String) (proxy : String → Option Proxy) (index : ℕ) (paths : List String)
      (workers : Dict String (Worker P)) (future : ℕ)
      → in_workers future workers ≡ 0
      → in_workers future (start_workers name proxy index paths workers) ≡ 0
  unfolding start_workers
  start_workers-empty name proxy index [] workers future e = e
  start_workers-empty name proxy index (path ∷ paths) workers future e =
      let w = new_worker P (name (index + 1)) path (proxy path) in
      start_workers-empty name proxy (index + 1) paths (insert path w workers) future
        (elim (Option-cases (lookup path workers)) [
          | inl unknown ↦ omega (arith, in_workers-insert_new future path w workers unknown, e)
          | inr (old, found) ↦ omega (arith, in_workers-insert future path old w workers found, e)
        ])

  handle-Moved :
      (local : Local P) (path : String) (w : Worker P) (s : Pool P)
      → Moved path w s (handle local path w s)
  unfolding handle
  handle-Moved woken path w s = on_woken-Moved path w w.phase s refl
  handle-Moved taken path w s = on_taken-Moved path w w.phase s refl
  handle-Moved (started now) path w s = on_started-Moved now path w w.phase s refl
  handle-Moved (answers t answer) path w s = on_answer-Moved t answer path w w.phase s refl
  handle-Moved (rotated proxy) path w s = on_rotated-Moved proxy path w w.phase s refl
  handle-Moved (restarted starts) path w s = on_restarted-Moved starts path w w.phase s refl
  handle-Moved (crashed why) path w s = on_crashed-Moved why path w w.phase s refl
  handle-Moved persisted path w s = on_persisted-Moved path w w.phase s refl
  handle-Moved (reaped starts) path w s = on_reaped-Moved starts path w s
  handle-Moved (reproxied proxy starts) path w s = on_reproxied-Moved proxy starts path w s
  handle-Moved (spawned start) path w s = on_spawned-Moved start path w s
  handle-Moved cancelled path w s =
      Moved-if path w s _ _ s.closing (on_cancelled-Moved path w w.phase s refl) (still refl)
  handle-Moved stopped_one path w s =
      Moved-if path w s _ _ s.closing (on_stopped-Moved path w s) (still refl)
  handle-Moved drained path w s =
      Moved-if path w s _ _ s.closing (on_drained-Moved path w s) (still refl)
  handle-Moved timed_out_of_drain path w s =
      Moved-if path w s _ _ s.closing (on_drain_timeout-Moved path w w.phase s refl) (still refl)

  step-HasCustody : (event : Event P) (s : Pool P) → HasCustody s → HasCustody (step event s)
  unfolding step
  step-HasCustody (submitted request) s v = submit-HasCustody request s v
  step-HasCustody (at path local) s v = elim (Option-cases (lookup path s.workers)) [
    | inl unknown ↦ rw (unknown, at_worker) v
    | inr (w, found) ↦
        rw (found, at_worker)
          (Moved-HasCustody path w s (handle local path w s) found (handle-Moved local path w s) v)
  ]
  step-HasCustody closes s v = record { held = v.held; fresh = v.fresh }

  pub run-HasCustody :
      (events : List (Event P)) (s : Pool P) → HasCustody s → HasCustody (run events s)
  unfolding run
  run-HasCustody [] s v = v
  run-HasCustody (event ∷ events) s v =
      run-HasCustody events (step event s) (step-HasCustody event s v)

  new_pool-HasCustody :
      (name : ℕ → String) (proxy : String → Option Proxy) (paths : List String) (warmup retries : ℕ)
      (registry : Bool)
      → HasCustody (new_pool name proxy paths warmup retries registry)
  unfolding new_pool
  new_pool-HasCustody name proxy paths warmup retries registry = record {
    held = λ f. omega (arith, start_workers-empty name proxy 0 paths [] f refl);
    fresh = λ f h. refl;
  }

  -- After any history of a pool that has just been made, the item of a future that `submit` has
  -- returned stands in exactly one place while the future is not set: a queue, a coroutine, or the
  -- items that the drain timeout of `stop` has cancelled. It stands in none once the future is set,
  -- and a number that no future has stands nowhere.
  pub custody :
      (name : ℕ → String) (proxy : String → Option Proxy) (paths : List String) (warmup retries : ℕ)
      (registry : Bool) (events : List (Event P)) (future : ℕ)
      → let s = run events (new_pool name proxy paths warmup retries registry) in
        in_workers future s.workers + in_items future s.abandoned ≡ owed (lookup future s.futures)
  custody name proxy paths warmup retries registry events future =
      (run-HasCustody events _ (new_pool-HasCustody name proxy paths warmup retries registry)).held
        future

  Moved-final :
      (path : String) (w : Worker P) (s s' : Pool P) (future : ℕ) (result : SyncResult P)
      → Moved path w s s'
      → lookup future s.futures ≡ some (some result)
      → lookup future s'.futures ≡ some (some result)
  Moved-final path w s s' future result (still e) h =
      subst (λ t. lookup future t.futures ≡ some (some result)) (sym e) h
  Moved-final path w s s' future result (kept w' put same futures next) h = rw futures h
  Moved-final path w s s' future result (lost w' item put drops futures next gone) h = rw futures h
  Moved-final path w s s' future result (dropped w' item other put drops futures next) h =
      rw futures (set_result-final item.future future other result s.futures h)

  submit_to-futures :
      (request : Request) (w : Worker P) (h : TerminalHealth) (s : Pool P)
      → (entry : Option (SyncResult P)) × ((submit_to request w h s).futures
          ≡ insert s.next_future entry s.futures)
  submit_to-futures request w h s = elim (Bool-cases s.closing) [
    | inl closed ↦
        (some (failure w (new_item request.task s.next_future) shutting_down), ground arith)
    | inr open_pool ↦ elim (Bool-cases (is_usable h)) [
      | inl usable ↦ (none, ground arith)
      | inr bad ↦ (some (quarantined_failure w (new_item request.task s.next_future)), ground arith)
    ]
  ]

  submit-final :
      (request : Request) (s : Pool P) (future : ℕ) (result : SyncResult P)
      → HasCustody s
      → lookup future s.futures ≡ some (some result)
      → lookup future (after_submit (submit request s) s).futures ≡ some (some result)
  unfolding submit
  submit-final request s future result v h =
      let other : (future == s.next_future) ≡ false =
        ground (arith, h, v.fresh s.next_future, eqb_iff future s.next_future) in
      elim (Option-cases (lookup request.path s.workers)) [
        | inl unknown ↦ rw (unknown, submit) h
        | inr (w, found) ↦ elim (Option-cases (lookup request.path s.health.terminals)) [
          | inl unknown ↦ rw (found, unknown, submit) h
          | inr (t, known) ↦
              let (entry, e) = submit_to-futures request w t s in
              rw (found, known, submit)
                (rw (e, lookup-insert future s.next_future entry s.futures, other) h)
        ]
      ]

  step-final :
      (event : Event P) (s : Pool P) (future : ℕ) (result : SyncResult P)
      → HasCustody s
      → lookup future s.futures ≡ some (some result)
      → lookup future (step event s).futures ≡ some (some result)
  unfolding step
  step-final (submitted request) s future result v h = submit-final request s future result v h
  step-final (at path local) s future result v h = elim (Option-cases (lookup path s.workers)) [
    | inl unknown ↦ rw (unknown, at_worker) h
    | inr (w, found) ↦
        rw (found, at_worker)
          (Moved-final path w s (handle local path w s) future result (handle-Moved local path w s)
            h)
  ]
  step-final closes s future result v h = h

  run-final :
      (events : List (Event P)) (s : Pool P) (future : ℕ) (result : SyncResult P)
      → HasCustody s
      → lookup future s.futures ≡ some (some result)
      → lookup future (run events s).futures ≡ some (some result)
  unfolding run
  run-final [] s future result v h = h
  run-final (event ∷ events) s future result v h =
      run-final events (step event s) future result (step-HasCustody event s v)
        (step-final event s future result v h)

  -- A future is answered once: a result that a future of a new pool has after some history is its
  -- result after every longer one.
  pub results_final :
      (name : ℕ → String) (proxy : String → Option Proxy) (paths : List String) (warmup retries : ℕ)
      (registry : Bool) (before later : List (Event P)) (future : ℕ) (result : SyncResult P)
      → let s = run before (new_pool name proxy paths warmup retries registry) in
        lookup future s.futures ≡ some (some result)
        → lookup future (run later s).futures ≡ some (some result)
  results_final name proxy paths warmup retries registry before later future result h =
      run-final later _ future result
        (run-HasCustody before _ (new_pool-HasCustody name proxy paths warmup retries registry)) h
