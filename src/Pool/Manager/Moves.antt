-- ===== src/Pool/Manager/Moves.antt =====
-- Each event of a worker moves its items within the worker, or resolves one that leaves it.
use mt5_connector.Common.{
  Bool, Bool-cases, List, String, [], ap, arith, false, if◌then◌else◌, inl, inr, nat_eq, refl,
  string_eq, true, ℕ, ◌+◌, ◌∷◌, ◌≡◌,
}
use mt5_connector.Common.Dict.{insert}
use mt5_connector.Pool.Manager.Count.{
  in_phase, in_queue, in_queue-enqueue_at, one_for, one_for_number,
}
use mt5_connector.Pool.Manager.Custody.{Moved, kept}
use mt5_connector.Pool.Manager.Defs.{Pool, enqueue, should_retry}
use mt5_connector.Pool.Manager.Run.{settle, settle_start}
use mt5_connector.Pool.Protocol.{SyncResult}
use mt5_connector.Pool.Worker.{
  QueuedTask, Start, Worker, answered, did_not_start, restart, restart_loop, spawn, would_not_spawn,
}

module _ {P : Type 0} where
  pub Moved-if :
      (path : String) (w : Worker P) (s a c : Pool P) (b : Bool)
      → Moved path w s a
      → Moved path w s c
      → Moved path w s (if b then a else c)
  Moved-if path w s a c true yes_case no_case = yes_case
  Moved-if path w s a c false yes_case no_case = no_case

  -- The queue and the phase of a worker are left alone.
  abbrev pub SameWork : Worker P → Worker P → Type 0
  SameWork w w' = (w'.queue ≡ w.queue) × (w'.phase ≡ w.phase)

  pub spawn-SameWork : (start : Start) (w : Worker P) → SameWork w (spawn start w).0
  unfolding spawn
  spawn-SameWork (would_not_spawn why) w = (refl, refl)
  spawn-SameWork (did_not_start _ _ why) w = (refl, refl)
  spawn-SameWork (answered _ _ who) w = (ground arith, ground arith)

  restart_loop-SameWork :
      (starts : List Start) (w : Worker P) → SameWork w (restart_loop starts w).0
  unfolding restart_loop
  restart_loop-SameWork [] w = (refl, refl)
  restart_loop-SameWork (start ∷ starts) w =
      let w1 = record w { restarts = w.restarts + 1 } in
      let tried = spawn-SameWork start w1 in
      let rest = restart_loop-SameWork starts (spawn start w1).0 in
      (ground (arith, tried, rest), ground (arith, tried, rest))

  pub restart-SameWork :
      (starts : Start × Start × Start) (w : Worker P) → SameWork w (restart starts w).0
  unfolding restart
  restart-SameWork (first, second, third) w = restart_loop-SameWork (first ∷ second ∷ third ∷ []) _

  pub settle_start-SameWork :
      (starts : Start × Start × Start) (w : Worker P) → SameWork w (settle_start (restart starts w))
  settle_start-SameWork starts w =
      let same = restart-SameWork starts w in (ground (arith, same), ground (arith, same))

  -- The item that `_should_retry` may queue again is for the same future.
  should_retry-future :
      (limit : ℕ) (item : QueuedTask) (result : SyncResult P)
      → (should_retry limit item result).1.future ≡ item.future
  unfolding should_retry
  should_retry-future limit item result = ground arith

  -- The last step of a task: `v` is the worker with what `_run_item` has changed on it so far.
  pub settle-Moved :
      (path : String) (w v : Worker P) (item : QueuedTask) (result : SyncResult P) (s s' : Pool P)
      → s'.workers ≡ s.workers
      → s'.futures ≡ s.futures
      → ◌≡◌ {A = ℕ × List QueuedTask} (s'.next_future, s'.abandoned) (s.next_future, s.abandoned)
      → v.queue ≡ w.queue
      → ((future : ℕ) → in_phase future w.phase ≡ one_for future item)
      → Moved path w s (settle path v item result s')
  unfolding enqueue
  settle-Moved path w v item result s s' workers futures next queue phase =
      let again = (should_retry s'.max_task_retries item result).0 in
      let item' = (should_retry s'.max_task_retries item result).1 in
      let same = should_retry-future s'.max_task_retries item result in
      let same_for : (f : ℕ) → one_for f item' ≡ one_for f item =
        λ f. ap (λ (n : ℕ). one_for_number f n) same in
      elim (Bool-cases again) [
        | inl retry ↦
            rw (retry, settle)
              (kept _ (ap (insert path _) workers)
                (λ f. omega (
                  arith,
                  in_queue-enqueue_at f item'.priority s'.next_sequence item' v.queue,
                  ap (in_queue f) queue,
                  phase f,
                  same_for f,
                ))
                futures next)
        | inr over ↦
            rw (over, settle)
              (kept _ (ap (insert path _) workers)
                (λ f. omega (arith, ap (in_queue f) queue, phase f, same_for f)) futures next)
      ]
