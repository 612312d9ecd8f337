-- ===== src/Pool/Manager/Events.antt =====
-- Every event moves items only as `Moved` allows, so custody holds in every history.
use mt5_connector.Common.{Option, String, [], ap, arith, none, not, refl, some, ℕ, ◌&&◌, ◌∷◌, ◌≡◌}
use mt5_connector.Pool.Manager.Count.{in_phase, in_queue, one_for}
use mt5_connector.Pool.Manager.Custody.{Moved, dropped, kept, still}
use mt5_connector.Pool.Manager.Defs.{Pool, resolve}
use mt5_connector.Pool.Manager.Moves.{
  Moved-if, restart-SameWork, settle-Moved, settle_start-SameWork, spawn-SameWork,
}
use mt5_connector.Pool.Manager.Run.{crashed_item, drain_next, take_item}
use mt5_connector.Pool.Manager.Steps.{
  on_crashed, on_persisted, on_reaped, on_reproxied, on_restarted, on_rotated, on_spawned,
  on_started, on_taken, on_woken,
}
use mt5_connector.Pool.Protocol.{SyncResult}
use mt5_connector.Pool.Worker.{
  Phase, Proxy, QueuedTask, Start, TaskQueue, Worker, claim, draining, getting, holding, persisting,
  restarting_for, rotating, running, waiting,
}

module _ {P : Type 0} where
  pub on_woken-Moved :
      (path : String) (w : Worker P) (phase : Phase P) (s : Pool P)
      → w.phase ≡ phase
      → Moved path w s (on_woken path w phase s)
  unfolding on_woken
  on_woken-Moved path w waiting s e =
      Moved-if path w s _ _ (w.ready && not s.closing)
        (kept _ refl (λ f. omega (arith, ap (in_phase f) e)) refl refl) (still refl)
  on_woken-Moved path w _ s e = still refl

  take_item-Moved :
      (path : String) (w : Worker P) (queue : TaskQueue) (s : Pool P)
      → w.queue ≡ queue
      → w.phase ≡ getting
      → Moved path w s (take_item path w s)
  take_item-Moved path w [] s q e = rw (q, take_item) (still refl)
  take_item-Moved path w (entry ∷ queue) s q e =
      rw (q, take_item)
        (kept _ refl (λ f. omega (arith, ap (in_phase f) e, ap (in_queue f) q)) refl refl)

  pub on_taken-Moved :
      (path : String) (w : Worker P) (phase : Phase P) (s : Pool P)
      → w.phase ≡ phase
      → Moved path w s (on_taken path w phase s)
  unfolding on_taken
  on_taken-Moved path w getting s e = take_item-Moved path w w.queue s refl e
  on_taken-Moved path w _ s e = still refl

  pub on_started-Moved :
      (now : ℕ) (path : String) (w : Worker P) (phase : Phase P) (s : Pool P)
      → w.phase ≡ phase
      → Moved path w s (on_started now path w phase s)
  unfolding on_started claim
  on_started-Moved now path w (holding item) s e =
      Moved-if path w s _ _ w.ready (kept _ refl (λ f. omega (arith, ap (in_phase f) e)) refl refl)
        (still refl)
  on_started-Moved now path w _ s e = still refl

  pub on_rotated-Moved :
      (proxy : Option Proxy) (path : String) (w : Worker P) (phase : Phase P) (s : Pool P)
      → w.phase ≡ phase
      → Moved path w s (on_rotated proxy path w phase s)
  unfolding on_rotated
  on_rotated-Moved proxy path w (rotating item result) s e =
      kept _ refl (λ f. omega (arith, ap (in_phase f) e)) refl refl
  on_rotated-Moved proxy path w _ s e = still refl

  pub on_restarted-Moved :
      (starts : Start × Start × Start) (path : String) (w : Worker P) (phase : Phase P) (s : Pool P)
      → w.phase ≡ phase
      → Moved path w s (on_restarted starts path w phase s)
  unfolding on_restarted
  on_restarted-Moved starts path w (restarting_for item result) s e =
      settle-Moved path w _ item result s s refl refl refl (settle_start-SameWork starts w).0
        (λ f. ap (in_phase f) e)
  on_restarted-Moved starts path w _ s e = still refl

  crashed_item-Moved :
      (why path : String) (w : Worker P) (item : QueuedTask) (s : Pool P)
      → ((future : ℕ) → in_phase future w.phase ≡ one_for future item)
      → Moved path w s (crashed_item path w item why s)
  crashed_item-Moved why path w item s h = kept _ refl (λ f. omega (arith, h f)) refl refl

  pub on_crashed-Moved :
      (why path : String) (w : Worker P) (phase : Phase P) (s : Pool P)
      → w.phase ≡ phase
      → Moved path w s (on_crashed why path w phase s)
  unfolding on_crashed
  on_crashed-Moved why path w (running item) s e =
      crashed_item-Moved why path w item s (λ f. ap (in_phase f) e)
  on_crashed-Moved why path w (rotating item _) s e =
      crashed_item-Moved why path w item s (λ f. ap (in_phase f) e)
  on_crashed-Moved why path w (restarting_for item _) s e =
      crashed_item-Moved why path w item s (λ f. ap (in_phase f) e)
  on_crashed-Moved why path w _ s e = still refl

  drain_next-Moved :
      (path : String) (w : Worker P) (queue : TaskQueue) (item : QueuedTask) (result : SyncResult P)
      (s : Pool P)
      → w.queue ≡ queue
      → ((future : ℕ) → in_phase future w.phase ≡ one_for future item)
      → Moved path w s (resolve item result (drain_next path w s))
  unfolding resolve
  drain_next-Moved path w [] item result s q h =
      rw (q, drain_next)
        (dropped _ item result refl (λ f. omega (arith, h f, ap (in_queue f) q)) refl refl)
  drain_next-Moved path w (entry ∷ queue) item result s q h =
      rw (q, drain_next)
        (dropped _ item result refl (λ f. omega (arith, h f, ap (in_queue f) q)) refl refl)

  pub on_persisted-Moved :
      (path : String) (w : Worker P) (phase : Phase P) (s : Pool P)
      → w.phase ≡ phase
      → Moved path w s (on_persisted path w phase s)
  unfolding on_persisted resolve
  on_persisted-Moved path w (persisting item result) s e =
      dropped _ item result refl (λ f. omega (arith, ap (in_phase f) e)) refl refl
  on_persisted-Moved path w (draining item result) s e =
      drain_next-Moved path w w.queue item result s refl (λ f. ap (in_phase f) e)
  on_persisted-Moved path w _ s e = still refl

  pub on_reaped-Moved :
      (starts : Start × Start × Start) (path : String) (w : Worker P) (s : Pool P)
      → Moved path w s (on_reaped starts path w s)
  unfolding on_reaped
  on_reaped-Moved starts path w s =
      let same = restart-SameWork starts w in
      Moved-if path w s _ _ _
        (kept _ refl (λ f. omega (arith, ap (in_queue f) same.0, ap (in_phase f) same.1)) refl refl)
        (still refl)

  pub on_reproxied-Moved :
      (proxy : Option Proxy) (starts : Start × Start × Start) (path : String) (w : Worker P)
      (s : Pool P)
      → Moved path w s (on_reproxied proxy starts path w s)
  unfolding on_reproxied
  on_reproxied-Moved none starts path w s = still refl
  on_reproxied-Moved (some proxy) starts path w s =
      let same = settle_start-SameWork starts (record w { proxy = some proxy }) in
      Moved-if path w s _ _ _
        (kept _ refl (λ f. omega (arith, ap (in_queue f) same.0, ap (in_phase f) same.1)) refl refl)
        (still refl)

  pub on_spawned-Moved :
      (start : Start) (path : String) (w : Worker P) (s : Pool P)
      → Moved path w s (on_spawned start path w s)
  unfolding on_spawned
  on_spawned-Moved start path w s =
      let same = spawn-SameWork start w in
      Moved-if path w s _ _ _
        (kept _ refl (λ f. omega (arith, ap (in_queue f) same.0, ap (in_phase f) same.1)) refl refl)
        (still refl)
