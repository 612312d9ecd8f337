-- ===== src/Orchestrator/Report.antt =====
-- schemas/pool.py: the health report of the pool, and what `inspect` of pool/health.py hands to it.
-- Times are microseconds, and a problem is a constructor with what its text prints.
use mathlib.Core.Option
use mt5_connector.Common.{
  Bool, List, Option, String, [], count_if, elem, false, if◌then◌else◌, length, ltb, nat_eq, none,
  not, some, string_eq, true, ℕ, ◌&&◌, ◌*◌, ◌++◌, ◌+◌, ◌==◌, ◌∷◌,
}
use mt5_connector.Common.Dict.{Dict, lookup}
use mt5_connector.Mt5api.Terminal.Start.{Marker}
use mt5_connector.Pool.Health.Defs.{
  Reason, TerminalHealth, TerminalState, is_quarantined, is_suspect, is_usable,
}
use mt5_connector.Pool.Health.Record.{quarantine}
use mt5_connector.Pool.Manager.Defs.{Pool}
use mt5_connector.Pool.Manager.Upkeep.Boards.{is_recloning}
use mt5_connector.Pool.Protocol.{ErrorText, WorkerState, failed}
use mt5_connector.Pool.Worker.{Proxy, Worker}

-- `TerminalInspection`
pub record TerminalInspection : Type 0 where
  pub health : TerminalHealth
  pub pids : List ℕ
  pub marker : Option Marker
  pub launched_at : Option ℕ

-- `PoolInspection`; an updater is its process and its age
pub record PoolInspection : Type 0 where
  pub terminals : List TerminalInspection
  pub quorum : Option (String × String)
  pub master_build : Option String
  pub updaters : List (ℕ × ℕ)

pub data Problem : Type 0 where
  quarantined_since : ℕ → Option Reason → Problem
  now_recloning : Problem
  reclone_had_failed : String → Problem
  suspected : ℕ → ℕ → Problem
  differs_from_quorum : Problem
  not_launched_by_worker : Problem
  worker_had_failed : Option ErrorText → Problem

pub data PoolProblem : Type 0 where
  master_is_behind : PoolProblem
  stale_updaters : ℕ → PoolProblem
  stranded_accounts : ℕ → PoolProblem
  dispatcher_died : PoolProblem

-- `ProxyHealth`
pub record ProxyHealth : Type 0 where
  pub assigned : Option Proxy
  -- the proxy that the marker names, where there is a marker
  pub marker : Option (Option Proxy)
  pub bound_pid : Option ℕ
  pub bound_pid_alive : Bool

-- `TerminalHealthResponse`
pub record TerminalView : Type 0 where
  pub worker_id : String
  pub terminal_path : String
  pub state : TerminalState
  pub worker_state : WorkerState
  pub build : Option String
  pub build_is_quorum : Option Bool
  pub pids : List ℕ
  pub launched_at : Option ℕ
  pub last_success_at : Option ℕ
  pub consecutive_failures : ℕ
  pub hard_failures : ℕ
  pub proxy : ProxyHealth
  pub quarantined_at : Option ℕ
  pub quarantine_reason : Option Reason
  pub reclones : ℕ
  pub last_reclone_at : Option ℕ
  pub reclone_error : Option String
  pub problems : List Problem

-- `PoolHealthResponse`
pub record PoolReport : Type 0 where
  pub status : String
  pub quorum_build : Option String
  pub master_build : Option String
  pub updaters : ℕ
  pub terminals : List TerminalView
  pub problems : List PoolProblem

-- `_UPDATER_STALE_SECONDS`
abbrev pub updater_stale : ℕ
updater_stale = 600 * 1_000_000

-- A text counts as true if it is there and not empty.
abbrev pub truthy : Option String → Bool
truthy none = false
truthy (some text) = not (text == "")

abbrev pub same_build : Option String → Option String → Bool
same_build (some a) (some b) = a == b
same_build _ _ = false

-- `quorum and build and build != quorum`
abbrev pub is_other_build : Option String → Option String → Bool
is_other_build quorum build = truthy quorum && truthy build && not (same_build build quorum)

abbrev pub is_failed_state : WorkerState → Bool
is_failed_state failed = true
is_failed_state _ = false

abbrev pub is_bound : Option Marker → List ℕ → Bool
is_bound none pids = false
is_bound (some marker) pids = elim marker.pid [ none ↦ false | some pid ↦ elem pid pids ]

abbrev pub is_empty {ℓ} : {A : Type ℓ} → List A → Bool
is_empty [] = true
is_empty (x ∷ xs) = false

-- An entry of a list of problems, if there is that problem.
abbrev pub noted {ℓ} : {A : Type ℓ} → Bool → A → List A → List A
noted true problem rest = problem ∷ rest
noted false problem rest = rest

abbrev pub text_of : Option String → String
text_of none = ""
text_of (some text) = text

-- The quarantine of a terminal, which prints its time: `none` is the TypeError of a missing one.
abbrev pub quarantine_note : TerminalHealth → Option (List Problem)
quarantine_note h =
    if is_quarantined h.state
    then Option.map (λ at. quarantined_since at h.quarantine_reason ∷ []) h.quarantined_at
    else some []

abbrev pub add_view : Option TerminalView → Option (List TerminalView) → Option (List TerminalView)
add_view none rest = none
add_view (some view) none = none
add_view (some view) (some views) = some (view ∷ views)

module _ {P : Type 0} (quorum : Option String) where
  -- The problems of a terminal after its quarantine.
  abbrev pub other_problems : TerminalInspection → Worker P → List Problem
  other_problems item w =
      let h = item.health in
      noted (is_recloning h.state) now_recloning (
        noted (truthy h.reclone_error) (reclone_had_failed (text_of h.reclone_error)) (
          noted (is_suspect h.state) (suspected h.strikes h.hard_strikes) (
            noted (is_other_build quorum h.build) differs_from_quorum (
              noted (not (is_empty item.pids) && not (is_bound item.marker item.pids))
                not_launched_by_worker
                (noted (is_failed_state w.state && is_usable h) (worker_had_failed w.last_error)
                  [])))))

  -- `TerminalHealthResponse(...)`
  abbrev pub view_with : TerminalInspection → Worker P → List Problem → TerminalView
  view_with item w problems =
      let h = item.health in
      record {
        worker_id = w.worker_id;
        terminal_path = h.terminal_path;
        state = h.state;
        worker_state = w.state;
        build = h.build;
        build_is_quorum =
            if truthy quorum && truthy h.build then some (same_build h.build quorum) else none;
        pids = item.pids;
        launched_at = item.launched_at;
        last_success_at = h.last_success_at;
        consecutive_failures = h.strikes;
        hard_failures = h.hard_strikes;
        proxy = record {
          assigned = w.proxy;
          marker = Option.map (λ marker. marker.proxy) item.marker;
          bound_pid = elim item.marker [ none ↦ none | some marker ↦ marker.pid ];
          bound_pid_alive = is_bound item.marker item.pids;
        };
        quarantined_at = h.quarantined_at;
        quarantine_reason = h.quarantine_reason;
        reclones = h.reclones;
        last_reclone_at = h.last_reclone_at;
        reclone_error = h.reclone_error;
        problems = problems;
      }

  -- One round of the loop: `none` where the worker is missing (a KeyError) or the time of a
  -- quarantine is.
  abbrev pub view_from :
      TerminalInspection → Option (Worker P) → Option (List Problem) → Option TerminalView
  view_from item none quarantine = none
  view_from item (some w) none = none
  view_from item (some w) (some quarantine) =
      some (view_with item w (quarantine ++ other_problems item w))

  unfoldable pub terminal_views :
      Dict String (Worker P) → List TerminalInspection → Option (List TerminalView)
  terminal_views workers [] = some []
  terminal_views workers (item ∷ items) =
      add_view
        (view_from item (lookup item.health.terminal_path workers) (quarantine_note item.health))
        (terminal_views workers items)

-- The accounts of the terminals that are quarantined.
unfoldable pub stranded : Dict String ℕ → List TerminalInspection → ℕ
stranded assigned [] = 0
stranded assigned (item ∷ items) =
    let rest = stranded assigned items in
    if is_quarantined item.health.state
    then elim (lookup item.health.terminal_path assigned) [ none ↦ rest | some n ↦ n + rest ]
    else rest

abbrev pub quorum_build_of : PoolInspection → Option String
quorum_build_of inspection = Option.map (λ q. q.0) inspection.quorum

abbrev pub stale_count : List (ℕ × ℕ) → ℕ
stale_count updaters = count_if (λ updater. ltb updater_stale updater.1) updaters

abbrev pub pool_problems : Bool → PoolInspection → Dict String ℕ → List PoolProblem
pool_problems alive inspection assigned =
    let stale = stale_count inspection.updaters in
    let lost = stranded assigned inspection.terminals in
    noted (is_other_build (quorum_build_of inspection) inspection.master_build) master_is_behind (
      noted (ltb 0 stale) (stale_updaters stale)
        (noted (ltb 0 lost) (stranded_accounts lost) (noted (not alive) dispatcher_died [])))

-- `pool_health_to_response`, on whether the dispatchers are alive
unfoldable pub pool_health_to_response :
    {P : Type 0} → Pool P → Bool → PoolInspection → Dict String ℕ → String → Option PoolReport
unfolding stranded terminal_views
pool_health_to_response s alive inspection assigned status =
    Option.map
      (λ views. record {
        status = status;
        quorum_build = quorum_build_of inspection;
        master_build = inspection.master_build;
        updaters = length inspection.updaters;
        terminals = views;
        problems = pool_problems alive inspection assigned;
      })
      (terminal_views (quorum_build_of inspection) s.workers inspection.terminals)
