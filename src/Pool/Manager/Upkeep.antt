-- ===== src/Pool/Manager/Upkeep.antt =====
-- The upkeep of the pool in pool/manager.py: recloning, the refresh of the master, and the digest.
-- Each function covers the code between two `await`s, but for the read of the master's build, which
-- is taken to be done at once; days are numbers.
pub mod Boards
pub mod Reclone
pub mod Exclusive
pub mod Tests
use mt5_connector.Common.{
  Bool, List, Option, String, [], false, find, if◌then◌else◌, keep, map, nat_eq, none, not, some,
  string_eq, true, ℕ, ◌&&◌, ◌==◌, ◌||◌, ◌∷◌,
}
use mt5_connector.Common.Dict.{lookup}
use mt5_connector.Pool.Health.Board.{
  due_for_reclone, mark_reclone_failed, mark_recloned, mark_recloning, quorum,
}
use mt5_connector.Pool.Health.Defs.{HealthBoard, Tally, TerminalState, is_healthy, no_tally}
use mt5_connector.Pool.Health.Record.{record_result}
use mt5_connector.Pool.Manager.Defs.{Pool, put_worker}
use mt5_connector.Pool.Protocol.{SyncResult, idle, restarting}
use mt5_connector.Pool.Worker.{Start, Worker, mark_idle, restart, terminate}

-- `_reclone_lock`: free, or held for the reclone of a terminal or for the refresh of the master.
pub data Lock : Type 0 where
  unlocked : Lock
  for_reclone : String → Lock
  for_refresh : String → Lock

-- What `_alert` is called with.
pub data Alert : Type 0 where
  reclone_failed_alert : String → String → Alert
  recloned_alert : String → Alert
  unstarted_alert : String → Alert
  master_behind_alert : Alert
  refresh_failed_alert : String → String → Alert
  refreshed_alert : String → Option String → Alert
  digest_alert : Tally → List (String × TerminalState) → Alert

pub record UpkeepSettings : Type 0 where
  pub reclone : Bool
  pub reclone_interval : ℕ
  pub has_master : Bool
  pub digest_hour : ℕ

pub record Upkeep (P : Type 0) : Type 0 where
  pub pool : Pool P
  pub lock : Lock
  -- whether the reaper still runs
  pub reaping : Bool
  pub master_refreshed_on : Option ℕ
  pub master_behind_on : Option ℕ
  pub digest_sent_on : Option ℕ
  -- last first
  pub alerts : List Alert

abbrev pub is_unlocked : Lock → Bool
is_unlocked unlocked = true
is_unlocked _ = false

abbrev pub is_on_day : ℕ → Option ℕ → Bool
is_on_day today none = false
is_on_day today (some other) = other == today

-- What `reclone_terminal` comes to.
pub data Recloned : Type 0 where
  recloned_to : Option String → Recloned
  reclone_raised : String → Recloned

-- What `promote_master` comes to.
pub data Promoted : Type 0 where
  promoted_to : Option String → Promoted
  promote_raised : String → Promoted

-- What happens to the upkeep, in any order.
pub data UpkeepEvent (P : Type 0) : Type 0 where
  reclone_due : ℕ → UpkeepEvent P
  reclone_ended : Recloned → UpkeepEvent P
  reclone_restarted : Start × Start × Start → UpkeepEvent P
  refresh_due : Option String → ℕ → UpkeepEvent P
  refresh_ended : Promoted → ℕ → UpkeepEvent P
  digest_due : ℕ → ℕ → UpkeepEvent P
  result_recorded : ℕ → ℕ → String → String → SyncResult P → UpkeepEvent P
  pool_closes : UpkeepEvent P
  reaper_cancelled : UpkeepEvent P

abbrev pub promoted_alert : String → Promoted → Alert
promoted_alert path (promoted_to build) = refreshed_alert path build
promoted_alert path (promote_raised error) = refresh_failed_alert path error

abbrev pub has_build : String → Option String → Bool
has_build build none = false
has_build build (some other) = other == build

abbrev pub is_idle_worker : {P : Type 0} → Worker P → Bool
is_idle_worker w = elim w.state [ idle ↦ true | _ ↦ false ]

module _ {P : Type 0} where
  abbrev pub alert : Alert → Upkeep P → Upkeep P
  alert a u = record u { alerts = a ∷ u.alerts }

  abbrev pub put_board : HealthBoard → Upkeep P → Upkeep P
  put_board b u = record u { pool = record u.pool { health = b } }

  -- A change of the board; a path that it lacks is a KeyError, which the loop logs.
  abbrev pub board_or : Option HealthBoard → Upkeep P → Upkeep P
  board_or none u = u
  board_or (some b) u = put_board b u

  abbrev pub change_worker : (Worker P → Worker P) → String → Upkeep P → Upkeep P
  change_worker f path u = elim (lookup path u.pool.workers) [
    | none ↦ u
    | some w ↦ record u { pool = put_worker path (f w) u.pool }
  ]

  abbrev pub can_reclone : UpkeepSettings → Upkeep P → Bool
  can_reclone settings u = settings.reclone && is_unlocked u.lock && not u.pool.closing

  abbrev pub lock_board : String → Option HealthBoard → Upkeep P → Upkeep P
  lock_board path none u = u
  lock_board path (some b) u = record (put_board b u) { lock = for_reclone path }

  -- `_maybe_reclone` up to `terminate`
  abbrev pub begin_reclone : ℕ → Option String → Upkeep P → Upkeep P
  begin_reclone now none u = u
  begin_reclone now (some path) u = lock_board path (mark_recloning now path u.pool.health) u

  unfoldable pub on_reclone_due : UpkeepSettings → ℕ → Upkeep P → Upkeep P
  unfolding mark_recloning
  on_reclone_due settings now u =
      if can_reclone settings u
      then begin_reclone now (due_for_reclone now settings.reclone_interval u.pool.health) u
      else u

  -- `reclone_terminal` has ended, after `terminate`: a failure ends the reclone.
  abbrev pub on_recloned_at : Recloned → String → Upkeep P → Upkeep P
  on_recloned_at (recloned_to build) path u = change_worker terminate path u
  on_recloned_at (reclone_raised error) path u =
      alert (reclone_failed_alert path error)
        (record (board_or (mark_reclone_failed path error u.pool.health)
          (change_worker terminate path u)) { lock = unlocked })

  unfoldable pub on_recloned : Recloned → Upkeep P → Upkeep P
  unfolding mark_reclone_failed
  on_recloned reply u = elim u.lock [ for_reclone path ↦ on_recloned_at reply path u | _ ↦ u ]

  -- `worker.restart()` has ended, after the reclone.
  abbrev pub end_reclone : Bool → String → Upkeep P → Upkeep P
  end_reclone true path u =
      alert (recloned_alert path)
        (record (board_or (mark_recloned path u.pool.health) (change_worker mark_idle path u)) {
          lock = unlocked;
        })
  end_reclone false path u =
      alert (unstarted_alert path)
        (record (board_or
          (mark_reclone_failed path "worker did not start after the reclone" u.pool.health) u) {
            lock = unlocked;
          })

  abbrev pub on_reclone_restarted_at : Start × Start × Start → String → Upkeep P → Upkeep P
  on_reclone_restarted_at starts path u = elim (lookup path u.pool.workers) [
    | none ↦ u
    | some w ↦
        let (w', ok) = restart starts w in
        end_reclone ok path (record u { pool = put_worker path w' u.pool })
  ]

  unfoldable pub on_reclone_restarted : Start × Start × Start → Upkeep P → Upkeep P
  unfolding mark_reclone_failed mark_recloned restart
  on_reclone_restarted starts u = elim u.lock [
    | for_reclone path ↦ on_reclone_restarted_at starts path u
    | _ ↦ u
  ]

  -- `_master_behind`
  unfoldable pub master_behind : ℕ → Upkeep P → Upkeep P
  master_behind today u =
      if is_on_day today u.master_behind_on
      then u
      else alert master_behind_alert (record u { master_behind_on = some today })

  -- The source of a refresh: an idle worker of a healthy terminal with the build of the quorum.
  abbrev pub is_source : String → HealthBoard → String × Worker P → Bool
  is_source build b (path, w) = elim (lookup w.terminal_path b.terminals) [
    | none ↦ false
    | some h ↦ is_idle_worker w && is_healthy h.state && has_build build h.build
  ]

  abbrev pub begin_refresh : Option (String × Worker P) → Upkeep P → Upkeep P
  begin_refresh none u = u
  begin_refresh (some (path, w)) u =
      record (change_worker (λ source. record source { state = restarting; ready = false }) path
        u) { lock = for_refresh path }

  abbrev pub refresh_with : String → Option String → ℕ → Upkeep P → Upkeep P
  refresh_with build master_build today u =
      if has_build build master_build
      then u
      else if is_on_day today u.master_refreshed_on
      then master_behind today u
      else begin_refresh (find (is_source build u.pool.health) u.pool.workers) u

  -- `_maybe_refresh_master` up to `promote_master`, with the build that the master has
  unfoldable pub on_refresh_due : UpkeepSettings → Option String → ℕ → Upkeep P → Upkeep P
  unfolding quorum master_behind
  on_refresh_due settings master_build today u =
      if can_reclone settings u && settings.has_master
      then elim (quorum u.pool.health) [
        | none ↦ u
        | some (build, path) ↦ refresh_with build master_build today u
      ]
      else u

  -- `promote_master` has ended.
  unfoldable pub on_promoted : Promoted → ℕ → Upkeep P → Upkeep P
  on_promoted reply today u = elim u.lock [
    | for_refresh path ↦
        alert (promoted_alert path reply) (record (change_worker mark_idle path u) {
          lock = unlocked;
          master_refreshed_on = some today;
        })
    | _ ↦ u
  ]

  -- `_maybe_digest`
  unfoldable pub on_digest : UpkeepSettings → ℕ → ℕ → Upkeep P → Upkeep P
  on_digest settings hour today u =
      if not (hour == settings.digest_hour) || is_on_day today u.digest_sent_on
      then u
      else let b = u.pool.health in
        let unwell =
          map (λ entry. (entry.0, entry.1.state))
            (keep (λ entry. not (is_healthy entry.1.state)) b.terminals) in
        put_board (record b { tally = no_tally })
          (alert (digest_alert b.tally unwell) (record u { digest_sent_on = some today }))

  -- A result that another coroutine records in between.
  unfoldable pub on_recorded : ℕ → ℕ → String → String → SyncResult P → Upkeep P → Upkeep P
  unfolding record_result
  on_recorded now mono path server result u =
      elim (record_result now mono path server result u.pool.health) [
        | none ↦ u
        | some (state, b) ↦ put_board b u
      ]

  -- `stop` cancels the reaper: `async with` frees the lock, `finally` gives the source of a refresh
  -- back, and a terminal that is being recloned stays in that state.
  unfoldable pub on_reaper_cancelled : Upkeep P → Upkeep P
  on_reaper_cancelled u = elim u.lock [
    | for_refresh path ↦ record (change_worker mark_idle path u) {
      lock = unlocked;
      reaping = false;
    }
    | _ ↦ record u { lock = unlocked; reaping = false }
  ]

  -- The steps of the reaper are over once it is cancelled; results are still recorded.
  unfoldable pub upkeep_step : UpkeepSettings → UpkeepEvent P → Upkeep P → Upkeep P
  unfolding on_reclone_due on_recloned on_reclone_restarted on_refresh_due on_promoted on_digest
      on_recorded on_reaper_cancelled
  upkeep_step settings (reclone_due now) u = if u.reaping then on_reclone_due settings now u else u
  upkeep_step settings (reclone_ended reply) u = if u.reaping then on_recloned reply u else u
  upkeep_step settings (reclone_restarted starts) u =
      if u.reaping then on_reclone_restarted starts u else u
  upkeep_step settings (refresh_due master_build today) u =
      if u.reaping then on_refresh_due settings master_build today u else u
  upkeep_step settings (refresh_ended reply today) u =
      if u.reaping then on_promoted reply today u else u
  upkeep_step settings (digest_due hour today) u =
      if u.reaping then on_digest settings hour today u else u
  upkeep_step settings (result_recorded now mono path server result) u =
      on_recorded now mono path server result u
  upkeep_step settings pool_closes u = record u { pool = record u.pool { closing = true } }
  upkeep_step settings reaper_cancelled u =
      if u.pool.closing && u.reaping then on_reaper_cancelled u else u

  abbrev pub upkeep_after : UpkeepSettings → List (UpkeepEvent P) → Upkeep P → Upkeep P
  upkeep_after settings [] u = u
  upkeep_after settings (event ∷ events) u =
      upkeep_after settings events (upkeep_step settings event u)
