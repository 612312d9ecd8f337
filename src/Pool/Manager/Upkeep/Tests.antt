-- ===== src/Pool/Manager/Upkeep/Tests.antt =====
-- A reclone at concrete inputs: a quarantined terminal, which is recloned while the worker of the
-- other one syncs.
use mathlib.Core.Option
use mt5_connector.Common.{
  List, String, [], false, nat_eq, none, refl, some, string_eq, true, ℕ, ◌∷◌, ◌≡◌,
}
use mt5_connector.Common.Dict.{lookup}
use mt5_connector.Pool.Health.Board.{due_for_reclone, mark_recloning, mark_recloned}
use mt5_connector.Pool.Health.Defs.{TerminalHealth, new_health, no_tally, quarantined, recloning}
use mt5_connector.Pool.Manager.Upkeep.{
  Upkeep, UpkeepEvent, UpkeepSettings, digest_due, for_reclone, on_reclone_due, reclone_due,
  reclone_ended, reclone_restarted, recloned_to, unlocked, upkeep_after, upkeep_step, pool_closes,
  reaper_cancelled, on_reaper_cancelled, on_recloned, on_reclone_restarted, on_digest,
}
use mt5_connector.Pool.Protocol.{idle}
use mt5_connector.Pool.Worker.{Worker, answered, new_worker, restart, restart_loop, spawn}

abbrev worker_with : String → Worker ℕ
worker_with path = record (new_worker ℕ path path none) { state = idle; ready = true }

abbrev broken_health : TerminalHealth
broken_health = record (new_health "a") { state = quarantined; quarantined_at = some 0 }

abbrev start_of_upkeep : Upkeep ℕ
start_of_upkeep = record {
  pool = record {
    workers = ("a", worker_with "a") ∷ ("b", worker_with "b") ∷ [];
    health = record {
      terminals = ("a", broken_health) ∷ ("b", new_health "b") ∷ [];
      warmup = 0;
      warm_until = 0;
      tally = no_tally;
    };
    pending = [];
    futures = [];
    delivered = [];
    abandoned = [];
    next_future = 0;
    next_sequence = 0;
    closing = false;
    max_task_retries = 2;
    has_registry = false;
  };
  lock = unlocked;
  reaping = true;
  master_refreshed_on = none;
  master_behind_on = none;
  digest_sent_on = none;
  alerts = [];
}

abbrev upkeep_settings : UpkeepSettings
upkeep_settings = record {
  reclone = true;
  reclone_interval = 3600;
  has_master = true;
  digest_hour = 6;
}

abbrev events : List (UpkeepEvent ℕ)
events =
    reclone_due 10
    ∷ reclone_due 11
    ∷ reclone_ended (recloned_to none)
    ∷ digest_due 6 1
    ∷ reclone_restarted (answered 1 1 "a", answered 2 2 "a", answered 3 3 "a")
    ∷ []

recloning_begun :
    (upkeep_after upkeep_settings (reclone_due 10 ∷ []) start_of_upkeep).lock ≡ for_reclone "a"
unfolding upkeep_step on_reclone_due due_for_reclone mark_recloning
recloning_begun = refl

recloning_done : (upkeep_after upkeep_settings events start_of_upkeep).lock ≡ unlocked
unfolding upkeep_step on_reclone_due due_for_reclone mark_recloning on_recloned on_reclone_restarted
    on_digest restart restart_loop spawn mark_recloned
recloning_done = refl

-- `stop` while terminal a is being recloned: the lock is free, the terminal stays as it is.
abbrev stopped_events : List (UpkeepEvent ℕ)
stopped_events = reclone_due 10 ∷ pool_closes ∷ reaper_cancelled ∷ []

stopped_midway :
    let v = upkeep_after upkeep_settings stopped_events start_of_upkeep in
    (v.lock ≡ unlocked)
    × (Option.map (λ h. h.state) (lookup "a" v.pool.health.terminals) ≡ some recloning)
unfolding upkeep_step on_reclone_due due_for_reclone mark_recloning on_reaper_cancelled
stopped_midway = (refl, refl)
