-- ===== src/Mt5api/Terminal/Tests.antt =====
-- A managed terminal that is launched and logged in, and the theorems at it.
use mt5_connector.Common.{
  [], false, if◌then◌else◌, nat_eq, none, refl, some, string_eq, true, ◌==◌, ◌∷◌, ◌≡◌,
}
use mt5_connector.Mt5api.Terminal.Binding.{IsConnected, connect-IsConnected}
use mt5_connector.Mt5api.Terminal.Connect.{Probes, Session, accepts, connect, fails}
use mt5_connector.Mt5api.Terminal.Start.{Login, Setup, Terminal, returned}
use mt5_connector.Pool.Protocol.{SyncTask, scheduled}

abbrev pub setup : Setup
setup = record {
  init_timeout_ms = 30000;
  login_timeout_ms = 30000;
  proxy = none;
  managed = true;
  cold_start_timeout_ms = some 120000;
}

abbrev pub fresh : Terminal
fresh = record {
  is_bound = false;
  current_login = none;
  attach_failures = 0;
  was_replaced = false;
  report = none;
}

abbrev pub quiet : Probes
quiet = record { marker = none; pids = 7 ∷ []; info_missing = false; probe_answers = true }

abbrev pub session : Session
session = record {
  first = quiet;
  scene = record {
    running = [];
    marker = none;
    probe_answers = true;
    process = some 7;
    alive = 7 ∷ [];
  };
  probes = quiet;
  initialize = λ timeout. if timeout == 120000 then accepts else fails none;
  log_in = λ timeout. accepts;
}

abbrev pub wanted_login : Login
wanted_login = record { login = 1; password = "pw"; server = "srv" }

abbrev pub small_task : SyncTask
small_task = record {
  task_id = 1;
  account_id = "x";
  login = 1;
  password = "pw";
  server = "srv";
  kind = scheduled;
  sync_run_id = 1;
  connect_timeout_ms = none;
  already_measured = [];
}

connect_launches : (connect setup session wanted_login none fresh).0 ≡ returned tt
unfolding connect
connect_launches = refl

connect-IsConnected_example :
    IsConnected wanted_login (connect setup session wanted_login none fresh)
connect-IsConnected_example = connect-IsConnected setup session wanted_login none fresh (λ _. refl)
