-- ===== src/Pool/Health/Defs.antt =====
-- The state of the board, and its methods but `record`.
use mt5_connector.Common.{
  Bool, List, Option, String, [], false, ltb, nat_eq, none, string_eq, true, ℕ, ◌*◌, ◌+◌, ◌||◌, ◌∷◌,
}
use mt5_connector.Common.Dict.{Dict, insert}

abbrev pub suspect_strikes : ℕ
suspect_strikes = 2

abbrev pub quarantine_strikes : ℕ
quarantine_strikes = 3

abbrev pub quarantine_hard_strikes : ℕ
quarantine_hard_strikes = 2

abbrev pub soft_quarantine_strikes : ℕ
soft_quarantine_strikes = 5

abbrev pub soft_quarantine_servers : ℕ
soft_quarantine_servers = 2

-- `timedelta(minutes=15)`
abbrev pub soft_quarantine_span : ℕ
soft_quarantine_span = 15 * 60 * 1_000_000

pub data TerminalState : Type 0 where
  healthy suspect quarantined recloning : TerminalState

-- `state is TerminalState.healthy`, and so on
abbrev pub is_healthy : TerminalState → Bool
is_healthy healthy = true
is_healthy _ = false

abbrev pub is_suspect : TerminalState → Bool
is_suspect suspect = true
is_suspect _ = false

abbrev pub is_quarantined : TerminalState → Bool
is_quarantined quarantined = true
is_quarantined _ = false

-- The two texts of a quarantine, with the numbers that they print.
pub data Reason : Type 0 where
  starts_died : ℕ → ℕ → Reason
  never_answered : ℕ → ℕ → Reason

pub record TerminalHealth : Type 0 where
  pub terminal_path : String
  pub state : TerminalState
  pub strikes : ℕ
  pub hard_strikes : ℕ
  pub failed_servers : List String
  pub first_strike_at : Option ℕ
  pub last_success_at : Option ℕ
  pub last_launch_at : Option ℕ
  pub last_pid : Option ℕ
  pub build : Option String
  pub build_stat : Option (ℕ × ℕ)
  pub quarantined_at : Option ℕ
  pub quarantine_reason : Option Reason
  pub reclones : ℕ
  pub last_reclone_at : Option ℕ
  pub reclone_error : Option String

-- `TerminalHealth(path)`
abbrev pub new_health : String → TerminalHealth
new_health path = record {
  terminal_path = path;
  state = healthy;
  strikes = 0;
  hard_strikes = 0;
  failed_servers = [];
  first_strike_at = none;
  last_success_at = none;
  last_launch_at = none;
  last_pid = none;
  build = none;
  build_stat = none;
  quarantined_at = none;
  quarantine_reason = none;
  reclones = 0;
  last_reclone_at = none;
  reclone_error = none;
}

-- `TerminalHealth.usable`
abbrev pub is_usable : TerminalHealth → Bool
is_usable h = is_healthy h.state || is_suspect h.state

abbrev pub reset_strikes : TerminalHealth → TerminalHealth
reset_strikes h = record h {
  strikes = 0;
  hard_strikes = 0;
  failed_servers = [];
  first_strike_at = none;
}

pub record Tally : Type 0 where
  pub syncs_ok : ℕ
  pub syncs_failed : ℕ
  pub quarantines : ℕ
  pub reclones : ℕ
  pub replaced : ℕ
  pub liveupdate_killed : ℕ

-- `Tally()`, and what `Tally.reset` leaves
abbrev pub no_tally : Tally
no_tally = record {
  syncs_ok = 0;
  syncs_failed = 0;
  quarantines = 0;
  reclones = 0;
  replaced = 0;
  liveupdate_killed = 0;
}

abbrev pub Terminals : Type 0
Terminals = Dict String TerminalHealth

pub record HealthBoard : Type 0 where
  pub terminals : Terminals
  pub warmup : ℕ
  pub warm_until : ℕ
  pub tally : Tally

-- `{path: TerminalHealth(path) for path in terminal_paths}`
add_terminals : List String → Terminals → Terminals
add_terminals [] found = found
add_terminals (path ∷ paths) found = add_terminals paths (insert path (new_health path) found)

-- `HealthBoard(terminal_paths, warmup_seconds=…)`
unfoldable pub new_board : List String → ℕ → HealthBoard
unfolding add_terminals
new_board paths warmup = record {
  terminals = add_terminals paths [];
  warmup = warmup;
  warm_until = 0;
  tally = no_tally;
}

unfoldable pub start_warmup : ℕ → HealthBoard → HealthBoard
start_warmup mono b = record b { warm_until = mono + b.warmup }

abbrev pub warming_up : ℕ → HealthBoard → Bool
warming_up mono b = ltb mono b.warm_until

-- `self.terminals[path] = …` after a change of the object that it holds
abbrev pub put_health : String → TerminalHealth → HealthBoard → HealthBoard
put_health path h b = record b { terminals = insert path h b.terminals }
