-- ===== src/Pool/Protocol.antt =====
-- domain/enums.py, pool/protocol.py and mt5api/report.py: what the service, the pool and the workers
-- hand to each other. A result carries the rows of a sync, of a type `P` that the pool only passes on.
use mt5_connector.Common.{
  Bool, List, Option, String, false, nat_eq, none, not, some, string_eq, true, ℕ, ◌&&◌, ◌==◌, ◌||◌,
}
use mt5_connector.Common.Int.{leb_ℤ, negsuc, ℤ}
use mt5_connector.Pool.Health.Defs.{Reason}

pub data SyncKind : Type 0 where
  initial hard scheduled : SyncKind

-- `kind is SyncKind.scheduled`, `kind is SyncKind.initial`
abbrev pub is_scheduled : SyncKind → Bool
is_scheduled scheduled = true
is_scheduled _ = false

abbrev pub is_initial : SyncKind → Bool
is_initial initial = true
is_initial _ = false

abbrev pub priority_hard : ℕ
priority_hard = 0

abbrev pub priority_scheduled : ℕ
priority_scheduled = 1

pub data WorkerState : Type 0 where
  starting idle busy restarting failed stopped : WorkerState

pub record StartReport : Type 0 where
  pub attached : Bool
  pub launched : Bool
  pub pid : Option ℕ
  pub killed : Option String
  pub died : Bool
  pub replaced : Bool
  pub initialized : Bool
  pub ipc_failed : Bool
  pub error_code : Option ℤ

abbrev pub new_report : StartReport
new_report = record {
  attached = false;
  launched = false;
  pid = none;
  killed = none;
  died = false;
  replaced = false;
  initialized = false;
  ipc_failed = false;
  error_code = none;
}

abbrev pub killed_zombie : Option String → Bool
killed_zombie none = false
killed_zombie (some why) = why == "zombie"

-- `StartReport.hard` and `StartReport.soft`
abbrev pub is_hard : StartReport → Bool
is_hard r = r.died || killed_zombie r.killed

abbrev pub is_soft : StartReport → Bool
is_soft r = r.ipc_failed && not (is_hard r) && not r.initialized

pub record SyncTask : Type 0 where
  pub task_id : ℕ
  pub account_id : String
  pub login : ℕ
  pub password : String
  pub server : String
  pub kind : SyncKind
  pub sync_run_id : ℕ
  pub connect_timeout_ms : Option ℕ
  pub already_measured : List String

-- The texts of the pool's own errors; `reported` is any other text.
pub data ErrorText : Type 0 where
  shutting_down terminal_quarantined timed_out worker_lost not_started_after_reclone : ErrorText
  pool_error : String → ErrorText
  quarantined_for : Option Reason → ErrorText
  reported : String → ErrorText

pub record SyncResult (P : Type 0) : Type 0 where
  pub task_id : ℕ
  pub account_id : String
  pub ok : Bool
  pub payload : Option P
  pub error : Option ErrorText
  pub error_code : Option ℤ
  pub terminal_lost : Bool
  pub duration_ms : ℕ
  pub worker_id : Option String
  pub sync_run_id : ℕ
  pub kind : SyncKind
  pub history_withheld : Bool
  pub proxy_dead : Bool
  pub terminal : Option StartReport
  pub quarantined : Bool

-- mt5api/terminal.py: the codes that the pool reads.
abbrev pub ipc_error_ceiling : ℤ
ipc_error_ceiling = negsuc 9999

abbrev pub authorization_failed : ℤ
authorization_failed = negsuc 5

-- `is_ipc(code)`
abbrev pub is_ipc : Option ℤ → Bool
is_ipc none = false
is_ipc (some code) = leb_ℤ code ipc_error_ceiling
