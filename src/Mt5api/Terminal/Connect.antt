-- ===== src/Mt5api/Terminal/Connect.antt =====
-- `connect`, `failure`, `check_call` and what ends a binding.
use mt5_connector.Common.{
  Bool, List, Option, [], false, if◌then◌else◌, leb, ltb, nat_eq, none, not, some, string_eq, true,
  ℕ, ◌&&◌, ◌+◌, ◌==◌, ◌||◌, ◌∷◌,
}
use mt5_connector.Common.Int.{eqb_ℤ, pos, ℤ}
use mt5_connector.Mt5api.Terminal.Start.{
  Login, Marker, Outcome, Scene, Setup, Terminal, TerminalError, has_pid, is_empty, prepare,
  put_report, raised, returned, same_login,
}
use mt5_connector.Pool.Protocol.{StartReport, is_ipc, new_report}

-- What `failure` and `_note_initialize_failure` see: the marker, the processes of the terminal,
-- whether `terminal_info` is None, and whether the proxy answers.
pub record Probes : Type 0 where
  pub marker : Option Marker
  pub pids : List ℕ
  pub info_missing : Bool
  pub probe_answers : Bool

-- `_bound_alive`
abbrev pub bound_alive : Probes → Bool
bound_alive probes = elim probes.marker [
  | none ↦ false
  | some marker ↦ has_pid probes.pids marker.pid
]

abbrev pub proxy_is_dead : Setup → Probes → Bool
proxy_is_dead setup probes = elim setup.proxy [ none ↦ false | some _ ↦ not probes.probe_answers ]

abbrev pub report_or_new : Option StartReport → StartReport
report_or_new none = new_report
report_or_new (some report) = report

-- `failure`
unfoldable pub terminal_failure : Setup → Probes → Option ℤ → Terminal → TerminalError × Terminal
terminal_failure setup probes code t =
    let gone = is_ipc code && setup.managed && not (bound_alive probes) in
    let dead = is_ipc code && proxy_is_dead setup probes in
    let lost = gone || (is_ipc code && t.is_bound && probes.info_missing) || dead in
    (
      record { code = code; terminal_lost = lost; proxy_dead = dead },
      if gone then put_report (record (report_or_new t.report) { replaced = true }) t else t,
    )

-- `_note_initialize_failure`
abbrev pub note_failure : Probes → Option ℤ → StartReport → StartReport
note_failure probes code report = record report {
  ipc_failed = is_ipc code;
  error_code = code;
  died = report.died || is_empty probes.pids;
}

unfoldable pub note_initialize_failure : Probes → Option ℤ → Terminal → Terminal
note_initialize_failure probes code t = elim t.report [
  | none ↦ t
  | some report ↦ record t {
    report = some (note_failure probes code report);
    attach_failures =
        if report.attached && is_ipc code then t.attach_failures + 1 else t.attach_failures;
  }
]

abbrev pub res_s_ok : ℤ
res_s_ok = pos 1

abbrev pub is_ok_code : Option ℤ → Bool
is_ok_code none = false
is_ok_code (some code) = eqb_ℤ code res_s_ok

-- `check_call`: a result that is None is empty where the last error says so, and else a failure.
unfoldable pub check_call :
    {A : Type 0}
    → Setup
    → Probes
    → Option (List A)
    → Option ℤ
    → Terminal
    → Outcome (List A) × Terminal
unfolding terminal_failure
check_call setup probes (some rows) code t = (returned rows, t)
check_call setup probes none code t =
    if is_ok_code code
    then (returned [], t)
    else let (error, t') = terminal_failure setup probes code t in (raised error, t')

-- `shutdown`
abbrev pub shut_down : Terminal → Terminal
shut_down t = if t.is_bound then record t { is_bound = false; current_login = none } else t

-- `forget_login`
abbrev pub forget_login : Terminal → Terminal
forget_login t = record t { current_login = none }

-- `take_report`
abbrev pub take_report : Terminal → Option StartReport × Terminal
take_report t = (t.report, record t { report = none })

-- What the MetaTrader5 package answers: the login goes through, or the code of the last error.
pub data Reply : Type 0 where
  accepts : Reply
  fails : Option ℤ → Reply

pub record Session : Type 0 where
  -- as `connect` begins, then `_prepare`, then after a failure
  pub first : Probes
  pub scene : Scene
  pub probes : Probes
  -- `initialize`, with the timeout that it is called with
  pub initialize : ℕ → Reply
  -- `login`, with its timeout
  pub log_in : ℕ → Reply

-- `timeout_ms or ...`: zero counts as none
abbrev pub timeout_or : Option ℕ → ℕ → ℕ
timeout_or none fallback = fallback
timeout_or (some n) fallback = if n == 0 then fallback else n

abbrev pub max_ℕ : ℕ → ℕ → ℕ
max_ℕ a b = if ltb a b then b else a

abbrev pub cold_timeout : Setup → ℕ → ℕ
cold_timeout setup timeout_ms = max_ℕ timeout_ms (timeout_or setup.cold_start_timeout_ms 0)

abbrev pub note_initialized : Option StartReport → Option StartReport
note_initialized none = none
note_initialized (some report) = some (record report { initialized = true })

-- `_start` after `initialize`
unfoldable pub initialize_reply :
    Setup → Session → Login → Reply → Terminal → Outcome Unit × Terminal
unfolding terminal_failure note_initialize_failure
initialize_reply setup session wanted accepts t = (
  returned tt,
  record t {
    report = note_initialized t.report;
    attach_failures = 0;
    is_bound = true;
    current_login = some wanted;
  },
)
initialize_reply setup session wanted (fails code) t =
    let noted = note_initialize_failure session.probes code t in
    let (error, t') = terminal_failure setup session.probes code noted in (raised error, t')

abbrev pub initialize_terminal : Setup → Session → Login → ℕ → Terminal → Outcome Unit × Terminal
initialize_terminal setup session wanted timeout_ms t =
    initialize_reply setup session wanted (session.initialize timeout_ms) t

-- `_start` after `_prepare`
abbrev pub start_prepared :
    Setup → Session → Login → ℕ → Outcome Bool × Terminal → Outcome Unit × Terminal
start_prepared setup session wanted timeout_ms (raised error, t) = (raised error, t)
start_prepared setup session wanted timeout_ms (returned launched, t) =
    initialize_terminal setup session wanted
      (if launched then cold_timeout setup timeout_ms else timeout_ms) t

-- `_start`
unfoldable pub start_terminal : Setup → Session → Login → ℕ → Terminal → Outcome Unit × Terminal
unfolding prepare initialize_reply
start_terminal setup session wanted timeout_ms t =
    if setup.managed
    then start_prepared setup session wanted timeout_ms (prepare setup session.scene t)
    else initialize_terminal setup session wanted timeout_ms t

-- `_login`
unfoldable pub log_in_reply : Setup → Session → Login → Reply → Terminal → Outcome Unit × Terminal
unfolding terminal_failure
log_in_reply setup session wanted accepts t =
    (returned tt, record t { current_login = some wanted })
log_in_reply setup session wanted (fails code) t =
    let (error, t') = terminal_failure setup session.probes code (forget_login t) in
    (raised error, t')

abbrev pub log_in_terminal : Setup → Session → Login → ℕ → Terminal → Outcome Unit × Terminal
log_in_terminal setup session wanted timeout_ms t =
    log_in_reply setup session wanted (session.log_in timeout_ms) t

abbrev pub is_logged_in : Login → Option Login → Bool
is_logged_in wanted none = false
is_logged_in wanted (some login) = same_login login wanted

-- The terminal that `connect` goes on with: one that is lost is shut down.
abbrev pub drop_lost : Setup → Session → Terminal → Terminal
drop_lost setup session t =
    if t.is_bound && setup.managed && not (bound_alive session.first)
    then record (shut_down t) { was_replaced = true }
    else t

-- `connect`; the start gate only decides when `_start` runs.
unfoldable pub connect : Setup → Session → Login → Option ℕ → Terminal → Outcome Unit × Terminal
unfolding start_terminal log_in_reply
connect setup session wanted timeout_ms t0 =
    let t = drop_lost setup session t0 in
    if t.is_bound
    then (if is_logged_in wanted t.current_login
        then (returned tt, t)
        else log_in_terminal setup session wanted (timeout_or timeout_ms setup.login_timeout_ms) t)
    else start_terminal setup session wanted (timeout_or timeout_ms setup.init_timeout_ms) t

-- A turn of `StartGate.acquire`: whether the lock came within a second, the clock, and the time
-- that the holder has set, none for zero.
pub record Turn : Type 0 where
  pub has_lock : Bool
  pub now : ℕ
  pub since : Option ℕ

abbrev pub start_lock_hold : ℕ
start_lock_hold = 20000000

-- `StartGate.acquire`: whether it got the lock, and the time that it sets; `none` while it waits.
unfoldable pub acquire : List Turn → Option (Bool × ℕ)
acquire [] = none
acquire (turn ∷ turns) =
    let rest = acquire turns in
    if turn.has_lock then some (true, turn.now) else elim turn.since [
      | none ↦ rest
      | some since ↦ if leb (since + start_lock_hold) turn.now then some (false, turn.now) else rest
    ]
