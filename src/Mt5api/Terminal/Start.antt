-- ===== src/Mt5api/Terminal/Start.antt =====
-- `MT5Terminal`: its state, and the start of its process. What the operating system and the
-- MetaTrader5 package answer are inputs; the texts of the errors are not modelled.
use mt5_connector.Common.{
  Bool, List, Option, String, [], elem, false, if◌then◌else◌, leb, nat_eq, none, not, some,
  string_eq, true, ℕ, ◌&&◌, ◌==◌, ◌∷◌,
}
use mt5_connector.Common.Int.{ℤ}
use mt5_connector.Pool.Protocol.{StartReport, new_report}
use mt5_connector.Pool.Worker.{Proxy}

-- login, password and server
pub record Login : Type 0 where
  pub login : ℕ
  pub password : String
  pub server : String

abbrev pub same_login : Login → Login → Bool
same_login a b = a.login == b.login && a.password == b.password && a.server == b.server

-- The settings of a terminal.
pub record Setup : Type 0 where
  pub init_timeout_ms : ℕ
  pub login_timeout_ms : ℕ
  pub proxy : Option Proxy
  pub managed : Bool
  pub cold_start_timeout_ms : Option ℕ

-- The attributes that change; `is_bound` says that `_mt5` is not None.
pub record Terminal : Type 0 where
  pub is_bound : Bool
  pub current_login : Option Login
  pub attach_failures : ℕ
  pub was_replaced : Bool
  pub report : Option StartReport

pub record TerminalError : Type 0 where
  pub code : Option ℤ
  pub terminal_lost : Bool
  pub proxy_dead : Bool

abbrev pub plain_error : TerminalError
plain_error = record { code = none; terminal_lost = false; proxy_dead = false }

-- The marker file; its `proxy` is the one that its text names, none for `direct`.
pub record Marker : Type 0 where
  pub proxy : Option Proxy
  pub pid : Option ℕ

-- What a call comes to.
pub data Outcome (A : Type 0) : Type 0 where
  returned : A → Outcome A
  raised : TerminalError → Outcome A

abbrev pub attach_failures_before_kill : ℕ
attach_failures_before_kill = 2

abbrev pub same_marker : Option Proxy → Option Proxy → Bool
same_marker none none = true
same_marker (some p) (some q) = p.address == q.address && p.port == q.port
same_marker _ _ = false

abbrev pub has_pid : List ℕ → Option ℕ → Bool
has_pid pids none = false
has_pid pids (some pid) = elem pid pids

-- `_attach_blocker`
unfoldable pub attach_blocker : ℕ → List ℕ → Option Marker → Option Proxy → Option String
attach_blocker failures pids none wanted = some "proxy_mismatch"
attach_blocker failures pids (some marker) wanted =
    if not (same_marker marker.proxy wanted)
    then some "proxy_mismatch"
    else if not (has_pid pids marker.pid)
    then some "pid_mismatch"
    else if leb attach_failures_before_kill failures
    then some "zombie"
    else none

-- What `_prepare` sees: the processes at first, the marker, the proxy's answer, the process that
-- Popen makes, and the processes once it has settled.
pub record Scene : Type 0 where
  pub running : List ℕ
  pub marker : Option Marker
  pub probe_answers : Bool
  pub process : Option ℕ
  pub alive : List ℕ

abbrev pub is_empty {ℓ} : {A : Type ℓ} → List A → Bool
is_empty [] = true
is_empty (_ ∷ _) = false

abbrev pub put_report : StartReport → Terminal → Terminal
put_report report t = record t { report = some report }

abbrev pub proxy_answers : Setup → Scene → Bool
proxy_answers setup scene = elim setup.proxy [ none ↦ true | some _ ↦ scene.probe_answers ]

-- `_prepare` from the launch on: whether the terminal is launched
abbrev pub launch : Setup → Scene → StartReport → Terminal → Outcome Bool × Terminal
launch setup scene report t =
    let t' = record t { attach_failures = 0 } in
    if not (proxy_answers setup scene)
    then (raised (record plain_error { proxy_dead = true }), put_report report t')
    else elim scene.process [
      | none ↦ (raised plain_error, put_report (record report { died = true }) t')
      | some pid ↦
          if elem pid scene.alive
          then (returned true, put_report (record report { launched = true; pid = some pid }) t')
          else if is_empty scene.alive
          then (raised plain_error, put_report (record report { died = true }) t')
          else (raised plain_error, put_report (record report { replaced = true }) t')
    ]

abbrev pub marker_pid : Option Marker → Option ℕ
marker_pid none = none
marker_pid (some marker) = marker.pid

-- `_prepare`: whether it has launched the terminal, rather than attached to the one that runs
unfoldable pub prepare : Setup → Scene → Terminal → Outcome Bool × Terminal
unfolding attach_blocker
prepare setup scene t0 =
    let report = record new_report { replaced = t0.was_replaced } in
    let t = record t0 { was_replaced = false } in
    if is_empty scene.running
    then launch setup scene report t
    else elim (attach_blocker t.attach_failures scene.running scene.marker setup.proxy) [
      | none ↦ (
        returned false,
        put_report (record report { attached = true; pid = marker_pid scene.marker }) t,
      )
      | some blocker ↦ launch setup scene (record report { killed = some blocker }) t
    ]
