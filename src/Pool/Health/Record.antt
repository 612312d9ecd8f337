-- ===== src/Pool/Health/Record.antt =====
-- `HealthBoard.record`, `_success`, `_quarantine_reason` and `quarantine`.
use mt5_connector.Common.{
  Bool, Option, String, add_elem, false, if◌then◌else◌, leb, length, nat_eq, none, not, or_else,
  some, string_eq, true, ℕ, ◌&&◌, ◌+◌, ◌||◌,
}
use mt5_connector.Common.Dict.{lookup}
use mt5_connector.Pool.Health.Defs.{
  HealthBoard, Reason, Tally, TerminalHealth, TerminalState, healthy, is_suspect, is_usable,
  never_answered, put_health, quarantine_hard_strikes, quarantine_strikes, quarantined,
  reset_strikes, soft_quarantine_servers, soft_quarantine_span, soft_quarantine_strikes,
  starts_died, suspect, suspect_strikes, warming_up,
}
use mt5_connector.Pool.Protocol.{StartReport, SyncResult, is_hard, is_soft}

abbrev pub count_outcome : Bool → Tally → Tally
count_outcome true t = record t { syncs_ok = t.syncs_ok + 1 }
count_outcome false t = record t { syncs_failed = t.syncs_failed + 1 }

abbrev pub count_replaced : Option StartReport → Tally → Tally
count_replaced none t = t
count_replaced (some r) t = if r.replaced then record t { replaced = t.replaced + 1 } else t

abbrev pub count_quarantine : Tally → Tally
count_quarantine t = record t { quarantines = t.quarantines + 1 }

-- What `record` notes of the process that the report names.
abbrev pub note_start : ℕ → Option StartReport → TerminalHealth → TerminalHealth
note_start now none h = h
note_start now (some r) h =
    if r.launched
    then record h { last_launch_at = some now; last_pid = r.pid }
    else if r.attached
    then record h { last_pid = r.pid }
    else h

abbrev pub is_initialized : Option StartReport → Bool
is_initialized none = false
is_initialized (some r) = r.initialized

-- `_success`
unfoldable pub success : ℕ → TerminalHealth → TerminalHealth
success now h =
    let h' = reset_strikes (record h { last_success_at = some now }) in
    if is_suspect h.state then record h' { state = healthy } else h'

abbrev pub span_reached : Option ℕ → ℕ → Bool
span_reached none now = false
span_reached (some first) now = leb (first + soft_quarantine_span) now

-- `_quarantine_reason`
unfoldable pub quarantine_reason_of : TerminalHealth → ℕ → Option Reason
quarantine_reason_of h now =
    if leb quarantine_strikes h.strikes && leb quarantine_hard_strikes h.hard_strikes
    then some (starts_died h.hard_strikes h.strikes)
    else if leb soft_quarantine_strikes h.strikes
        && leb soft_quarantine_servers (length h.failed_servers)
        && span_reached h.first_strike_at now
    then some (never_answered h.strikes (length h.failed_servers))
    else none

-- `quarantine` on the object
abbrev pub set_quarantined : ℕ → Reason → TerminalHealth → TerminalHealth
set_quarantined now reason h = record h {
  state = quarantined;
  quarantined_at = some now;
  quarantine_reason = some reason;
}

unfoldable pub quarantine : String → Reason → ℕ → HealthBoard → Option HealthBoard
quarantine path reason now b = elim (lookup path b.terminals) [
  | none ↦ none
  | some h ↦ some (record (put_health path (set_quarantined now reason h) b) {
    tally = count_quarantine b.tally;
  })
]

-- The strike that `record` adds.
unfoldable pub add_strike : ℕ → String → StartReport → TerminalHealth → TerminalHealth
add_strike now server r h = record h {
  strikes = h.strikes + 1;
  hard_strikes = if is_hard r then h.hard_strikes + 1 else h.hard_strikes;
  failed_servers = add_elem server h.failed_servers;
  first_strike_at = or_else h.first_strike_at (some now);
}

-- What follows the strike: the terminal, and whether it was put in quarantine.
unfoldable pub judge : ℕ → TerminalHealth → TerminalHealth × Bool
unfolding quarantine_reason_of
judge now h = elim (quarantine_reason_of h now) [
  | some reason ↦ (set_quarantined now reason h, true)
  | none ↦ (if leb suspect_strikes h.strikes then record h { state = suspect } else h, false)
]

-- The guards of `record` in front of a strike.
unfoldable pub fail :
    ℕ → Bool → String → Option StartReport → TerminalHealth → TerminalHealth × Bool
unfolding judge add_strike
fail now warming server none h = (h, false)
fail now warming server (some r) h =
    if not (is_hard r || is_soft r)
    then (h, false)
    else if is_soft r && warming
    then (h, false)
    else if not (is_usable h)
    then (h, false)
    else judge now (add_strike now server r h)

-- `record` on the object, for a result with this `ok` and this report
unfoldable pub update_health :
    ℕ → Bool → String → Bool → Option StartReport → TerminalHealth → TerminalHealth × Bool
unfolding success fail
update_health now warming server ok report h =
    let h' = note_start now report h in
    if ok || is_initialized report
    then (success now h', false)
    else fail now warming server report h'

unfoldable pub record_result :
    {P : Type 0}
    → ℕ
    → ℕ
    → String
    → String
    → SyncResult P
    → HealthBoard
    → Option (TerminalState × HealthBoard)
unfolding update_health
record_result now mono path server result b = elim (lookup path b.terminals) [
  | none ↦ none
  | some h ↦
      let (h', bad) = update_health now (warming_up mono b) server result.ok result.terminal h in
      let counted = count_replaced result.terminal (count_outcome result.ok b.tally) in
      some (
        h'.state,
        record (put_health path h' b) { tally = if bad then count_quarantine counted else counted },
      )
]
