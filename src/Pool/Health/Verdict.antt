-- ===== src/Pool/Health/Verdict.antt =====
-- The state machine that `record` drives on one terminal, and its thresholds.
use mt5_connector.Common.{
  All, Bool, Bool-cases, List, Option, String, [], arith, false, inl, inr, length, nat_eq, none,
  refl, some, string_eq, true, ℕ, ◌+◌, ◌<◌, ◌∷◌, ◌≡◌, ◌≤◌, subst, ◌≢◌,
}
use mt5_connector.Common.Dict.{lookup, lookup-insert_self, lookup-insert_ne, insert}
use mt5_connector.Pool.Health.Board.{is_placed}
use mt5_connector.Pool.Health.Defs.{
  HealthBoard, TerminalHealth, TerminalState, healthy, is_usable, quarantine_strikes, recloning,
  warming_up,
}
use mt5_connector.Pool.Health.Invariant.{IsSound, IsSoundBoard, update_health-IsSound}
use mt5_connector.Pool.Health.Record.{
  add_strike, fail, judge, note_start, quarantine_reason_of, record_result, success, update_health,
}
use mt5_connector.Pool.Protocol.{StartReport, SyncResult, is_hard}

abbrev pub Keeps : TerminalHealth → TerminalHealth → Type 0
Keeps h h' =
    (is_usable h ≡ false → h'.state ≡ h.state) × (h'.state ≡ recloning → h.state ≡ recloning)

note_start-state :
    (now : ℕ) (report : Option StartReport) (h : TerminalHealth)
    → (note_start now report h).state ≡ h.state
note_start-state now none h = refl
note_start-state now (some r) h = ground arith

judge-Keeps : (now : ℕ) (h : TerminalHealth) → is_usable h ≡ true → Keeps h (judge now h).0
unfolding judge
judge-Keeps now h u = (ground arith, ground arith)

fail-Keeps :
    (now : ℕ) (warming : Bool) (server : String) (report : Option StartReport) (h : TerminalHealth)
    → Keeps h (fail now warming server report h).0
unfolding fail add_strike
fail-Keeps now warming server none h = (ground arith, ground arith)
fail-Keeps now warming server (some r) h = (
  ground (arith, judge-Keeps now (add_strike now server r h)),
  ground (arith, judge-Keeps now (add_strike now server r h)),
)

pub update_health-Keeps :
    (now : ℕ) (warming : Bool) (server : String) (ok : Bool) (report : Option StartReport)
    (h : TerminalHealth)
    → Keeps h (update_health now warming server ok report h).0
unfolding update_health success
update_health-Keeps now warming server ok report h = (
  ground (
    arith,
    note_start-state now report h,
    fail-Keeps now warming server report (note_start now report h),
  ),
  ground (
    arith,
    note_start-state now report h,
    fail-Keeps now warming server report (note_start now report h),
  ),
)

-- Recording a result never takes a terminal out of quarantine, and never starts or ends a reclone, on
-- the board that it leaves: while the terminal is not usable its state stays, and no other state
-- turns into `recloning`. It answers with the state that it leaves, and leaves the other terminals.
pub record_result-Keeps :
    {P : Type 0} (now mono : ℕ) (path server : String) (result : SyncResult P) (b b' : HealthBoard)
    (s : TerminalState) (h : TerminalHealth)
    → lookup path b.terminals ≡ some h
    → record_result now mono path server result b ≡ some (s, b')
    → (h' : TerminalHealth) × (lookup path b'.terminals ≡ some h')
      × (h'.state ≡ s)
      × (is_usable h ≡ false → h'.state ≡ h.state)
      × (h'.state ≡ recloning → h.state ≡ recloning)
      × ((other : String) → other ≢ path → lookup other b'.terminals ≡ lookup other b.terminals)
unfolding record_result
record_result-Keeps now mono path server result b b' s h found e =
    let h' = (update_health now (warming_up mono b) server result.ok result.terminal h).0 in
    let keeps = update_health-Keeps now (warming_up mono b) server result.ok result.terminal h in
    let left : insert path h' b.terminals ≡ b'.terminals = ground arith in
    (
      h',
      subst (λ t. lookup path t ≡ some h') left (lookup-insert_self path h' b.terminals),
      ground arith,
      keeps.0,
      keeps.1,
      λ other differ.
          subst (λ t. lookup other t ≡ lookup other b.terminals) left
            (lookup-insert_ne other path h' b.terminals differ),
    )

judge_few :
    (now : ℕ) (h : TerminalHealth)
    → h.strikes < quarantine_strikes
    → is_usable h ≡ true
    → is_usable (judge now h).0 ≡ true
unfolding judge quarantine_reason_of
judge_few now h few u = ground arith

fail_grace :
    (now : ℕ) (warming : Bool) (server : String) (report : Option StartReport) (h : TerminalHealth)
    → h.strikes < 2
    → is_usable h ≡ true
    → is_usable (fail now warming server report h).0 ≡ true
unfolding fail add_strike
fail_grace now warming server none h few u = u
fail_grace now warming server (some r) h few u =
    ground (arith, judge_few now (add_strike now server r h))

note_start-strikes :
    (now : ℕ) (report : Option StartReport) (h : TerminalHealth)
    → (note_start now report h).strikes ≡ h.strikes
note_start-strikes now none h = refl
note_start-strikes now (some r) h = ground arith

update_health_grace :
    (now : ℕ) (warming : Bool) (server : String) (ok : Bool) (report : Option StartReport)
    (h : TerminalHealth)
    → h.strikes < 2
    → is_usable h ≡ true
    → is_usable (update_health now warming server ok report h).0 ≡ true
unfolding update_health success
update_health_grace now warming server ok report h few u = ground (
  arith,
  note_start-state now report h,
  note_start-strikes now report h,
  fail_grace now warming server report (note_start now report h),
)

-- One bad start does not quarantine: on a sound board a healthy terminal is still usable after any
-- single result.
record_result_grace :
    {P : Type 0} (now mono : ℕ) (path server : String) (result : SyncResult P) (b b' : HealthBoard)
    (s : TerminalState) (h : TerminalHealth)
    → IsSoundBoard b
    → lookup path b.terminals ≡ some h
    → h.state ≡ healthy
    → record_result now mono path server result b ≡ some (s, b')
    → is_placed s ≡ true
unfolding record_result
record_result_grace now mono path server result b b' s h sound found well e =
    let v = sound path h found in
    ground (
      arith,
      v.healthy_few (rw well),
      update_health_grace now (warming_up mono b) server result.ok result.terminal h,
    )

-- The results of one terminal, each with the time, the warm-up flag and the server.
abbrev pub Outcome : Type 0
Outcome = ℕ × Bool × String × Bool × Option StartReport

unfoldable pub run_events : List Outcome → TerminalHealth → TerminalHealth
run_events [] h = h
run_events ((now, warming, server, ok, report) ∷ events) h =
    run_events events (update_health now warming server ok report h).0

-- A start that died, or that had to be killed as a zombie, and did not initialize after all.
abbrev pub IsHardFailure : Outcome → Type 0
IsHardFailure (now, warming, server, ok, none) = ⊥
IsHardFailure (now, warming, server, ok, some r) =
    (ok ≡ false) × (r.initialized ≡ false) × (is_hard r ≡ true)

judge-counts :
    (now : ℕ) (h : TerminalHealth)
    → ((judge now h).0.strikes ≡ h.strikes) × ((judge now h).0.hard_strikes ≡ h.hard_strikes)
unfolding judge
judge-counts now h = (ground arith, ground arith)

-- A usable terminal counts a hard failure, during the warm-up too.
hard_failure-counts :
    (now : ℕ) (warming : Bool) (server : String) (r : StartReport) (h : TerminalHealth)
    → r.initialized ≡ false
    → is_hard r ≡ true
    → is_usable h ≡ true
    → let h' = (update_health now warming server false (some r) h).0 in
      (h'.strikes ≡ h.strikes + 1) × (h'.hard_strikes ≡ h.hard_strikes + 1)
unfolding update_health fail add_strike
hard_failure-counts now warming server r h cold bad u =
    let struck = add_strike now server r (note_start now (some r) h) in
    (ground (arith, judge-counts now struck), ground (arith, judge-counts now struck))

run_events-counts :
    (events : List Outcome) (h : TerminalHealth)
    → All IsHardFailure events
    → is_usable (run_events events h) ≡ true
    → let h' = run_events events h in
      (is_usable h ≡ true)
      × (h'.strikes ≡ h.strikes + length events)
      × (h'.hard_strikes ≡ h.hard_strikes + length events)
unfolding run_events
run_events-counts [] h bad u = (u, omega arith, omega arith)
run_events-counts ((now, warming, server, ok, none) ∷ events) h bad u = absurd bad.0
run_events-counts ((now, warming, server, ok, some r) ∷ events) h bad u =
    let h' = (update_health now warming server ok (some r) h).0 in
    let (u', many, hards) = run_events-counts events h' bad.1 u in
    let usable : is_usable h ≡ true =
      ground (arith, update_health-Keeps now warming server ok (some r) h) in
    let counts = hard_failure-counts now warming server r h bad.0.1 bad.0.2 usable in
    (usable, ground (arith, bad.0.0, many, counts), ground (arith, bad.0.0, hards, counts))

run_events-IsSound :
    (events : List Outcome) (h : TerminalHealth) → IsSound h → IsSound (run_events events h)
unfolding run_events
run_events-IsSound [] h v = v
run_events-IsSound ((now, warming, server, ok, report) ∷ events) h v =
    run_events-IsSound events _ (update_health-IsSound now warming server ok report h v)

-- Three hard failures in a row are enough, whatever came before them: after three or more the
-- terminal is not usable.
pub hard_failures_quarantine :
    (events : List Outcome) (h : TerminalHealth)
    → IsSound h
    → All IsHardFailure events
    → 3 ≤ length events
    → is_usable (run_events events h) ≡ false
hard_failures_quarantine events h v bad many = elim (Bool-cases (is_usable (run_events events h))) [
  | inr u ↦ u
  | inl u ↦
      let counts = run_events-counts events h bad u in
      let sound = run_events-IsSound events h v in absurd (omega (arith, counts, sound.trusted u))
]
