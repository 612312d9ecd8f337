-- ===== src/Pool/Health/Invariant.antt =====
-- What each terminal of the board satisfies, and that `record` and the reclone marks keep it.
use mt5_connector.Common.{
  Bool, List, Option, Option-cases, String, [], add_elem, arith, false, inl, inr, is_some, length,
  length-append, ltb, nat_eq, none, some, string_eq, subst, sym, true, ℕ, ◌+◌, ◌<◌, ◌∷◌, ◌≡◌, ◌≤◌,
  ◌⊎◌,
}
use mt5_connector.Common.Dict.{Holds, Holds-insert, insert, lookup}
use mt5_connector.Pool.Health.Defs.{
  HealthBoard, TerminalHealth, TerminalState, is_healthy, is_suspect, is_usable, new_health,
  quarantine_hard_strikes, quarantine_strikes, suspect_strikes, warming_up,
}
use mt5_connector.Pool.Health.Record.{
  add_strike, fail, judge, note_start, quarantine_reason_of, record_result, success, update_health,
}
use mt5_connector.Pool.Protocol.{StartReport, SyncResult}

pub record IsSound (h : TerminalHealth) : Type 0 where
  pub hard_le : h.hard_strikes ≤ h.strikes
  pub servers_le : length h.failed_servers ≤ h.strikes
  pub first : is_some h.first_strike_at ≡ ltb 0 h.strikes
  pub healthy_few : is_healthy h.state ≡ true → h.strikes < suspect_strikes
  pub suspect_many : is_suspect h.state ≡ true → suspect_strikes ≤ h.strikes
  pub trusted :
      is_usable h ≡ true
      → (h.strikes < quarantine_strikes) ⊎ (h.hard_strikes < quarantine_hard_strikes)
  pub explained : is_usable h ≡ false → is_some h.quarantine_reason ≡ true

pub new_health-IsSound : (path : String) → IsSound (new_health path)
new_health-IsSound path = ground arith

pub note_start-IsSound :
    (now : ℕ) (report : Option StartReport) (h : TerminalHealth)
    → IsSound h
    → IsSound (note_start now report h)
note_start-IsSound now none h v = v
note_start-IsSound now (some r) h v = ground arith

success-IsSound : (now : ℕ) (h : TerminalHealth) → IsSound h → IsSound (success now h)
unfolding success
success-IsSound now h v = ground arith

length-add_elem : (s : String) (xs : List String) → length (add_elem s xs) ≤ length xs + 1
length-add_elem s xs = ground (arith, length-append xs (s ∷ []))

-- A terminal right after a strike, before it is judged.
record IsStruck (h : TerminalHealth) : Type 0 where
  hard_le : h.hard_strikes ≤ h.strikes
  servers_le : length h.failed_servers ≤ h.strikes
  struck : 0 < h.strikes
  first : is_some h.first_strike_at ≡ true
  usable : is_usable h ≡ true
  suspect_many : is_suspect h.state ≡ true → suspect_strikes ≤ h.strikes

add_strike-IsStruck :
    (now : ℕ) (server : String) (r : StartReport) (h : TerminalHealth)
    → IsSound h
    → is_usable h ≡ true
    → IsStruck (add_strike now server r h)
unfolding add_strike
add_strike-IsStruck now server r h v u = record {
  hard_le = ground arith;
  servers_le = omega (arith, length-add_elem server h.failed_servers, v.servers_le);
  struck = ground arith;
  first = ground arith;
  usable = u;
  suspect_many = ground arith;
}

-- No reason for a quarantine means that too few of the strikes are hard.
reason-trusted :
    (h : TerminalHealth) (now : ℕ)
    → quarantine_reason_of h now ≡ none
    → (h.strikes < quarantine_strikes) ⊎ (h.hard_strikes < quarantine_hard_strikes)
unfolding quarantine_reason_of
reason-trusted h now e = ground arith

judge-IsSound : (now : ℕ) (h : TerminalHealth) → IsStruck h → IsSound (judge now h).0
unfolding judge
judge-IsSound now h v = elim (Option-cases (quarantine_reason_of h now)) [
  | inl e ↦ rw (e, judge) (ground (arith, reason-trusted h now e))
  | inr (reason, e) ↦ rw (e, judge) (ground arith)
]

fail-IsSound :
    (now : ℕ) (warming : Bool) (server : String) (report : Option StartReport) (h : TerminalHealth)
    → IsSound h
    → IsSound (fail now warming server report h).0
unfolding fail
fail-IsSound now warming server none h v = v
fail-IsSound now warming server (some r) h v =
    ground
      (arith, judge-IsSound now (add_strike now server r h), add_strike-IsStruck now server r h v)

pub update_health-IsSound :
    (now : ℕ) (warming : Bool) (server : String) (ok : Bool) (report : Option StartReport)
    (h : TerminalHealth)
    → IsSound h
    → IsSound (update_health now warming server ok report h).0
unfolding update_health
update_health-IsSound now warming server ok report h v =
    let v' = note_start-IsSound now report h v in
    ground (
      arith,
      success-IsSound now (note_start now report h) v',
      fail-IsSound now warming server report (note_start now report h) v',
    )

-- Every terminal on the board is sound.
abbrev pub IsSoundBoard : HealthBoard → Type 0
IsSoundBoard b = Holds (λ path h. IsSound h) b.terminals

-- What a `record` that found its terminal has done.
abbrev pub Recorded :
    {P : Type 0}
    → ℕ
    → ℕ
    → String
    → String
    → SyncResult P
    → HealthBoard
    → TerminalState
    → HealthBoard
    → TerminalHealth
    → Type 0
Recorded now mono path server result b s b' h =
    let (h', bad) = update_health now (warming_up mono b) server result.ok result.terminal h in
    (lookup path b.terminals ≡ some h)
    × (s ≡ h'.state)
    × (b'.terminals ≡ insert path h' b.terminals)

pub record_result-Recorded :
    {P : Type 0} (now mono : ℕ) (path server : String) (result : SyncResult P) (b b' : HealthBoard)
    (s : TerminalState)
    → record_result now mono path server result b ≡ some (s, b')
    → (h : TerminalHealth) × Recorded now mono path server result b s b' h
unfolding record_result
record_result-Recorded now mono path server result b b' s e =
    elim (Option-cases (lookup path b.terminals)) [
      | inl unknown ↦ absurd (ground arith)
      | inr (h, found) ↦ (h, (found, ground arith, ground arith))
    ]

-- `record` keeps every terminal of the board sound.
pub record_result-IsSoundBoard :
    {P : Type 0} (now mono : ℕ) (path server : String) (result : SyncResult P) (b b' : HealthBoard)
    (s : TerminalState)
    → IsSoundBoard b
    → record_result now mono path server result b ≡ some (s, b')
    → IsSoundBoard b'
record_result-IsSoundBoard now mono path server result b b' s sound e =
    let (h, r) = record_result-Recorded now mono path server result b b' s e in
    subst (Holds (λ _ g. IsSound g)) (sym r.2) (
      Holds-insert (λ _ g. IsSound g) path _ b.terminals
        (update_health-IsSound now _ server result.ok result.terminal h (sound path h r.0)) sound)
