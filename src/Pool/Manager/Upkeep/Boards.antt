-- ===== src/Pool/Manager/Upkeep/Boards.antt =====
-- What changes of a board keep of the reclones and the lock.
use mathlib.Core.Option
use mt5_connector.Common.{
  Bool, Bool-cases, Option, Option-cases, String, ap, arith, false, inl, inr, nat_eq, none, refl,
  some, string_eq, subst, sym, true, ℕ, ◌+◌, ◌==◌, ◌||◌, ◌∙◌, ◌≡◌, ◌≢◌,
}
use mt5_connector.Common.Dict.{Holds, beq_ne, insert, lookup, lookup-insert_inv}
use mt5_connector.Pool.Health.Board.{modify}
use mt5_connector.Pool.Health.Defs.{
  HealthBoard, TerminalHealth, TerminalState, healthy, is_healthy, is_suspect, is_usable,
  put_health, quarantined, recloning, suspect, warming_up,
}
use mt5_connector.Pool.Health.Record.{record_result, update_health}
use mt5_connector.Pool.Health.Verdict.{Keeps}
use mt5_connector.Pool.Manager.Upkeep.{
  Lock, Upkeep, for_reclone, for_refresh, is_unlocked, unlocked,
}
use mt5_connector.Pool.Protocol.{SyncResult}

abbrev pub is_recloning : TerminalState → Bool
is_recloning recloning = true
is_recloning _ = false

abbrev pub holds_for : String → Lock → Bool
holds_for path (for_reclone other) = path == other
holds_for path _ = false

-- The terminals in the state `recloning` are the one for which the lock is held, or none.
abbrev pub IsExclusiveBoard : Lock → HealthBoard → Type 0
IsExclusiveBoard lock b = Holds (λ path h. is_recloning h.state ≡ holds_for path lock) b.terminals

abbrev pub IsExclusive : {P : Type 0} → Upkeep P → Type 0
IsExclusive u = IsExclusiveBoard u.lock u.pool.health

abbrev pub board_of : Option HealthBoard → HealthBoard → HealthBoard
board_of none b = b
board_of (some c) b = c

pub holds_for-other :
    (path other : String) → other ≢ path → holds_for other (for_reclone path) ≡ false
holds_for-other path other differ = beq_ne other path differ

-- Changing the terminal of a path keeps it so, where the lock is then held for no other path.
pub modify-IsExclusiveBoard :
    (path : String) (f : TerminalHealth → TerminalHealth) (lock lock' : Lock) (b : HealthBoard)
    → ((h : TerminalHealth) → is_recloning (f h).state ≡ holds_for path lock')
    → ((other : String) → other ≢ path → holds_for other lock' ≡ holds_for other lock)
    → IsExclusiveBoard lock b
    → IsExclusiveBoard lock' (board_of (modify path f b) b)
modify-IsExclusiveBoard path f lock lock' b own others exclusive =
    split (lookup path b.terminals) refl
  where
    split :
        (l : Option TerminalHealth)
        → lookup path b.terminals ≡ l
        → IsExclusiveBoard lock'
            (board_of (elim l [ none ↦ none | some h ↦ some (put_health path (f h) b) ]) b)
    split none absent q h found = elim (Bool-cases (q == path)) [
      | inl same ↦
          absurd
            (ground (arith, ap (λ r. lookup r b.terminals) ((string_eq.equal_iff q path).0 same)))
      | inr other ↦
          exclusive q h found
          ∙ sym (others q (λ eq. ground (arith, (string_eq.equal_iff q path).1 eq)))
    ]
    split (some h0) present q h found = elim (lookup-insert_inv q path (f h0) h b.terminals found) [
      | inl (same, eq) ↦
          subst (λ g. is_recloning g.state ≡ holds_for q lock') eq
            (own h0 ∙ ap (λ r. holds_for r lock') (sym same))
      | inr (differ, old) ↦ exclusive q h old ∙ sym (others q differ)
    ]

pub is_unlocked-eq : (l : Lock) → is_unlocked l ≡ true → l ≡ unlocked
is_unlocked-eq unlocked e = refl
is_unlocked-eq (for_reclone path) e = absurd (ground arith)
is_unlocked-eq (for_refresh path) e = absurd (ground arith)

pub counted-terminals :
    (o : Option HealthBoard) (b : HealthBoard)
    → (board_of
        (Option.map {A = HealthBoard}
          (λ c. record c { tally = record c.tally { reclones = c.tally.reclones + 1 } })
          o)
        b).terminals
      ≡ (board_of o b).terminals
counted-terminals none b = refl
counted-terminals (some c) b = refl

-- The lock goes between being free and being held for a refresh.
pub relocked-IsExclusive :
    (l l' : Lock) (b : HealthBoard)
    → ((q : String) → holds_for q l' ≡ holds_for q l)
    → IsExclusiveBoard l b
    → IsExclusiveBoard l' b
relocked-IsExclusive l l' b alike exclusive q h found = exclusive q h found ∙ sym (alike q)

pub State-recloning : (s : TerminalState) → is_recloning s ≡ true → s ≡ recloning
State-recloning healthy e = absurd (ground arith)
State-recloning suspect e = absurd (ground arith)
State-recloning quarantined e = absurd (ground arith)
State-recloning recloning e = refl

pub Keeps-recloning :
    (h h' : TerminalHealth) → Keeps h h' → is_recloning h'.state ≡ is_recloning h.state
Keeps-recloning h h' keeps = elim (Bool-cases (is_recloning h'.state)) [
  | inl yes_ ↦ yes_ ∙ sym (ap is_recloning (keeps.1 (State-recloning h'.state yes_)))
  | inr no_ ↦ elim (Bool-cases (is_recloning h.state)) [
    | inl was ↦
        let unusable : is_usable h ≡ false =
          ap (λ s. is_healthy s || is_suspect s) (State-recloning h.state was) in
        ap is_recloning (keeps.0 unusable)
    | inr was_not ↦ no_ ∙ sym was_not
  ]
]

pub record_result-terminals :
    {P : Type 0} (now mono : ℕ) (path server : String) (result : SyncResult P) (b b' : HealthBoard)
    (s : TerminalState)
    → record_result now mono path server result b ≡ some (s, b')
    → (h : TerminalHealth) × (lookup path b.terminals ≡ some h)
      × (insert path
            (update_health now (warming_up mono b) server result.ok result.terminal h).0
            b.terminals
          ≡ b'.terminals)
unfolding record_result
record_result-terminals now mono path server result b b' s e =
    elim (Option-cases (lookup path b.terminals)) [
      | inl absent ↦ absurd (ground arith)
      | inr (h, here) ↦ (h, here, ground arith)
    ]

pub holds_for-same :
    (l : Lock) (path other : String)
    → holds_for path l ≡ true
    → holds_for other l ≡ true
    → path ≡ other
holds_for-same unlocked path other h k = absurd (ground arith)
holds_for-same (for_reclone own) path other h k =
    (string_eq.equal_iff path own).0 h ∙ sym ((string_eq.equal_iff other own).0 k)
holds_for-same (for_refresh own) path other h k = absurd (ground arith)

-- No two terminals are in the state `recloning`.
abbrev pub OneReclone : HealthBoard → Type 0
OneReclone b =
    (path other : String) (h k : TerminalHealth)
    → lookup path b.terminals ≡ some h
    → lookup other b.terminals ≡ some k
    → is_recloning h.state ≡ true
    → is_recloning k.state ≡ true
    → path ≡ other
