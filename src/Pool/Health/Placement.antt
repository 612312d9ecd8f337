-- ===== src/Pool/Health/Placement.antt =====
-- Where accounts may be placed, and which terminal is recloned next.
use mathlib.Core.List.{Mem}
use mt5_connector.Common.{
  Bool, Option-cases, String, [], any, arith, elem, false, find, inl, inr, keep, map, nat_eq, none,
  refl, some, string_eq, subst, true, ℕ, ◌&&◌, ◌==◌, ◌∷◌, ◌≡◌, ◌≢◌,
}
use mt5_connector.Common.Search.{find-none, find-some}
use mt5_connector.Pool.Health.Board.{
  due_for_reclone, has_state, interval_over, is_due, is_placed, is_usable_entry, keepable, path_of,
  placeable,
}
use mt5_connector.Pool.Health.Defs.{HealthBoard, TerminalHealth, Terminals, is_healthy, quarantined}

-- The entry for `path` passes the test `p`.
abbrev pub has_entry : (String × TerminalHealth → Bool) → String → Terminals → Bool
has_entry p path = any (λ entry. path == path_of entry && p entry)

elem-map-keep :
    (p : String × TerminalHealth → Bool) (path : String) (ts : Terminals)
    → elem path (map path_of (keep p ts)) ≡ has_entry p path ts
elem-map-keep p path [] = refl
elem-map-keep p path (entry ∷ ts) = ground (arith, elem-map-keep p path ts)

-- `keepable` holds the paths of the usable terminals and no other.
pub elem-keepable :
    (b : HealthBoard) (path : String)
    → elem path (keepable b) ≡ has_entry is_usable_entry path b.terminals
unfolding keepable
elem-keepable b path = elem-map-keep is_usable_entry path b.terminals

keep-any :
    (p : String × TerminalHealth → Bool) (ts : Terminals)
    → map path_of (keep p ts) ≡ []
    → any p ts ≡ false
keep-any p [] e = refl
keep-any p (entry ∷ ts) e = ground (arith, keep-any p ts)

has_entry-placed :
    (path : String) (ts : Terminals)
    → has_entry (has_state is_healthy) path ts ≡ true
    → has_entry (has_state is_placed) path ts ≡ true
has_entry-placed path [] e = e
has_entry-placed path (entry ∷ ts) e = ground (arith, has_entry-placed path ts)

-- An account is placed on a terminal as good as the pool has: a healthy one if any is healthy,
-- else a usable one if any is usable.
pub placeable_best :
    (b : HealthBoard) (path : String)
    → elem path (placeable b) ≡ true
    → (any (has_state is_healthy) b.terminals ≡ true
        → has_entry (has_state is_healthy) path b.terminals ≡ true)
      × (any (has_state is_placed) b.terminals ≡ true
          → has_entry (has_state is_placed) path b.terminals ≡ true)
unfolding placeable
placeable_best b path e =
    let ts = b.terminals in
    let best = elem-map-keep (has_state is_healthy) path ts in
    let next = elem-map-keep (has_state is_placed) path ts in
    let no_best = keep-any (has_state is_healthy) ts in
    let no_next = keep-any (has_state is_placed) ts in
    (
      ground (arith, best, no_best),
      ground (arith, best, next, no_best, no_next, has_entry-placed path ts),
    )

-- A pool that has terminals always offers one.
pub placeable_nonempty : (b : HealthBoard) → b.terminals ≢ [] → placeable b ≢ []
unfolding placeable
placeable_nonempty b some_terminal = ground arith

-- The terminal that is due for a reclone is one of the board, in quarantine, and the interval since
-- its last reclone is over.
due_for_reclone_due :
    (now interval : ℕ) (b : HealthBoard) (path : String)
    → due_for_reclone now interval b ≡ some path
    → (h : TerminalHealth) × (Mem (path, h) b.terminals)
      × (h.state ≡ quarantined)
      × (interval_over now interval h.last_reclone_at ≡ true)
unfolding due_for_reclone
due_for_reclone_due now interval b path e =
    elim (Option-cases (find (is_due now interval) b.terminals)) [
      | inl nothing ↦ absurd (ground arith)
      | inr (entry, found) ↦
          let hit = find-some (is_due now interval) b.terminals entry found in
          let same : entry.0 ≡ path = ground arith in
          (
            entry.1,
            subst (λ q. Mem (q, entry.1) b.terminals) same hit.1,
            ground (arith, hit.0),
            ground (arith, hit.0),
          )
    ]

-- Where none is due, no terminal of the board is in quarantine with its interval over.
pub due_for_reclone-none :
    (now interval : ℕ) (b : HealthBoard)
    → due_for_reclone now interval b ≡ none
    → any (is_due now interval) b.terminals ≡ false
unfolding due_for_reclone
due_for_reclone-none now interval b e = ground (arith, find-none (is_due now interval) b.terminals)
