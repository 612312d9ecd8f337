-- ===== src/Pool/Health/Board.antt =====
-- The other methods of the board: placement, recloning, builds and the quorum.
use mathlib.Core.Option
use mt5_connector.Common.{
  Bool, List, Option, String, [], all, count_if, false, find, if◌then◌else◌, is_some, keep, leb,
  ltb, map, nat_eq, none, some, string_eq, true, ℕ, ◌&&◌, ◌+◌, ◌==◌, ◌||◌, ◌∷◌,
}
use mt5_connector.Common.Dict.{lookup}
use mt5_connector.Pool.Health.Defs.{
  HealthBoard, TerminalHealth, TerminalState, Terminals, healthy, is_healthy, is_quarantined,
  is_suspect, is_usable, put_health, quarantined, recloning, reset_strikes,
}

abbrev pub has_state : (TerminalState → Bool) → String × TerminalHealth → Bool
has_state p (path, h) = p h.state

abbrev pub path_of : String × TerminalHealth → String
path_of (path, h) = path

abbrev pub is_placed : TerminalState → Bool
is_placed s = is_healthy s || is_suspect s

-- `placeable`: the healthy ones; if there are none, the suspect ones too; if there are none, all.
unfoldable pub placeable : HealthBoard → List String
placeable b =
    let best = map path_of (keep (has_state is_healthy) b.terminals) in
    let next = map path_of (keep (has_state is_placed) b.terminals) in
    elim best [
      | p ∷ ps ↦ p ∷ ps
      | [] ↦ elim next [ p ∷ ps ↦ p ∷ ps | [] ↦ map path_of b.terminals ]
    ]

abbrev pub is_usable_entry : String × TerminalHealth → Bool
is_usable_entry (path, h) = is_usable h

unfoldable pub keepable : HealthBoard → List String
keepable b = map path_of (keep is_usable_entry b.terminals)

-- `last_reclone_at is None or now - last_reclone_at >= min_interval`
abbrev pub interval_over : ℕ → ℕ → Option ℕ → Bool
interval_over now interval none = true
interval_over now interval (some at) = leb (at + interval) now

abbrev pub is_due : ℕ → ℕ → String × TerminalHealth → Bool
is_due now interval (path, h) =
    is_quarantined h.state && interval_over now interval h.last_reclone_at

unfoldable pub due_for_reclone : ℕ → ℕ → HealthBoard → Option String
due_for_reclone now interval b = Option.map path_of (find (is_due now interval) b.terminals)

abbrev pub set_recloning : ℕ → TerminalHealth → TerminalHealth
set_recloning now h = record h {
  state = recloning;
  last_reclone_at = some now;
  reclones = h.reclones + 1;
  reclone_error = none;
}

abbrev pub set_recloned : TerminalHealth → TerminalHealth
set_recloned h = reset_strikes (record h {
  state = healthy;
  quarantined_at = none;
  quarantine_reason = none;
  build = none;
  build_stat = none;
})

abbrev pub set_reclone_failed : String → TerminalHealth → TerminalHealth
set_reclone_failed error h = record h { state = quarantined; reclone_error = some error }

-- A change of one terminal's object; `none` where the path is unknown.
abbrev pub modify : String → (TerminalHealth → TerminalHealth) → HealthBoard → Option HealthBoard
modify path f b = elim (lookup path b.terminals) [
  | none ↦ none
  | some h ↦ some (put_health path (f h) b)
]

unfoldable pub mark_recloning : ℕ → String → HealthBoard → Option HealthBoard
mark_recloning now path b = modify path (set_recloning now) b

unfoldable pub mark_recloned : String → HealthBoard → Option HealthBoard
mark_recloned path b =
    Option.map {A = HealthBoard}
      (λ c. record c { tally = record c.tally { reclones = c.tally.reclones + 1 } })
      (modify path set_recloned b)

unfoldable pub mark_reclone_failed : String → String → HealthBoard → Option HealthBoard
mark_reclone_failed path error b = modify path (set_reclone_failed error) b

-- The files of the terminals: `Path.stat` (size and modification time), and the MD5 of the bytes,
-- each `none` on an `OSError`.
pub record Disk : Type 0 where
  pub stat : String → Option (ℕ × ℕ)
  pub md5 : String → Option String

abbrev pub same_stat : Option (ℕ × ℕ) → ℕ × ℕ → Bool
same_stat none _ = false
same_stat (some (size, time)) (size', time') = size == size' && time == time'

unfoldable pub build_of :
    Disk → String → Option String → Option (ℕ × ℕ) → Option String × Option (ℕ × ℕ)
build_of disk exe known known_stat = elim (disk.stat exe) [
  | none ↦ (none, none)
  | some current ↦
      if is_some known && same_stat known_stat current
      then (known, known_stat)
      else elim (disk.md5 exe) [ none ↦ (none, none) | some digest ↦ (some digest, some current) ]
]

abbrev pub refresh_build : Disk → String × TerminalHealth → String × TerminalHealth
refresh_build disk (path, h) =
    let (build, stat) = build_of disk h.terminal_path h.build h.build_stat in
    (path, record h { build = build; build_stat = stat })

unfoldable pub refresh_builds : Disk → HealthBoard → HealthBoard
refresh_builds disk b = record b { terminals = map (refresh_build disk) b.terminals }

-- `health.state is healthy and health.build`: an empty text counts as no build
abbrev pub vote : String × TerminalHealth → Option String
vote (path, h) = if is_healthy h.state then h.build else none

abbrev pub votes_for : String → String × TerminalHealth → Bool
votes_for build (path, h) = elim (vote (path, h)) [ none ↦ false | some other ↦ build == other ]

abbrev pub ballot : Terminals → List String
ballot [] = []
ballot (entry ∷ rest) =
    let others = ballot rest in
    elim (vote entry) [
      | none ↦ others
      | some build ↦ if build == "" then others else build ∷ others
    ]

abbrev pub votes : String → List String → ℕ
votes build builds = count_if (λ other. build == other) builds

-- `Counter(builds).most_common(1)`: of the builds with the most votes the one met first
abbrev pub most_common_from : List String → List String → String → String
most_common_from all [] best = best
most_common_from all (build ∷ rest) best =
    most_common_from all rest (if ltb (votes best all) (votes build all) then build else best)

unfoldable pub most_common : List String → Option String
most_common [] = none
most_common (build ∷ rest) = some (most_common_from (build ∷ rest) rest build)

unfoldable pub quorum : HealthBoard → Option (String × String)
unfolding most_common
quorum b = elim (most_common (ballot b.terminals)) [
  | none ↦ none
  | some build ↦
      if ltb (votes build (ballot b.terminals)) 2
      then none
      else Option.map (λ entry. (build, entry.1.terminal_path)) (find (votes_for build) b.terminals)
]
