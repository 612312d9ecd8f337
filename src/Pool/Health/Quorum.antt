-- ===== src/Pool/Health/Quorum.antt =====
-- The build that the healthy terminals agree on.
use mathlib.Core.List.{Mem}
use mt5_connector.Common.{
  Bool-cases, List, Option-cases, String, [], all, ap, arith, elem, false, find, if◌then◌else◌, inl,
  inr, ltb, nat_eq, refl, some, string_eq, subst, sym, true, ◌==◌, ◌∷◌, ◌≡◌, ◌≤◌,
}
use mt5_connector.Common.Search.{find-some}
use mt5_connector.Pool.Health.Board.{
  ballot, most_common, most_common_from, quorum, votes, votes_for,
}
use mt5_connector.Pool.Health.Defs.{HealthBoard, TerminalHealth, healthy}
use text.Mathlib.TextEquality.{eq_iff}

votes-absent : (build : String) (all : List String) → elem build all ≡ false → votes build all ≡ 0
votes-absent build [] e = refl
votes-absent build (x ∷ xs) e = ground (arith, votes-absent build xs)

most_common_from-max :
    (all rest : List String) (best : String)
    → (votes best all ≤ votes (most_common_from all rest best) all)
      × ((other : String)
          → elem other rest ≡ true
          → votes other all ≤ votes (most_common_from all rest best) all)
most_common_from-max all [] best = (omega arith, λ other e. absurd (ground arith))
most_common_from-max all (x ∷ xs) best =
    let next = if ltb (votes best all) (votes x all) then x else best in
    let ih = most_common_from-max all xs next in
    (
      ground (arith, ih.0),
      λ other e. elim (Bool-cases (other == x)) [
        | inl same ↦ rw ((eq_iff other x).0 same) (ground (arith, ih.0))
        | inr differs ↦ ih.1 other (ground arith)
      ],
    )

-- No build has more votes than the one that `most_common` picks.
most_common-max :
    (builds : List String) (build other : String)
    → most_common builds ≡ some build
    → votes other builds ≤ votes build builds
unfolding most_common
most_common-max [] build other e = absurd (ground arith)
most_common-max (x ∷ xs) build other e =
    let all = x ∷ xs in
    let max = most_common_from-max all xs x in
    let same : most_common_from all xs x ≡ build = ground arith in
    subst (λ winner. votes other all ≤ votes winner all) same
      (elim (Bool-cases (other == x)) [
        | inl first ↦
            subst (λ o. votes o all ≤ votes (most_common_from all xs x) all)
              (sym ((eq_iff other x).0 first)) max.0
        | inr differs ↦ elim (Bool-cases (elem other xs)) [
          | inl later ↦ max.1 other later
          | inr absent ↦ omega (arith, votes-absent other all (ground arith))
        ]
      ])

votes_for_inv :
    (build : String) (path : String) (h : TerminalHealth)
    → votes_for build (path, h) ≡ true
    → (h.state ≡ healthy) × (h.build ≡ some build)
votes_for_inv build path h e = elim (Option-cases h.build) [
  | inl nothing ↦ absurd (ground arith)
  | inr (other, has) ↦ (ground arith, ground (arith, eq_iff build other))
]

-- A quorum has at least two votes among the healthy terminals, no build has more, and the source
-- that it names is a healthy terminal of the board that runs that build.
pub quorum_sound :
    (b : HealthBoard) (build source : String)
    → quorum b ≡ some (build, source)
    → (2 ≤ votes build (ballot b.terminals))
      × ((other : String) → votes other (ballot b.terminals) ≤ votes build (ballot b.terminals))
      × ((path : String) × (h : TerminalHealth) × (Mem (path, h) b.terminals)
          × (h.terminal_path ≡ source)
          × (h.state ≡ healthy)
          × (h.build ≡ some build))
unfolding quorum
quorum_sound b build source e = elim (Option-cases (most_common (ballot b.terminals))) [
  | inl nothing ↦ absurd (ground arith)
  | inr (winner, won) ↦ elim (Option-cases (find (votes_for winner) b.terminals)) [
    | inl nothing ↦ absurd (ground arith)
    | inr (entry, found) ↦
        let hit = find-some (votes_for winner) b.terminals entry found in
        let runs = votes_for_inv winner entry.0 entry.1 hit.0 in
        let same : winner ≡ build = ground arith in
        (
          ground arith,
          λ other. most_common-max (ballot b.terminals) build other (rw won (ap some same)),
          (
            entry.0,
            entry.1,
            hit.1,
            ground arith,
            ground (arith, hit.0),
            ground (arith, hit.0, eq_iff winner),
          ),
        )
  ]
]
