-- ===== src/Orchestrator/Clean.antt =====
-- That a health report of the pool without problems is true.
use mathlib.Core.Option
use mathlib.Core.Bool.{false≢true}
use mathlib.Core.Option.{some-injective}
use mt5_connector.Common.{
  All, Bool, List, Option, String, [], ap, arith, false, if◌then◌else◌, length, ltb, nat_eq, none,
  not, refl, some, string_eq, subst, sym, true, ℕ, ◌&&◌, ◌++◌, ◌∙◌, ◌∷◌, ◌≡◌,
}
use mt5_connector.Common.Dict.{Dict, lookup}
use mt5_connector.Orchestrator.Report.{
  PoolInspection, PoolReport, Problem, TerminalInspection, TerminalView, add_view, is_bound,
  is_empty, is_failed_state, is_other_build, noted, other_problems, pool_health_to_response,
  pool_problems, quarantine_note, quarantined_since, quorum_build_of, stale_count, stranded,
  terminal_views, truthy, view_from,
}
use mt5_connector.Pool.Health.Defs.{
  TerminalHealth, TerminalState, healthy, is_healthy, is_quarantined, is_suspect, is_usable,
  quarantined, recloning, suspect,
}
use mt5_connector.Pool.Manager.Defs.{Pool}
use mt5_connector.Pool.Manager.Upkeep.Boards.{is_recloning}
use mt5_connector.Pool.Worker.{Worker}

module _ {P : Type 0} where
  -- What a terminal without problems is.
  abbrev pub IsWell : Option String → Dict String (Worker P) → TerminalInspection → Type 0
  IsWell quorum workers item =
      (is_healthy item.health.state ≡ true)
      × (truthy item.health.reclone_error ≡ false)
      × (is_other_build quorum item.health.build ≡ false)
      × ((not (is_empty item.pids) && not (is_bound item.marker item.pids)) ≡ false)
      × ((w : Worker P) × (lookup item.health.terminal_path workers ≡ some w)
          × (is_failed_state w.state ≡ false))

noted-nil {ℓ} :
    {A : Type ℓ} (b : Bool) (problem : A) (rest : List A)
    → is_empty (noted b problem rest) ≡ true
    → (b ≡ false) × (is_empty rest ≡ true)
noted-nil true problem rest clean = absurd (false≢true clean)
noted-nil false problem rest clean = (refl, clean)

append-nil_inv {ℓ} :
    {A : Type ℓ} (xs ys : List A)
    → is_empty (xs ++ ys) ≡ true
    → (is_empty xs ≡ true) × (is_empty ys ≡ true)
append-nil_inv [] ys clean = (refl, clean)
append-nil_inv (x ∷ xs) ys clean = absurd (false≢true clean)

state-healthy :
    (state : TerminalState)
    → is_quarantined state ≡ false
    → is_recloning state ≡ false
    → is_suspect state ≡ false
    → is_healthy state ≡ true
state-healthy healthy a b c = refl
state-healthy suspect a b c = sym c
state-healthy quarantined a b c = sym a
state-healthy recloning a b c = sym b

quarantine_note-clean :
    (h : TerminalHealth) (found : List Problem)
    → quarantine_note h ≡ some found
    → is_empty found ≡ true
    → is_quarantined h.state ≡ false
quarantine_note-clean h found noted_ clean = split (is_quarantined h.state) h.quarantined_at noted_
  where
    split :
        (b : Bool) (since : Option ℕ)
        → (if b
            then Option.map (λ at. quarantined_since at h.quarantine_reason ∷ []) since
            else some [])
          ≡ some found
        → b ≡ false
    split false since e = refl
    split true none e = ground arith
    split true (some at) e = absurd (false≢true (ap is_empty (some-injective _ _ e) ∙ clean))

other_problems-clean :
    {P : Type 0} (quorum : Option String) (item : TerminalInspection) (w : Worker P)
    → is_empty (other_problems quorum item w) ≡ true
    → is_quarantined item.health.state ≡ false
    → (is_healthy item.health.state ≡ true)
      × (truthy item.health.reclone_error ≡ false)
      × (is_other_build quorum item.health.build ≡ false)
      × ((not (is_empty item.pids) && not (is_bound item.marker item.pids)) ≡ false)
      × (is_failed_state w.state ≡ false)
other_problems-clean quorum item w clean free =
    let (steady, clean1) = noted-nil (is_recloning item.health.state) _ _ clean in
    let (intact, clean2) = noted-nil (truthy item.health.reclone_error) _ _ clean1 in
    let (trusted, clean3) = noted-nil (is_suspect item.health.state) _ _ clean2 in
    let (same, clean4) = noted-nil (is_other_build quorum item.health.build) _ _ clean3 in
    let (bound, clean5) =
      noted-nil (not (is_empty item.pids) && not (is_bound item.marker item.pids)) _ _ clean4 in
    let (working, clean6) =
      noted-nil (is_failed_state w.state && is_usable item.health) _ _ clean5 in
    let well = state-healthy item.health.state free steady trusted in
    (well, intact, same, bound, ground arith)

add_view-some :
    (a : Option TerminalView) (b : Option (List TerminalView)) (views : List TerminalView)
    → add_view a b ≡ some views
    → (v : TerminalView) × (rest : List TerminalView) × (a ≡ some v)
      × (b ≡ some rest)
      × (v ∷ rest ≡ views)
add_view-some none b views e = ground arith
add_view-some (some v) none views e = ground arith
add_view-some (some v) (some rest) views e = (v, rest, refl, refl, some-injective _ _ e)

module _ {P : Type 0} (quorum : Option String) (workers : Dict String (Worker P)) where
  view_from-IsWell :
      (item : TerminalInspection) (w : Option (Worker P)) (found : Option (List Problem))
      (v : TerminalView)
      → lookup item.health.terminal_path workers ≡ w
      → quarantine_note item.health ≡ found
      → view_from quorum item w found ≡ some v
      → is_empty v.problems ≡ true
      → IsWell quorum workers item
  view_from-IsWell item none found v here noted_ e clean = ground arith
  view_from-IsWell item (some w) none v here noted_ e clean = ground arith
  view_from-IsWell item (some w) (some found) v here noted_ e clean =
      let shown : is_empty (found ++ other_problems quorum item w) ≡ true =
        ap (λ view. is_empty view.problems) (some-injective _ _ e) ∙ clean in
      let (first, second) = append-nil_inv found (other_problems quorum item w) shown in
      let (well, intact, same, bound, working) =
        other_problems-clean quorum item w second
          (quarantine_note-clean item.health found noted_ first) in
      (well, intact, same, bound, (w, here, working))

  terminal_views-IsWell :
      (items : List TerminalInspection) (views : List TerminalView)
      → terminal_views quorum workers items ≡ some views
      → All (λ v. is_empty v.problems ≡ true) views
      → All (IsWell quorum workers) items
  unfolding terminal_views
  terminal_views-IsWell [] views e clean = tt
  terminal_views-IsWell (item ∷ items) views e clean =
      let found = lookup item.health.terminal_path workers in
      let (v, rest, viewed, others, same) =
        add_view-some (view_from quorum item found (quarantine_note item.health))
          (terminal_views quorum workers items) views e in
      let (first, second) = subst (All (λ u. is_empty u.problems ≡ true)) (sym same) clean in
      (
        view_from-IsWell item found (quarantine_note item.health) v refl refl viewed first,
        terminal_views-IsWell items rest others second,
      )

-- A health report without any problem is true: every terminal that was inspected is healthy, with no
-- failed reclone, with the build of the quorum where both are known, with no running instance but
-- one that its worker launched, and with a worker that has not failed; the master has the build of
-- the quorum where both are known, no updater is stale, no account is pinned to a terminal in
-- quarantine, and the dispatchers are alive.
pub pool_health_to_response-IsWell :
    {P : Type 0} (s : Pool P) (alive : Bool) (inspection : PoolInspection)
    (assigned : Dict String ℕ) (status : String) (report : PoolReport)
    → pool_health_to_response s alive inspection assigned status ≡ some report
    → is_empty report.problems ≡ true
    → All (λ v. is_empty v.problems ≡ true) report.terminals
    → All (IsWell (quorum_build_of inspection) s.workers) inspection.terminals
      × (is_other_build (quorum_build_of inspection) inspection.master_build ≡ false)
      × (ltb 0 (stale_count inspection.updaters) ≡ false)
      × (ltb 0 (stranded assigned inspection.terminals) ≡ false)
      × (alive ≡ true)
unfolding pool_health_to_response
pool_health_to_response-IsWell s alive inspection assigned status report e clean wholes =
    split (terminal_views (quorum_build_of inspection) s.workers inspection.terminals) refl e
  where
    split :
        (o : Option (List TerminalView))
        → terminal_views (quorum_build_of inspection) s.workers inspection.terminals ≡ o
        → Option.map
            (λ views. record {
              status = status;
              quorum_build = quorum_build_of inspection;
              master_build = inspection.master_build;
              updaters = length inspection.updaters;
              terminals = views;
              problems = pool_problems alive inspection assigned;
            })
            o
          ≡ some report
        → All (IsWell (quorum_build_of inspection) s.workers) inspection.terminals
          × (is_other_build (quorum_build_of inspection) inspection.master_build ≡ false)
          × (ltb 0 (stale_count inspection.updaters) ≡ false)
          × (ltb 0 (stranded assigned inspection.terminals) ≡ false)
          × (alive ≡ true)
    split none viewed e' = ground arith
    split (some views) viewed e' =
        let same = some-injective _ _ e' in
        let shown : is_empty (pool_problems alive inspection assigned) ≡ true =
          ap (λ r. is_empty r.problems) same ∙ clean in
        let (current, clean1) =
          noted-nil (is_other_build (quorum_build_of inspection) inspection.master_build) _ _
            shown in
        let (fresh, clean2) = noted-nil (ltb 0 (stale_count inspection.updaters)) _ _ clean1 in
        let (none_lost, clean3) =
          noted-nil (ltb 0 (stranded assigned inspection.terminals)) _ _ clean2 in
        let (living, clean4) = noted-nil (not alive) _ _ clean3 in
        (
          terminal_views-IsWell (quorum_build_of inspection) s.workers inspection.terminals views
              viewed
              (subst (λ r. All (λ v. is_empty v.problems ≡ true) r.terminals) (sym same) wholes),
          current,
          fresh,
          none_lost,
          ground arith,
        )
