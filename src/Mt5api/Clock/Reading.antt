-- ===== src/Mt5api/Clock/Reading.antt =====
-- Which offset a clock reads at a time, and that its two conversions undo each other.
use mathlib.Core.List.{Mem, mem-cons_of_mem, mem-cons_self, reverse}
use mt5_connector.Common.{
  All, List, Option-cases, [], arith, find, inl, inr, none, refl, some, subst, sym, true, ◌∷◌, ◌≡◌,
}
use mt5_connector.Common.Int.{int_laws, pos, sub_add_cancel, ℤ, ◌+ℤ◌, ◌-ℤ◌, ◌≤ℤ◌}
use mt5_connector.Common.Search.{
  All-map, All-reverse, find-All, find-agree, find-reverse_cons, find-some,
}
use mt5_connector.Mt5api.Clock.Defs.{
  ServerClock, has_begun, has_begun_utc, instant_of, offset_at, to_server, to_utc,
}
use mt5_connector.Mt5api.Clock.Times.{IsBefore, Stamp, as_server_time, minutes, naive, utc}

-- The steps stand in the order of their times.
abbrev pub IsAscending : List (ℤ × ℤ) → Type 0
IsAscending [] = Unit
IsAscending (s ∷ ss) = All (λ t. IsBefore s.0 t.0) ss × IsAscending ss

-- The step `s` is the latest of `steps` that has begun at `label`.
abbrev pub IsLatest : ℤ → List (ℤ × ℤ) → ℤ × ℤ → Type 0
IsLatest label steps s = (s.0 ≤ℤ label) × Mem s steps × All (λ t. t.0 ≤ℤ label → t.0 ≤ℤ s.0) steps

All-none_begun :
    (label bound : ℤ) (steps : List (ℤ × ℤ))
    → find (has_begun label) (reverse steps) ≡ none
    → All (λ t. t.0 ≤ℤ label → t.0 ≤ℤ bound) steps
All-none_begun label bound [] e = tt
All-none_begun label bound (s ∷ ss) e =
    let split = find-reverse_cons (has_begun label) s ss in
    elim (Option-cases (find (has_begun label) (reverse ss))) [
      | inl nothing ↦
          (λ begun. absurd (ground (arith, split)), All-none_begun label bound ss nothing)
      | inr (t, found) ↦ absurd (ground (arith, split))
    ]

find-IsLatest :
    (label : ℤ) (steps : List (ℤ × ℤ)) (s : ℤ × ℤ)
    → IsAscending steps
    → find (has_begun label) (reverse steps) ≡ some s
    → IsLatest label steps s
find-IsLatest label [] s asc e = absurd (ground arith)
find-IsLatest label (x ∷ xs) s asc e =
    let split = find-reverse_cons (has_begun label) x xs in
    elim (Option-cases (find (has_begun label) (reverse xs))) [
      | inl nothing ↦
          let same : x ≡ s = ground (arith, split) in
          let early : has_begun label x ≡ true = ground (arith, split) in
          subst (IsLatest label (x ∷ xs)) same (
            ground (arith, early),
            mem-cons_self,
            (λ _. omega arith, All-none_begun label x.0 xs nothing),
          )
      | inr (t, found) ↦
          let same : t ≡ s = ground (arith, split) in
          let rest = find-IsLatest label xs t asc.1 found in
          let after = find-All (λ y. IsBefore x.0 y.0) (has_begun label) xs t asc.0 found in
          subst (IsLatest label (x ∷ xs)) same
            (rest.0, mem-cons_of_mem x rest.1, (λ _. omega (arith, after), rest.2))
    ]

-- A clock with its steps in order reads at a time the offset of the latest step that has begun
-- then: that step is one of its own, and no step that has begun is later.
pub offset_at-IsLatest :
    (clock : ServerClock) (value : Stamp) (offset : ℤ)
    → IsAscending clock.steps
    → offset_at clock (some value) ≡ some offset
    → (start : ℤ) × IsLatest (as_server_time value) clock.steps (start, offset)
unfolding offset_at
offset_at-IsLatest clock value offset asc e =
    elim (Option-cases (find (has_begun value.reads) (reverse clock.steps))) [
      | inl nothing ↦ absurd (ground arith)
      | inr (step, found) ↦
          let same : step.1 ≡ offset = ground arith in
          (
            step.0,
            subst (λ o. IsLatest value.reads clock.steps (step.0, o)) same
                (find-IsLatest value.reads clock.steps step asc found),
          )
    ]

-- The step that an offset comes from.
offset_at-step :
    (clock : ServerClock) (label offset : ℤ)
    → offset_at clock (some (naive label)) ≡ some offset
    → (start : ℤ) × (find (has_begun label) (reverse clock.steps) ≡ some (start, offset))
unfolding offset_at
offset_at-step clock label offset e =
    elim (Option-cases (find (has_begun label) (reverse clock.steps))) [
      | inl nothing ↦ absurd (ground arith)
      | inr (step, found) ↦ (step.0, ground arith)
    ]

sub_zero : (a : ℤ) → a -ℤ pos 0 ≡ a
sub_zero a = omega int_laws

add_sub_cancel : (a b : ℤ) → a +ℤ b -ℤ b ≡ a
add_sub_cancel a b = omega int_laws

to_utc-known :
    (clock : ServerClock) (label offset : ℤ)
    → offset_at clock (some (naive label)) ≡ some offset
    → to_utc clock (some (naive label)) ≡ some (utc (label -ℤ minutes offset))
unfolding to_utc
to_utc-known clock label offset e = rw e refl

to_server-known :
    (clock : ServerClock) (value : Stamp) (step : ℤ × ℤ)
    → find (has_begun_utc (instant_of value)) (reverse clock.steps) ≡ some step
    → to_server clock (some value) ≡ some (record value { reads = value.reads +ℤ minutes step.1 })
unfolding to_server
to_server-known clock value step e = rw e refl

-- A broker's time that the clock turns into UTC comes back from it as it was, unless it falls in
-- a gap: a later step that has not begun at the time, but has once the step's own offset is applied.
pub to_server-to_utc :
    (clock : ServerClock) (label offset : ℤ)
    → offset_at clock (some (naive label)) ≡ some offset
    → All
        (λ step. step.0 ≤ℤ label -ℤ minutes offset +ℤ minutes step.1 → step.0 ≤ℤ label)
        clock.steps
    → to_server clock (to_utc clock (some (naive label))) ≡ some (utc label)
unfolding to_utc offset_at
to_server-to_utc clock label offset e no_gap =
    let step = offset_at-step clock label offset e in
    let moment = label -ℤ minutes offset in
    let back = sub_add_cancel label (minutes offset) in
    let begun = (find-some (has_begun label) (reverse clock.steps) (step.0, offset) step.1).0 in
    let hit =
      find-agree (has_begun label) (has_begun_utc moment) (reverse clock.steps) (step.0, offset)
        step.1 (subst (λ t. has_begun t (step.0, offset) ≡ true) (sym back) begun)
        (All-reverse _ clock.steps (
          All-map (λ s. s.0 ≤ℤ label -ℤ minutes offset +ℤ minutes s.1 → s.0 ≤ℤ label)
            (λ s. has_begun_utc moment s ≡ true → has_begun label s ≡ true) clock.steps
            (λ s keeps started. ground (arith, keeps)) no_gap)) in
    subst (λ v. to_server clock v ≡ some (utc label)) (sym (to_utc-known clock label offset e))
      (subst (λ t. to_server clock (some (utc moment)) ≡ some (utc t)) back
        (to_server-known clock (utc moment) (step.0, offset)
          (subst (λ t. find (has_begun_utc t) (reverse clock.steps) ≡ some (step.0, offset))
            (sym (sub_zero moment)) hit)))

-- A moment in UTC that the clock turns into a broker's time comes back from it as it was, unless it
-- falls in an overlap: a later step that has begun at the broker's time, but not yet once the
-- step's own offset is applied to the moment.
pub to_utc-to_server :
    (clock : ServerClock) (moment label : ℤ)
    → to_server clock (some (naive moment)) ≡ some (naive label)
    → All (λ step. step.0 ≤ℤ label → step.0 ≤ℤ moment +ℤ minutes step.1) clock.steps
    → to_utc clock (some (naive label)) ≡ some (utc moment)
unfolding to_server offset_at
to_utc-to_server clock moment label e no_overlap =
    elim (Option-cases (find (has_begun_utc moment) (reverse clock.steps))) [
      | inl nothing ↦ absurd (ground arith)
      | inr (step, found) ↦
          let same : moment +ℤ minutes step.1 ≡ label = ground arith in
          let begun = (find-some (has_begun_utc moment) (reverse clock.steps) step found).0 in
          let hit =
            find-agree (has_begun_utc moment) (has_begun label) (reverse clock.steps) step found
              (subst (λ t. has_begun t step ≡ true) same begun)
              (All-reverse _ clock.steps (
                All-map (λ s. s.0 ≤ℤ label → s.0 ≤ℤ moment +ℤ minutes s.1)
                  (λ s. has_begun label s ≡ true → has_begun_utc moment s ≡ true) clock.steps
                  (λ s keeps started. ground (arith, keeps)) no_overlap)) in
          let back : label -ℤ minutes step.1 ≡ moment =
            subst (λ t. t -ℤ minutes step.1 ≡ moment) same
              (add_sub_cancel moment (minutes step.1)) in
          subst (λ t. to_utc clock (some (naive label)) ≡ some (utc t)) back
            (to_utc-known clock label step.1 (rw hit refl))
    ]
