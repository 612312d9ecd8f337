-- ===== src/Mt5api/Enrich/Segments.antt =====
-- `_segments` of mt5api/enrichment.py: the candles to ask for, by minute or by day.
use mathlib.Core.Bool.{false≢true}
use mt5_connector.Common.{
  All, Bool, List, [], ap, arith, false, if-cases, if◌then◌else◌, length, refl, subst, suc, sym,
  true, ℕ, ◌*◌, ◌-◌, ◌/◌, ◌||◌, ◌∷◌, ◌≡◌, ◌≢◌, ◌≤◌,
}
use mt5_connector.Common.Int.{
  add_parts, eq_of_parts, eqb_ℤ, int_laws, leb_ℤ, ltb_ℤ, neg_part, negsuc, pos, pos_part,
  sub_add_cancel, sub_parts, ℤ, ◌+ℤ◌, ◌-ℤ◌, ◌≤ℤ◌,
}
use mt5_connector.Mt5api.Clock.Times.{date_of, day, scale}
use mt5_connector.Mt5api.Clock.Week.{days}

pub data Interval : Type 0 where
  by_minute by_day : Interval

pub record Segment : Type 0 where
  pub interval : Interval
  pub begins : ℤ
  pub ends : ℤ

-- `_TICK`, a microsecond
abbrev pub tick : ℤ
tick = pos 1

abbrev pub min_span_for_daily : ℤ
min_span_for_daily = pos 172800000000

-- The midnight at which the day of a datetime begins.
unfoldable pub midnight_of : ℤ → ℤ
unfolding scale
midnight_of t = scale day (date_of t)

abbrev pub by_minutes : ℤ → ℤ → Segment
by_minutes a b = record { interval = by_minute; begins = a; ends = b }

abbrev pub by_days : ℤ → ℤ → Segment
by_days a b = record { interval = by_day; begins = a; ends = b }

abbrev pub first_day_of : ℤ → ℤ
first_day_of start =
    let midnight = midnight_of start in
    if eqb_ℤ midnight start then midnight else midnight +ℤ pos day

abbrev pub whole_days : ℤ → ℤ → ℤ → ℤ → List Segment
whole_days start first_day last_day end_ =
    let rest = by_days first_day (last_day -ℤ tick) ∷ by_minutes last_day end_ ∷ [] in
    if ltb_ℤ start first_day then by_minutes start (first_day -ℤ tick) ∷ rest else rest

unfoldable pub segments : ℤ → ℤ → List Segment
segments start end_ =
    let first_day = first_day_of start in
    let last_day = midnight_of end_ in
    if leb_ℤ end_ start || ltb_ℤ (end_ -ℤ start) min_span_for_daily
    then by_minutes start end_ ∷ []
    else if leb_ℤ last_day first_day
    then by_minutes start end_ ∷ []
    else whole_days start first_day last_day end_

-- The segments go on from a moment to the end, one microsecond apart.
abbrev pub GoesOn : ℤ → ℤ → List Segment → Type 0
GoesOn last end_ [] = last ≡ end_
GoesOn last end_ (s ∷ ss) = (s.begins ≡ last +ℤ tick) × (s.begins ≤ℤ s.ends) × GoesOn s.ends end_ ss

-- The segments cover the time from the start to the end without a gap or an overlap.
abbrev pub IsTiling : ℤ → ℤ → List Segment → Type 0
IsTiling start end_ [] = ⊥
IsTiling start end_ (s ∷ ss) = (s.begins ≡ start) × (s.begins ≤ℤ s.ends) × GoesOn s.ends end_ ss

-- A segment of days begins at a midnight and ends just before one.
abbrev pub IsWholeDays : Segment → Type 0
IsWholeDays s =
    s.interval ≡ by_day
    → (midnight_of s.begins ≡ s.begins) × (midnight_of (s.ends +ℤ tick) ≡ s.ends +ℤ tick)

midnight_of-le : (t : ℤ) → midnight_of t ≤ℤ t
unfolding midnight_of
midnight_of-le (pos n) = omega arith
midnight_of-le (negsuc n) = omega arith

midnight_of-next : (t : ℤ) → t ≤ℤ midnight_of t +ℤ pos day
unfolding midnight_of
midnight_of-next (pos n) = omega int_laws
midnight_of-next (negsuc n) = omega int_laws

day_mul_div : (m : ℕ) → day * m / day ≡ m
day_mul_div m = omega arith

day_mul_sub_div : (m : ℕ) → (day * suc m - 1) / day ≡ m
day_mul_sub_div m = omega arith

-- Whole days from the start of the calendar are midnights.
midnight_of-scale : (days : ℤ) → midnight_of (scale day days) ≡ scale day days
unfolding midnight_of scale
midnight_of-scale (pos m) = ap (λ k. pos (day * k)) (day_mul_div m)
midnight_of-scale (negsuc m) = ap (λ k. negsuc (day * suc k - 1)) (day_mul_sub_div m)

scale_parts :
    (days : ℤ)
    → (pos_part (scale day days) ≡ day * pos_part days)
      × (neg_part (scale day days) ≡ day * neg_part days)
unfolding scale
scale_parts (pos m) = (omega arith, omega arith)
scale_parts (negsuc m) = (omega arith, omega arith)

scale-next : (days : ℤ) → scale day days +ℤ pos day ≡ scale day (days +ℤ pos 1)
scale-next days =
    let a = scale_parts days in
    let b = scale_parts (days +ℤ pos 1) in
    eq_of_parts (scale day days +ℤ pos day) (scale day (days +ℤ pos 1)) (
      omega
        (arith, a.0, a.1, b.0, b.1, add_parts (scale day days) (pos day), add_parts days (pos 1)))

midnight_of-midnight_of : (t : ℤ) → midnight_of (midnight_of t) ≡ midnight_of t
unfolding midnight_of
midnight_of-midnight_of t = midnight_of-scale (date_of t)

first_day_of-midnight : (t : ℤ) → midnight_of (first_day_of t) ≡ first_day_of t
unfolding midnight_of
first_day_of-midnight t =
    let next : midnight_of (midnight_of t +ℤ pos day) ≡ midnight_of t +ℤ pos day =
      subst (λ d. midnight_of d ≡ d) (sym (scale-next (date_of t)))
        (midnight_of-scale (date_of t +ℤ pos 1)) in
    if-cases (λ d. midnight_of d ≡ d) (eqb_ℤ (midnight_of t) t) (midnight_of t)
      (midnight_of t +ℤ pos day) (λ same. midnight_of-midnight_of t) (λ later. next)

first_day_of-ge : (t : ℤ) → t ≤ℤ first_day_of t
first_day_of-ge t =
    if-cases (λ d. t ≤ℤ d) (eqb_ℤ (midnight_of t) t) (midnight_of t) (midnight_of t +ℤ pos day)
      (λ same. ground arith) (λ later. midnight_of-next t)

whole_days-IsTiling :
    (start first_day last_day end_ : ℤ)
    → start ≤ℤ first_day
    → last_day ≤ℤ end_
    → leb_ℤ last_day first_day ≡ false
    → IsTiling start end_ (whole_days start first_day last_day end_)
whole_days-IsTiling start first_day last_day end_ after before apart =
    let last_le : first_day ≤ℤ last_day -ℤ tick = ground (arith, sub_parts last_day tick) in
    let on : last_day ≡ last_day -ℤ tick +ℤ tick = sym (sub_add_cancel last_day tick) in
    if-cases (IsTiling start end_) (ltb_ℤ start first_day)
      (by_minutes start (first_day -ℤ tick)
        ∷ by_days first_day (last_day -ℤ tick)
        ∷ by_minutes last_day end_
        ∷ [])
      (by_days first_day (last_day -ℤ tick) ∷ by_minutes last_day end_ ∷ [])
      (λ earlier. (
        refl,
        ground (arith, sub_parts first_day tick),
        (sym (sub_add_cancel first_day tick), last_le, (on, before, refl)),
      ))
      (λ same. (eq_of_parts first_day start (ground arith), last_le, (on, before, refl)))

by_minutes-IsWholeDays : (a b : ℤ) → IsWholeDays (by_minutes a b)
by_minutes-IsWholeDays a b e = absurd (by_minute≢by_day e)
  where
    is_by_day : Interval → Bool
    is_by_day by_minute = false
    is_by_day by_day = true

    by_minute≢by_day : by_minute ≢ by_day
    by_minute≢by_day h = false≢true (ap is_by_day h)

whole_days-few :
    (start first_day last_day end_ : ℤ)
    → midnight_of first_day ≡ first_day
    → midnight_of last_day ≡ last_day
    → (length (whole_days start first_day last_day end_) ≤ 3)
      × All IsWholeDays (whole_days start first_day last_day end_)
whole_days-few start first_day last_day end_ first last =
    let days : IsWholeDays (by_days first_day (last_day -ℤ tick)) =
      λ e. (first, subst (λ d. midnight_of d ≡ d) (sym (sub_add_cancel last_day tick)) last) in
    if-cases (λ l. (length l ≤ 3) × All IsWholeDays l) (ltb_ℤ start first_day)
      (by_minutes start (first_day -ℤ tick)
        ∷ by_days first_day (last_day -ℤ tick)
        ∷ by_minutes last_day end_
        ∷ [])
      (by_days first_day (last_day -ℤ tick) ∷ by_minutes last_day end_ ∷ [])
      (λ earlier. (
        omega arith,
        (
          by_minutes-IsWholeDays start (first_day -ℤ tick),
          (days, (by_minutes-IsWholeDays last_day end_, tt)),
        ),
      ))
      (λ same. (omega arith, (days, (by_minutes-IsWholeDays last_day end_, tt))))

abbrev pub IsCovering : ℤ → ℤ → List Segment → Type 0
IsCovering start end_ ss = IsTiling start end_ ss × (length ss ≤ 3) × All IsWholeDays ss

-- The segments of a position that is not closed before it opens cover its time without a gap or an
-- overlap, there are three at most, and a segment that asks for days covers whole days.
pub segments-IsTiling :
    (start end_ : ℤ) → start ≤ℤ end_ → IsCovering start end_ (segments start end_)
unfolding segments
segments-IsTiling start end_ ordered =
    let first_day = first_day_of start in
    let last_day = midnight_of end_ in
    let whole = whole_days start first_day last_day end_ in
    let one : List Segment = by_minutes start end_ ∷ [] in
    let short : IsCovering start end_ one =
      ((refl, ordered, refl), omega arith, (by_minutes-IsWholeDays start end_, tt)) in
    if-cases (IsCovering start end_) (leb_ℤ end_ start || ltb_ℤ (end_ -ℤ start) min_span_for_daily)
      one (if leb_ℤ last_day first_day then one else whole) (λ brief. short)
      (λ long.
        if-cases (IsCovering start end_) (leb_ℤ last_day first_day) one whole (λ none_whole. short)
          (λ apart.
            let few =
              whole_days-few start first_day last_day end_ (first_day_of-midnight start)
                (midnight_of-midnight_of end_) in
            (
              whole_days-IsTiling start first_day last_day end_ (first_day_of-ge start)
                  (midnight_of-le end_) apart,
              few.0,
              few.1,
            )))
