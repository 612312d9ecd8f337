-- ===== src/Mt5api/Clock/Switches.antt =====
-- What `_steps` makes of the weekends.
use mt5_connector.Common.{
  All, List, [], ap, arith, if-cases, refl, true, ◌&&◌, ◌++◌, ◌∷◌, ◌≡◌, ◌≢◌, ◌≤◌,
}
use mt5_connector.Common.Int.{abs, eq_of_parts, ℤ, ◌-ℤ◌}
use mt5_connector.Mt5api.Clock.Reading.{IsAscending}
use mt5_connector.Mt5api.Clock.Steps.{is_confirmed, is_switch, later_steps, steps_of}
use mt5_connector.Mt5api.Clock.Times.{IsBefore}
use mt5_connector.Mt5api.Clock.Week.{Weekend}

-- Each weekend opens after `t` and after those before it.
abbrev pub OpensAfter : ℤ → List Weekend → Type 0
OpensAfter t [] = Unit
OpensAfter t (w ∷ ws) = IsBefore t w.opens_at × OpensAfter w.opens_at ws

-- Three weekends in a row show this offset.
abbrev pub IsShown : List Weekend → ℤ → Type 0
IsShown weekends offset =
    (before : List Weekend) × (a : Weekend) × (b : Weekend) × (c : Weekend) × (after : List Weekend)
    × (weekends ≡ before ++ a ∷ b ∷ c ∷ after)
    × (a.offset ≡ offset)
    × (b.offset ≡ offset)
    × (c.offset ≡ offset)

-- The offsets change at each step, by an hour at most.
abbrev pub IsGradual : ℤ → List (ℤ × ℤ) → Type 0
IsGradual current [] = Unit
IsGradual current (s ∷ ss) = (s.1 ≢ current) × (abs (s.1 -ℤ current) ≤ 60) × IsGradual s.1 ss

-- The same from the first step on.
abbrev pub IsGradualClock : List (ℤ × ℤ) → Type 0
IsGradualClock [] = Unit
IsGradualClock (s ∷ ss) = IsGradual s.1 ss

OpensAfter-before : (t u : ℤ) (ws : List Weekend) → IsBefore t u → OpensAfter u ws → OpensAfter t ws
OpensAfter-before t u [] before order = tt
OpensAfter-before t u (w ∷ ws) before order = (omega (arith, order.0), order.1)

later_steps-IsAscending :
    (current opened : ℤ) (ws : List Weekend)
    → OpensAfter opened ws
    → (t : ℤ) → IsBefore t opened
    → All (λ s. IsBefore t s.0) (later_steps current opened ws)
      × IsAscending (later_steps current opened ws)
later_steps-IsAscending current opened [] order t before = (tt, tt)
later_steps-IsAscending current opened (w ∷ ws) order t before =
    let here = later_steps-IsAscending w.offset w.opens_at ws order.1 opened order.0 in
    let below = later_steps-IsAscending w.offset w.opens_at ws order.1 t (omega (arith, order.0)) in
    let rest = later_steps-IsAscending current w.opens_at ws order.1 t (omega (arith, order.0)) in
    if-cases (λ ss. All (λ s. IsBefore t s.0) ss × IsAscending ss)
      (is_confirmed w ws && is_switch current w.offset)
      ((opened, w.offset) ∷ later_steps w.offset w.opens_at ws) (later_steps current w.opens_at ws)
      (λ hit. ((before, below.0), (here.0, here.1))) (λ miss. rest)

later_steps-IsGradual :
    (current opened : ℤ) (ws : List Weekend) → IsGradual current (later_steps current opened ws)
later_steps-IsGradual current opened [] = tt
later_steps-IsGradual current opened (w ∷ ws) =
    let switched = later_steps-IsGradual w.offset w.opens_at ws in
    let rest = later_steps-IsGradual current w.opens_at ws in
    if-cases (IsGradual current) (is_confirmed w ws && is_switch current w.offset)
      ((opened, w.offset) ∷ later_steps w.offset w.opens_at ws) (later_steps current w.opens_at ws)
      (λ hit. (λ same. absurd (ground (arith, same)), ground arith, switched)) (λ miss. rest)

IsShown-cons :
    (w : Weekend) (ws : List Weekend) (offset : ℤ) → IsShown ws offset → IsShown (w ∷ ws) offset
IsShown-cons w ws offset (before, a, b, c, after, split, x, y, z) =
    (w ∷ before, a, b, c, after, ap (λ vs. w ∷ vs) split, x, y, z)

is_confirmed-IsShown :
    (w : Weekend) (ws : List Weekend) → is_confirmed w ws ≡ true → IsShown (w ∷ ws) w.offset
is_confirmed-IsShown w [] e = absurd (ground arith)
is_confirmed-IsShown w (a ∷ []) e = absurd (ground arith)
is_confirmed-IsShown w (a ∷ b ∷ ws) e = (
  [],
  w,
  a,
  b,
  ws,
  refl,
  refl,
  eq_of_parts a.offset w.offset (ground arith),
  eq_of_parts b.offset w.offset (ground arith),
)

All-IsShown_cons :
    (w : Weekend) (ws : List Weekend) (ss : List (ℤ × ℤ))
    → All (λ s. IsShown ws s.1) ss
    → All (λ s. IsShown (w ∷ ws) s.1) ss
All-IsShown_cons w ws [] h = tt
All-IsShown_cons w ws (s ∷ ss) h = (IsShown-cons w ws s.1 h.0, All-IsShown_cons w ws ss h.1)

later_steps-IsShown :
    (current opened : ℤ) (ws : List Weekend)
    → All (λ s. IsShown ws s.1) (later_steps current opened ws)
later_steps-IsShown current opened [] = tt
later_steps-IsShown current opened (w ∷ ws) =
    if-cases (All (λ s. IsShown (w ∷ ws) s.1)) (is_confirmed w ws && is_switch current w.offset)
      ((opened, w.offset) ∷ later_steps w.offset w.opens_at ws) (later_steps current w.opens_at ws)
      (λ hit. (
        is_confirmed-IsShown w ws (ground arith),
        All-IsShown_cons w ws (later_steps w.offset w.opens_at ws)
            (later_steps-IsShown w.offset w.opens_at ws),
      ))
      (λ miss.
        All-IsShown_cons w ws (later_steps current w.opens_at ws)
          (later_steps-IsShown current w.opens_at ws))

-- Every offset of the steps is one that three weekends in a row show.
pub steps_of-IsShown :
    (from_label : ℤ) (ws : List Weekend) → All (λ s. IsShown ws s.1) (steps_of from_label ws)
unfolding steps_of
steps_of-IsShown from_label [] = tt
steps_of-IsShown from_label (w ∷ ws) =
    if-cases (All (λ s. IsShown (w ∷ ws) s.1)) (is_confirmed w ws)
      ((from_label, w.offset) ∷ later_steps w.offset w.opens_at ws) (steps_of from_label ws)
      (λ hit. (
        is_confirmed-IsShown w ws hit,
        All-IsShown_cons w ws (later_steps w.offset w.opens_at ws)
            (later_steps-IsShown w.offset w.opens_at ws),
      ))
      (λ miss. All-IsShown_cons w ws (steps_of from_label ws) (steps_of-IsShown from_label ws))

-- For weekends in the order of time, the first bar before them, the steps are in the order of time,
-- and from each to the next the offset changes, by an hour at most.
pub steps_of-IsAscending :
    (from_label : ℤ) (ws : List Weekend)
    → OpensAfter from_label ws
    → IsAscending (steps_of from_label ws) × IsGradualClock (steps_of from_label ws)
unfolding steps_of
steps_of-IsAscending from_label [] order = (tt, tt)
steps_of-IsAscending from_label (w ∷ ws) order =
    if-cases (λ ss. IsAscending ss × IsGradualClock ss) (is_confirmed w ws)
      ((from_label, w.offset) ∷ later_steps w.offset w.opens_at ws) (steps_of from_label ws)
      (λ hit. (
        later_steps-IsAscending w.offset w.opens_at ws order.1 from_label order.0,
        later_steps-IsGradual w.offset w.opens_at ws,
      ))
      (λ miss.
        steps_of-IsAscending from_label ws
          (OpensAfter-before from_label w.opens_at ws order.0 order.1))
