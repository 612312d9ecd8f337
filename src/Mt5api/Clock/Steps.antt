-- ===== src/Mt5api/Clock/Steps.antt =====
-- `_steps`: the offsets that the weekends confirm, each with the time it starts at.
use mt5_connector.Common.{Bool, List, [], false, if◌then◌else◌, ltb, not, ℕ, ◌&&◌, ◌||◌, ◌∷◌}
use mt5_connector.Common.Int.{abs, eqb_ℤ, ℤ, ◌-ℤ◌}
use mt5_connector.Mt5api.Clock.Week.{Weekend}

abbrev pub max_switch_minutes : ℕ
max_switch_minutes = 60

-- The two later weekends confirm this one: `confirmations` is not short, and all offsets agree.
abbrev pub is_confirmed : Weekend → List Weekend → Bool
is_confirmed weekend (a ∷ b ∷ _) = eqb_ℤ a.offset weekend.offset && eqb_ℤ b.offset weekend.offset
is_confirmed weekend _ = false

abbrev pub is_switch : ℤ → ℤ → Bool
is_switch current offset =
    not (eqb_ℤ offset current || ltb max_switch_minutes (abs (offset -ℤ current)))

-- The loop of `_steps` once it has a step: `current` is the offset of its last one, and `opened`
-- the opening after the weekend before.
abbrev pub later_steps : ℤ → ℤ → List Weekend → List (ℤ × ℤ)
later_steps current opened [] = []
later_steps current opened (w ∷ ws) =
    if is_confirmed w ws && is_switch current w.offset
    then (opened, w.offset) ∷ later_steps w.offset w.opens_at ws
    else later_steps current w.opens_at ws

-- `_steps`
unfoldable pub steps_of : ℤ → List Weekend → List (ℤ × ℤ)
steps_of from_label [] = []
steps_of from_label (w ∷ ws) =
    if is_confirmed w ws
    then (from_label, w.offset) ∷ later_steps w.offset w.opens_at ws
    else steps_of from_label ws
