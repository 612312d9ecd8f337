-- ===== src/Common/Float.antt =====
-- What the code does with floating point numbers: an interface, since their arithmetic is the
-- processor's. Nothing is assumed of it but what a theorem names.
use Prim.Native.String.{String}
use mathlib.Core.Bool.{Bool, false, not, ◌||◌}
use mathlib.Core.List.{List, [], map, ◌∷◌}
use mathlib.Core.Option.{Option, none, some}
use mt5_connector.Common.Tests.{if◌then◌else◌}

pub record Float {ℓ} (F : Type ℓ) : Type ℓ where
  pub nought : F
  pub add : F → F → F
  pub sub : F → F → F
  pub mul : F → F → F
  pub div : F → F → F
  pub neg : F → F
  pub abs : F → F
  pub lt : F → F → Bool
  pub eq : F → F → Bool
  -- `round(x, 8)`
  pub round8 : F → F
  -- `round(x, -1)`
  pub round_tens : F → F
  -- `sum` of a list
  pub sum : List F → F
  -- `float` of a text that matches `\d+(\.\d+)?`
  pub of_text : String → F
  -- `f"{x:.8f}"`
  pub text8 : F → String

module _ {ℓ} {F : Type ℓ} ⦃fl : Float F⦄ where
  -- `if x`
  abbrev pub is_truthy : F → Bool
  is_truthy x = not (fl.eq x fl.nought)

  -- `x or 0.0`
  abbrev pub or_nought : F → F
  or_nought x = if is_truthy x then x else fl.nought

  -- `x and y` on an optional number: whether it is there and not 0
  abbrev pub is_given : Option F → Bool
  is_given none = false
  is_given (some x) = is_truthy x

  abbrev pub le : F → F → Bool
  le x y = fl.lt x y || fl.eq x y

  -- `max(x, y)` and `min(x, y)`
  abbrev pub max : F → F → F
  max x y = if fl.lt x y then y else x

  abbrev pub min : F → F → F
  min x y = if fl.lt y x then y else x

  abbrev pub fold_by : (F → F → F) → F → List F → F
  fold_by f x [] = x
  fold_by f x (y ∷ ys) = fold_by f (f x y) ys

  -- `max` and `min` of the list `x ∷ ys`
  abbrev pub maximum : F → List F → F
  maximum x ys = fold_by max x ys

  abbrev pub minimum : F → List F → F
  minimum x ys = fold_by min x ys

  -- mt5api/numbers.py
  unfoldable pub abs8 : F → F
  abs8 x = fl.round8 (fl.abs x)

  unfoldable pub weighted_price : List (F × F) → F
  weighted_price items =
      let total_volume = fl.sum (map (λ item. item.0) items) in
      if fl.eq total_volume fl.nought
      then fl.nought
      else fl.div (fl.sum (map (λ item. fl.mul item.0 item.1) items)) total_volume
