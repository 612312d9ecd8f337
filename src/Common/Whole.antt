-- ===== src/Common/Whole.antt =====
-- Whole numbers in the place of floating point numbers, for the examples.
use Prim.Native.String.{◌++◌ as concat}
use Prim.Native.Nat.{suc, ◌*◌, ◌+◌, ◌/◌}
use Prim.Native.String.{String}
use mathlib.Core.List.{List, [], ◌∷◌}
use mt5_connector.Common.Decimal.{str}
use mt5_connector.Common.Float.{Float}
use mt5_connector.Common.Int.{
  abs, eqb_ℤ, ltb_ℤ, neg_part, negsuc, pos, pos_part, sub_ℕ, ℤ, ◌+ℤ◌, ◌-ℤ◌,
}

abbrev pub times : ℤ → ℤ → ℤ
times a b =
    sub_ℕ (pos_part a * pos_part b + neg_part a * neg_part b)
      (pos_part a * neg_part b + neg_part a * pos_part b)

abbrev pub sum_of : List ℤ → ℤ
sum_of [] = pos 0
sum_of (x ∷ xs) = x +ℤ sum_of xs

abbrev pub sign_of : ℤ → ℤ
sign_of (pos n) = pos 1
sign_of (negsuc n) = negsuc 0

-- The sign of the quotient is that of the numbers.
abbrev pub quotient : ℤ → ℤ → ℤ
quotient a b = times (times (sign_of a) (sign_of b)) (pos (abs a / abs b))

abbrev pub text_of_whole : ℤ → String
text_of_whole (pos n) = str n
text_of_whole (negsuc n) = concat "-" (str (suc n))

instance abbrev pub whole_float : Float ℤ
whole_float = record {
  nought = pos 0;
  add = λ a b. a +ℤ b;
  sub = λ a b. a -ℤ b;
  mul = times;
  div = quotient;
  neg = λ a. pos 0 -ℤ a;
  abs = λ a. pos (abs a);
  lt = ltb_ℤ;
  eq = eqb_ℤ;
  round8 = λ a. a;
  round_tens = λ a. times (quotient a (pos 10)) (pos 10);
  sum = sum_of;
  of_text = λ s. pos 1;
  text8 = text_of_whole;
}
