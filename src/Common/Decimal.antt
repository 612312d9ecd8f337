-- ===== src/Common/Decimal.antt =====
-- `str` of a natural number.
use Prim.Native.String.{◌++◌ as concat}
use Prim.Native.Nat.{suc, zero, ℕ, ◌%◌, ◌/◌}
use Prim.Native.String.{String}
use mathlib.Core.List.{List, [], ◌∷◌}
use mt5_connector.Common.Tests.{if◌then◌else◌, ltb}

abbrev pub pick : ℕ → List String → String
pick n [] = ""
pick zero (s ∷ ss) = s
pick (suc n) (s ∷ ss) = pick n ss

abbrev pub digit : ℕ → String
digit n = pick n ("0" ∷ "1" ∷ "2" ∷ "3" ∷ "4" ∷ "5" ∷ "6" ∷ "7" ∷ "8" ∷ "9" ∷ [])

-- `fuel` is the number itself: each digit takes it to a tenth, so that the last one is below 10
abbrev pub str_from : ℕ → ℕ → String
str_from zero n = digit n
str_from (suc fuel) n =
    if ltb n 10 then digit n else concat (str_from fuel (n / 10)) (digit (n % 10))

unfoldable pub str : ℕ → String
str n = str_from n n
