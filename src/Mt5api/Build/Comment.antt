-- ===== src/Mt5api/Build/Comment.antt =====
-- `_PROTECTION_COMMENT` of mt5api/builders/position.py: the marks `[sl 1.5]` and `[tp 2]` in the
-- comment of a deal, in either case. The comments of a terminal are ASCII.
use mathlib.Core.Option
use Prim.Native.Char.{Char, code as code_of}
use text.Mathlib.TextBridge.{of_list as text_of}
use mt5_connector.Common.{
  Bool, List, Option, String, [], if◌then◌else◌, leb, nat_eq, none, or_else, some, string_eq, ℕ,
  ◌&&◌, ◌++◌, ◌==◌, ◌||◌, ◌∷◌,
}

abbrev pub chars_of : String → List Char
chars_of String.[] = []
chars_of (String.◌∷◌ c s) = c ∷ chars_of s

pub data Level : Type 0 where
  stop_loss take_profit : Level

abbrev pub is_digit : Char → Bool
is_digit c = leb 48 (code_of c) && leb (code_of c) 57

-- One character with either of two codes, and what follows it.
abbrev pub one_of : ℕ → ℕ → List Char → Option (Char × List Char)
one_of lower upper [] = none
one_of lower upper (c ∷ cs) =
    if code_of c == lower || code_of c == upper then some (c, cs) else none

abbrev pub skip : ℕ → ℕ → List Char → Option (List Char)
skip lower upper cs = Option.map (λ found. found.1) (one_of lower upper cs)

-- The digits at the start, and what follows them.
abbrev pub digits_of : List Char → List Char × List Char
digits_of [] = ([], [])
digits_of (c ∷ cs) =
    let rest = digits_of cs in if is_digit c then (c ∷ rest.0, rest.1) else ([], c ∷ cs)

-- `\d+`
abbrev pub number_of : List Char → Option (List Char × List Char)
number_of cs =
    let (ds, rest) = digits_of cs in elim ds [ [] ↦ none | d ∷ more ↦ some (d ∷ more, rest) ]

-- `sl` or `tp`
abbrev pub level_at : List Char → Option (Level × List Char)
level_at cs =
    or_else (Option.map (λ rest. (stop_loss, rest)) (Option.bind (skip 115 83 cs) (skip 108 76)))
      (Option.map (λ rest. (take_profit, rest)) (Option.bind (skip 116 84 cs) (skip 112 80)))

-- `\.\d+`
abbrev pub point_and_number : List Char → Option (List Char × List Char)
point_and_number cs =
    Option.bind (one_of 46 46 cs)
      (λ point. Option.map (λ number. (point.0 ∷ number.0, number.1)) (number_of point.1))

-- `\d+(?:\.\d+)?`
abbrev pub price_of : List Char → Option (List Char × List Char)
price_of cs =
    Option.map
      (λ whole. elim (point_and_number whole.1) [
        | none ↦ whole
        | some fraction ↦ (whole.0 ++ fraction.0, fraction.1)
      ])
      (number_of cs)

-- A mark at the start of the characters.
abbrev pub mark_at : List Char → Option (Level × String)
mark_at cs = Option.bind (Option.bind (skip 91 91 cs) level_at) (λ level.
    Option.bind (Option.bind (skip 32 32 level.1) price_of)
      (λ price. Option.map (λ rest. (level.0, text_of price.0)) (skip 93 93 price.1)))

-- `findall`: no mark starts within another, since `[` is only at its start
abbrev pub marks_in : List Char → List (Level × String)
marks_in [] = []
marks_in (c ∷ cs) =
    let rest = marks_in cs in elim (mark_at (c ∷ cs)) [ none ↦ rest | some mark ↦ mark ∷ rest ]

unfoldable pub protection_marks : String → List (Level × String)
protection_marks comment = marks_in (chars_of comment)
