-- ===== src/Base/Text.antt =====
-- Numbers in a text, as a template literal prints them.
pub mod Decimal
pub mod Dash
use Prim.Native.Nat.{ℕ, zero, suc, ◌/◌, ◌%◌}
use Prim.Native.String.{String, ◌++◌}
use mathlib.Core.List.{List, [], ◌∷◌}
use ugo.Base.Tests.{leb, if◌then◌else◌}

digit_from : List String → ℕ → String
digit_from [] n = ""
digit_from (d ∷ ds) zero = d
digit_from (d ∷ ds) (suc n) = digit_from ds n

digit : ℕ → String
unfolding digit_from
digit = digit_from ("0" ∷ "1" ∷ "2" ∷ "3" ∷ "4" ∷ "5" ∷ "6" ∷ "7" ∷ "8" ∷ "9" ∷ [])

-- On fuel; a number has at most as many digits as its value plus one.
decimal_fuel : ℕ → ℕ → String
decimal_fuel zero n = ""
decimal_fuel (suc f) n =
    let front = decimal_fuel f (n / 10) in if leb n 9 then digit n else front ++ digit (n % 10)

unfoldable pub decimal : ℕ → String
unfolding decimal_fuel digit
decimal n = decimal_fuel (suc n) n

-- Texts joined by a dash, `${a}-${b}`.
abbrev pub dashed : String → String → String
dashed a b = a ++ "-" ++ b

-- A template literal, by its parts.
abbrev pub concat : List String → String
concat [] = ""
concat (t ∷ ts) = t ++ concat ts
