-- ===== src/Base/Text/Decimal.antt =====
-- What a number in a text stands for: the text is read back digit by digit.
use Prim.Native.Nat.{ℕ, zero, suc, ◌+◌, ◌-◌, ◌*◌, ◌/◌, ◌%◌, ◌<◌, ◌≤◌}
use Prim.Native.Char.{code}
use Prim.Native.String.{String, [], ◌∷◌, ◌++◌}
use mathlib.Core.Path.{◌≡◌, refl, sym, ap, ◌∙◌}
use mathlib.Core.Logic.{inl, inr}
use text.Mathlib.TextLemmas.{nil-append, cons-append}
use native.Mathlib.Omega.{arith}
use ugo.Base.Tests.{leb, Bool-cases}
use ugo.Base.Text.{digit, digit_from, decimal, decimal_fuel}

-- The number that a text stands for after digits with a value before it.
unfoldable pub value_from : ℕ → String → ℕ
value_from n [] = n
value_from n (c ∷ s) = value_from (n * 10 + (code c - 48)) s

-- The text of a number below 10 adds one digit to a value.
value_from-digit : (n d : ℕ) → d < 10 → value_from n (digit d) ≡ n * 10 + d
unfolding value_from digit digit_from
value_from-digit n zero h = omega arith
value_from-digit n (suc zero) h = omega arith
value_from-digit n (suc (suc zero)) h = omega arith
value_from-digit n (suc (suc (suc zero))) h = omega arith
value_from-digit n (suc (suc (suc (suc zero)))) h = omega arith
value_from-digit n (suc (suc (suc (suc (suc zero))))) h = omega arith
value_from-digit n (suc (suc (suc (suc (suc (suc zero)))))) h = omega arith
value_from-digit n (suc (suc (suc (suc (suc (suc (suc zero))))))) h = omega arith
value_from-digit n (suc (suc (suc (suc (suc (suc (suc (suc zero)))))))) h = omega arith
value_from-digit n (suc (suc (suc (suc (suc (suc (suc (suc (suc zero))))))))) h = omega arith
value_from-digit n (suc (suc (suc (suc (suc (suc (suc (suc (suc (suc d)))))))))) h =
    absurd (omega arith)

value_from-append : (n : ℕ) (a b : String) → value_from n (a ++ b) ≡ value_from (value_from n a) b
unfolding value_from
value_from-append n [] b = rw nil-append refl
value_from-append n (c ∷ a) b = rw cons-append (value_from-append (n * 10 + (code c - 48)) a b)

-- Enough fuel: a number below the fuel is written out whole.
value_from-decimal_fuel : (f n : ℕ) → n < f → value_from 0 (decimal_fuel f n) ≡ n
unfolding decimal_fuel
value_from-decimal_fuel zero n h = elim h [ ]
value_from-decimal_fuel (suc f) n h = elim (Bool-cases (leb n 9)) [
  | inl small ↦ rw small (value_from-digit 0 n (ground arith) ∙ omega arith)
  | inr large ↦
      rw (large, value_from-append)
        (value_from-digit (value_from 0 (decimal_fuel f (n / 10))) (n % 10) (omega arith)
          ∙ omega (arith, value_from-decimal_fuel f (n / 10) (ground arith)))
]

decimal_value : (n : ℕ) → value_from 0 (decimal n) ≡ n
unfolding decimal
decimal_value n = value_from-decimal_fuel (suc n) n (omega arith)

-- The number that a text of digits stands for.
abbrev pub to_number : String → ℕ
to_number t = value_from 0 t

-- Digits after a value make it at least ten times as large.
value_from-decimal_fuel-le : (v f n : ℕ) → n < f → v * 10 + n ≤ value_from v (decimal_fuel f n)
unfolding decimal_fuel
value_from-decimal_fuel-le v zero n h = elim h [ ]
value_from-decimal_fuel-le v (suc f) n h = elim (Bool-cases (leb n 9)) [
  | inl small ↦ rw (small, value_from-digit v n (ground arith)) (omega arith)
  | inr large ↦
      rw
        (
          large,
          value_from-append v (decimal_fuel f (n / 10)) (digit (n % 10)),
          value_from-digit (value_from v (decimal_fuel f (n / 10))) (n % 10) (omega arith),
        )
        (omega (arith, value_from-decimal_fuel-le v f (n / 10) (ground arith)))
]

-- What is read where two numbers are written one after the other.
pub to_number-joined : (v n : ℕ) → v * 10 + n ≤ to_number (decimal v ++ decimal n ++ "")
unfolding decimal value_from
to_number-joined v n =
    rw
      (
        value_from-append 0 (decimal v) (decimal n ++ ""),
        value_from-append (to_number (decimal v)) (decimal n) "",
        decimal_value v,
      )
      (value_from-decimal_fuel-le v (suc n) n (omega arith))

-- Two numbers that are written alike are the same.
pub decimal_inj : (m n : ℕ) → decimal m ≡ decimal n → m ≡ n
decimal_inj m n e = sym (decimal_value m) ∙ ap (value_from 0) e ∙ decimal_value n
