-- ===== src/Base/Text/Dash.antt =====
-- Texts joined by a dash: when the parts are determined.
use Prim.Native.Nat.{ℕ, zero, suc, ◌/◌, ◌%◌}
use Prim.Native.Char.{Char, code}
use Prim.Native.String.{String, [], ◌∷◌, ◌++◌}
use mathlib.Core.Path.{◌≡◌, refl, sym, ap, ◌∙◌}
use mathlib.Core.Logic.{◌≢◌, inl, inr}
use text.Mathlib.TextLemmas.{nil-append, cons-append, head-eq_of_cons-eq, tail-eq_of_cons-eq}
use native.Mathlib.Omega.{arith}
use ugo.Base.Tests.{leb, Bool-cases}
use ugo.Base.Text.{digit, digit_from, decimal, decimal_fuel, dashed}

abbrev pub NoDash : String → Type 0
NoDash [] = Unit
NoDash (c ∷ s) = (code c ≢ b'-') × NoDash s

abbrev dash : Char
dash = "-"

nil_dashed : (b : String) → dashed [] b ≡ dash ∷ b
nil_dashed b =
    nil-append (dash ∷ [] ++ b) ∙ cons-append dash [] b ∙ ap (λ s. dash ∷ s) (nil-append b)

cons_dashed : (c : Char) (a b : String) → dashed (c ∷ a) b ≡ c ∷ dashed a b
cons_dashed c a b = cons-append c a (dash ∷ [] ++ b)

cons_path : {c c' : Char} {a a' : String} → c ≡ c' → a ≡ a' → Path String (c ∷ a) (c' ∷ a')
cons_path p q = λ i. p i ∷ q i

pub dashed_inj :
    (a a' b b' : String) → NoDash a → NoDash a' → dashed a b ≡ dashed a' b' → (a ≡ a') × (b ≡ b')
dashed_inj [] [] b b' n n' e = (refl, tail-eq_of_cons-eq (sym (nil_dashed b) ∙ e ∙ nil_dashed b'))
dashed_inj [] (c ∷ a') b b' n (n', _) e =
    absurd (n' (ap code (sym (head-eq_of_cons-eq (sym (nil_dashed b) ∙ e ∙ cons_dashed c a' b')))))
dashed_inj (c ∷ a) [] b b' (n, _) n' e =
    absurd (n (ap code (head-eq_of_cons-eq (sym (cons_dashed c a b) ∙ e ∙ nil_dashed b'))))
dashed_inj (c ∷ a) (c' ∷ a') b b' (n, ns) (n', ns') e =
    let stripped = sym (cons_dashed c a b) ∙ e ∙ cons_dashed c' a' b' in
    let (same, rest) = dashed_inj a a' b b' ns ns' (tail-eq_of_cons-eq stripped) in
    (cons_path (head-eq_of_cons-eq stripped) same, rest)

NoDash-append : (a b : String) → NoDash a → NoDash b → NoDash (a ++ b)
NoDash-append [] b h k = rw nil-append k
NoDash-append (c ∷ a) b (h, hs) k = rw cons-append (h, NoDash-append a b hs k)

NoDash-digit : (d : ℕ) → NoDash (digit d)
unfolding digit digit_from
NoDash-digit zero = (ground arith, tt)
NoDash-digit (suc zero) = (ground arith, tt)
NoDash-digit (suc (suc zero)) = (ground arith, tt)
NoDash-digit (suc (suc (suc zero))) = (ground arith, tt)
NoDash-digit (suc (suc (suc (suc zero)))) = (ground arith, tt)
NoDash-digit (suc (suc (suc (suc (suc zero))))) = (ground arith, tt)
NoDash-digit (suc (suc (suc (suc (suc (suc zero)))))) = (ground arith, tt)
NoDash-digit (suc (suc (suc (suc (suc (suc (suc zero))))))) = (ground arith, tt)
NoDash-digit (suc (suc (suc (suc (suc (suc (suc (suc zero)))))))) = (ground arith, tt)
NoDash-digit (suc (suc (suc (suc (suc (suc (suc (suc (suc zero))))))))) = (ground arith, tt)
NoDash-digit (suc (suc (suc (suc (suc (suc (suc (suc (suc (suc d)))))))))) = tt

NoDash-decimal_fuel : (f n : ℕ) → NoDash (decimal_fuel f n)
unfolding decimal_fuel
NoDash-decimal_fuel zero n = tt
NoDash-decimal_fuel (suc f) n = elim (Bool-cases (leb n 9)) [
  | inl small ↦ rw small (NoDash-digit n)
  | inr large ↦ rw large (
      NoDash-append (decimal_fuel f (n / 10)) (digit (n % 10)) (NoDash-decimal_fuel f (n / 10))
        (NoDash-digit (n % 10)))
]

-- A number has no dash.
pub NoDash-decimal : (n : ℕ) → NoDash (decimal n)
unfolding decimal
NoDash-decimal n = NoDash-decimal_fuel (suc n) n
