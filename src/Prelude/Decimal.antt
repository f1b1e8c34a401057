-- ===== src/Prelude/Decimal.antt =====
-- fmt.Sprint of an integer: its decimal digits, which atoi reads back.
use Prim.Native.Nat.{ℕ, zero, suc, ◌+◌, ◌-◌, ◌*◌, ◌/◌, ◌%◌, ◌<◌}
use Prim.Native.String.{String, [], ◌∷◌, ◌++◌}
use Prim.Native.Char.{code}
use mathlib.Core.Path.{◌≡◌, refl, sym, ap, ◌∙◌}
use mathlib.Core.List.{List, ◌∷◌ as ◌∷ₗ◌}
use mathlib.Core.Logic.{inl, inr}
use mathlib.Core.Option.{Option, none, some}
use text.Mathlib.TextLemmas.{nil-append, cons-append}
use native.Mathlib.Omega.{arith}
use stack_deploy.Prelude.Tests.{ltb, Bool-cases, if◌then◌else◌}
use stack_deploy.Prelude.Int.{ℤ, pos, negsuc}
use stack_deploy.Prelude.Text.{digits_from}

abbrev pub pick : ℕ → List String → String
pick n List.[] = []
pick zero (List.◌∷◌ s ss) = s
pick (suc n) (List.◌∷◌ s ss) = pick n ss

abbrev pub digit : ℕ → String
digit n = pick n ("0" ∷ₗ "1" ∷ₗ "2" ∷ₗ "3" ∷ₗ "4" ∷ₗ "5" ∷ₗ "6" ∷ₗ "7" ∷ₗ "8" ∷ₗ "9" ∷ₗ List.[])

-- The fuel is above the number, which has fewer digits.
abbrev pub digits : ℕ → ℕ → String
digits zero n = []
digits (suc fuel) n =
    let before = digits fuel (n / 10) in if ltb n 10 then digit n else before ++ digit (n % 10)

abbrev pub digits_value : Option ℕ → ℕ → Option ℕ
digits_value none d = none
digits_value (some v) d = some (v * 10 + d)

unfoldable pub print_nat : ℕ → String
print_nat n = digits (suc n) n

unfoldable pub print_int : ℤ → String
print_int (pos n) = print_nat n
print_int (negsuc n) = "-" ++ print_nat (suc n)

twelve : print_int (negsuc 119) ≡ "-120"
unfolding print_int print_nat
twelve = refl

-- Reading one more digit.
digits_from-digit : (d acc : ℕ) → d < 10 → digits_from acc (digit d) ≡ some (acc * 10 + d)
unfolding digits_from
digits_from-digit zero acc h = refl
digits_from-digit (suc zero) acc h = refl
digits_from-digit (suc (suc zero)) acc h = refl
digits_from-digit (suc (suc (suc zero))) acc h = refl
digits_from-digit (suc (suc (suc (suc zero)))) acc h = refl
digits_from-digit (suc (suc (suc (suc (suc zero))))) acc h = refl
digits_from-digit (suc (suc (suc (suc (suc (suc zero)))))) acc h = refl
digits_from-digit (suc (suc (suc (suc (suc (suc (suc zero))))))) acc h = refl
digits_from-digit (suc (suc (suc (suc (suc (suc (suc (suc zero)))))))) acc h = refl
digits_from-digit (suc (suc (suc (suc (suc (suc (suc (suc (suc zero))))))))) acc h = refl
digits_from-digit (suc (suc (suc (suc (suc (suc (suc (suc (suc (suc d)))))))))) acc h =
    absurd (omega arith)

digits_from-append :
    (s : String) (d acc : ℕ)
    → d < 10
    → digits_from acc (s ++ digit d) ≡ digits_value (digits_from acc s) d
unfolding digits_from
digits_from-append [] d acc h = rw (nil-append (digit d)) (digits_from-digit d acc h)
digits_from-append (c ∷ s) d acc h =
    rw (cons-append c s (digit d))
      (ground (arith, digits_from-append s d (acc * 10 + (code c - 48)) h))

-- The digits of a number are read back as the number.
digits_from-digits : (fuel n : ℕ) → n < fuel → digits_from 0 (digits fuel n) ≡ some n
digits_from-digits zero n h = absurd (omega arith)
digits_from-digits (suc fuel) n h = elim (Bool-cases (ltb n 10)) [
  | inl small ↦ rw small (digits_from-digit n 0 (ground arith) ∙ ap some (omega arith))
  | inr large ↦ rw large (
      digits_from-append (digits fuel (n / 10)) (n % 10) 0 (omega arith)
      ∙ rw (digits_from-digits fuel (n / 10) (ground arith)) (ap some (omega arith)))
]

pub print_nat-injective : (m n : ℕ) → print_nat m ≡ print_nat n → m ≡ n
unfolding print_nat
print_nat-injective m n h =
    let same : some m ≡ some n =
      sym (digits_from-digits (suc m) m (omega arith))
      ∙ ap (digits_from 0) h
      ∙ digits_from-digits (suc n) n (omega arith) in
    cc
