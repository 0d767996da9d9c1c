-- ===== src/Prelude/Decimal.antt =====
-- `%d` of `fmt.Sprintf`, for a number that is not negative.
use Prim.Native.Nat.{ℕ, zero, suc, ◌+◌, ◌/◌, ◌%◌, ◌<◌}
use Prim.Native.String.{String, slice}
use mathlib.Core.Path.{◌≡◌}
use mathlib.Core.Logic.{inl, inr}
use native.Mathlib.Omega.{arith}
use openclaw_operator.Prelude.Tests.{ltb, if◌then◌else◌, Bool-cases}
use openclaw_operator.Prelude.Texts.{append}

abbrev pub digit : ℕ → String
digit d = slice "0123456789" d (d + 1)

digits : ℕ → ℕ → String
digits zero n = ""
digits (suc f) n =
    let longer = append (digits f (n / 10)) (digit (n % 10)) in if ltb n 10 then digit n else longer

digits_enough : (f g n : ℕ) → n < f → n < g → digits f n ≡ digits g n
unfolding digits
digits_enough zero g n p q = absurd (omega arith)
digits_enough (suc f) zero n p q = absurd (omega arith)
digits_enough (suc f) (suc g) n p q = elim (Bool-cases (ltb n 10)) [
  | inl e ↦ rw e
  | inr e ↦ rw e (rw (digits_enough f g (n / 10) (ground arith) (ground arith)))
]

unfoldable pub decimal : ℕ → String
unfolding digits
decimal n = digits (suc n) n

-- The fuel is enough: a number is printed as its tenth part and its last digit.
decimal_lem :
    (n : ℕ) → decimal n ≡ (if ltb n 10 then digit n else append (decimal (n / 10)) (digit (n % 10)))
unfolding decimal digits
decimal_lem n = elim (Bool-cases (ltb n 10)) [
  | inl e ↦ rw e
  | inr e ↦ rw e (rw (digits_enough n (suc (n / 10)) (n / 10) (ground arith) (omega arith)))
]
