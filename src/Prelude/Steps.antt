-- ===== src/Prelude/Steps.antt =====
-- What the native `&`, `|` and `^` do to the lowest binary digit. Each is a `bitwise`, which takes
-- its left number as the fuel of `digits`; any fuel from there on gives the same.
use Prim.Native.Nat.{
  ℕ, zero, suc, ◌+◌, ◌*◌, ◌/◌, ◌%◌, ◌≤◌, min, max, differ, digits, bitwise, bit_and, bit_or,
  bit_xor, bit_and-bitwise, bit_or-bitwise, bit_xor-bitwise,
}
use mathlib.Core.Path.{◌≡◌, refl, sym, ap}
use native.Mathlib.Omega.{arith}

-- An operation on digits, and what it makes of a left number that is 0.
module _ (left_zero : ℕ → ℕ) (op : ℕ → ℕ → ℕ) where
  digits_canonical :
      (bound fuel a b : ℕ)
      → fuel ≤ bound
      → a ≤ fuel
      → digits left_zero op fuel a b ≡ bitwise left_zero op a b
  digits_canonical bound zero zero b small enough = refl
  digits_canonical bound (suc fuel) zero b small enough = refl
  digits_canonical zero fuel (suc a) b small enough = absurd (omega arith)
  digits_canonical (suc bound) zero (suc a) b small enough = absurd (omega arith)
  digits_canonical (suc bound) (suc fuel) (suc a) b small enough =
      let half = suc a / 2 in
      let with_fuel = digits_canonical bound fuel half (b / 2) (omega arith) (omega arith) in
      let with_number = digits_canonical bound a half (b / 2) (omega arith) (omega arith) in
      omega (arith, with_fuel, with_number)

  bitwise_step :
      ((b : ℕ) → left_zero b ≡ left_zero (b / 2) * 2 + op 0 (b % 2))
      → (a b : ℕ)
      → bitwise left_zero op a b ≡ bitwise left_zero op (a / 2) (b / 2) * 2 + op (a % 2) (b % 2)
  bitwise_step base zero b = base b
  bitwise_step base (suc a) b =
      omega (arith, digits_canonical a a (suc a / 2) (b / 2) (omega arith) (omega arith))

pub bit_and_step : (x y : ℕ) → bit_and x y ≡ bit_and (x / 2) (y / 2) * 2 + min (x % 2) (y % 2)
bit_and_step x y = simp bit_and-bitwise (bitwise_step (λ _. 0) min (λ b. omega arith) x y)

pub bit_or_step : (x y : ℕ) → bit_or x y ≡ bit_or (x / 2) (y / 2) * 2 + max (x % 2) (y % 2)
bit_or_step x y = simp bit_or-bitwise (bitwise_step (λ b. b) max (λ b. omega arith) x y)

differ-zero : (b : ℕ) → differ 0 b ≡ b
differ-zero b = refl

pub bit_xor_step : (x y : ℕ) → bit_xor x y ≡ bit_xor (x / 2) (y / 2) * 2 + differ (x % 2) (y % 2)
bit_xor_step x y =
    simp bit_xor-bitwise
      (bitwise_step (λ b. b) differ (λ b. omega (arith, differ-zero (b % 2))) x y)

-- Of two binary digits, `differ` is 0 only if they are equal.
pub differ-eq-zero : (x y : ℕ) → differ x y ≡ 0 → x ≡ y
differ-eq-zero zero y h = sym h
differ-eq-zero (suc x) zero h = h
differ-eq-zero (suc x) (suc y) h = ap suc (differ-eq-zero x y h)

pub differ_self : (x : ℕ) → differ x x ≡ 0
differ_self zero = refl
differ_self (suc x) = differ_self x
