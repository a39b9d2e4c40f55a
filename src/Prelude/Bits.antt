-- ===== src/Prelude/Bits.antt =====
-- Bits of a number, and what `&`, `|`, `^` and `~` do to each of them, at every width.
use Prim.Native.Nat.{
  ℕ, zero, suc, ◌+◌, ◌-◌, ◌*◌, ◌/◌, ◌%◌, ◌^◌, ◌≤◌, ◌<◌, min, max, bit_and, bit_or, bit_xor,
  bit_and-bitwise,
}
use mathlib.Core.Path.{◌≡◌, refl, ap}
use mathlib.Core.Logic.{◌↔◌}
use native.Mathlib.Omega.{arith}
use native.Mathlib.Nat.{pow-suc, one-le-pow}
use tasecureapi.Prelude.Tests.{◌==◌, if◌then◌else◌}
use tasecureapi.Prelude.Steps.{bit_or_step, bit_and_step, bit_xor_step, differ-eq-zero, differ_self}

-- Bit k of x, 0 or 1.
unfoldable pub test_bit : ℕ → ℕ → ℕ
test_bit x zero = x % 2
test_bit x (suc k) = test_bit (x / 2) k

pub test_bit-le-one : (x k : ℕ) → test_bit x k ≤ 1
unfolding test_bit
test_bit-le-one x zero = omega arith
test_bit-le-one x (suc k) = test_bit-le-one (x / 2) k

pub test_bit-or : (a b k : ℕ) → test_bit (bit_or a b) k ≡ max (test_bit a k) (test_bit b k)
unfolding test_bit
test_bit-or a b zero = omega (arith, bit_or_step a b)
test_bit-or a b (suc k) =
    let e : bit_or a b / 2 ≡ bit_or (a / 2) (b / 2) = omega (arith, bit_or_step a b) in
    rw e (test_bit-or (a / 2) (b / 2) k)

pub test_bit-and : (a b k : ℕ) → test_bit (bit_and a b) k ≡ min (test_bit a k) (test_bit b k)
unfolding test_bit
test_bit-and a b zero = omega (arith, bit_and_step a b)
test_bit-and a b (suc k) =
    let e : bit_and a b / 2 ≡ bit_and (a / 2) (b / 2) = omega (arith, bit_and_step a b) in
    rw e (test_bit-and (a / 2) (b / 2) k)

pub test_bit-zero : (k : ℕ) → test_bit 0 k ≡ 0
unfolding test_bit
test_bit-zero zero = refl
test_bit-zero (suc k) = test_bit-zero k

pub test_bit-pow : (n k : ℕ) → test_bit (2 ^ n) k ≡ (if n == k then 1 else 0)
unfolding test_bit
test_bit-pow zero zero = refl
test_bit-pow zero (suc k) = ground (arith, test_bit-zero k)
test_bit-pow (suc n) zero = ground (arith, pow-suc 2 n)
test_bit-pow (suc n) (suc k) =
    let e : 2 ^ suc n / 2 ≡ 2 ^ n = omega (arith, pow-suc 2 n) in
    rw e (ground (arith, test_bit-pow n k))

-- The complement within `n` bits.
pub test_bit-complement :
    (n a k : ℕ) → a < 2 ^ n → k < n → test_bit (2 ^ n - 1 - a) k + test_bit a k ≡ 1
unfolding test_bit
test_bit-complement zero a k ha hk = absurd (omega arith)
test_bit-complement (suc n) a zero ha hk = omega (arith, pow-suc 2 n)
test_bit-complement (suc n) a (suc k) ha hk =
    let e : (2 ^ suc n - 1 - a) / 2 ≡ 2 ^ n - 1 - a / 2 = omega (arith, pow-suc 2 n) in
    rw e (test_bit-complement n (a / 2) k (omega (arith, pow-suc 2 n)) (omega arith))

-- Bits at and above the width are 0.
pub test_bit_high : (n a k : ℕ) → a < 2 ^ n → n ≤ k → test_bit a k ≡ 0
unfolding test_bit
test_bit_high zero a k ha hk = let e : a ≡ 0 = omega arith in rw e (test_bit-zero k)
test_bit_high (suc n) a zero ha hk = absurd (omega arith)
test_bit_high (suc n) a (suc k) ha hk =
    test_bit_high n (a / 2) k (omega (arith, pow-suc 2 n)) (omega arith)

pub or-lt-pow : (n a b : ℕ) → a < 2 ^ n → b < 2 ^ n → bit_or a b < 2 ^ n
or-lt-pow zero a b ha hb =
    let e : a ≡ 0 = omega arith in let f : b ≡ 0 = omega arith in rw (e, f) (omega arith)
or-lt-pow (suc n) a b ha hb = omega (
  arith,
  pow-suc 2 n,
  bit_or_step a b,
  or-lt-pow n (a / 2) (b / 2) (omega (arith, pow-suc 2 n)) (omega (arith, pow-suc 2 n)),
)

zero-and : (b : ℕ) → bit_and 0 b ≡ 0
zero-and b = bit_and-bitwise 0 b

-- Both go from `a / 2` to `a`, under a bound of `a`.
and-zero_below : (n a : ℕ) → a ≤ n → bit_and a 0 ≡ 0
and-zero_below n zero h = refl
and-zero_below zero (suc a) h = absurd (omega arith)
and-zero_below (suc n) (suc a) h =
    omega (arith, bit_and_step (suc a) 0, and-zero_below n (suc a / 2) (omega arith))

pub and-lt-pow : (n a b : ℕ) → a < 2 ^ n → bit_and a b < 2 ^ n
and-lt-pow zero a b ha = let e : a ≡ 0 = omega arith in rw e (omega (arith, zero-and b))
and-lt-pow (suc n) a b ha = omega (
  arith,
  pow-suc 2 n,
  bit_and_step a b,
  and-lt-pow n (a / 2) (b / 2) (omega (arith, pow-suc 2 n)),
)

-- `a & (1 << k)` is nonzero exactly when bit k is set.
pub bit_and-pow : (a k : ℕ) → bit_and a (2 ^ k) ≡ test_bit a k * 2 ^ k
unfolding test_bit
bit_and-pow a zero = omega (arith, bit_and_step a 1, and-zero_below (a / 2) (a / 2) (omega arith))
bit_and-pow a (suc k) =
    let e : 2 ^ suc k / 2 ≡ 2 ^ k = omega (arith, pow-suc 2 k) in
    let f : 2 ^ suc k % 2 ≡ 0 = omega (arith, pow-suc 2 k) in
    let g : bit_and (a / 2) (2 ^ suc k / 2) ≡ test_bit (a / 2) k * 2 ^ k =
      rw e (bit_and-pow (a / 2) k) in
    omega (
      arith,
      pow-suc 2 k,
      bit_and_step a (2 ^ suc k),
      f,
      g,
      ap (λ (t : ℕ). test_bit (a / 2) k * t) (pow-suc 2 k),
    )

pub bit_and-pow-eq-zero : (a k : ℕ) → (bit_and a (2 ^ k) ≡ 0) ↔ (test_bit a k ≡ 0)
bit_and-pow-eq-zero a k = (forwards, backwards)
  where
    forwards : bit_and a (2 ^ k) ≡ 0 → test_bit a k ≡ 0
    forwards h = grind (arith, bit_and-pow a k, one-le-pow k 2, test_bit-le-one a k)

    backwards : test_bit a k ≡ 0 → bit_and a (2 ^ k) ≡ 0
    backwards h = rw (bit_and-pow a k, h) (omega arith)

-- `|` is 0 only of zeros.
or-eq-zero_below : (n a b : ℕ) → a ≤ n → b ≤ n → bit_or a b ≡ 0 → (a ≡ 0) × (b ≡ 0)
or-eq-zero_below zero a b p q h = omega arith
or-eq-zero_below (suc n) a b p q h =
    let s = bit_or_step a b in
    let ih = or-eq-zero_below n (a / 2) (b / 2) (omega arith) (omega arith) (omega (arith, s)) in
    omega (arith, s, ih)

pub or-eq-zero : (a b : ℕ) → bit_or a b ≡ 0 → (a ≡ 0) × (b ≡ 0)
or-eq-zero a b h = or-eq-zero_below (a + b) a b (omega arith) (omega arith) h

-- `^` is 0 only of equal numbers.
xor-eq-zero_below : (n a b : ℕ) → a ≤ n → b ≤ n → bit_xor a b ≡ 0 → a ≡ b
xor-eq-zero_below zero a b p q h = omega arith
xor-eq-zero_below (suc n) a b p q h =
    let s = bit_xor_step a b in
    let ih = xor-eq-zero_below n (a / 2) (b / 2) (omega arith) (omega arith) (omega (arith, s)) in
    omega (arith, s, ih, differ-eq-zero (a % 2) (b % 2) (omega (arith, s)))

pub xor-eq-zero : (a b : ℕ) → bit_xor a b ≡ 0 → a ≡ b
xor-eq-zero a b h = xor-eq-zero_below (a + b) a b (omega arith) (omega arith) h

xor_self_below : (n a : ℕ) → a ≤ n → bit_xor a a ≡ 0
xor_self_below n zero h = refl
xor_self_below zero (suc a) h = absurd (omega arith)
xor_self_below (suc n) (suc a) h = omega (
  arith,
  bit_xor_step (suc a) (suc a),
  differ_self (suc a % 2),
  xor_self_below n (suc a / 2) (omega arith),
)

pub xor_self : (a : ℕ) → bit_xor a a ≡ 0
xor_self a = xor_self_below a a (omega arith)

pub pow-lt-pow : (m n : ℕ) → m < n → 2 ^ m < 2 ^ n
pow-lt-pow m zero h = absurd (omega arith)
pow-lt-pow zero (suc n) h = omega (arith, pow-suc 2 n, one-le-pow n 2)
pow-lt-pow (suc m) (suc n) h = omega (arith, pow-suc 2 m, pow-suc 2 n, pow-lt-pow m n (omega arith))
