-- ===== src/StoredKey/ChildRights.antt =====
-- The usage flags of a key that comes from a parent, one by one.
use tasecureapi.Prelude.{
  ℕ, zero, suc, ◌/◌, ◌^◌, ◌<◌, ◌≡◌, refl, inl, inr, Bool, true, ◌&&◌, ◌||◌, not, some, arith, ◌==◌,
  leb, if◌then◌else◌, bit_and, Bool-cases,
}
use native.Mathlib.Nat.{pow-suc}
use tasecureapi.Prelude.Bits.{
  test_bit, test_bit-zero, test_bit-le-one, test_bit-and, test_bit-or, test_bit-pow,
  test_bit-complement, and-lt-pow,
}
use tasecureapi.Rights.{Rights}
use tasecureapi.Rights.Flag
use tasecureapi.StoredKey.{
  output_protections_mask, key_usage_mask, key_only_mask, complement, restrict_child_rights,
}

-- Clearing the bits of `mask` that a word of 64 bits does not have.
test_bit-cleared :
    (flags word mask k : ℕ)
    → word < 2 ^ 64
    → k < 64
    → test_bit (bit_and flags (complement (bit_and (complement word) mask))) k
      ≡ (if test_bit mask k == 1 && test_bit word k == 0 then 0 else test_bit flags k)
test_bit-cleared flags word mask k small bit =
    let missing = bit_and (complement word) mask in
    ground (
      arith,
      test_bit-and flags (complement missing) k,
      test_bit-complement 64 missing k (and-lt-pow 64 (complement word) mask (omega arith)) bit,
      test_bit-and (complement word) mask k,
      test_bit-complement 64 word k small bit,
      test_bit-le-one flags k,
      test_bit-le-one mask k,
      test_bit-le-one word k,
    )

outputs_bit : (k : ℕ) → test_bit output_protections_mask k ≡ (if leb 6 k && leb k 12 then 1 else 0)
outputs_bit k =
    simp
      (
        test_bit-or,
        test_bit-pow 6,
        test_bit-pow 7,
        test_bit-pow 8,
        test_bit-pow 9,
        test_bit-pow 10,
        test_bit-pow 11,
        test_bit-pow 12,
      )
      (ground arith)

usages_bit : (k : ℕ) → test_bit key_usage_mask k ≡ (if leb k 5 then 1 else 0)
usages_bit k =
    simp
      (
        test_bit-or,
        test_bit-pow 0,
        test_bit-pow 1,
        test_bit-pow 2,
        test_bit-pow 3,
        test_bit-pow 4,
        test_bit-pow 5,
      )
      (ground arith)

key_only_bit :
    (k : ℕ) → k < 64 → test_bit key_only_mask k ≡ (if leb k 5 && not (k == 2) then 1 else 0)
key_only_bit k bit = ground (
  arith,
  test_bit-and (complement (2 ^ 2)) key_usage_mask k,
  test_bit-complement 64 (2 ^ 2) k (omega arith) bit,
  test_bit-pow 2 k,
  usages_bit k,
)

-- A number without a bit below n is 0.
no_bits : (n a : ℕ) → a < 2 ^ n → ((k : ℕ) → k < n → test_bit a k ≡ 0) → a ≡ 0
unfolding test_bit
no_bits zero a small h = omega arith
no_bits (suc n) a small h =
    let half = no_bits n (a / 2) (omega (arith, pow-suc 2 n)) (λ k lt. h (suc k) (omega arith)) in
    omega (arith, half, h 0 (omega arith))

-- The key may do something other than unwrap.
abbrev pub uses_key : Rights → Bool
uses_key r =
    test_bit r.usage_flags Flag.key_exchange == 1
    || test_bit r.usage_flags Flag.derive == 1
    || test_bit r.usage_flags Flag.encrypt == 1
    || test_bit r.usage_flags Flag.decrypt == 1
    || test_bit r.usage_flags Flag.sign == 1

-- The five bits of `KEY_ONLY_MASK`.
at_key_only :
    (P : ℕ → Type 0) → P 0 → P 1 → P 3 → P 4 → P 5 → (k : ℕ) → leb k 5 && not (k == 2) ≡ true → P k
at_key_only P p0 p1 p3 p4 p5 zero h = p0
at_key_only P p0 p1 p3 p4 p5 (suc zero) h = p1
at_key_only P p0 p1 p3 p4 p5 (suc (suc zero)) h = absurd (ground arith)
at_key_only P p0 p1 p3 p4 p5 (suc (suc (suc zero))) h = p3
at_key_only P p0 p1 p3 p4 p5 (suc (suc (suc (suc zero)))) h = p4
at_key_only P p0 p1 p3 p4 p5 (suc (suc (suc (suc (suc zero))))) h = p5
at_key_only P p0 p1 p3 p4 p5 (suc (suc (suc (suc (suc (suc k)))))) h = absurd (ground arith)

key_only-uses_key :
    (r : Rights)
    → r.usage_flags < 2 ^ 64
    → not (bit_and r.usage_flags key_only_mask == 0) ≡ uses_key r
key_only-uses_key r small =
    let flags = r.usage_flags in
    let n = bit_and flags key_only_mask in
    let bit : (k : ℕ)
        → k < 64
        → test_bit n k ≡ (if leb k 5 && not (k == 2) then test_bit flags k else 0) =
      λ k lt.
        ground
          (arith, test_bit-and flags key_only_mask k, key_only_bit k lt, test_bit-le-one flags k) in
    elim (Bool-cases (n == 0)) [
      | inl none_set ↦
          let is_zero : n ≡ 0 = ground (arith, none_set) in
          let clear : (k : ℕ) → test_bit n k ≡ 0 = λ k. rw is_zero (test_bit-zero k) in
          ground (
            arith,
            none_set,
            bit 0 (omega arith),
            bit 1 (omega arith),
            bit 3 (omega arith),
            bit 4 (omega arith),
            bit 5 (omega arith),
            clear 0,
            clear 1,
            clear 3,
            clear 4,
            clear 5,
          )
      | inr some_set ↦ elim (Bool-cases (uses_key r)) [
        | inl uses ↦ rw (some_set, uses) refl
        | inr other ↦
            let unset =
              at_key_only (λ k. test_bit flags k ≡ 0)
                (ground (arith, other, test_bit-le-one flags 0))
                (ground (arith, other, test_bit-le-one flags 1))
                (ground (arith, other, test_bit-le-one flags 3))
                (ground (arith, other, test_bit-le-one flags 4))
                (ground (arith, other, test_bit-le-one flags 5)) in
            let is_zero = no_bits 64 n (and-lt-pow 64 flags key_only_mask small) (λ k lt.
              elim (Bool-cases (leb k 5 && not (k == 2))) [
                | inl one ↦ ground (arith, bit k lt, one, unset k one)
                | inr cleared ↦ ground (arith, bit k lt, cleared)
              ]) in
            absurd (ground (arith, some_set, is_zero))
      ]
    ]

-- A key that comes from a parent gets no flag that it was not given. If the parent may do something
-- other than unwrap, or has no flags for its children, the child loses the output protection flags that
-- the parent does not have and keeps all others; otherwise it loses the usage flags that the parent
-- does not have for its children and keeps all others, the output protection flags among them.
pub child_flags :
    (rights root : Rights) (k : ℕ)
    → root.usage_flags < 2 ^ 64
    → root.child_usage_flags < 2 ^ 64
    → k < 64
    → test_bit (restrict_child_rights rights (some root)).usage_flags k ≡ (
        if uses_key root || root.child_usage_flags == 0
        then if leb 6 k && leb k 12 && test_bit root.usage_flags k == 0
          then 0
          else test_bit rights.usage_flags k
        else if leb k 5 && test_bit root.child_usage_flags k == 0
        then 0
        else test_bit rights.usage_flags k)
unfolding restrict_child_rights
child_flags rights root k small child_small bit =
    let outputs =
      test_bit-cleared rights.usage_flags root.usage_flags output_protections_mask k small bit in
    let usages =
      test_bit-cleared rights.usage_flags root.child_usage_flags key_usage_mask k child_small bit in
    let same = key_only-uses_key root small in
    elim (Bool-cases (uses_key root || root.child_usage_flags == 0)) [
      | inl e ↦ rw (same, e, outputs, outputs_bit k) (ground arith)
      | inr e ↦ rw (same, e, usages, usages_bit k) (ground arith)
    ]
