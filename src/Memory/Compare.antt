-- ===== src/Memory/Compare.antt =====
-- `memory_memcmp_constant` decides the equality of what it reads.
use tasecureapi.Prelude.{
  ℕ, zero, suc, ◌+◌, ◌≤◌, ◌<◌, bit_xor, ◌≡◌, refl, ◌↔◌, List, [], ◌∷◌, arith, get_or, length,
}
use native.Mathlib.Decide.{dec_lt}
use tasecureapi.Prelude.Bits.{or-eq-zero, xor-eq-zero, xor_self}
use tasecureapi.Memory.{memcmp_loop, memcmp_constant}

loop-eq-zero :
    (n i result : ℕ) (a b : List ℕ)
    → memcmp_loop n i result a b ≡ 0
    → (result ≡ 0) × ((j : ℕ) → i ≤ j → j < i + n → get_or a j 0 ≡ get_or b j 0)
unfolding memcmp_loop
loop-eq-zero zero i result a b h = (h, λ j p q. absurd (omega arith))
loop-eq-zero (suc n) i result a b h =
    let ih = loop-eq-zero n (i + 1) _ a b h in
    let parts = or-eq-zero result (bit_xor (get_or a i 0) (get_or b i 0)) ih.0 in
    (
      parts.0,
      λ j p q. elim (dec_lt i j) [
        | yes later ↦ ih.1 j (omega arith) (omega arith)
        | no here ↦ let e : j ≡ i = omega arith in rw e (xor-eq-zero _ _ parts.1)
      ],
    )

eq_of_get_or :
    (a b : List ℕ)
    → length a ≡ length b
    → ((j : ℕ) → j < length a → get_or a j 0 ≡ get_or b j 0)
    → a ≡ b
eq_of_get_or [] [] e h = refl
eq_of_get_or [] (y ∷ b) e h = absurd (omega arith)
eq_of_get_or (x ∷ a) [] e h = absurd (omega arith)
eq_of_get_or (x ∷ a) (y ∷ b) e h =
    ground
      (arith, h 0 (omega arith), eq_of_get_or a b (omega arith) (λ j p. h (suc j) (omega arith)))

loop_self : (n i : ℕ) (a : List ℕ) → memcmp_loop n i 0 a a ≡ 0
unfolding memcmp_loop
loop_self zero i a = refl
loop_self (suc n) i a = rw (xor_self (get_or a i 0)) (loop_self n (i + 1) a)

-- Of two arrays of `count` bytes it returns 0 exactly when they are equal.
pub memcmp_constant_iff :
    (a b : List ℕ) (count : ℕ)
    → length a ≡ count
    → length b ≡ count
    → (memcmp_constant a b count ≡ 0) ↔ (a ≡ b)
unfolding memcmp_constant
memcmp_constant_iff a b count ha hb = (forwards, backwards)
  where
    forwards : memcmp_constant a b count ≡ 0 → a ≡ b
    forwards h =
        eq_of_get_or a b (omega arith)
          (λ j p. (loop-eq-zero count 0 0 a b h).1 j (omega arith) (omega arith))

    backwards : a ≡ b → memcmp_constant a b count ≡ 0
    backwards e = rw e (loop_self count 0 b)
