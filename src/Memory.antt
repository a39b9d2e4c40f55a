-- ===== src/Memory.antt =====
-- taimpl/src/porting/memory.c and overflow.c: the comparison in constant time, the sum that reports
-- its overflow, and the checks of a memory range. A pointer is its address, and 0 is NULL.
pub mod Compare
use tasecureapi.Prelude.{
  ℕ, zero, suc, ◌+◌, ◌%◌, ◌^◌, bit_or, bit_xor, Bool, true, false, List, [], ◌∷◌, leb, ◌==◌,
  if◌then◌else◌, get_or,
}

-- One more than the largest `size_t` or `unsigned long`.
abbrev pub size_mod : ℕ
size_mod = 2 ^ 64

-- `add_overflow`: whether the sum overflows, and the sum that is stored, which has wrapped.
unfoldable pub add_overflow : ℕ → ℕ → Bool × ℕ
add_overflow a b = (leb size_mod (a + b), (a + b) % size_mod)

-- The loop of `memory_memcmp_constant`, with `n` rounds left.
unfoldable pub memcmp_loop : ℕ → ℕ → ℕ → List ℕ → List ℕ → ℕ
memcmp_loop zero i result a b = result
memcmp_loop (suc n) i result a b =
    memcmp_loop n (i + 1) (bit_or result (bit_xor (get_or a i 0) (get_or b i 0))) a b

unfoldable pub memcmp_constant : List ℕ → List ℕ → ℕ → ℕ
unfolding memcmp_loop
memcmp_constant in1 in2 count = memcmp_loop count 0 0 in1 in2

-- `memory_is_valid_svp`
unfoldable pub is_valid_svp : ℕ → ℕ → Bool
unfolding add_overflow
is_valid_svp memory_location size =
    if memory_location == 0
    then false
    else if (add_overflow memory_location size).0
    then false
    else true

-- `memory_is_valid_clear`
unfoldable pub is_valid_clear : ℕ → ℕ → Bool
unfolding add_overflow
is_valid_clear memory_location size =
    if memory_location == 0
    then false
    else if (add_overflow memory_location size).0
    then false
    else true
