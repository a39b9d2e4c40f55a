-- ===== src/Slots/Blocks.antt =====
-- The blocks of the bit field: what `ffs` finds, and what `allocate_from` does to the blocks.
use native.Mathlib.Decide.{dec_lt}
use tasecureapi.Prelude.{
  ℕ, zero, suc, ◌+◌, ◌-◌, ◌*◌, ◌^◌, ◌≤◌, ◌<◌, bit_or, ◌≡◌, refl, inl, inr, ◌≢◌, List, [], ◌∷◌,
  arith, ◌==◌, ==_iff, Bool-cases, length, get_or, set, All,
}
use tasecureapi.Prelude.Bits.{test_bit, test_bit-complement, test_bit-le-one}
use tasecureapi.Slots.{slot_invalid, complement, ffs, ffs_from, allocate_from}

ffs_from_none : (n k x : ℕ) → ffs_from n k x ≡ 0 → (j : ℕ) → k ≤ j → j < k + n → test_bit x j ≡ 0
unfolding ffs_from
ffs_from_none zero k x h j p q = absurd (omega arith)
ffs_from_none (suc n) k x h j p q = elim (dec_lt k j) [
  | yes later ↦ ffs_from_none n (k + 1) x (ground arith) j (omega arith) (omega arith)
  | no here ↦ let e : j ≡ k = omega arith in rw e (ground arith)
]

-- The bit that is found is set, and none below it is.
pub record Found (n k x r : ℕ) : Type 0 where
  pub above : k < r
  pub below : r ≤ k + n
  pub bit_set : test_bit x (r - 1) ≡ 1

ffs_from_some : (n k x : ℕ) → ffs_from n k x ≢ 0 → Found n k x (ffs_from n k x)
unfolding ffs_from
ffs_from_some zero k x h = absurd (h refl)
ffs_from_some (suc n) k x h = ground (arith, ffs_from_some n (k + 1) x, test_bit-le-one x k)

abbrev pub Full : ℕ → Type 0
Full b = (k : ℕ) → k < 32 → test_bit b k ≡ 1

-- A block is full exactly when `ffs` finds nothing in its complement.
pub ffs-Full : (b : ℕ) → b < 2 ^ 32 → ffs (complement b) ≡ 0 → Full b
unfolding ffs
ffs-Full b small h k lt = omega (
  arith,
  ffs_from_none 32 0 (complement b) h k (omega arith) lt,
  test_bit-complement 32 b k small lt,
)

pub record Room (b r : ℕ) : Type 0 where
  pub above : 0 < r
  pub below : r ≤ 32
  pub unset : test_bit b (r - 1) ≡ 0

pub ffs-Room : (b : ℕ) → b < 2 ^ 32 → ffs (complement b) ≢ 0 → Room b (ffs (complement b))
unfolding ffs
ffs-Room b small h =
    let f = ffs_from_some 32 0 (complement b) h in
    record {
      above = f.above;
      below = f.below;
      unset = omega (
        arith,
        f.bit_set,
        f.above,
        f.below,
        test_bit-complement 32 b (ffs_from 32 0 (complement b) - 1) small
            (omega (arith, f.below, f.above)),
      );
    }

-- What `allocate_from` did: nothing, as every block is full, or bit `k` of block `j` was set.
pub data Allocation (i : ℕ) (bs : List ℕ) (slot : ℕ) (bs' : List ℕ) : Type 0 where
  full : slot ≡ slot_invalid → bs' ≡ bs → All Full bs → Allocation i bs slot bs'
  taken :
      (j k : ℕ)
      → j < length bs
      → k < 32
      → slot ≡ (i + j) * 32 + (31 - k)
      → test_bit (get_or bs j 0) k ≡ 0
      → bs' ≡ set bs j (bit_or (get_or bs j 0) (2 ^ k))
      → Allocation i bs slot bs'

later :
    (i b : ℕ) (bs bs' : List ℕ) (slot : ℕ)
    → Full b
    → Allocation (i + 1) bs slot bs'
    → Allocation i (b ∷ bs) slot (b ∷ bs')
later i b bs bs' slot f (full e e' all) = full e (ground arith) (f, all)
later i b bs bs' slot f (taken j k lt k_lt e unset e') =
    taken (suc j) k (omega arith) k_lt (omega arith) unset (ground arith)

pub allocate_from-Allocation :
    (i : ℕ) (bs : List ℕ)
    → All (λ b. b < 2 ^ 32) bs
    → Allocation i bs (allocate_from i bs).0 (allocate_from i bs).1
unfolding allocate_from
allocate_from-Allocation i [] h = full refl refl tt
allocate_from-Allocation i (b ∷ bs) h = elim (Bool-cases (ffs (complement b) == 0)) [
  | inl none_free ↦ rw none_free (
      later i b bs _ _ (ffs-Full b h.0 ((==_iff _ 0).0 none_free))
        (allocate_from-Allocation (i + 1) bs h.1))
  | inr some_free ↦
      let room = ffs-Room b h.0 (λ e. ground (arith, e)) in
      rw some_free (
        taken 0 (ffs (complement b) - 1) (omega arith) (omega (arith, room.below, room.above))
          (omega (arith, room.below, room.above)) room.unset refl)
]
