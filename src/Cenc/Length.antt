-- ===== src/Cenc/Length.antt =====
-- The length of a sample.
use tasecureapi.Prelude.{
  ℕ, ◌+◌, ◌%◌, ◌≤◌, ◌<◌, ◌≡◌, ◌↔◌, ◌⊎◌, List, [], ◌∷◌, arith, ltb, if◌then◌else◌,
}
use tasecureapi.Memory.{size_mod}
use tasecureapi.Cenc.{Subsample, cenc_overflow, length_from, required_length}
use tasecureapi.Cenc.Layout.{total}

length_from-total :
    (ss : List Subsample) (r : ℕ)
    → r < size_mod
    → length_from r ss ≡ (if ltb (r + total ss) size_mod then r + total ss else cenc_overflow)
unfolding length_from
length_from-total [] r h = ground arith
length_from-total (s ∷ ss) r h = ground (
  arith,
  length_from-total ss ((r + (s.clear_data + s.protected_data) % size_mod) % size_mod)
      (omega arith),
)

-- The required length is the sum of all lengths, and 0 exactly when that sum does not fit in 64 bits
-- or is 0 itself: an empty sample is taken for one that overflows.
pub required_length-total :
    (ss : List Subsample)
    → (required_length ss ≡ (if ltb (total ss) size_mod then total ss else cenc_overflow))
      × ((required_length ss ≡ cenc_overflow) ↔ ((size_mod ≤ total ss) ⊎ (total ss ≡ 0)))
unfolding required_length
required_length-total ss =
    let p = length_from-total ss 0 (omega arith) in
    (ground (arith, p), (λ h. ground (arith, p), λ h. ground (arith, p)))
