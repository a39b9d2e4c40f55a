-- ===== src/Pad/Laws.antt =====
-- Padding is found again, and only padding is accepted.
use native.Mathlib.Decide.{dec_lt, ℕ_discrete}
use tasecureapi.Prelude.{
  ℕ, zero, suc, ◌+◌, ◌-◌, ◌≤◌, ◌<◌, ◌≡◌, refl, ◌∙◌, ◌↔◌, true, ◌&&◌, some, List, arith, ltb, leb,
  if◌then◌else◌, length, get_or, set, length-set, get_or-set_self, get_or-set_ne,
}
use tasecureapi.Pad.{check_from, check_pkcs7, apply_from, apply_pkcs7}

-- The last `v` bytes of the block are `v`, for a `v` from 1 to 16.
pub record IsPadded (block : List ℕ) (v : ℕ) : Type 0 where
  pub low : 1 ≤ v
  pub high : v ≤ 16
  pub filled : (j : ℕ) → 16 - v ≤ j → j < 16 → get_or block j 0 ≡ v

check_from_sound :
    (n i : ℕ) (block : List ℕ) (v j : ℕ)
    → check_from n i block v ≡ true
    → i ≤ j
    → j < i + n
    → get_or block j 0 ≡ v
unfolding check_from
check_from_sound zero i block v j h p q = absurd (omega arith)
check_from_sound (suc n) i block v j h p q = elim (dec_lt i j) [
  | yes lt ↦ check_from_sound n (suc i) block v j (ground arith) lt (omega arith)
  | no here ↦ let e : j ≡ i = omega arith in rw e (ground arith)
]

check_from_complete :
    (n i : ℕ) (block : List ℕ) (v : ℕ)
    → ((j : ℕ) → i ≤ j → j < i + n → get_or block j 0 ≡ v)
    → check_from n i block v ≡ true
unfolding check_from
check_from_complete zero i block v h = refl
check_from_complete (suc n) i block v h = ground (
  arith,
  h i (omega arith) (omega arith),
  check_from_complete n (suc i) block v (λ j p q. h j (omega arith) (omega arith)),
)

-- The check accepts a block exactly when it is padded, and then gives the length of the padding.
pub check_pkcs7_iff :
    (block : List ℕ) (v : ℕ) → (check_pkcs7 true (some block) ≡ (true, some v)) ↔ IsPadded block v
unfolding check_pkcs7
check_pkcs7_iff block v = (forwards, backwards)
  where
    forwards : check_pkcs7 true (some block) ≡ (true, some v) → IsPadded block v
    forwards h = record {
      low = ground arith;
      high = ground arith;
      filled = λ j p q.
          let last : get_or block 15 0 ≡ v = ground arith in
          check_from_sound v (16 - v) block v j (ground arith) p (ground arith);
    }

    backwards : IsPadded block v → check_pkcs7 true (some block) ≡ (true, some v)
    backwards p = ground (
      arith,
      p.filled 15 (omega (arith, p.low)) (omega arith),
      check_from_complete v (16 - v) block v (λ j a b. p.filled j a (omega (arith, p.low, p.high))),
    )

length-apply_from : (n i : ℕ) (out : List ℕ) (v : ℕ) → length (apply_from n i out v) ≡ length out
unfolding apply_from
length-apply_from zero i out v = refl
length-apply_from (suc n) i out v = length-apply_from n (suc i) (set out i v) v ∙ length-set out i v

get_or-apply_from :
    (n i : ℕ) (out : List ℕ) (v j : ℕ)
    → i + n ≤ length out
    → get_or (apply_from n i out v) j 0 ≡ (if leb i j && ltb j (i + n) then v else get_or out j 0)
unfolding apply_from
get_or-apply_from zero i out v j h = ground arith
get_or-apply_from (suc n) i out v j h = elim (ℕ_discrete i j) [
  | yes here ↦ ground (
    arith,
    get_or-apply_from n (suc i) (set out i v) v j (omega (arith, length-set out i v)),
    get_or-set_self out i v 0 (omega arith),
  )
  | no other ↦ ground (
    arith,
    get_or-apply_from n (suc i) (set out i v) v j (omega (arith, length-set out i v)),
    get_or-set_ne out i j v 0 other,
  )
]

-- A block of 16 bytes that is padded with a length from 1 to 16 is accepted with that length, and
-- the bytes before the padding are kept.
pub check-apply :
    (block : List ℕ) (v : ℕ)
    → length block ≡ 16
    → 1 ≤ v
    → v ≤ 16
    → (padded : List ℕ) × (apply_pkcs7 (some block) v ≡ (true, some padded))
      × (check_pkcs7 true (some padded) ≡ (true, some v))
      × ((j : ℕ) → j < 16 - v → get_or padded j 0 ≡ get_or block j 0)
      × (length padded ≡ 16)
unfolding apply_pkcs7
check-apply block v size low high =
    let padded = apply_from v (16 - v) block v in
    let at = λ (j : ℕ). get_or-apply_from v (16 - v) block v j (omega arith) in
    (
      padded,
      ground arith,
      (check_pkcs7_iff padded v).1
          (record { low = low; high = high; filled = λ j p q. ground (arith, at j) }),
      λ j h. ground (arith, at j),
      length-apply_from v (16 - v) block v ∙ size,
    )
