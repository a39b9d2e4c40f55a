-- ===== src/Slots/Laws.antt =====
-- The bit field as a set of slots: `slots_allocate` adds a slot that was free, `slots_free` removes
-- one, and neither touches another slot.
use native.Mathlib.Decide.{dec_lt, ℕ_discrete}
use tasecureapi.Prelude.{
  ℕ, zero, suc, ◌+◌, ◌-◌, ◌*◌, ◌/◌, ◌%◌, ◌^◌, ◌≤◌, ◌<◌, bit_and, bit_or, ◌≡◌, refl, Bool, some,
  List, [], ◌∷◌, arith, ◌==◌, if◌then◌else◌, length, get_or, set, All, replicate, length-set,
  get_or-set_self, get_or-set_ne, get_or_out, ◌∙◌, All-set, All-get_or, get_or-replicate,
  length-replicate, All-replicate,
}
use tasecureapi.Prelude.Bits.{
  test_bit, test_bit-le-one, test_bit-or, test_bit-and, test_bit-pow, test_bit-complement,
  test_bit-zero, bit_and-pow-eq-zero, or-lt-pow, and-lt-pow, pow-lt-pow,
}
use tasecureapi.Memory.{size_mod}
use tasecureapi.Slots.{
  Slots, slot_invalid, int_bits, complement, block_idx, block_bit, block_bitmask, init, allocate,
  free,
}
use tasecureapi.Slots.Blocks.{Allocation, full, taken, Full, allocate_from-Allocation}

pub record IsValid (s : Slots) : Type 0 where
  pub blocks : length s.bitfield ≡ s.block_count
  pub count : s.slot_count ≡ s.block_count * 32
  pub words : All (λ b. b < 2 ^ 32) s.bitfield
  pub fits : s.slot_count < size_mod

-- 1 if the slot is allocated, and else 0.
pub allocated : Slots → ℕ → ℕ
allocated s t = test_bit (get_or s.bitfield (block_idx t) 0) (31 - block_bit t)

pub allocated-le-one : (s : Slots) (t : ℕ) → allocated s t ≤ 1
unfolding allocated
allocated-le-one s t = test_bit-le-one _ _

-- The bit of a slot, after one bit of one block was set.
set_bit :
    (bs : List ℕ) (j k t : ℕ)
    → j < length bs
    → k < 32
    → test_bit
        (get_or (set bs j (bit_or (get_or bs j 0) (2 ^ k))) (block_idx t) 0)
        (31 - block_bit t)
      ≡ (if t == j * 32 + (31 - k)
          then 1
          else test_bit (get_or bs (block_idx t) 0) (31 - block_bit t))
set_bit bs j k t lt k_lt = elim (ℕ_discrete j (block_idx t)) [
  | yes here ↦
      rw (← here, get_or-set_self bs j _ 0 lt, test_bit-or, test_bit-pow)
        (ground (arith, test_bit-le-one (get_or bs j 0) (31 - block_bit t)))
  | no other ↦ rw (get_or-set_ne bs j (block_idx t) _ 0 other) (ground arith)
]

All-Full : (bs : List ℕ) (j : ℕ) → All Full bs → j < length bs → Full (get_or bs j 0)
All-Full [] j h lt = absurd (omega arith)
All-Full (b ∷ bs) zero h lt = h.0
All-Full (b ∷ bs) (suc j) h lt = All-Full bs j h.1 (omega arith)

-- What `slots_allocate` does: it takes a free slot below the count, or there is none.
pub data Allocates (s : Slots) (slot : ℕ) (s' : Slots) : Type 0 where
  exhausted :
      slot ≡ slot_invalid
      → s' ≡ s
      → ((t : ℕ) → t < s.slot_count → allocated s t ≡ 1)
      → Allocates s slot s'
  fresh :
      slot < s.slot_count
      → allocated s slot ≡ 0
      → ((t : ℕ) → allocated s' t ≡ (if t == slot then 1 else allocated s t))
      → IsValid s'
      → s'.slot_count ≡ s.slot_count
      → Allocates s slot s'

allocation :
    (s : Slots) (slot : ℕ) (bs' : List ℕ)
    → IsValid s
    → Allocation 0 s.bitfield slot bs'
    → Allocates s slot (record s { bitfield = bs' })
unfolding allocated
allocation s slot bs' v (full e e' all) = exhausted e (ground arith) (λ t lt.
    All-Full s.bitfield (block_idx t) all (omega (arith, v.blocks, v.count)) _ (omega arith))
allocation s slot bs' v (taken j k lt k_lt e unset e') =
    let place : slot ≡ j * 32 + (31 - k) = omega arith in
    let block : slot / 32 ≡ j = omega arith in
    let bit : 31 - slot % 32 ≡ k = omega arith in
    rw e' (
      fresh (omega (arith, v.blocks, v.count)) (rw (block, bit) unset)
        (λ t. rw place (set_bit s.bitfield j k t lt k_lt)) valid refl)
  where
    word : get_or s.bitfield j 0 < 2 ^ 32
    word = All-get_or (λ b. b < 2 ^ 32) s.bitfield j 0 v.words (omega arith)

    valid :
        IsValid (record s { bitfield = set s.bitfield j (bit_or (get_or s.bitfield j 0) (2 ^ k)) })
    valid = record {
      blocks = length-set s.bitfield j _ ∙ v.blocks;
      count = v.count;
      words = All-set _ s.bitfield j _ v.words (or-lt-pow 32 _ _ word (pow-lt-pow k 32 k_lt));
      fits = v.fits;
    }

-- On a valid bit field, `slots_allocate` takes a slot that was free and below the count, sets its bit
-- and no other, and keeps the bit field valid; or it returns `SLOT_INVALID`, changes nothing, and
-- every slot is allocated.
pub allocate-Allocates : (s : Slots) → IsValid s → Allocates s (allocate s).0 (allocate s).1
unfolding allocate
allocate-Allocates s v = allocation s _ _ v (allocate_from-Allocation 0 s.bitfield v.words)

-- `slots_free` on a slot in range leaves a bit field with the slot's bit cleared.
clear_bit :
    (bs : List ℕ) (slot t : ℕ)
    → block_idx slot < length bs
    → get_or bs (block_idx slot) 0 < 2 ^ 32
    → test_bit
        (get_or
          (set bs
            (block_idx slot)
            (bit_and (get_or bs (block_idx slot) 0) (complement (block_bitmask slot))))
          (block_idx t)
          0)
        (31 - block_bit t)
      ≡ (if t == slot then 0 else test_bit (get_or bs (block_idx t) 0) (31 - block_bit t))
clear_bit bs slot t lt small = elim (ℕ_discrete (block_idx slot) (block_idx t)) [
  | yes here ↦
      rw (← here, get_or-set_self bs (block_idx slot) _ 0 lt, test_bit-and)
        (ground (
          arith,
          test_bit-le-one (get_or bs (block_idx slot) 0) (31 - block_bit t),
          test_bit-complement 32 (block_bitmask slot) (31 - block_bit t)
              (pow-lt-pow _ 32 (omega arith)) (omega arith),
          test_bit-pow (int_bits - block_bit slot - 1) (31 - block_bit t),
        ))
  | no other ↦ rw (get_or-set_ne bs (block_idx slot) (block_idx t) _ 0 other) (ground arith)
]

-- On a valid bit field, `slots_free` leaves the slot that it is given free, in range or not, and
-- every other slot as it was.
pub free_lem :
    (s : Slots) (slot t : ℕ)
    → IsValid s
    → allocated (free s slot) t ≡ (if t == slot then 0 else allocated s t)
unfolding free allocated
free_lem s slot t v = elim (dec_lt slot s.slot_count) [
  | yes lt ↦ ground (
    arith,
    v.fits,
    bit_and-pow-eq-zero block (int_bits - block_bit slot - 1),
    clear_bit s.bitfield slot t (omega (arith, v.blocks, v.count)) word,
  )
  | no out ↦ ground (
    arith,
    get_or_out s.bitfield (block_idx slot) 0 (omega (arith, v.blocks, v.count)),
    test_bit-zero (31 - block_bit slot),
  )
]
  where
    block : ℕ
    block = get_or s.bitfield (block_idx slot) 0

    word : block < 2 ^ 32
    word = All-get_or (λ b. b < 2 ^ 32) s.bitfield (block_idx slot) 0 v.words (omega arith)

pub free-IsValid : (s : Slots) (slot : ℕ) → IsValid s → IsValid (free s slot)
unfolding free
free-IsValid s slot v = ground (
  arith,
  length-set s.bitfield (block_idx slot)
      (bit_and (get_or s.bitfield (block_idx slot) 0) (complement (block_bitmask slot))),
  All-set (λ b. b < 2 ^ 32) s.bitfield (block_idx slot)
      (bit_and (get_or s.bitfield (block_idx slot) 0) (complement (block_bitmask slot))) v.words,
  and-lt-pow 32 (get_or s.bitfield (block_idx slot) 0) (complement (block_bitmask slot)),
  All-get_or (λ b. b < 2 ^ 32) s.bitfield (block_idx slot) 0 v.words (omega arith),
)

pub slot_count-free : (s : Slots) (slot : ℕ) → (free s slot).slot_count ≡ s.slot_count
unfolding free
slot_count-free s slot = ground arith

-- Below 2^64 slots, `slots_init` gives a valid bit field of `count` free slots, where it gives one.
pub init_lem :
    (bitfield_alloc slots_alloc : Bool) (count : ℕ) {s : Slots}
    → count < size_mod
    → init bitfield_alloc slots_alloc count ≡ some s
    → IsValid s × (s.slot_count ≡ count) × ((t : ℕ) → allocated s t ≡ 0)
unfolding init allocated
init_lem bitfield_alloc slots_alloc count {s} h e =
    (ground (arith, length-replicate (count / 32) (zero), words), ground arith, cleared)
  where
    words : All (λ b. b < 2 ^ 32) (replicate (count / 32) 0)
    words = All-replicate (λ b. b < 2 ^ 32) (count / 32) 0 (omega arith)

    field : s.bitfield ≡ replicate (count / 32) 0
    field = ground arith

    cleared : (t : ℕ) → test_bit (get_or s.bitfield (block_idx t) 0) (31 - block_bit t) ≡ 0
    cleared t = rw (field, get_or-replicate {A = ℕ} (count / 32) (t / 32) 0) (test_bit-zero _)
