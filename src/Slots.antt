-- ===== src/Slots.antt =====
-- taimpl/src/internal/slots.c: a bit field of allocated slots, in blocks of 32 bits. Slot s is the
-- bit 31 - s % 32 of block s / 32, so that the highest bit of a block is its first slot.
pub mod Blocks
pub mod Laws
use tasecureapi.Prelude.{
  ℕ, zero, suc, ◌+◌, ◌-◌, ◌*◌, ◌/◌, ◌%◌, ◌^◌, bit_and, bit_or, Bool, true, false, Option, none,
  some, List, [], ◌∷◌, ltb, leb, ◌==◌, if◌then◌else◌, get_or, set, replicate,
}
use tasecureapi.Prelude.Bits.{test_bit}
use tasecureapi.Memory.{size_mod}

-- `SLOT_INVALID`
abbrev pub slot_invalid : ℕ
slot_invalid = size_mod - 1

-- The bits of an `int`.
abbrev pub int_bits : ℕ
int_bits = 32

-- `~x`, on 32 bits
abbrev pub complement : ℕ → ℕ
complement x = 2 ^ 32 - 1 - x

abbrev pub block_idx : ℕ → ℕ
block_idx slot = slot / int_bits

abbrev pub block_bit : ℕ → ℕ
block_bit slot = slot % int_bits

abbrev pub block_bitmask : ℕ → ℕ
block_bitmask slot = 2 ^ (int_bits - block_bit slot - 1)

-- `ffs` of the C library: one more than the number of the lowest bit that is set, or 0.
unfoldable pub ffs_from : ℕ → ℕ → ℕ → ℕ
ffs_from zero k x = 0
ffs_from (suc n) k x = let rest = ffs_from n (k + 1) x in if test_bit x k == 0 then rest else k + 1

unfoldable pub ffs : ℕ → ℕ
unfolding ffs_from test_bit
ffs x = ffs_from 32 0 x

-- `struct slots_s`, without its name, which only the log reads.
pub record Slots : Type 0 where
  pub bitfield : List ℕ
  pub slot_count : ℕ
  pub block_count : ℕ

-- The first two arguments say whether the two allocations succeed.
unfoldable pub init : Bool → Bool → ℕ → Option Slots
init bitfield_alloc slots_alloc count =
    if not_multiple
    then none
    else if bitfield_alloc
    then (if slots_alloc then some fresh else none)
    else none
  where
    not_multiple : Bool
    not_multiple = if count % int_bits == 0 then false else true

    fresh : Slots
    fresh = record {
      bitfield = replicate (count / int_bits) 0;
      slot_count = count;
      block_count = count / int_bits;
    }

-- The loop of `slots_allocate` from block `i` on: the slot, and the blocks that it leaves.
unfoldable pub allocate_from : ℕ → List ℕ → ℕ × List ℕ
unfolding ffs
allocate_from i [] = (slot_invalid, [])
allocate_from i (b ∷ bs) =
    let available = ffs (complement b) in
    let (slot, bs') = allocate_from (i + 1) bs in
    if available == 0
    then (slot, b ∷ bs')
    else ((i + 1) * int_bits - available, bit_or b (2 ^ (available - 1)) ∷ bs)

-- The body of `slots_allocate` behind its check of the pointer.
unfoldable pub allocate : Slots → ℕ × Slots
unfolding allocate_from
allocate s =
    let (slot, bitfield) = allocate_from 0 s.bitfield in (slot, record s { bitfield = bitfield })

unfoldable pub allocate_given : Option Slots → ℕ × Option Slots
unfolding allocate
allocate_given none = (slot_invalid, none)
allocate_given (some s) = let (slot, s') = allocate s in (slot, some s')

-- The body of `slots_free` behind its check of the pointer.
unfoldable pub free : Slots → ℕ → Slots
free s slot =
    let block = get_or s.bitfield (block_idx slot) 0 in
    if slot == slot_invalid
    then s
    else if leb s.slot_count slot
    then s
    else if bit_and block (block_bitmask slot) == 0
    then s
    else record s {
      bitfield = set s.bitfield (block_idx slot) (bit_and block (complement (block_bitmask slot)));
    }

unfoldable pub free_given : Option Slots → ℕ → Option Slots
unfolding free
free_given none slot = none
free_given (some s) slot = some (free s slot)
