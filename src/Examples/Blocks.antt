-- ===== src/Examples/Blocks.antt =====
-- Bit fields of one block.
use tasecureapi.Prelude.{ℕ, ◌^◌, ◌<◌, ◌≡◌, refl, true, some, [], ◌∷◌, arith}
use tasecureapi.Prelude.Bits.{test_bit}
use tasecureapi.Slots.{Slots, slot_invalid, init, allocate, allocate_from, ffs, ffs_from, free}
use tasecureapi.Slots.Laws.{IsValid, Allocates, allocate-Allocates}

abbrev block : ℕ → Slots
block bits = record { bitfield = bits ∷ []; slot_count = 32; block_count = 1 }

-- The last slot of the block is taken first.
allocate-empty : allocate (block 0) ≡ (31, block 1)
unfolding allocate allocate_from ffs ffs_from test_bit
allocate-empty = refl

allocate-full : allocate (block 4294967295) ≡ (slot_invalid, block 4294967295)
unfolding allocate allocate_from ffs ffs_from test_bit
allocate-full = refl

free-one : free (block 3) 31 ≡ block 2
unfolding free
free-one = refl

init-block : init true true 32 ≡ some (block 0)
unfolding init
init-block = refl

block-IsValid : (bits : ℕ) → bits < 2 ^ 32 → IsValid (block bits)
block-IsValid bits h = record { blocks = refl; count = refl; words = (h, tt); fits = omega arith }

allocate-Allocates_example : Allocates (block 5) (allocate (block 5)).0 (allocate (block 5)).1
allocate-Allocates_example = allocate-Allocates (block 5) (block-IsValid 5 (omega arith))
