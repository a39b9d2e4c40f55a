-- ===== src/Examples/Buffers.antt =====
-- A secure buffer of eight bytes at address 1000.
use tasecureapi.Prelude.{
  Option, ◌≢◌, ℕ, ◌+◌, ◌≤◌, ◌<◌, ◌≡◌, refl, ◌↔◌, ◌⊎◌, inl, true, none, some, List, [], ◌∷◌, arith,
  All, Status, status_ok,
}
use tasecureapi.Memory.{size_mod, add_overflow, is_valid_svp}
use tasecureapi.Svp.{
  SvpBuffer, Offset, Memory, validate_buffer, create_buffer, release_buffer, check_offsets, write,
}
use tasecureapi.Buffer.{svp_buffer, convert_buffer}
use tasecureapi.Buffer.Bounds.{convert_svp_iff}
use tasecureapi.Svp.Bounds.{InBounds, write_ok, create-release}
use tasecureapi.Svp.Effect.{write-written, write_outside}

abbrev buffer : SvpBuffer
buffer = record { svp_memory = 1000; size = 8 }

abbrev source : SvpBuffer
source = record { svp_memory = 2000; size = 8 }

abbrev blank : Memory
blank a = 0

abbrev input : List ℕ
input = 5 ∷ 6 ∷ 7 ∷ []

-- Bytes 0 and 1 go to offset 2, and then byte 2 over the second of them.
abbrev pieces : List Offset
pieces =
    record { out_offset = 2; in_offset = 0; length = 2 }
    ∷ record { out_offset = 3; in_offset = 2; length = 1 }
    ∷ []

writes : (write (some buffer) (some input) 3 (some pieces) blank).0 ≡ true
unfolding write check_offsets add_overflow validate_buffer is_valid_svp
writes = refl

write_ok_example :
    (((write (some buffer) (some input) 3 (some pieces) blank).0 ≡ true)
      ↔ All (InBounds 8 3) pieces)
    × (((write (some buffer) (some input) 3 (some pieces) blank).0 ≡ true)
        ⊎ ((write (some buffer) (some input) 3 (some pieces) blank).1 ≡ blank))
write_ok_example = write_ok buffer input 3 pieces blank (omega arith) (omega arith)

create-release_example :
    ((create_buffer (some none) 18446744073709551615 1 true).0 ≡ true)
    × ((size_mod ≤ 18446744073709551615 + 1)
        ⊎ ((b : SvpBuffer) × (create_buffer (some none) 18446744073709551615 1 true
              ≡ (true, some (some b)))
            × (release_buffer true true (some b) ≡ (true, some (18446744073709551615, 1)))))
    × ((18446744073709551615 + 1 < size_mod)
        ⊎ ((create_buffer (some none) 18446744073709551615 1 true).1 ≡ some none))
create-release_example = create-release none 18446744073709551615 1 (λ h. omega arith)

abbrev sum_only : ℕ → ℕ → Status × List ℕ
sum_only position count = (status_ok, position ∷ count ∷ [])

write-written_example : (write (some buffer) (some input) 3 (some pieces) blank).1 1003 ≡ 7
write-written_example =
    write-written buffer input 3 pieces blank 3 (omega arith) (omega arith) writes

write_outside_example : (write (some buffer) (some input) 3 (some pieces) blank).1 999 ≡ 0
write_outside_example =
    write_outside buffer input 3 pieces blank 999 (omega arith) (omega arith) (inl (omega arith))

abbrev acquired : ℕ → Status × Option SvpBuffer
acquired handle = (status_ok, some buffer)

convert_svp_iff_example :
    (convert_buffer true true (some (svp_buffer 5 2)) 4 true true acquired ≡ (status_ok, some 1002))
    ↔ (◌≢◌ {A = ℕ} 1000 0 × (2 + 4 ≤ 8) × (1000 + 2 < size_mod) × ◌≡◌ {A = ℕ} 1002 (1000 + 2))
convert_svp_iff_example = convert_svp_iff 5 2 4 1002 buffer acquired (omega arith) refl
