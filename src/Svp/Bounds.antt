-- ===== src/Svp/Bounds.antt =====
-- When the functions on secure buffers succeed.
use tasecureapi.Prelude.{
  ℕ, ◌+◌, ◌≤◌, ◌<◌, ◌≡◌, refl, ◌↔◌, ◌⊎◌, inl, inr, true, Option, some, List, [], ◌∷◌, arith, All,
  ◌≢◌, Status, status_ok, no_available_resource_slot, invalid_key_format, invalid_key_type,
  null_parameter, invalid_parameter, operation_not_allowed, invalid_svp_buffer,
  operation_not_supported, self_test, verification_failed, internal_error, hw_error,
}
use native.Mathlib.Decide.{dec_lt}
use tasecureapi.Memory.{size_mod, is_valid_svp}
use tasecureapi.Svp.{
  SvpBuffer, Offset, validate_buffer, create_buffer, release_buffer, check_offsets, Memory, write,
  copy, copy_all, memcpy, digest, is_ok,
}

-- The piece lies in both buffers.
abbrev pub InBounds : ℕ → ℕ → Offset → Type 0
InBounds out_size in_size o =
    (o.out_offset + o.length ≤ out_size) × (o.in_offset + o.length ≤ in_size)

pub check_offsets_iff :
    (out_size in_size : ℕ) (os : List Offset)
    → out_size < size_mod
    → in_size < size_mod
    → (check_offsets out_size in_size os ≡ true) ↔ All (InBounds out_size in_size) os
unfolding check_offsets
check_offsets_iff out_size in_size [] ho hi = (λ h. tt, λ h. refl)
check_offsets_iff out_size in_size (o ∷ os) ho hi =
    let ih = check_offsets_iff out_size in_size os ho hi in
    (λ h. ((ground arith, ground arith), ih.0 (ground arith)), λ h. ground (arith, h.0, ih.1 h.1))

-- The check of a buffer accepts every buffer, also one whose range is NULL or wraps around, because
-- the status that it returns for these is not 0.
pub validate_buffer_all : (b : SvpBuffer) → validate_buffer (some b) ≡ true
unfolding validate_buffer
validate_buffer_all b = ground arith

-- With sizes of 64 bits, a write succeeds exactly when every piece lies in the buffer and in the
-- input, and one that fails changes nothing.
pub write_ok :
    (out : SvpBuffer) (input : List ℕ) (in_length : ℕ) (os : List Offset) (memory : Memory)
    → out.size < size_mod
    → in_length < size_mod
    → (((write (some out) (some input) in_length (some os) memory).0 ≡ true)
        ↔ All (InBounds out.size in_length) os)
      × (((write (some out) (some input) in_length (some os) memory).0 ≡ true)
          ⊎ ((write (some out) (some input) in_length (some os) memory).1 ≡ memory))
unfolding write
write_ok out input in_length os memory ho hi =
    let c = check_offsets_iff out.size in_length os ho hi in
    let v = validate_buffer_all out in
    ((λ h. ground (arith, c, v), λ h. ground (arith, c, v)), ground arith)

copy_all_ok :
    (out source : SvpBuffer) (os : List Offset) (memory : Memory)
    → out.svp_memory + out.size < size_mod
    → source.svp_memory + source.size < size_mod
    → All (InBounds out.size source.size) os
    → (copy_all out.svp_memory source.svp_memory os memory).0 ≡ true
unfolding copy_all
copy_all_ok out source [] memory ho hi h = refl
copy_all_ok out source (o ∷ os) memory ho hi h = ground (
  arith,
  h.0,
  copy_all_ok out source os
      (memcpy memory (out.svp_memory + o.out_offset)
        (λ i. memory (source.svp_memory + o.in_offset + i)) o.length)
      ho hi h.1,
)

-- With sizes of 64 bits, and a range that does not wrap around, a copy succeeds exactly when every
-- piece lies in both buffers.
pub copy_ok :
    (out source : SvpBuffer) (os : List Offset) (memory : Memory)
    → out.svp_memory + out.size < size_mod
    → source.svp_memory + source.size < size_mod
    → ((copy (some out) (some source) (some os) memory).0 ≡ true)
      ↔ All (InBounds out.size source.size) os
unfolding copy
copy_ok out source os memory ho hi =
    let c = check_offsets_iff out.size source.size os (omega arith) (omega arith) in
    let v = validate_buffer_all out in
    let w = validate_buffer_all source in
    (
      λ h. c.0 (ground arith),
      λ h. ground (arith, v, w, c.1 h, copy_all_ok out source os memory ho hi h),
    )

-- Where its allocation succeeds, `svp_create_buffer` returns true for a range that wraps around, and makes no buffer; for any other
-- range that is not NULL it makes the buffer from which `svp_release_buffer` gives the range back.
pub create-release :
    (old : Option SvpBuffer) (svp_memory size : ℕ)
    → svp_memory ≢ 0
    → ((create_buffer (some old) svp_memory size true).0 ≡ true)
      × ((size_mod ≤ svp_memory + size)
          ⊎ ((b : SvpBuffer) × (create_buffer (some old) svp_memory size true
                ≡ (true, some (some b)))
              × (release_buffer true true (some b) ≡ (true, some (svp_memory, size)))))
      × ((svp_memory + size < size_mod)
          ⊎ ((create_buffer (some old) svp_memory size true).1 ≡ some old))
unfolding create_buffer release_buffer is_valid_svp
create-release old svp_memory size ne = elim (dec_lt (svp_memory + size) size_mod) [
  | yes fits ↦ (ground arith, inr (_, ground arith, refl), inl fits)
  | no wraps ↦ (ground arith, inl (omega arith), inr (ground arith))
]

pub is_ok_lem : (s : Status) → is_ok s ≡ true → s ≡ status_ok
is_ok_lem status_ok h = refl
is_ok_lem no_available_resource_slot h = cc
is_ok_lem invalid_key_format h = cc
is_ok_lem invalid_key_type h = cc
is_ok_lem null_parameter h = cc
is_ok_lem invalid_parameter h = cc
is_ok_lem operation_not_allowed h = cc
is_ok_lem invalid_svp_buffer h = cc
is_ok_lem operation_not_supported h = cc
is_ok_lem self_test h = cc
is_ok_lem verification_failed h = cc
is_ok_lem internal_error h = cc
is_ok_lem hw_error h = cc

-- A digest succeeds exactly when its range lies in the buffer, the address of the range does not
-- wrap around, and `digest_sha` succeeds on this range of the memory; then the output is its output.
pub digest_iff :
    (digest_sha : ℕ → ℕ → Status × List ℕ) (b : SvpBuffer) (offset count : ℕ) (out : List ℕ)
    → b.size < size_mod
    → (digest digest_sha b offset count ≡ (true, some out)) ↔ (
        (offset + count ≤ b.size)
        × (b.svp_memory + offset < size_mod)
        × (digest_sha (b.svp_memory + offset) count ≡ (status_ok, out)))
unfolding digest
digest_iff digest_sha b offset count out hb =
    let v = validate_buffer_all b in
    (
      λ h. ground (arith, v, is_ok_lem (digest_sha (b.svp_memory + offset) count).0),
      λ h. ground (arith, v),
    )
