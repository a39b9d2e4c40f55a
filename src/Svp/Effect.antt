-- ===== src/Svp/Effect.antt =====
-- What a write and a copy leave in the memory.
use tasecureapi.Prelude.{
  ℕ, ◌+◌, ◌-◌, ◌%◌, ◌≤◌, ◌<◌, ◌≡◌, refl, ap, ◌∙◌, ◌⊎◌, inl, inr, Bool, true, ◌&&◌, some, List, [],
  ◌∷◌, arith, ltb, leb, if◌then◌else◌, Bool-cases, All, get_or,
}
use tasecureapi.Memory.{size_mod}
use tasecureapi.Svp.{
  SvpBuffer, Offset, check_offsets, Memory, memcpy, write, write_all, copy, copy_all,
}
use tasecureapi.Svp.Bounds.{InBounds, check_offsets_iff, validate_buffer_all, write_ok}

abbrev pub covers : Offset → ℕ → Bool
covers o k = leb o.out_offset k && ltb k (o.out_offset + o.length)

-- The byte `k` of a buffer that held `old` there: the last piece that covers it gives it.
abbrev pub written : List Offset → List ℕ → ℕ → ℕ → ℕ
written [] input k old = old
written (o ∷ os) input k old =
    written os input k
      (if covers o k then get_or input (o.in_offset + (k - o.out_offset)) 0 else old)

write_all-written :
    (p size in_size : ℕ) (input : List ℕ) (os : List Offset) (memory : Memory) (k : ℕ)
    → p + size < size_mod
    → All (InBounds size in_size) os
    → write_all p input os memory (p + k) ≡ written os input k (memory (p + k))
unfolding write_all
write_all-written p size in_size input [] memory k hp h = refl
write_all-written p size in_size input (o ∷ os) memory k hp h =
    let to : (p + o.out_offset) % size_mod ≡ p + o.out_offset = omega (arith, h.0) in
    let memory' =
      memcpy memory ((p + o.out_offset) % size_mod) (λ i. get_or input (o.in_offset + i) 0)
        o.length in
    let same : p + k - (p + o.out_offset) ≡ k - o.out_offset = omega arith in
    let here : memory' (p + k) ≡ (
        if covers o k then get_or input (o.in_offset + (k - o.out_offset)) 0 else memory (p + k)) =
      rw (to, same) (ground arith) in
    write_all-written p size in_size input os memory' k hp h.1 ∙ ap (written os input k) here

write_all-outside :
    (p size in_size : ℕ) (input : List ℕ) (os : List Offset) (memory : Memory) (a : ℕ)
    → p + size < size_mod
    → All (InBounds size in_size) os
    → (a < p) ⊎ (p + size ≤ a)
    → write_all p input os memory a ≡ memory a
unfolding write_all
write_all-outside p size in_size input [] memory a hp h out = refl
write_all-outside p size in_size input (o ∷ os) memory a hp h out =
    let to : (p + o.out_offset) % size_mod ≡ p + o.out_offset = omega (arith, h.0) in
    ground (
      arith,
      h.0,
      to,
      write_all-outside p size in_size input os
          (memcpy memory ((p + o.out_offset) % size_mod) (λ i. get_or input (o.in_offset + i) 0)
            o.length)
          a hp h.1 out,
    )

-- After a write that succeeds, to a range that does not wrap around, each byte of the buffer is the
-- one that the last piece that covers it has for it, or as it was where no piece covers it.
pub write-written :
    (out : SvpBuffer) (input : List ℕ) (in_length : ℕ) (os : List Offset) (memory : Memory) (k : ℕ)
    → out.svp_memory + out.size < size_mod
    → in_length < size_mod
    → (write (some out) (some input) in_length (some os) memory).0 ≡ true
    → (write (some out) (some input) in_length (some os) memory).1 (out.svp_memory + k)
      ≡ written os input k (memory (out.svp_memory + k))
unfolding write
write-written out input in_length os memory k ho hi h =
    let all = (write_ok out input in_length os memory (omega arith) hi).0.0 h in
    ground (
      arith,
      validate_buffer_all out,
      (check_offsets_iff out.size in_length os (omega arith) hi).1 all,
      write_all-written out.svp_memory out.size in_length input os memory k ho all,
    )

-- A write to a range that does not wrap around, whether it succeeds or not, changes no byte outside
-- of the buffer.
pub write_outside :
    (out : SvpBuffer) (input : List ℕ) (in_length : ℕ) (os : List Offset) (memory : Memory) (a : ℕ)
    → out.svp_memory + out.size < size_mod
    → in_length < size_mod
    → (a < out.svp_memory) ⊎ (out.svp_memory + out.size ≤ a)
    → (write (some out) (some input) in_length (some os) memory).1 a ≡ memory a
unfolding write
write_outside out input in_length os memory a ho hi outside =
    elim (Bool-cases (check_offsets out.size in_length os)) [
      | inl good ↦ ground (
        arith,
        validate_buffer_all out,
        write_all-outside out.svp_memory out.size in_length input os memory a ho
            ((check_offsets_iff out.size in_length os (omega arith) hi).0 good) outside,
      )
      | inr bad ↦ ground (arith, validate_buffer_all out)
    ]

copy_all-outside :
    (out source : SvpBuffer) (os : List Offset) (memory : Memory) (a : ℕ)
    → All (InBounds out.size source.size) os
    → (a < out.svp_memory) ⊎ (out.svp_memory + out.size ≤ a)
    → (copy_all out.svp_memory source.svp_memory os memory).1 a ≡ memory a
unfolding copy_all
copy_all-outside out source [] memory a h outside = refl
copy_all-outside out source (o ∷ os) memory a h outside = ground (
  arith,
  h.0,
  copy_all-outside out source os
      (memcpy memory ((out.svp_memory + o.out_offset) % size_mod)
        (λ i. memory ((source.svp_memory + o.in_offset) % size_mod + i)) o.length)
      a h.1 outside,
)

-- A copy, whether it succeeds or not, changes no byte outside of the buffer that it copies to.
pub copy_outside :
    (out source : SvpBuffer) (os : List Offset) (memory : Memory) (a : ℕ)
    → out.size < size_mod
    → source.size < size_mod
    → (a < out.svp_memory) ⊎ (out.svp_memory + out.size ≤ a)
    → (copy (some out) (some source) (some os) memory).1 a ≡ memory a
unfolding copy
copy_outside out source os memory a ho hs outside =
    elim (Bool-cases (check_offsets out.size source.size os)) [
      | inl good ↦ ground (
        arith,
        validate_buffer_all out,
        validate_buffer_all source,
        copy_all-outside out source os memory a
            ((check_offsets_iff out.size source.size os ho hs).0 good) outside,
      )
      | inr bad ↦ ground (arith, validate_buffer_all out, validate_buffer_all source)
    ]
