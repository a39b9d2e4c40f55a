-- ===== src/Buffer/Bounds.antt =====
-- Which requests `convert_buffer` accepts, and that the bytes then lie in the buffer.
use tasecureapi.Prelude.{
  ℕ, ◌+◌, ◌≤◌, ◌<◌, ◌≡◌, ◌↔◌, ◌≢◌, true, Option, some, arith, Status, status_ok,
}
use tasecureapi.Memory.{size_mod}
use tasecureapi.Svp.{SvpBuffer}
use tasecureapi.Buffer.{clear_buffer, svp_buffer, convert_buffer}

-- A clear buffer with a length of 64 bits is converted exactly when it is not NULL, the bytes that
-- are asked for lie in it and its range does not wrap around; the result is the address at the
-- offset.
pub convert_clear_iff :
    (address count offset bytes_to_process p : ℕ) (acquire : ℕ → Status × Option SvpBuffer)
    → count < size_mod
    → (convert_buffer true true
          (some (clear_buffer address count offset))
          bytes_to_process
          true
          true
          acquire
        ≡ (status_ok, some p))
      ↔ ((address ≢ 0)
          × (offset + bytes_to_process ≤ count)
          × (address + count < size_mod)
          × (p ≡ address + offset))
unfolding convert_buffer
convert_clear_iff address count offset bytes_to_process p acquire h =
    (λ e. ground arith, λ e. ground arith)

-- An SVP buffer of a handle that could be acquired, with a size of 64 bits, is converted exactly when
-- it is not NULL, the bytes that are asked for lie in it and the address at the offset does not wrap
-- around; that the buffer lies in the memory as a whole is not asked for.
pub convert_svp_iff :
    (handle offset bytes_to_process p : ℕ) (b : SvpBuffer) (acquire : ℕ → Status × Option SvpBuffer)
    → b.size < size_mod
    → acquire handle ≡ (status_ok, some b)
    → (convert_buffer true true (some (svp_buffer handle offset)) bytes_to_process true true acquire
        ≡ (status_ok, some p))
      ↔ ((b.svp_memory ≢ 0)
          × (offset + bytes_to_process ≤ b.size)
          × (b.svp_memory + offset < size_mod)
          × (p ≡ b.svp_memory + offset))
unfolding convert_buffer
convert_svp_iff handle offset bytes_to_process p b acquire h e =
    (λ q. ground (arith, e), λ q. ground (arith, e))
