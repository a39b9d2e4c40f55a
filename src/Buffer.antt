-- ===== src/Buffer.antt =====
-- taimpl/src/internal/buffer.c: `convert_buffer`, which turns a buffer of a request into an address.
-- What `svp_store_acquire_exclusive` of taimpl/src/internal/svp_store.c gives is an argument: its
-- status, and the buffer behind the SVP that it stores.
pub mod Bounds
use tasecureapi.Prelude.{
  ℕ, ◌+◌, ◌%◌, Bool, true, false, not, Option, none, some, ltb, ◌==◌, if◌then◌else◌, Status,
  status_ok, null_parameter, invalid_parameter,
}
use tasecureapi.Memory.{size_mod, add_overflow, is_valid_clear}
use tasecureapi.Svp.{SvpBuffer, get_svp_memory, get_size, is_ok}

-- `sa_buffer`: a range of clear memory and an offset into it, or a handle and an offset, or a buffer
-- whose type is neither.
pub data Buffer : Type 0 where
  clear_buffer : ℕ → ℕ → ℕ → Buffer
  svp_buffer : ℕ → ℕ → Buffer
  other_buffer : Buffer

-- The status, and `*bytes` if it was written.
abbrev pub Converted : Type 0
Converted = Status × Option ℕ

unfoldable pub convert_clear : ℕ → ℕ → ℕ → ℕ → Converted
unfolding add_overflow is_valid_clear
convert_clear address length offset bytes_to_process =
    let (range_over, memory_range) = add_overflow offset bytes_to_process in
    let (over, bytes) = add_overflow address offset in
    if address == 0
    then (null_parameter, none)
    else if range_over
    then (invalid_parameter, none)
    else if ltb length memory_range
    then (invalid_parameter, none)
    else if not (is_valid_clear address length)
    then (invalid_parameter, none)
    else if over
    then (invalid_parameter, some bytes)
    else (status_ok, some bytes)

unfoldable pub convert_svp : Status × Option SvpBuffer → ℕ → ℕ → Converted
unfolding add_overflow get_svp_memory get_size
convert_svp acquired offset bytes_to_process =
    let (status, buffer) = acquired in
    let (range_over, memory_range) = add_overflow offset bytes_to_process in
    let memory_location = get_svp_memory buffer in
    let (over, bytes) = add_overflow memory_location offset in
    if not (is_ok status)
    then (status, none)
    else if range_over
    then (invalid_parameter, none)
    else if memory_location == 0
    then (invalid_parameter, none)
    else if ltb (get_size buffer) memory_range
    then (invalid_parameter, none)
    else if over
    then (invalid_parameter, some bytes)
    else (status_ok, some bytes)

convert_given : Buffer → ℕ → (ℕ → Status × Option SvpBuffer) → Converted
unfolding convert_clear convert_svp
convert_given (clear_buffer address length offset) bytes_to_process acquire =
    convert_clear address length offset bytes_to_process
convert_given (svp_buffer handle offset) bytes_to_process acquire =
    convert_svp (acquire handle) offset bytes_to_process
convert_given other_buffer bytes_to_process acquire = (status_ok, none)

-- `convert_buffer`. The Booleans say whether the pointers to the results, the client and the caller
-- are given.
unfoldable pub convert_buffer :
    Bool → Bool → Option Buffer → ℕ → Bool → Bool → (ℕ → Status × Option SvpBuffer) → Converted
unfolding convert_given
convert_buffer bytes_given svp_given none bytes_to_process client_given caller_given acquire =
    (null_parameter, none)
convert_buffer bytes_given svp_given (some buffer) bytes_to_process client_given caller_given
      acquire =
    if not bytes_given
    then (null_parameter, none)
    else if not svp_given
    then (null_parameter, none)
    else if not client_given
    then (null_parameter, none)
    else if not caller_given
    then (null_parameter, none)
    else convert_given buffer bytes_to_process acquire
