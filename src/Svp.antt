-- ===== src/Svp.antt =====
-- taimpl/src/porting/svp.c: buffers of the secure video path. A buffer is the address and the size
-- of a range; the memory itself gives the byte at each address. The digest of `svp_digest`, which
-- calls OpenSSL, is an argument; `svp_key_check` is left out.
pub mod Bounds
pub mod Effect
use tasecureapi.Prelude.{
  ℕ, ◌+◌, ◌-◌, ◌%◌, Bool, true, false, ◌&&◌, not, Option, none, some, List, [], ◌∷◌, ltb, leb, ◌==◌,
  if◌then◌else◌, get_or, Status, status_ok, invalid_parameter,
}
use tasecureapi.Memory.{size_mod, add_overflow, is_valid_svp}

-- `struct svp_buffer_s`
pub record SvpBuffer : Type 0 where
  pub svp_memory : ℕ
  pub size : ℕ

-- `sa_svp_offset`
pub record Offset : Type 0 where
  pub out_offset : ℕ
  pub in_offset : ℕ
  pub length : ℕ

-- The conversion of a status to `bool`: SA_STATUS_OK is 0.
abbrev pub status_bool : Status → Bool
status_bool status_ok = false
status_bool _ = true

-- `svp_validate_buffer`, which returns a status as a `bool`.
unfoldable pub validate_buffer : Option SvpBuffer → Bool
unfolding is_valid_svp
validate_buffer none = false
validate_buffer (some b) =
    if not (is_valid_svp b.svp_memory b.size) then status_bool invalid_parameter else true

-- `svp_create_buffer`, with `*svp_buffer` before and after the call. The last argument says whether
-- the allocation succeeds; if it does not, the pointer is NULL.
unfoldable pub create_buffer :
    Option (Option SvpBuffer) → ℕ → ℕ → Bool → Bool × Option (Option SvpBuffer)
unfolding is_valid_svp
create_buffer none svp_memory size allocated = (false, none)
create_buffer (some old) svp_memory size allocated =
    if svp_memory == 0
    then (false, some old)
    else if not (is_valid_svp svp_memory size)
    then (status_bool invalid_parameter, some old)
    else if not allocated
    then (false, some none)
    else (true, some (some (record { svp_memory = svp_memory; size = size })))

-- `svp_release_buffer`: the range that it stores. The first two arguments say whether the pointers to
-- the address and to the size are given.
unfoldable pub release_buffer : Bool → Bool → Option SvpBuffer → Bool × Option (ℕ × ℕ)
release_buffer false size_given b = (false, none)
release_buffer true false b = (false, none)
release_buffer true true none = (false, none)
release_buffer true true (some b) = (true, some (b.svp_memory, b.size))

-- The loop of `svp_write` and of `svp_copy` that checks the offsets.
unfoldable pub check_offsets : ℕ → ℕ → List Offset → Bool
unfolding add_overflow
check_offsets out_size in_size [] = true
check_offsets out_size in_size (o ∷ os) =
    let (out_over, out_range) = add_overflow o.out_offset o.length in
    let (in_over, in_range) = add_overflow o.in_offset o.length in
    let rest = check_offsets out_size in_size os in
    if out_over
    then false
    else if ltb out_size out_range
    then false
    else if in_over
    then false
    else if ltb in_size in_range
    then false
    else rest

-- The byte at each address.
abbrev pub Memory : Type 0
Memory = ℕ → ℕ

-- `memcpy` to the address `to`, of bytes that the third argument gives by their index. The program
-- may only call it on ranges that do not overlap.
abbrev pub memcpy : Memory → ℕ → (ℕ → ℕ) → ℕ → Memory
memcpy memory to from count a = if leb to a && ltb a (to + count) then from (a - to) else memory a

-- The loop of `svp_write` that copies.
unfoldable pub write_all : ℕ → List ℕ → List Offset → Memory → Memory
write_all out_memory input [] memory = memory
write_all out_memory input (o ∷ os) memory = write_all out_memory input os (
    memcpy memory ((out_memory + o.out_offset) % size_mod) (λ i. get_or input (o.in_offset + i) 0)
      o.length)

-- `svp_write`. `none` for the input or the offsets is NULL.
unfoldable pub write :
    Option SvpBuffer → Option (List ℕ) → ℕ → Option (List Offset) → Memory → Bool × Memory
unfolding write_all check_offsets validate_buffer
write none input in_length offsets memory = (false, memory)
write (some out) none in_length offsets memory = (false, memory)
write (some out) (some input) in_length none memory = (false, memory)
write (some out) (some input) in_length (some offsets) memory =
    if not (validate_buffer (some out))
    then (false, memory)
    else if not (check_offsets out.size in_length offsets)
    then (false, memory)
    else (true, write_all out.svp_memory input offsets memory)

-- The loop of `svp_copy` that copies.
unfoldable pub copy_all : ℕ → ℕ → List Offset → Memory → Bool × Memory
unfolding add_overflow
copy_all out_memory in_memory [] memory = (true, memory)
copy_all out_memory in_memory (o ∷ os) memory =
    let (out_over, out_position) = add_overflow out_memory o.out_offset in
    let (in_over, in_position) = add_overflow in_memory o.in_offset in
    let rest =
      copy_all out_memory in_memory os
        (memcpy memory out_position (λ i. memory (in_position + i)) o.length) in
    if out_over then (false, memory) else if in_over then (false, memory) else rest

-- `svp_copy`
unfoldable pub copy :
    Option SvpBuffer → Option SvpBuffer → Option (List Offset) → Memory → Bool × Memory
unfolding copy_all check_offsets validate_buffer
copy none source offsets memory = (false, memory)
copy (some out) none offsets memory = (false, memory)
copy (some out) (some source) none memory = (false, memory)
copy (some out) (some source) (some offsets) memory =
    if not (validate_buffer (some out))
    then (false, memory)
    else if not (validate_buffer (some source))
    then (false, memory)
    else if not (check_offsets out.size source.size offsets)
    then (false, memory)
    else copy_all out.svp_memory source.svp_memory offsets memory

abbrev pub is_ok : Status → Bool
is_ok status_ok = true
is_ok _ = false

-- `svp_digest`, of a buffer that is given: the result, and what it wrote to `out`. The first argument
-- is `digest_sha` on a range of the memory.
unfoldable pub digest : (ℕ → ℕ → Status × List ℕ) → SvpBuffer → ℕ → ℕ → Bool × Option (List ℕ)
unfolding add_overflow validate_buffer
digest digest_sha b offset count =
    let (over, range) = add_overflow offset count in
    let (position_over, position) = add_overflow b.svp_memory offset in
    let (s, out) = digest_sha position count in
    if over
    then (false, none)
    else if ltb b.size range
    then (false, none)
    else if not (validate_buffer (some b))
    then (false, none)
    else if position_over
    then (false, none)
    else (is_ok s, some out)

-- `svp_get_svp_memory` and `svp_get_size`
unfoldable pub get_svp_memory : Option SvpBuffer → ℕ
unfolding validate_buffer
get_svp_memory none = 0
get_svp_memory (some b) = if not (validate_buffer (some b)) then 0 else b.svp_memory

unfoldable pub get_size : Option SvpBuffer → ℕ
get_size none = 0
get_size (some b) = b.size
