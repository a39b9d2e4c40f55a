-- ===== src/Cenc.antt =====
-- taimpl/src/internal/cenc.c: the decryption of the samples of common encryption, over the contexts
-- of Symmetric. The bytes of the input are a
-- function of their position, and so are those of the output: verify_sample has found that the two
-- buffers do not overlap.
pub mod Counter
pub mod Length
pub mod Layout
pub mod Pattern
pub mod Process
pub mod Rollover
pub mod Truncated
pub mod Verify
use tasecureapi.Prelude.{
  ℕ, zero, suc, ◌+◌, ◌-◌, ◌*◌, ◌/◌, ◌%◌, ◌^◌, min, Bool, true, false, ◌&&◌, not, Option, none, some,
  List, [], ◌∷◌, ltb, leb, ◌==◌, if◌then◌else◌, Status, status_ok,
}
use tasecureapi.Memory.{size_mod, add_overflow}
use tasecureapi.Pad.{aes_block_size}
use tasecureapi.Symmetric.{EvpCalls, SymmetricContext, context_decrypt, context_set_iv}
use tasecureapi.Svp.{Memory, memcpy, is_ok}

-- `sa_subsample_length`
pub record Subsample : Type 0 where
  pub clear_data : ℕ
  pub protected_data : ℕ

-- `CENC_OVERFLOW`
abbrev pub cenc_overflow : ℕ
cenc_overflow = 0

-- The loop of `cenc_get_required_length`
unfoldable pub length_from : ℕ → List Subsample → ℕ
unfolding add_overflow
length_from required [] = required
length_from required (s ∷ ss) =
    let (sub_over, sub_length) = add_overflow s.clear_data s.protected_data in
    let (over, required') = add_overflow required sub_length in
    let rest = length_from required' ss in
    if sub_over then cenc_overflow else if over then cenc_overflow else rest

unfoldable pub required_length : List Subsample → ℕ
unfolding length_from
required_length ss = length_from 0 ss

-- The context, the IV as an 8 byte nonce and an 8 byte counter, `enc_byte_count`, and the output.
pub record State (C : Type 0) : Type 0 where
  pub context : SymmetricContext C
  pub nonce : ℕ
  pub counter : ℕ
  pub enc_byte_count : ℕ
  pub out : Memory

abbrev pub word : ℕ
word = 2 ^ 64

module _ {C : Type 0} (calls : EvpCalls C) (input : Memory) where
  -- A call of `symmetric_context_decrypt` on `count` bytes at `base`: its status and its length.
  unfoldable pub update_at : ℕ → ℕ → State C → Status × ℕ × State C
  update_at base count st =
      let u = context_decrypt calls st.context (λ i. input (base + i)) count in
      (
        u.status,
        u.length,
        record st { context = u.context; out = memcpy st.out base u.bytes u.length },
      )

  -- The leading block, or the full blocks, before a rollover in `decrypt`: they are decrypted, the
  -- counter goes on by the blocks, and the IV is set. The number is that of the bytes encrypted.
  unfoldable pub advance : ℕ → ℕ → ℕ → State C → Status × ℕ × State C
  unfolding update_at
  advance base count blocks st =
      let (s, length, st') = update_at base count st in
      let counter = (st'.counter + blocks) % word in
      let (s', context) = context_set_iv calls st'.context st'.nonce counter in
      let moved = record st' { counter = counter; context = context } in
      if count == 0
      then (status_ok, 0, st)
      else if not (is_ok s)
      then (s, 0, st')
      else if not (is_ok s')
      then (s', 0, moved)
      else (
        status_ok,
        length,
        record moved { enc_byte_count = (st'.enc_byte_count + length) % size_mod },
      )

  -- The other branch of `decrypt`: all bytes that are left.
  unfoldable pub plain : ℕ → ℕ → ℕ → State C → Status × State C
  unfolding update_at
  plain base count blocks st =
      let (s, length, st') = update_at base count st in
      if not (is_ok s) then (s, st') else (
        status_ok,
        record st' {
          counter = (st'.counter + blocks) % word;
          enc_byte_count = (st'.enc_byte_count + length) % size_mod;
        },
      )

  -- The body of `decrypt` once its four numbers are known. Its loop runs at most twice, since the
  -- second branch ends it and the first is taken once.
  unfoldable pub decrypt_blocks : Bool → ℕ → ℕ → ℕ → ℕ → ℕ → State C → Status × State C
  decrypt_blocks rollover lead full before base count st =
      let blocks = min before full in
      let (s, n, st') = advance base lead 1 st in
      let (s', n', st'') = advance (base + n) (blocks * aes_block_size) blocks st' in
      let done = n + n' in
      if count == 0
      then (status_ok, st)
      else if rollover
      then (if not (is_ok s)
          then (s, st')
          else if not (is_ok s')
          then (s', st'')
          else if ltb done count
          then plain (base + done) (count - done) (full - blocks) st''
          else (status_ok, st''))
      else plain base count (full + (if lead == 0 then 0 else 1)) st

  -- `decrypt`; the Boolean says whether the algorithm is AES-CTR.
  unfoldable pub decrypt : Bool → ℕ → ℕ → State C → Status × State C
  decrypt ctr base count st =
      let part = st.enc_byte_count % aes_block_size in
      let lead = if part == 0 then 0 else aes_block_size - part in
      let full = ((count + size_mod - lead) % size_mod) / aes_block_size in
      let before = (word - 1 - st.counter + 1) % size_mod in
      let rollover = leb before (full + (if lead == 0 then 0 else 1)) in
      decrypt_blocks (rollover && ctr) lead full before base count st

  -- `memcpy` from the input to the same place of the output.
  unfoldable pub copy_clear : ℕ → ℕ → State C → State C
  copy_clear base count st = record st { out = memcpy st.out base (λ i. input (base + i)) count }

-- What a loop leaves: `status`, `offset`, and the state.
pub record Progress (C : Type 0) : Type 0 where
  pub status : Status
  pub offset : ℕ
  pub state : State C

-- `sa_sample`, as far as it is read here, and whether the algorithm of its cipher is AES-CBC; with
-- `ctr`, whether it is AES-CTR.
pub record Sample : Type 0 where
  pub iv_nonce : ℕ
  pub iv_counter : ℕ
  pub crypt_byte_block : ℕ
  pub skip_byte_block : ℕ
  pub subsamples : List Subsample
  pub cbc : Bool
  pub ctr : Bool

module _ {C : Type 0} (calls : EvpCalls C) (input : Memory) (sample : Sample) where
  -- The CENC or CBC1 mode, for the protected data of one subsample: on an error the offset stays.
  unfoldable pub whole : ℕ → ℕ → State C → Progress C
  unfolding copy_clear
  whole protected offset st =
      let remainder = if sample.cbc then protected % aes_block_size else 0 in
      let block = protected - remainder in
      let (s, st') = decrypt calls input sample.ctr offset block st in
      if not (is_ok s) then record { status = s; offset = offset; state = st' } else record {
        status = s;
        offset = offset + block + remainder;
        state =
            if remainder == 0 then st' else copy_clear calls input (offset + block) remainder st';
      }

  -- The loop over the stripes of the CENS or CBCS mode, with fuel, and the bytes that it leaves.
  unfoldable pub stripes : ℕ → Status → ℕ → ℕ → State C → Option (ℕ × Progress C)
  unfolding copy_clear
  stripes zero so_far offset left st = none
  stripes (suc fuel) so_far offset left st =
      let block =
        min (sample.crypt_byte_block * aes_block_size % size_mod)
          (left / aes_block_size * aes_block_size) in
      let (s, st') = decrypt calls input sample.ctr offset block st in
      let s' = if block == 0 then so_far else s in
      let here = offset + block in
      let left' = left - block in
      let skip =
        min (sample.skip_byte_block * aes_block_size % size_mod)
          (left' / aes_block_size * aes_block_size) in
      let rest =
        stripes fuel s' (here + skip) (left' - skip) (copy_clear calls input here skip st') in
      if ltb left aes_block_size
      then some (left, record { status = so_far; offset = offset; state = st })
      else if not (block == 0) && not (is_ok s)
      then some (left, record { status = s; offset = offset; state = st' })
      else rest

  finish_stripes : Option (ℕ × Progress C) → Option (Progress C)
  unfolding copy_clear
  finish_stripes none = none
  finish_stripes (some (left, p)) =
      some (record p {
        offset = p.offset + left;
        state = copy_clear calls input p.offset left p.state;
      })

  -- The CENS or CBCS mode; the Boolean says that the loop over the subsamples is left.
  unfoldable pub striped : ℕ → Status → ℕ → ℕ → State C → Option (Bool × Progress C)
  unfolding stripes finish_stripes
  striped fuel so_far protected offset st =
      let (s, context) = context_set_iv calls st.context sample.iv_nonce sample.iv_counter in
      let reset = record st {
        nonce = sample.iv_nonce;
        counter = sample.iv_counter;
        context = context;
      } in
      let st' = if sample.cbc then reset else st in
      let s' = if sample.cbc then s else so_far in
      if sample.cbc && not (is_ok s)
      then some (true, record { status = s; offset = offset; state = reset })
      else elim (finish_stripes (stripes fuel s' offset protected st')) [
        | none ↦ none
        | some p ↦ some (false, p)
      ]

  -- The loop over the subsamples.
  unfoldable pub process_from : ℕ → List Subsample → Progress C → Option (Progress C)
  unfolding copy_clear
  process_from fuel [] p = some p
  process_from fuel (s ∷ ss) p =
      let offset = p.offset + s.clear_data in
      let st = copy_clear calls input p.offset s.clear_data p.state in
      let w = whole s.protected_data offset st in
      let next = process_from fuel ss (record { status = p.status; offset = offset; state = st }) in
      let next_whole = process_from fuel ss w in
      let next_striped = λ (q : Progress C). process_from fuel ss q in
      if s.protected_data == 0
      then next
      else if sample.crypt_byte_block == 0
      then (if not (is_ok w.status) then some w else next_whole)
      else elim (striped fuel p.status s.protected_data offset st) [
        | none ↦ none
        | some (left, q) ↦ if left then some q else next_striped q
      ]

  -- `cenc_process_sample` from where it sets the IV on, at the start of its buffers.
  unfoldable pub process : ℕ → SymmetricContext C → Memory → Option (Progress C)
  unfolding process_from
  process fuel context out =
      let (s, context') = context_set_iv calls context sample.iv_nonce sample.iv_counter in
      let st : State C = record {
        context = context';
        nonce = sample.iv_nonce;
        counter = sample.iv_counter;
        enc_byte_count = 0;
        out = out;
      } in
      if not (is_ok s)
      then some (record { status = s; offset = 0; state = st })
      else process_from fuel sample.subsamples (record { status = s; offset = 0; state = st })
