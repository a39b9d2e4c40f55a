-- ===== src/Cenc/Process.antt =====
-- taimpl/src/internal/cenc.c: `cenc_process_sample` as a whole, from the cipher and the buffers of the
-- sample to the offsets that it moves. The memory of all buffers is one function of the address.
pub mod Verified
use tasecureapi.Prelude.{
  ℕ, ◌+◌, ◌-◌, ◌%◌, Bool, true, false, ◌&&◌, not, Option, none, some, List, ltb, ◌==◌,
  if◌then◌else◌, Status, status_ok, null_parameter, invalid_parameter,
}
use tasecureapi.Prelude.CipherAlgorithm
use tasecureapi.Memory.{size_mod}
use tasecureapi.Svp.{Memory, is_ok}
use tasecureapi.Buffer.{Buffer, clear_buffer, svp_buffer, other_buffer, convert_buffer}
use tasecureapi.Symmetric.{EvpCalls, SymmetricContext}
use tasecureapi.Cenc.{Subsample, Sample, State, Progress, required_length, cenc_overflow, process}
use tasecureapi.Cenc.Verify.{CipherView, Environment, is_some, holds_svp, bytes_of}

-- What is left of a sample, of the memory and of the context, and which of the input SVP, the output
-- SVP and the cipher are released.
pub record Outcome (C : Type 0) : Type 0 where
  pub status : Status
  pub out : Buffer
  pub input : Buffer
  pub memory : Memory
  pub context : Option (SymmetricContext C)
  pub releases_input : Bool
  pub releases_out : Bool
  pub releases_cipher : Bool

-- The parts of a sample that only the processing reads: the IV, and the pattern.
pub record Protection : Type 0 where
  pub iv_nonce : ℕ
  pub iv_counter : ℕ
  pub crypt_byte_block : ℕ
  pub skip_byte_block : ℕ

abbrev pub sample_of : CipherView → Protection → List Subsample → Sample
sample_of cipher pattern ss = record {
  iv_nonce = pattern.iv_nonce;
  iv_counter = pattern.iv_counter;
  crypt_byte_block = pattern.crypt_byte_block;
  skip_byte_block = pattern.skip_byte_block;
  subsamples = ss;
  cbc = cipher.algorithm == CipherAlgorithm.aes_cbc;
  ctr = cipher.algorithm == CipherAlgorithm.aes_ctr;
}

-- The offset of a buffer goes on.
abbrev pub moved : ℕ → Buffer → Buffer
moved n (clear_buffer address count offset) = clear_buffer address count ((offset + n) % size_mod)
moved n (svp_buffer handle offset) = svp_buffer handle ((offset + n) % size_mod)
moved n other_buffer = other_buffer

-- The memory after writes at and behind an address.
abbrev pub written_at : ℕ → Memory → Memory → Memory
written_at address written memory a = if ltb a address then memory a else written (a - address)

module _ {C : Type 0} (calls : EvpCalls C) (env : Environment) (pattern : Protection)
    (ss : List Subsample) (out input : Buffer) where
  -- The end of `cenc_process_sample`.
  abbrev pub finish : Memory → ℕ → Progress C → Outcome C
  finish memory out_bytes p =
      let done = is_ok p.status in
      record {
        status = p.status;
        out = if done then moved p.offset out else out;
        input = if done then moved p.offset input else input;
        memory = written_at out_bytes p.state.out memory;
        context = some p.state.context;
        releases_input = holds_svp env input;
        releases_out = holds_svp env out;
        releases_cipher = true;
      }

  abbrev pub finish_some : Memory → ℕ → Option (Progress C) → Option (Outcome C)
  finish_some memory out_bytes none = none
  finish_some memory out_bytes (some p) = some (finish memory out_bytes p)

  abbrev left_early :
      Memory → Option (SymmetricContext C) → Status → Bool → Bool → Bool → Option (Outcome C)
  left_early memory context s releases_input releases_out releases_cipher = some (record {
    status = s;
    out = out;
    input = input;
    memory = memory;
    context = context;
    releases_input = releases_input;
    releases_out = releases_out;
    releases_cipher = releases_cipher;
  })

  -- `cenc_process_sample` behind the conversion of the buffers.
  unfoldable pub with_bytes :
      ℕ → Memory → CipherView → Option (SymmetricContext C) → ℕ → ℕ → Option (Outcome C)
  with_bytes fuel memory cipher none out_bytes in_bytes =
      left_early memory none null_parameter (holds_svp env input) (holds_svp env out) true
  with_bytes fuel memory cipher (some context) out_bytes in_bytes = finish_some memory out_bytes (
      process calls (λ i. memory (in_bytes + i)) (sample_of cipher pattern ss) fuel context
        (λ i. memory (out_bytes + i)))

  -- `cenc_process_sample` behind the acquisition of the cipher.
  unfoldable pub with_cipher :
      ℕ → Memory → Status × Option CipherView → Option (SymmetricContext C) → Option (Outcome C)
  with_cipher fuel memory (s, none) context =
      left_early memory context invalid_parameter false false false
  with_cipher fuel memory (s, some cipher) context =
      let required = required_length ss in
      let (out_status, out_bytes) =
        convert_buffer true true (some out) required true true env.acquire_svp in
      let (in_status, in_bytes) =
        convert_buffer true true (some input) required true true env.acquire_svp in
      if not (is_ok s)
      then left_early memory context invalid_parameter false false true
      else if required == cenc_overflow
      then left_early memory context invalid_parameter false false true
      else if not (is_ok out_status)
      then left_early memory context out_status false (holds_svp env out) true
      else if not (is_ok in_status)
      then left_early memory context in_status (holds_svp env input) (holds_svp env out) true
      else with_bytes fuel memory cipher context (bytes_of out_bytes) (bytes_of in_bytes)

  -- `cenc_process_sample`, for the context of the cipher handle and its symmetric context.
  unfoldable pub process_sample : ℕ → Memory → ℕ → Option (SymmetricContext C) → Option (Outcome C)
  process_sample fuel memory handle context =
      with_cipher fuel memory (env.acquire_cipher handle) context
