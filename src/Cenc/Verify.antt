-- ===== src/Cenc/Verify.antt =====
-- taimpl/src/ta_sa_process_common_encryption.c: what a sample must satisfy before any sample of its
-- request is processed. What the stores hand out is an argument: the cipher of a context and the
-- buffer of an SVP, each with the status of the call that acquires it exclusively.
pub mod Accepted
use tasecureapi.Prelude.{
  ℕ, ◌+◌, ◌%◌, Bool, true, false, ◌&&◌, ◌||◌, not, Option, none, some, List, [], ◌∷◌, ltb, leb,
  ◌==◌, if◌then◌else◌, checks, Status, status_ok, null_parameter, invalid_parameter, internal_error,
  operation_not_allowed, length,
}
use tasecureapi.Prelude.KeyType
use tasecureapi.Prelude.CipherAlgorithm
use tasecureapi.Prelude.CipherMode
use tasecureapi.Memory.{size_mod}
use tasecureapi.Pad.{aes_block_size}
use tasecureapi.Rights.{Rights, VideoOutputState, allowed_decrypt, allowed_clear}
use tasecureapi.Svp.{SvpBuffer, is_ok}
use tasecureapi.Buffer.{Buffer, clear_buffer, svp_buffer, other_buffer, convert_buffer}
use tasecureapi.Cenc.{Subsample, required_length, cenc_overflow}

-- `sa_sample`; a pointer that may be NULL is an option. The IV is given by its length.
pub record Request : Type 0 where
  pub iv_length : Option ℕ
  pub crypt_byte_block : ℕ
  pub skip_byte_block : ℕ
  pub subsamples : Option (List Subsample)
  pub context : ℕ
  pub out : Option Buffer
  pub input : Option Buffer

-- What is read of a `cipher_t`: `cipher_get_mode`, `cipher_get_key_rights` and
-- `cipher_get_algorithm`.
pub record CipherView : Type 0 where
  pub mode : ℕ
  pub rights : Option Rights
  pub algorithm : ℕ

pub record Environment : Type 0 where
  pub acquire_cipher : ℕ → Status × Option CipherView
  pub acquire_svp : ℕ → Status × Option SvpBuffer
  pub now : ℕ
  pub outputs : Option VideoOutputState

abbrev pub is_clear : Buffer → Bool
is_clear (clear_buffer address count offset) = true
is_clear _ = false

abbrev pub is_known : Buffer → Bool
is_known other_buffer = false
is_known _ = true

abbrev pub is_some {ℓ} : {A : Type ℓ} → Option A → Bool
is_some none = false
is_some (some a) = true

-- `convert_buffer` has set the pointer to the SVP.
abbrev pub holds_svp : Environment → Buffer → Bool
holds_svp env (svp_buffer handle offset) = is_some (env.acquire_svp handle).1
holds_svp env _ = false

-- The status, and which of the input SVP, the output SVP and the cipher are released at the end.
pub record Verified : Type 0 where
  pub status : Status
  pub releases_input : Bool
  pub releases_out : Bool
  pub releases_cipher : Bool

-- The comparison of two ranges of `count` bytes; the sums are those of pointers.
abbrev pub overlap : ℕ → ℕ → ℕ → Bool
overlap out input count =
    let out_end = (out + count) % size_mod in
    let input_end = (input + count) % size_mod in
    (leb input out && leb out input_end)
    || (leb input out_end && leb out_end input_end)
    || (leb out input && leb input out_end)
    || (leb out input_end && leb input_end out_end)

abbrev pub bytes_of : Option ℕ → ℕ
bytes_of none = 0
bytes_of (some p) = p

abbrev buffers_released : Status → Bool → Bool → Verified
buffers_released s input out = record {
  status = s;
  releases_input = input;
  releases_out = out;
  releases_cipher = true;
}

-- The end of `verify_sample`, from the length on.
unfoldable pub verify_buffers : Environment → List Subsample → Buffer → Buffer → Verified
verify_buffers env ss out input =
    let required = required_length ss in
    let (out_status, out_bytes) =
      convert_buffer true true (some out) required true true env.acquire_svp in
    let (input_status, input_bytes) =
      convert_buffer true true (some input) required true true env.acquire_svp in
    if required == cenc_overflow
    then buffers_released invalid_parameter false false
    else if not (is_ok out_status)
    then buffers_released out_status false (holds_svp env out)
    else if not (is_ok input_status)
    then buffers_released input_status (holds_svp env input) (holds_svp env out)
    else if overlap (bytes_of out_bytes) (bytes_of input_bytes) required
    then buffers_released invalid_parameter (holds_svp env input) (holds_svp env out)
    else buffers_released status_ok (holds_svp env input) (holds_svp env out)

-- The checks of the cipher and of the types of the buffers.
unfoldable pub verify_cipher : Environment → CipherView → Buffer → Buffer → Status
verify_cipher env cipher out input =
    checks
      ((not (cipher.mode == CipherMode.decrypt_mode), invalid_parameter)
        ∷ (not (is_some cipher.rights), internal_error)
        ∷ (
          not (allowed_decrypt cipher.rights env.now env.outputs KeyType.symmetric),
          operation_not_allowed,
        )
        ∷ (not (is_known out), invalid_parameter)
        ∷ (not (is_known input), invalid_parameter)
        ∷ (
          not (cipher.algorithm == CipherAlgorithm.aes_ctr)
              && not (cipher.algorithm == CipherAlgorithm.aes_cbc),
          invalid_parameter,
        )
        ∷ (is_clear out && not (is_clear input), invalid_parameter)
        ∷ (is_clear out && not (allowed_clear cipher.rights), operation_not_allowed)
        ∷ [])
      status_ok

abbrev none_released : Status → Bool → Verified
none_released s cipher = record {
  status = s;
  releases_input = false;
  releases_out = false;
  releases_cipher = cipher;
}

-- What follows the acquisition of the cipher; a cipher that is handed out is released, also after an
-- error.
unfoldable pub use_acquired :
    Environment → Status × Option CipherView → List Subsample → Buffer → Buffer → Verified
use_acquired env (s, none) ss out input = none_released invalid_parameter false
use_acquired env (s, some cipher) ss out input =
    let checked = verify_cipher env cipher out input in
    if not (is_ok s)
    then none_released invalid_parameter true
    else if not (is_ok checked)
    then none_released checked true
    else verify_buffers env ss out input

-- A missing pointer to a buffer is one of the checks below.
unfoldable pub with_buffers :
    Environment → Request → List Subsample → Option Buffer → Option Buffer → Verified
with_buffers env r ss (some o) (some i) = use_acquired env (env.acquire_cipher r.context) ss o i
with_buffers env r ss none i = none_released null_parameter false
with_buffers env r ss (some o) none = none_released null_parameter false

-- The checks of `verify_sample` behind that of the subsamples' pointer.
unfoldable pub verify_given : Environment → Request → List Subsample → Verified
verify_given env r ss =
    let checked =
      checks
        ((ltb (length ss) 1, invalid_parameter)
          ∷ (not (is_some r.out), null_parameter)
          ∷ (not (is_some r.input), null_parameter)
          ∷ (r.crypt_byte_block == 0 && not (r.skip_byte_block == 0), invalid_parameter)
          ∷ [])
        status_ok in
    if not (is_ok checked) then none_released checked false else with_buffers env r ss r.out r.input

-- The checks of `verify_sample` on its two first pointers.
unfoldable pub from_pointers : Environment → Request → Option ℕ → Option (List Subsample) → Verified
from_pointers env r none ss = none_released null_parameter false
from_pointers env r (some n) none =
    none_released (if n == aes_block_size then null_parameter else invalid_parameter) false
from_pointers env r (some n) (some ss) =
    if n == aes_block_size then verify_given env r ss else none_released invalid_parameter false

-- `verify_sample`
unfoldable pub verify_sample : Environment → Request → Verified
verify_sample env r = from_pointers env r r.iv_length r.subsamples

-- The loop that verifies, and the loop that processes: each stops at the first bad status.
module _ {A : Type 0} where
  unfoldable pub verify_all : (A → Status) → List A → Status
  verify_all verify [] = status_ok
  verify_all verify (x ∷ xs) =
      let rest = verify_all verify xs in if not (is_ok (verify x)) then verify x else rest

module _ {A S : Type 0} where
  unfoldable pub process_all : (A → S → Status × S) → List A → S → Status × S
  process_all process [] st = (status_ok, st)
  process_all process (x ∷ xs) st =
      let (s, st') = process x st in
      let rest = process_all process xs st' in if not (is_ok s) then (s, st') else rest

  -- `ta_sa_process_common_encryption`: the Booleans say whether the caller is given and what
  -- `client_store_acquire` returns; `verify` is `verify_sample` and `process` `cenc_process_sample`.
  -- The release of the client at the end has no effect here.
  unfoldable pub process_request :
      (A → Status) → (A → S → Status × S) → Bool → Option (List A) → Status → S → Status × S
  unfolding verify_all process_all
  process_request verify process caller_given none acquired st = (null_parameter, st)
  process_request verify process caller_given (some samples) acquired st =
      let verified = verify_all verify samples in
      if not caller_given
      then (null_parameter, st)
      else if not (is_ok acquired)
      then (acquired, st)
      else if not (is_ok verified)
      then (verified, st)
      else process_all process samples st
