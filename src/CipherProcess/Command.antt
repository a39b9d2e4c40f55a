-- ===== src/CipherProcess/Command.antt =====
-- taimpl/src/ta_sa_crypto_cipher_process.c and taimpl/src/ta_sa_crypto_cipher_process_last.c: the two
-- commands. The structures of the two buffers are different ones.
use tasecureapi.Prelude.{
  ℕ, Bool, true, false, ◌&&◌, ◌||◌, not, Option, none, some, List, [], ◌∷◌, ◌==◌, if◌then◌else◌,
  checks, Status, status_ok, null_parameter, invalid_parameter, internal_error,
  operation_not_allowed,
}
use tasecureapi.Prelude.CipherAlgorithm
use tasecureapi.Prelude.CipherMode
use tasecureapi.Rights.{allowed_clear}
use tasecureapi.Svp.{Memory, is_ok}
use tasecureapi.Buffer.{Buffer, svp_buffer, convert_buffer}
use tasecureapi.Cenc.Verify.{is_clear, is_known, is_some, bytes_of}
use tasecureapi.Cenc.Process.{moved}
use tasecureapi.CipherProcess.Types.{Cipher, Calls, Environment, Call, Handled}
use tasecureapi.CipherProcess.Handlers.{process_algorithm}
use tasecureapi.CipherProcess.Handlers
use tasecureapi.CipherProcess.Last.{EndParameters, last_algorithm}
use tasecureapi.CipherProcess.Last

-- What a command holds until it releases it: a reference to the client, the cipher, and an SVP by its
-- handle.
pub data Resource : Type 0 where
  client_reference : Resource
  cipher_lock : Resource
  svp_lock : ℕ → Resource

pub data Event : Type 0 where
  acquired : Resource → Event
  released : Resource → Event

-- The arguments that a command writes to: `out`, `in` and `bytes_to_process`.
pub record Request : Type 0 where
  pub out : Option Buffer
  pub input : Option Buffer
  pub count : Option ℕ

-- What a command leaves: its status, its arguments, the memory, the cipher if it got one, and what it
-- acquired and released, in this order.
pub record Outcome (C : Type 0) : Type 0 where
  pub status : Status
  pub request : Request
  pub memory : Memory
  pub cipher : Option (Cipher C)
  pub events : List Event

-- The handle of the SVP that `convert_buffer` stores for a buffer; none is NULL.
abbrev pub svp_of : Environment → Buffer → Option ℕ
svp_of env (svp_buffer handle offset) =
    if is_some (env.acquire_svp handle).1 then some handle else none
svp_of env _ = none

abbrev pub acquired_svp : Option ℕ → List Event → List Event
acquired_svp none events = events
acquired_svp (some handle) events = acquired (svp_lock handle) ∷ events

abbrev pub released_svp : Option ℕ → List Event → List Event
released_svp none events = events
released_svp (some handle) events = released (svp_lock handle) ∷ events

-- The releases at the end of a command that has a cipher, for the pointers to the two SVPs.
abbrev pub release_all : Option ℕ → Option ℕ → List Event
release_all in_svp out_svp =
    released_svp in_svp
      (released_svp out_svp (released cipher_lock ∷ released client_reference ∷ []))

-- The algorithms that do not work on SVPs.
abbrev pub without_svp : ℕ → Bool
without_svp a =
    a == CipherAlgorithm.aes_gcm
    || a == CipherAlgorithm.chacha20_poly1305
    || a == CipherAlgorithm.rsa_oaep
    || a == CipherAlgorithm.rsa_pkcs1v15
    || a == CipherAlgorithm.ec_elgamal

-- The checks on the cipher and on buffers of a known type.
abbrev pub buffers_status : {C : Type 0} → Cipher C → Buffer → Buffer → Status
buffers_status cipher out input =
    checks
      ((
        (not (is_clear out) || not (is_clear input)) && without_svp cipher.algorithm,
        operation_not_allowed,
      )
        ∷ (is_clear out && not (is_clear input), invalid_parameter)
        ∷ (not (is_some cipher.rights), internal_error)
        ∷ (is_clear out && not (allowed_clear cipher.rights), operation_not_allowed)
        ∷ [])
      status_ok

-- Where the two commands differ: the length that the output must have, of the cipher, of
-- `*bytes_to_process` and of whether the output is NULL; the status of a failed acquisition of the
-- cipher; and the function for the cipher's algorithm.
pub record Variant (C : Type 0) : Type 0 where
  pub required : Cipher C → ℕ → Bool → ℕ
  pub refused : Status → Status
  pub handle : Cipher C → Call → Handled C

module _ {C : Type 0} (variant : Variant C) (env : Environment) where
  abbrev with_cipher_events : List Event → List Event
  with_cipher_events events = acquired client_reference ∷ acquired cipher_lock ∷ events

  -- An end without a call of the function for the algorithm.
  abbrev stopped : Cipher C → Request → Memory → Status → List Event → Outcome C
  stopped cipher request memory s events = record {
    status = s;
    request = request;
    memory = memory;
    cipher = some cipher;
    events = with_cipher_events events;
  }

  -- The end behind the function for the algorithm: the offsets go on if it succeeds.
  abbrev pub finished : Buffer → Buffer → ℕ → Handled C → List Event → Outcome C
  finished out input count handled events = record {
    status = handled.status;
    request =
        if is_ok handled.status
        then record {
          out = some (moved handled.count out);
          input = some (moved count input);
          count = some handled.count;
        }
        else record { out = some out; input = some input; count = some handled.count };
    memory = handled.memory;
    cipher = some handled.cipher;
    events = with_cipher_events events;
  }

  abbrev pub call_of : Cipher C → Memory → ℕ → Option ℕ → Option ℕ → Call
  call_of cipher memory count out_bytes in_bytes = record {
    out = bytes_of out_bytes;
    out_length = variant.required cipher count false;
    input = bytes_of in_bytes;
    count = count;
    memory = memory;
  }

  -- The conversion of the buffers, the function for the algorithm, and the releases.
  unfoldable pub with_buffers : Cipher C → Memory → ℕ → Buffer → Buffer → Outcome C
  with_buffers cipher memory count out input =
      let request : Request = record { out = some out; input = some input; count = some count } in
      let required = variant.required cipher count false in
      let (out_status, out_bytes) =
        convert_buffer true true (some out) required true true env.acquire_svp in
      let out_svp = svp_of env out in
      let (in_status, in_bytes) =
        convert_buffer true true (some input) count true true env.acquire_svp in
      let in_svp = svp_of env input in
      let handled = variant.handle cipher (call_of cipher memory count out_bytes in_bytes) in
      let both = acquired_svp out_svp (acquired_svp in_svp (release_all in_svp out_svp)) in
      if not (is_ok out_status)
      then stopped cipher request memory out_status
          (acquired_svp out_svp (release_all none out_svp))
      else if not (is_ok in_status)
      then stopped cipher request memory in_status both
      else finished out input count handled both

  -- A buffer of an unknown type makes the command return without its releases.
  unfoldable pub with_out : Cipher C → Memory → ℕ → Buffer → Buffer → Outcome C
  unfolding with_buffers
  with_out cipher memory count out input =
      let request : Request = record { out = some out; input = some input; count = some count } in
      let checked = buffers_status cipher out input in
      let converted = with_buffers cipher memory count out input in
      if not (is_known out) || not (is_known input)
      then stopped cipher request memory invalid_parameter []
      else if not (is_ok checked)
      then stopped cipher request memory checked (release_all none none)
      else converted

  -- What follows the acquisition of the cipher; without an output the required length is stored.
  unfoldable pub with_cipher : Cipher C → Memory → ℕ → Option Buffer → Buffer → Outcome C
  unfolding with_out
  with_cipher cipher memory count none input =
      stopped cipher
        (record {
          out = none;
          input = some input;
          count = some (variant.required cipher count true);
        })
        memory status_ok (release_all none none)
  with_cipher cipher memory count (some out) input = with_out cipher memory count out input

  -- An end without a cipher.
  abbrev pub without_cipher : Request → Memory → Status → List Event → Outcome C
  without_cipher request memory s events = record {
    status = s;
    request = request;
    memory = memory;
    cipher = none;
    events = events;
  }

  -- What `cipher_store_acquire_exclusive` hands out is released, also behind a bad status. A good status
  -- always comes with a cipher.
  unfoldable pub with_acquired :
      Status × Option (Cipher C) → Memory → ℕ → Option Buffer → Buffer → Outcome C
  unfolding with_cipher
  with_acquired (s, none) memory count out input =
      without_cipher (record { out = out; input = some input; count = some count }) memory
        (if is_ok s then internal_error else variant.refused s)
        (acquired client_reference ∷ released client_reference ∷ [])
  with_acquired (s, some cipher) memory count out input =
      let request : Request = record { out = out; input = some input; count = some count } in
      let used = with_cipher cipher memory count out input in
      if is_ok s
      then used
      else stopped cipher request memory (variant.refused s) (release_all none none)

  -- The whole command, with the status of `client_store_acquire` and what
  -- `cipher_store_acquire_exclusive` gives. The Boolean says whether the caller is given.
  unfoldable pub command : Bool → Request → Status → Status × Option (Cipher C) → Memory → Outcome C
  unfolding with_acquired
  command caller_given request client cipher memory =
      let refused = without_cipher request memory in
      if not caller_given then refused null_parameter [] else elim request.count [
        | none ↦ refused null_parameter []
        | some count ↦ elim request.input [
          | none ↦ refused null_parameter []
          | some input ↦
              let used = with_acquired cipher memory count request.out input in
              if is_ok client then used else refused client []
        ]
      ]

module _ {C : Type 0} (calls : Calls C) (env : Environment) where
  abbrev pub process_variant : Variant C
  process_variant = record {
    required = λ cipher count out_missing.
        Handlers.required_length cipher.algorithm cipher.key_size count
          (out_missing && cipher.mode == CipherMode.encrypt_mode);
    refused = λ s. invalid_parameter;
    handle = process_algorithm calls env;
  }

  abbrev pub last_variant : Option EndParameters → Variant C
  last_variant p = record {
    required = λ cipher count out_missing. Last.required_length cipher.algorithm count;
    refused = λ s. s;
    handle = λ cipher. last_algorithm calls env cipher p;
  }

  -- `ta_sa_crypto_cipher_process`
  unfoldable pub process : Bool → Request → Status → Status × Option (Cipher C) → Memory → Outcome C
  process = command process_variant env

  -- `ta_sa_crypto_cipher_process_last`
  unfoldable pub process_last :
      Option EndParameters
      → Bool
      → Request
      → Status
      → Status × Option (Cipher C)
      → Memory
      → Outcome C
  process_last p = command (last_variant p) env
