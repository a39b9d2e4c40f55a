-- ===== src/CipherProcess/Last.antt =====
-- taimpl/src/ta_sa_crypto_cipher_process_last.c: the functions for each kind of cipher. A pointer is
-- its address, and 0 is NULL; the caller, the cipher and `bytes_to_process` are given by the command.
use tasecureapi.Prelude.{
  ℕ, ◌+◌, ◌*◌, ◌/◌, ◌%◌, Bool, ◌&&◌, ◌||◌, not, Option, none, some, List, [], ◌∷◌, ltb, ◌==◌,
  if◌then◌else◌, checks, Status, status_ok, null_parameter, invalid_parameter, internal_error,
}
use tasecureapi.Prelude.CipherAlgorithm
use tasecureapi.Prelude.CipherMode
use tasecureapi.Memory.{size_mod}
use tasecureapi.Pad.{aes_block_size}
use tasecureapi.Svp.{is_ok, memcpy}
use tasecureapi.Cenc.Verify.{is_some}
use tasecureapi.Symmetric.{SymmetricContext}
use tasecureapi.Symmetric.Last.{
  LastUpdated, chacha20_tag_length, context_encrypt_last, context_decrypt_last, context_get_tag,
  context_set_tag,
}
use tasecureapi.CipherProcess.Types.{
  Cipher, Calls, Environment, Call, Handled, input_of, returned, after_last, length_or,
}
use tasecureapi.CipherProcess.Handlers.{is_padded, mode_status}

-- `PADDED_SIZE` of taimpl/include/internal/pad.h
abbrev pub padded_size : ℕ → ℕ
padded_size size = aes_block_size * (size / aes_block_size + 1) % size_mod

-- `sa_cipher_end_parameters_aes_gcm` and `sa_cipher_end_parameters_chacha20_poly1305`
pub record EndParameters : Type 0 where
  pub tag : ℕ
  pub tag_length : ℕ

-- `get_required_length`
unfoldable pub required_length : ℕ → ℕ → ℕ
required_length algorithm count =
    if is_padded algorithm
    then padded_size count
    else if algorithm == CipherAlgorithm.aes_ctr
        || algorithm == CipherAlgorithm.aes_gcm
        || algorithm == CipherAlgorithm.chacha20
        || algorithm == CipherAlgorithm.chacha20_poly1305
    then count
    else 0

abbrev tag_of : Option EndParameters → ℕ
tag_of none = 0
tag_of (some p) = p.tag

abbrev tag_length_of : Option EndParameters → ℕ
tag_length_of none = 0
tag_length_of (some p) = p.tag_length

module _ {C : Type 0} (env : Environment) (cipher : Cipher C) where
  abbrev pub pkcs7_guards : Call → List (Bool × Status)
  pkcs7_guards call =
      (call.input == 0, null_parameter)
      ∷ (ltb aes_block_size call.count, invalid_parameter)
      ∷ (not (is_some cipher.context), null_parameter)
      ∷ (not (is_some cipher.rights), internal_error)
      ∷ (
        cipher.mode == CipherMode.decrypt_mode && not (call.count % aes_block_size == 0),
        invalid_parameter,
      )
      ∷ []

  abbrev pub stream_guards : Call → List (Bool × Status)
  stream_guards call =
      (call.out == 0, null_parameter)
      ∷ (call.input == 0, null_parameter)
      ∷ (not (is_some cipher.context), null_parameter)
      ∷ (not (is_some cipher.rights), internal_error)
      ∷ []

  abbrev pub gcm_guards : Call → Option EndParameters → List (Bool × Status)
  gcm_guards call p =
      (ltb aes_block_size call.count, invalid_parameter)
      ∷ (call.out == 0, null_parameter)
      ∷ (call.input == 0, null_parameter)
      ∷ (not (is_some cipher.context), null_parameter)
      ∷ (not (is_some cipher.rights), internal_error)
      ∷ (tag_of p == 0, null_parameter)
      ∷ (ltb aes_block_size (tag_length_of p), invalid_parameter)
      ∷ []

  abbrev pub chacha20_poly1305_guards : Call → Option EndParameters → List (Bool × Status)
  chacha20_poly1305_guards call p =
      (call.out == 0, null_parameter)
      ∷ (call.input == 0, null_parameter)
      ∷ (not (is_some cipher.context), null_parameter)
      ∷ (not (is_some cipher.rights), internal_error)
      ∷ (tag_of p == 0, null_parameter)
      ∷ (not (tag_length_of p == chacha20_tag_length), invalid_parameter)
      ∷ []

module _ {C : Type 0} (calls : Calls C) (env : Environment) (cipher : Cipher C) where
  abbrev encrypts : Bool
  encrypts = cipher.mode == CipherMode.encrypt_mode

  -- The last update in the mode of the cipher.
  abbrev last_update : Call → SymmetricContext C → LastUpdated C
  last_update call context =
      if encrypts
      then context_encrypt_last calls.evp calls.finals context (input_of call) call.count
      else context_decrypt_last calls.evp calls.finals context (input_of call) call.count

  -- `*bytes_to_process` changes only if the update succeeds.
  abbrev stored_if_ok : Call → LastUpdated C → ℕ
  stored_if_ok call u = if is_ok u.status then length_or u.out_length call.count else call.count

  -- With padding the length is stored in any case after an encryption. A missing context is one of
  -- the checks in front.
  abbrev padded_update : Call → Option (SymmetricContext C) → Handled C
  padded_update call none = returned cipher call null_parameter
  padded_update call (some context) =
      let u = last_update call context in
      after_last cipher call
        (if encrypts
          then length_or u.out_length call.out_length
          else if is_ok u.status
          then length_or u.out_length call.out_length
          else call.count)
        u

  -- `ta_sa_crypto_cipher_process_last_aes_pkcs7`
  unfoldable pub last_aes_pkcs7 : Call → Handled C
  last_aes_pkcs7 call =
      let checked = checks (pkcs7_guards env cipher call) (mode_status env cipher) in
      let updated = padded_update call cipher.context in
      if call.out == 0
      then record (returned cipher call status_ok) { count = aes_block_size }
      else if is_ok checked
      then updated
      else returned cipher call checked

  abbrev stream_update : Call → Option (SymmetricContext C) → Handled C
  stream_update call none = returned cipher call null_parameter
  stream_update call (some context) =
      let u = last_update call context in after_last cipher call (stored_if_ok call u) u

  -- `ta_sa_crypto_cipher_process_last_aes_ctr` and `ta_sa_crypto_cipher_process_last_chacha20`, which are the
  -- same
  unfoldable pub last_stream : Call → Handled C
  last_stream call =
      let checked = checks (stream_guards env cipher call) (mode_status env cipher) in
      let updated = stream_update call cipher.context in
      if is_ok checked then updated else returned cipher call checked

  -- The tag is written behind an encryption that succeeds; without it the length is not stored.
  abbrev with_tag : Call → ℕ → ℕ → LastUpdated C → Handled C
  with_tag call tag tag_length u =
      let (s, bytes) = context_get_tag calls.finals u.context tag_length in
      let updated = after_last cipher call call.count u in
      if not (is_ok u.status) then updated else elim bytes [
        | none ↦ record updated { status = s }
        | some b ↦ record updated {
          count = length_or u.out_length call.count;
          memory = memcpy updated.memory tag b tag_length;
        }
      ]

  -- The tag is set in front of a decryption.
  abbrev behind_tag : Call → Status × SymmetricContext C → Handled C
  behind_tag call (s, context) =
      let u = last_update call context in
      if is_ok s
      then after_last cipher call (stored_if_ok call u) u
      else record (returned cipher call s) { cipher = record cipher { context = some context } }

  abbrev tagged_update : Call → ℕ → ℕ → Option (SymmetricContext C) → Handled C
  tagged_update call tag tag_length none = returned cipher call null_parameter
  tagged_update call tag tag_length (some context) =
      if encrypts
      then with_tag call tag tag_length (last_update call context)
      else behind_tag call
          (context_set_tag calls.finals context (λ i. call.memory (tag + i)) tag_length)

  -- `ta_sa_crypto_cipher_process_last_aes_gcm`
  unfoldable pub last_aes_gcm : Call → Option EndParameters → Handled C
  last_aes_gcm call p =
      let checked = checks (gcm_guards env cipher call p) (mode_status env cipher) in
      let updated = tagged_update call (tag_of p) (tag_length_of p) cipher.context in
      if is_ok checked then updated else returned cipher call checked

  -- `ta_sa_crypto_cipher_process_last_chacha20_poly1305`
  unfoldable pub last_chacha20_poly1305 : Call → Option EndParameters → Handled C
  last_chacha20_poly1305 call p =
      let checked = checks (chacha20_poly1305_guards env cipher call p) (mode_status env cipher) in
      let updated = tagged_update call (tag_of p) (tag_length_of p) cipher.context in
      if is_ok checked then updated else returned cipher call checked

  -- The choice of `ta_sa_crypto_cipher_process_last`
  unfoldable pub last_algorithm : Option EndParameters → Call → Handled C
  unfolding last_aes_pkcs7 last_stream last_aes_gcm last_chacha20_poly1305
  last_algorithm p call =
      if is_padded cipher.algorithm
      then last_aes_pkcs7 call
      else if cipher.algorithm == CipherAlgorithm.aes_ctr
          || cipher.algorithm == CipherAlgorithm.chacha20
      then last_stream call
      else if cipher.algorithm == CipherAlgorithm.aes_gcm
      then last_aes_gcm call p
      else if cipher.algorithm == CipherAlgorithm.chacha20_poly1305
      then last_chacha20_poly1305 call p
      else returned cipher call invalid_parameter
