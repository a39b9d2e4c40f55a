-- ===== src/CipherProcess/Handlers.antt =====
-- taimpl/src/ta_sa_crypto_cipher_process.c: the functions for each kind of cipher. A pointer is its
-- address, and 0 is NULL; the caller, the cipher and `bytes_to_process` are given by the command.
use tasecureapi.Prelude.{
  ℕ, ◌+◌, ◌*◌, ◌%◌, Bool, ◌&&◌, ◌||◌, not, Option, none, some, List, [], ◌∷◌, ◌==◌, if◌then◌else◌,
  checks, Status, status_ok, null_parameter, invalid_parameter, internal_error,
  operation_not_allowed, verification_failed,
}
use tasecureapi.Prelude.CipherAlgorithm
use tasecureapi.Prelude.CipherMode
use tasecureapi.Prelude.KeyType
use tasecureapi.Memory.{size_mod}
use tasecureapi.Pad.{aes_block_size}
use tasecureapi.Rights.{allowed_encrypt, allowed_decrypt}
use tasecureapi.Svp.{is_ok}
use tasecureapi.CipherStore.{is_symmetric}
use tasecureapi.Cenc.Verify.{is_some}
use tasecureapi.Symmetric.{SymmetricContext, context_encrypt, context_decrypt}
use tasecureapi.CipherProcess.Types.{
  Cipher, Calls, Environment, Call, Handled, input_of, returned, after_update, after_decrypted,
}

abbrev pub in_blocks : ℕ → Bool
in_blocks a =
    a == CipherAlgorithm.aes_cbc
    || a == CipherAlgorithm.aes_cbc_pkcs7
    || a == CipherAlgorithm.aes_ecb
    || a == CipherAlgorithm.aes_ecb_pkcs7

abbrev pub is_padded : ℕ → Bool
is_padded a = a == CipherAlgorithm.aes_cbc_pkcs7 || a == CipherAlgorithm.aes_ecb_pkcs7

-- `get_required_length`
unfoldable pub required_length : ℕ → ℕ → ℕ → Bool → ℕ
required_length algorithm key_size count apply_padding =
    if is_padded algorithm
    then (count + (if apply_padding then aes_block_size else 0)) % size_mod
    else if is_symmetric algorithm
    then count
    else if algorithm == CipherAlgorithm.rsa_pkcs1v15
        || algorithm == CipherAlgorithm.rsa_oaep
        || algorithm == CipherAlgorithm.ec_elgamal
    then key_size
    else 0

module _ {C : Type 0} (env : Environment) (cipher : Cipher C) where
  -- The mode, and the right to it.
  abbrev pub mode_status : Status
  mode_status =
      if cipher.mode == CipherMode.encrypt_mode
      then if allowed_encrypt cipher.rights env.now env.outputs KeyType.symmetric
        then status_ok
        else operation_not_allowed
      else if cipher.mode == CipherMode.decrypt_mode
      then if allowed_decrypt cipher.rights env.now env.outputs KeyType.symmetric
        then status_ok
        else operation_not_allowed
      else internal_error

  abbrev pub symmetric_guards : Call → List (Bool × Status)
  symmetric_guards call =
      (in_blocks cipher.algorithm && not (call.count % aes_block_size == 0), invalid_parameter)
      ∷ (call.out == 0, null_parameter)
      ∷ (call.input == 0, null_parameter)
      ∷ (not (is_some cipher.context), null_parameter)
      ∷ (not (is_some cipher.rights), internal_error)
      ∷ []

  -- The checks of the functions for asymmetric keys, of the number of bytes that the input must have
  -- and of the type of the key.
  abbrev pub asymmetric_guards : Call → ℕ → ℕ → List (Bool × Status)
  asymmetric_guards call expected key_type =
      (cipher.key_size == 0, null_parameter)
      ∷ (call.out == 0, null_parameter)
      ∷ (not (call.count == expected), invalid_parameter)
      ∷ (call.input == 0, null_parameter)
      ∷ (not (cipher.mode == CipherMode.decrypt_mode), invalid_parameter)
      ∷ (not (is_some cipher.rights), internal_error)
      ∷ (not (allowed_decrypt cipher.rights env.now env.outputs key_type), operation_not_allowed)
      ∷ (cipher.stored_key == 0, null_parameter)
      ∷ []

module _ {C : Type 0} (calls : Calls C) (env : Environment) (cipher : Cipher C) where
  -- A missing context is one of the checks in front.
  abbrev pub update : Call → Option (SymmetricContext C) → Handled C
  update call none = returned cipher call null_parameter
  update call (some context) =
      if cipher.mode == CipherMode.encrypt_mode
      then after_update cipher call (context_encrypt calls.evp context (input_of call) call.count)
      else after_update cipher call (context_decrypt calls.evp context (input_of call) call.count)

  -- `ta_sa_crypto_cipher_process_symmetric`
  unfoldable pub process_symmetric : Call → Handled C
  process_symmetric call =
      let checked = checks (symmetric_guards env cipher call) (mode_status env cipher) in
      let updated = update call cipher.context in
      if is_ok checked then updated else returned cipher call checked

  -- `ta_sa_crypto_cipher_process_rsa_pkcs1v15`
  unfoldable pub process_rsa_pkcs1v15 : Call → Handled C
  process_rsa_pkcs1v15 call =
      let checked =
        checks (asymmetric_guards env cipher call cipher.key_size KeyType.rsa) status_ok in
      let decrypted =
        calls.asymmetric.rsa_decrypt_pkcs1v15 call.out_length cipher.stored_key (input_of call)
          call.count in
      if is_ok checked
      then after_decrypted cipher call (λ s. s) decrypted
      else returned cipher call checked

  -- `ta_sa_crypto_cipher_process_rsa_oaep`
  unfoldable pub process_rsa_oaep : Call → Handled C
  process_rsa_oaep call =
      let checked =
        checks (asymmetric_guards env cipher call cipher.key_size KeyType.rsa) status_ok in
      let decrypted =
        calls.asymmetric.rsa_decrypt_oaep call.out_length cipher.stored_key cipher.oaep
          (input_of call) call.count in
      if is_ok checked
      then after_decrypted cipher call (λ s. s) decrypted
      else returned cipher call checked

  -- The status that stands for a failed decryption.
  abbrev pub verified : Status → Status
  verified s = if is_ok s then status_ok else verification_failed

  -- `ta_sa_crypto_cipher_process_ec_elgamal`
  unfoldable pub process_ec_elgamal : Call → Handled C
  process_ec_elgamal call =
      let checked =
        checks (asymmetric_guards env cipher call (cipher.key_size * 4 % size_mod) KeyType.ec)
          status_ok in
      let decrypted =
        calls.asymmetric.ec_decrypt_elgamal call.count cipher.stored_key (input_of call)
          call.count in
      if is_ok checked
      then after_decrypted cipher call verified decrypted
      else returned cipher call checked

  -- The choice of `ta_sa_crypto_cipher_process`
  unfoldable pub process_algorithm : Call → Handled C
  unfolding process_symmetric process_rsa_pkcs1v15 process_rsa_oaep process_ec_elgamal
  process_algorithm call =
      if is_symmetric cipher.algorithm
      then process_symmetric call
      else if cipher.algorithm == CipherAlgorithm.rsa_pkcs1v15
      then process_rsa_pkcs1v15 call
      else if cipher.algorithm == CipherAlgorithm.rsa_oaep
      then process_rsa_oaep call
      else if cipher.algorithm == CipherAlgorithm.ec_elgamal
      then process_ec_elgamal call
      else returned cipher call invalid_parameter
