-- ===== src/Symmetric.antt =====
-- taimpl/src/internal/symmetric.c: the updates of a context and the setting of its IV. The calls of
-- EVP, of OpenSSL, are an argument. Pointers that may be NULL are left to the callers, which check them.
pub mod Last
use tasecureapi.Prelude.{
  ℕ, ◌+◌, ◌-◌, ◌%◌, ◌^◌, Bool, ◌&&◌, ◌||◌, not, ltb, ◌==◌, if◌then◌else◌, Status, status_ok,
  invalid_parameter, internal_error, operation_not_supported,
}
use tasecureapi.Prelude.CipherAlgorithm
use tasecureapi.Prelude.CipherMode
use tasecureapi.Pad.{aes_block_size}

-- What an update of EVP gives: whether it returns 1, the `int` of its length, the context afterwards
-- and the bytes that it writes.
pub record EvpUpdate (C : Type 0) : Type 0 where
  pub ok : Bool
  pub length : ℕ
  pub context : C
  pub bytes : ℕ → ℕ

-- `EVP_DecryptUpdate` and `EVP_EncryptUpdate` of bytes by their index and of an `int`, which is given by
-- its 32 bits, and `EVP_DecryptInit_ex` and `EVP_EncryptInit_ex` of the two halves of an IV.
pub record EvpCalls (C : Type 0) : Type 0 where
  pub decrypt_update : C → (ℕ → ℕ) → ℕ → EvpUpdate C
  pub encrypt_update : C → (ℕ → ℕ) → ℕ → EvpUpdate C
  pub decrypt_init : C → ℕ → ℕ → Bool × C
  pub encrypt_init : C → ℕ → ℕ → Bool × C

-- `symmetric_context_s`
pub record SymmetricContext (C : Type 0) : Type 0 where
  pub cipher_algorithm : ℕ
  pub cipher_mode : ℕ
  pub evp_cipher : C

-- What an update of a context gives: its status, the length that it stores, the context afterwards
-- and the bytes that it writes.
pub record Updated (C : Type 0) : Type 0 where
  pub status : Status
  pub length : ℕ
  pub context : SymmetricContext C
  pub bytes : ℕ → ℕ

-- The conversion of a `size_t` to `int` and back.
abbrev pub int_of_size : ℕ → ℕ
int_of_size n = n % 2 ^ 32

abbrev pub size_of_int : ℕ → ℕ
size_of_int n = if ltb n (2 ^ 31) then n else n + (2 ^ 64 - 2 ^ 32)

-- The algorithm works on whole blocks.
abbrev pub by_blocks : ℕ → Bool
by_blocks algorithm =
    not (algorithm == CipherAlgorithm.aes_ctr)
    && not (algorithm == CipherAlgorithm.aes_gcm)
    && not (algorithm == CipherAlgorithm.chacha20)
    && not (algorithm == CipherAlgorithm.chacha20_poly1305)

module _ {C : Type 0} (calls : EvpCalls C) where
  abbrev refused : SymmetricContext C → Updated C
  refused context = record {
    status = invalid_parameter;
    length = 0;
    context = context;
    bytes = λ i. 0;
  }

  abbrev updated : SymmetricContext C → EvpUpdate C → Updated C
  updated context u = record {
    status = if u.ok then status_ok else internal_error;
    length = size_of_int u.length;
    context = record context { evp_cipher = u.context };
    bytes = u.bytes;
  }

  -- `symmetric_context_decrypt`
  unfoldable pub context_decrypt : SymmetricContext C → (ℕ → ℕ) → ℕ → Updated C
  context_decrypt context from count =
      if not (context.cipher_mode == CipherMode.decrypt_mode)
      then refused context
      else if by_blocks context.cipher_algorithm && not (count % aes_block_size == 0)
      then refused context
      else updated context (calls.decrypt_update context.evp_cipher from (int_of_size count))

  -- `symmetric_context_encrypt`
  unfoldable pub context_encrypt : SymmetricContext C → (ℕ → ℕ) → ℕ → Updated C
  context_encrypt context from count =
      if not (context.cipher_mode == CipherMode.encrypt_mode)
      then refused context
      else if by_blocks context.cipher_algorithm && not (count % aes_block_size == 0)
      then refused context
      else updated context (calls.encrypt_update context.evp_cipher from (int_of_size count))

  abbrev with_init : SymmetricContext C → Bool × C → Status × SymmetricContext C
  with_init context (ok, c) =
      (if ok then status_ok else internal_error, record context { evp_cipher = c })

  -- `symmetric_context_set_iv`, of an IV of 16 bytes
  unfoldable pub context_set_iv : SymmetricContext C → ℕ → ℕ → Status × SymmetricContext C
  context_set_iv context nonce counter =
      let a = context.cipher_algorithm in
      if not (
        a == CipherAlgorithm.aes_cbc
        || a == CipherAlgorithm.aes_cbc_pkcs7
        || a == CipherAlgorithm.aes_ctr)
      then (invalid_parameter, context)
      else if context.cipher_mode == CipherMode.encrypt_mode
      then with_init context (calls.encrypt_init context.evp_cipher nonce counter)
      else if context.cipher_mode == CipherMode.decrypt_mode
      then with_init context (calls.decrypt_init context.evp_cipher nonce counter)
      else (invalid_parameter, context)

-- `symmetric_verify_cipher`; the Boolean says whether OpenSSL is older than 1.1.0, which has no
-- ChaCha20.
unfoldable pub symmetric_verify_cipher : Bool → ℕ → ℕ → Status
symmetric_verify_cipher old_openssl algorithm mode =
    if not (is_algorithm algorithm)
    then invalid_parameter
    else if not (mode == CipherMode.decrypt_mode) && not (mode == CipherMode.encrypt_mode)
    then invalid_parameter
    else if (algorithm == CipherAlgorithm.chacha20
          || algorithm == CipherAlgorithm.chacha20_poly1305)
        && old_openssl
    then operation_not_supported
    else status_ok
  where
    is_algorithm : ℕ → Bool
    is_algorithm a =
        a == CipherAlgorithm.aes_ecb
        || a == CipherAlgorithm.aes_ecb_pkcs7
        || a == CipherAlgorithm.aes_cbc
        || a == CipherAlgorithm.aes_cbc_pkcs7
        || a == CipherAlgorithm.aes_ctr
        || a == CipherAlgorithm.aes_gcm
        || a == CipherAlgorithm.rsa_pkcs1v15
        || a == CipherAlgorithm.rsa_oaep
        || a == CipherAlgorithm.ec_elgamal
        || a == CipherAlgorithm.chacha20
        || a == CipherAlgorithm.chacha20_poly1305
