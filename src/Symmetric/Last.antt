-- ===== src/Symmetric/Last.antt =====
-- taimpl/src/internal/symmetric.c: the last update of a context, and the tag of an authenticated
-- cipher. The calls of EVP are an argument, and pointers that may be NULL are left to the callers.
use tasecureapi.Prelude.{
  ℕ, ◌+◌, ◌-◌, ◌%◌, ◌^◌, Bool, true, false, ◌&&◌, ◌||◌, not, Option, none, some, ltb, ◌==◌,
  if◌then◌else◌, Status, status_ok, invalid_parameter, internal_error,
}
use tasecureapi.Prelude.CipherAlgorithm
use tasecureapi.Prelude.CipherMode
use tasecureapi.Pad.{aes_block_size}
use tasecureapi.Symmetric.{EvpUpdate, EvpCalls, SymmetricContext, int_of_size, size_of_int}

-- `EVP_DecryptFinal` and `EVP_EncryptFinal`, and `EVP_CIPHER_CTX_ctrl` with EVP_CTRL_AEAD_GET_TAG, which
-- gives 16 bytes, and with EVP_CTRL_AEAD_SET_TAG, of bytes by their index and of an `int`.
pub record EvpFinals (C : Type 0) : Type 0 where
  pub decrypt_final : C → EvpUpdate C
  pub encrypt_final : C → EvpUpdate C
  pub get_tag : C → Bool × (ℕ → ℕ)
  pub set_tag : C → (ℕ → ℕ) → ℕ → Bool × C

-- What a last update gives: its status, `*out_length` if it was written, the context afterwards, and
-- how many bytes were written, with the bytes.
pub record LastUpdated (C : Type 0) : Type 0 where
  pub status : Status
  pub out_length : Option ℕ
  pub context : SymmetricContext C
  pub written : ℕ
  pub bytes : ℕ → ℕ

-- The bytes that an `int` counts.
abbrev pub count_of_int : ℕ → ℕ
count_of_int n = if ltb n (2 ^ 31) then n else 0

-- `MAX_GCM_TAG_LENGTH` and `CHACHA20_TAG_LENGTH`
abbrev pub max_gcm_tag_length : ℕ
max_gcm_tag_length = 16

abbrev pub chacha20_tag_length : ℕ
chacha20_tag_length = 16

abbrev is_pkcs7 : ℕ → Bool
is_pkcs7 a = a == CipherAlgorithm.aes_ecb_pkcs7 || a == CipherAlgorithm.aes_cbc_pkcs7

abbrev without_last : ℕ → Bool
without_last a = a == CipherAlgorithm.aes_ecb || a == CipherAlgorithm.aes_cbc

module _ {C : Type 0} where
  abbrev refused : SymmetricContext C → LastUpdated C
  refused context = record {
    status = invalid_parameter;
    out_length = none;
    context = context;
    written = 0;
    bytes = λ i. 0;
  }

  -- The end of both functions, from what the update of EVP gives. The final bytes follow those of the
  -- update.
  abbrev pub finished : SymmetricContext C → (C → EvpUpdate C) → EvpUpdate C → LastUpdated C
  finished context final u =
      let f = final u.context in
      let updated = count_of_int u.length in
      if not u.ok
      then record {
        status = internal_error;
        out_length = none;
        context = record context { evp_cipher = u.context };
        written = updated;
        bytes = u.bytes;
      }
      else record {
        status = if f.ok then status_ok else internal_error;
        out_length = if f.ok then some (size_of_int ((u.length + f.length) % 2 ^ 32)) else none;
        context = record context { evp_cipher = f.context };
        written = updated + count_of_int f.length;
        bytes = λ i. if ltb i updated then u.bytes i else f.bytes (i - updated);
      }

module _ {C : Type 0} (calls : EvpCalls C) (finals : EvpFinals C) where
  -- `symmetric_context_encrypt_last`
  unfoldable pub context_encrypt_last : SymmetricContext C → (ℕ → ℕ) → ℕ → LastUpdated C
  context_encrypt_last context from count =
      let a = context.cipher_algorithm in
      if not (context.cipher_mode == CipherMode.encrypt_mode)
      then refused context
      else if without_last a
      then refused context
      else if is_pkcs7 a && ltb aes_block_size count
      then refused context
      else finished context finals.encrypt_final
          (calls.encrypt_update context.evp_cipher from (int_of_size count))

  -- `symmetric_context_decrypt_last`
  unfoldable pub context_decrypt_last : SymmetricContext C → (ℕ → ℕ) → ℕ → LastUpdated C
  context_decrypt_last context from count =
      let a = context.cipher_algorithm in
      if not (context.cipher_mode == CipherMode.decrypt_mode)
      then refused context
      else if without_last a
      then refused context
      else if not (a == CipherAlgorithm.chacha20_poly1305) && ltb aes_block_size count
      then refused context
      else finished context finals.decrypt_final
          (calls.decrypt_update context.evp_cipher from (int_of_size count))

-- The algorithm has a tag, and one of this length.
abbrev is_tag : ℕ → ℕ → Bool
is_tag a count =
    if not (a == CipherAlgorithm.aes_gcm) && not (a == CipherAlgorithm.chacha20_poly1305)
    then false
    else if a == CipherAlgorithm.aes_gcm && ltb max_gcm_tag_length count
    then false
    else if a == CipherAlgorithm.chacha20_poly1305 && not (count == chacha20_tag_length)
    then false
    else true

module _ {C : Type 0} (finals : EvpFinals C) where
  -- `symmetric_context_get_tag`: the status and the bytes of the tag if they are written.
  unfoldable pub context_get_tag : SymmetricContext C → ℕ → Status × Option (ℕ → ℕ)
  context_get_tag context count =
      let (ok, tag) = finals.get_tag context.evp_cipher in
      if not (is_tag context.cipher_algorithm count)
        || not (context.cipher_mode == CipherMode.encrypt_mode)
      then (invalid_parameter, none)
      else if not ok
      then (internal_error, none)
      else (status_ok, some tag)

  -- `symmetric_context_set_tag`
  unfoldable pub context_set_tag : SymmetricContext C → (ℕ → ℕ) → ℕ → Status × SymmetricContext C
  context_set_tag context tag count =
      let (ok, c) = finals.set_tag context.evp_cipher tag (int_of_size count) in
      if not (is_tag context.cipher_algorithm count)
        || not (context.cipher_mode == CipherMode.decrypt_mode)
      then (invalid_parameter, context)
      else (if ok then status_ok else internal_error, record context { evp_cipher = c })
