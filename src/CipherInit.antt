-- ===== src/CipherInit.antt =====
-- taimpl/src/ta_sa_crypto_cipher_init.c: a cipher is made for a key and put into the store of ciphers.
-- The contexts that OpenSSL makes and the keys that the key store unwraps are arguments.
pub mod Algorithms
pub mod Fits
pub mod Allowed
pub mod Outcome
pub mod Ownership
pub mod Oaep
use tasecureapi.Prelude.{
  ℕ, ◌<◌, Bool, true, false, ◌&&◌, ◌||◌, not, Option, none, some, List, [], ◌∷◌, ltb, ◌==◌,
  if◌then◌else◌, checks, Status, status_ok, null_parameter, invalid_parameter, internal_error,
  invalid_key_type, operation_not_allowed, Uuid,
}
use tasecureapi.Prelude.CipherAlgorithm
use tasecureapi.Prelude.CipherMode
use tasecureapi.Pad.{aes_block_size}
use tasecureapi.Rights.{Rights, VideoOutputState, allowed_encrypt, allowed_decrypt}
use tasecureapi.KeySize.{supports_aes, supports_chacha20, supports_rsa, supports_ec}
use tasecureapi.KeySize.Curve
use tasecureapi.Slots.{slot_invalid}
use tasecureapi.Svp.{is_ok}
use tasecureapi.ObjectStore.{release}
use tasecureapi.Symmetric.{symmetric_verify_cipher}
use tasecureapi.CipherStore.{
  Ciphers, Result, free_pointer, store_or, is_mode, is_symmetric, is_asymmetric,
  add_symmetric_context, add_asymmetric_key, acquire_exclusive, set_oaep_parameters,
}
use tasecureapi.CipherInit.Algorithms.{
  StoredKey, IvParameters, AeadParameters, Chacha20Parameters, OaepParameters, Parameters, Pointers,
  all_given, Environment, guarded, iv_checks, aead_checks, chacha20_checks, first_pointers,
  key_status, aes_key, chacha20_key, rsa_key, decrypts, is_label, is_pcurve, init_aes_ecb,
  init_aes_cbc, init_aes_ctr, init_aes_gcm, init_chacha20, init_chacha20_poly1305,
  init_rsa_pkcs1v15, init_rsa_oaep, init_ec,
}

module _ (env : Environment) (caller : Uuid) (mode : ℕ) (key : StoredKey) (w : Ciphers) where
  -- The choice of `ta_sa_crypto_cipher_init`
  unfoldable pub init_algorithm : ℕ → Parameters → Result
  unfolding init_aes_ecb init_aes_cbc init_aes_ctr init_aes_gcm init_chacha20 init_chacha20_poly1305
      init_rsa_pkcs1v15 init_rsa_oaep init_ec
  init_algorithm a p =
      if a == CipherAlgorithm.aes_ecb || a == CipherAlgorithm.aes_ecb_pkcs7
      then init_aes_ecb env caller mode key w a
      else if a == CipherAlgorithm.aes_cbc || a == CipherAlgorithm.aes_cbc_pkcs7
      then init_aes_cbc env caller mode key w a p.as_iv
      else if a == CipherAlgorithm.aes_ctr
      then init_aes_ctr env caller mode key w p.as_iv
      else if a == CipherAlgorithm.aes_gcm
      then init_aes_gcm env caller mode key w p.as_aead
      else if a == CipherAlgorithm.chacha20
      then init_chacha20 env caller mode key w p.as_chacha20
      else if a == CipherAlgorithm.chacha20_poly1305
      then init_chacha20_poly1305 env caller mode key w p.as_aead
      else if a == CipherAlgorithm.rsa_pkcs1v15
      then init_rsa_pkcs1v15 env caller mode key w
      else if a == CipherAlgorithm.rsa_oaep
      then init_rsa_oaep env caller mode key w p.as_oaep
      else init_ec env caller mode key w

  abbrev pub key_allowed : Bool
  key_allowed =
      if mode == CipherMode.encrypt_mode
      then allowed_encrypt (some key.rights) env.now env.outputs key.key_type
      else allowed_decrypt (some key.rights) env.now env.outputs key.key_type

  -- A key that the store has not taken is freed.
  abbrev pub free_unless_ok : Result → Result
  free_unless_ok (s, handle, w') =
      if is_ok s
      then (s, handle, w')
      else (s, handle, record w' { freed_keys = free_pointer key.address w'.freed_keys })

  -- `ta_sa_crypto_cipher_init` with an unwrapped key
  unfoldable pub init_with_key : ℕ → Parameters → Result
  unfolding init_algorithm
  init_with_key a p =
      free_unless_ok
        (guarded (if key_allowed then status_ok else operation_not_allowed) w (init_algorithm a p))

-- `ta_sa_crypto_cipher_init` behind `key_store_unwrap`
unfoldable pub with_unwrapped :
    Environment → Uuid → ℕ → ℕ → Status × Option StoredKey → Parameters → Ciphers → Result
with_unwrapped env caller a mode (s, none) p w =
    (if is_ok s then null_parameter else s, slot_invalid, w)
with_unwrapped env caller a mode (s, some key) p w =
    if is_ok s
    then init_with_key (record env { pointers = all_given }) caller mode key w a p
    else (s, slot_invalid, record w { freed_keys = free_pointer key.address w.freed_keys })

abbrev pub is_algorithm : ℕ → Bool
is_algorithm a = is_symmetric a || is_asymmetric a

-- `ta_sa_crypto_cipher_init`, with what `client_store_acquire` and `key_store_unwrap` give
unfoldable pub cipher_init :
    Environment
    → Option Uuid
    → Bool
    → ℕ
    → ℕ
    → Status
    → Status × Option StoredKey
    → Parameters
    → Ciphers
    → Result
unfolding with_unwrapped
cipher_init env none context_given a mode client key p w = (null_parameter, slot_invalid, w)
cipher_init env (some caller) context_given a mode client key p w =
    let started = with_unwrapped env caller a mode key p w in
    let refused =
      checks
        ((not context_given, null_parameter)
          ∷ (not (is_algorithm a), invalid_parameter)
          ∷ (not (is_mode mode), invalid_parameter)
          ∷ [])
        status_ok in
    guarded refused w (guarded client w started)
