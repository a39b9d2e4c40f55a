-- ===== src/Examples/Ciphers.antt =====
-- Ciphers that are made for a symmetric key and for an RSA key.
use tasecureapi.Prelude.{
  ℕ, ◌≡◌, refl, ◌⊎◌, true, false, Option, none, some, [], ◌∷◌, arith, Status, status_ok,
}
use tasecureapi.Prelude.CipherAlgorithm
use tasecureapi.Prelude.CipherMode
use tasecureapi.Prelude.KeyType
use tasecureapi.Prelude.Bits.{test_bit}
use tasecureapi.Rights.{
  allowed_decrypt, allowed_time, allowed_video_output_state, validate_video_output_state, bit_test,
}
use tasecureapi.KeySize.{supports_aes, supports_rsa, valid_aes_size, valid_rsa_size}
use tasecureapi.Slots.{allocate, allocate_from, ffs, ffs_from}
use tasecureapi.Svp.{is_ok}
use tasecureapi.ObjectStore.{add, add_locked}
use tasecureapi.Symmetric.{symmetric_verify_cipher}
use tasecureapi.CipherStore.{Ciphers, place, add_symmetric_context, add_asymmetric_key}
use tasecureapi.CipherInit.Algorithms.{
  all_given, Environment, StoredKey, Parameters, start_symmetric, init_aes_ctr,
}
use tasecureapi.CipherInit.{init_algorithm, init_with_key, with_unwrapped, cipher_init, key_allowed}
use tasecureapi.CipherInit.Fits.{Fits}
use tasecureapi.CipherInit.Allowed.{Permitted, cipher_init_allowed}
use tasecureapi.CipherInit.Outcome.{Taken}
use tasecureapi.CipherInit.Ownership.{init_with_key-owned}
use tasecureapi.CipherInit.Oaep.{Kept, oaep-freed}
use tasecureapi.Examples.Stores.{alice, fresh, fresh-IsValid}
use tasecureapi.Examples.Samples.{rights, outputs}

abbrev env : Environment
env = record {
  pointers = all_given;
  old_openssl = false;
  created = 5;
  alloc = some 9;
  add_locks = true;
  acquire_locks = true;
  cipher_locks = true;
  label_allocated = false;
  release_locks = true;
  now = 150;
  outputs = some outputs;
}

abbrev no_ciphers : Ciphers
no_ciphers = record { store = fresh; at = λ a. none; freed_contexts = []; freed_keys = [] }

abbrev aes_key : StoredKey
aes_key = record {
  address = 3;
  key_type = KeyType.symmetric;
  size = 16;
  curve = 0;
  rights = rights;
}

abbrev rsa_key : StoredKey
rsa_key = record { address = 4; key_type = KeyType.rsa; size = 256; curve = 0; rights = rights }

abbrev parameters : Parameters
parameters = record {
  as_iv = some (record { iv_given = true; iv_length = 16 });
  as_aead = none;
  as_chacha20 = none;
  as_oaep = some (record {
    digest_algorithm = 1;
    mgf1_digest_algorithm = 1;
    label = some (1 ∷ 2 ∷ []);
    label_length = 2;
  });
}

starts :
    (cipher_init env
      (some alice)
      true
      CipherAlgorithm.aes_ctr
      CipherMode.decrypt_mode
      status_ok
      (status_ok, some aes_key)
      parameters
      no_ciphers).0
    ≡ status_ok
unfolding cipher_init with_unwrapped init_with_key init_algorithm init_aes_ctr start_symmetric
    symmetric_verify_cipher add_symmetric_context place add add_locked allocate allocate_from ffs
    ffs_from test_bit supports_aes valid_aes_size allowed_decrypt allowed_time
    allowed_video_output_state validate_video_output_state bit_test
starts = refl

cipher_init_allowed_example :
    (key : StoredKey) × (◌≡◌ {A = Status × Option StoredKey}
      (status_ok, some aes_key)
      (status_ok, some key))
    × Permitted env CipherMode.decrypt_mode key
    × Fits CipherAlgorithm.aes_ctr CipherMode.decrypt_mode key
cipher_init_allowed_example =
    cipher_init_allowed env (some alice) true CipherAlgorithm.aes_ctr CipherMode.decrypt_mode
      status_ok (status_ok, some aes_key) parameters no_ciphers starts

init_with_key-owned_example :
    let r =
      init_with_key env alice CipherMode.decrypt_mode aes_key no_ciphers CipherAlgorithm.aes_ctr
        parameters in
    ((r.0 ≡ status_ok) × Taken no_ciphers alice 3 r.1 r.2)
    ⊎ ((is_ok r.0 ≡ false) × (r.2.at ≡ no_ciphers.at) × (r.2.freed_keys ≡ 3 ∷ []))
init_with_key-owned_example =
    init_with_key-owned env alice CipherMode.decrypt_mode aes_key no_ciphers fresh-IsValid
      (λ e. omega (arith, e)) CipherAlgorithm.aes_ctr parameters (λ e. omega (arith, e))

adds_rsa :
    (add_asymmetric_key
      (some 9)
      true
      CipherAlgorithm.rsa_oaep
      CipherMode.decrypt_mode
      4
      alice
      no_ciphers).0
    ≡ status_ok
unfolding add_asymmetric_key place add add_locked allocate allocate_from ffs ffs_from test_bit
adds_rsa = refl

rsa_allowed : key_allowed env alice CipherMode.decrypt_mode rsa_key no_ciphers ≡ true
unfolding allowed_decrypt allowed_time bit_test
rsa_allowed = refl

rsa_fits : supports_rsa KeyType.rsa 256 ≡ true
unfolding supports_rsa valid_rsa_size
rsa_fits = refl

oaep-freed_example :
    let r =
      init_with_key env alice CipherMode.decrypt_mode rsa_key no_ciphers CipherAlgorithm.rsa_oaep
        parameters in
    (is_ok r.0 ≡ false) × (address : ℕ) × Kept 4 address (4 ∷ []) r.2
oaep-freed_example =
    oaep-freed env alice CipherMode.decrypt_mode rsa_key no_ciphers parameters
      (record {
        digest_algorithm = 1;
        mgf1_digest_algorithm = 1;
        label = some (1 ∷ 2 ∷ []);
        label_length = 2;
      })
      (1 ∷ 2 ∷ []) fresh-IsValid (λ e. omega (arith, e)) refl refl refl refl rsa_allowed rsa_fits
      refl adds_rsa
