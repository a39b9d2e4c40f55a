-- ===== src/CipherInit/Algorithms.antt =====
-- taimpl/src/ta_sa_crypto_cipher_init.c: the functions for the algorithms, each with its checks.
use tasecureapi.Prelude.{
  ℕ, Bool, true, false, ◌&&◌, ◌||◌, not, Option, none, some, List, [], ◌∷◌, ltb, ◌==◌,
  if◌then◌else◌, checks, Status, status_ok, null_parameter, invalid_parameter, internal_error,
  invalid_key_type, operation_not_allowed, Uuid,
}
use tasecureapi.Prelude.CipherAlgorithm
use tasecureapi.Prelude.CipherMode
use tasecureapi.Pad.{aes_block_size}
use tasecureapi.Rights.{Rights, VideoOutputState}
use tasecureapi.KeySize.{supports_aes, supports_chacha20, supports_rsa, supports_ec}
use tasecureapi.KeySize.Curve
use tasecureapi.Slots.{slot_invalid}
use tasecureapi.Svp.{is_ok}
use tasecureapi.ObjectStore.{release}
use tasecureapi.Symmetric.{symmetric_verify_cipher}
use tasecureapi.CipherStore.{
  Ciphers, Result, free_pointer, store_or, is_mode, add_symmetric_context, add_asymmetric_key,
  acquire_exclusive, set_oaep_parameters,
}

-- A key that `key_store_unwrap` gives: its address, and what its header says.
pub record StoredKey : Type 0 where
  pub address : ℕ
  pub key_type : ℕ
  pub size : ℕ
  pub curve : ℕ
  pub rights : Rights

-- `sa_cipher_parameters_aes_cbc` and `sa_cipher_parameters_aes_ctr`
pub record IvParameters : Type 0 where
  pub iv_given : Bool
  pub iv_length : ℕ

-- `sa_cipher_parameters_aes_gcm` and `sa_cipher_parameters_chacha20_poly1305`
pub record AeadParameters : Type 0 where
  pub nonce_given : Bool
  pub nonce_length : ℕ
  pub aad_given : Bool
  pub aad_length : ℕ

-- `sa_cipher_parameters_chacha20`
pub record Chacha20Parameters : Type 0 where
  pub counter_given : Bool
  pub counter_length : ℕ
  pub nonce_given : Bool
  pub nonce_length : ℕ

-- `sa_cipher_parameters_rsa_oaep`
pub record OaepParameters : Type 0 where
  pub digest_algorithm : ℕ
  pub mgf1_digest_algorithm : ℕ
  pub label : Option (List ℕ)
  pub label_length : ℕ

-- The untyped pointer to the parameters, as each of the types that it is cast to.
pub record Parameters : Type 0 where
  pub as_iv : Option IvParameters
  pub as_aead : Option AeadParameters
  pub as_chacha20 : Option Chacha20Parameters
  pub as_oaep : Option OaepParameters

-- Which pointers the functions for the algorithms are given. The header of a key is NULL only if the
-- key is.
pub record Pointers : Type 0 where
  pub context_given : Bool
  pub key_given : Bool
  pub client_given : Bool
  pub caller_given : Bool

abbrev pub all_given : Pointers
all_given = record {
  context_given = true;
  key_given = true;
  client_given = true;
  caller_given = true;
}

-- What the code does not decide: the address of the symmetric context that is made, where 0 is NULL,
-- the allocations and locks of the cipher store, the time and the video outputs.
pub record Environment : Type 0 where
  pub pointers : Pointers
  pub old_openssl : Bool
  pub created : ℕ
  pub alloc : Option ℕ
  pub add_locks : Bool
  pub acquire_locks : Bool
  pub cipher_locks : Bool
  pub label_allocated : Bool
  pub release_locks : Bool
  pub now : ℕ
  pub outputs : Option VideoOutputState

-- The early return of a bad status.
abbrev pub guarded : Status → Ciphers → Result → Result
guarded s w r = if not (is_ok s) then (s, slot_invalid, w) else r

abbrev pub iv_checks : Option IvParameters → List (Bool × Status)
iv_checks none = (true, null_parameter) ∷ []
iv_checks (some p) =
    (not p.iv_given, null_parameter) ∷ (not (p.iv_length == aes_block_size), invalid_parameter) ∷ []

-- The nonce of AES-GCM and that of ChaCha20-Poly1305 have 12 bytes.
abbrev pub aead_checks : Option AeadParameters → List (Bool × Status)
aead_checks none = (true, null_parameter) ∷ []
aead_checks (some p) =
    (not p.nonce_given, null_parameter)
    ∷ (not (p.nonce_length == 12), invalid_parameter)
    ∷ (not p.aad_given && ltb 0 p.aad_length, null_parameter)
    ∷ []

abbrev pub chacha20_checks : Option Chacha20Parameters → List (Bool × Status)
chacha20_checks none = (true, null_parameter) ∷ []
chacha20_checks (some p) =
    (not p.nonce_given, null_parameter)
    ∷ (not (p.nonce_length == 12), invalid_parameter)
    ∷ (not p.counter_given, null_parameter)
    ∷ (not (p.counter_length == 4), invalid_parameter)
    ∷ []

abbrev drop_context : Environment → Ciphers → Ciphers
drop_context env w = record w { freed_contexts = free_pointer env.created w.freed_contexts }

module _ (env : Environment) (caller : Uuid) (mode : ℕ) (key : StoredKey) (w : Ciphers) where
  -- What the functions for the symmetric algorithms do behind their checks. The Boolean says that
  -- success is told by the handle, as for AES-GCM and ChaCha20-Poly1305, and not by the status.
  unfoldable pub start_symmetric : Bool → ℕ → Result
  start_symmetric by_handle algorithm =
      let (s, handle, w') =
        add_symmetric_context env.alloc env.add_locks algorithm mode env.created key.address caller
          w in
      let failed = if by_handle then handle == slot_invalid else not (is_ok s) in
      guarded (symmetric_verify_cipher env.old_openssl algorithm mode) w (
        guarded (if is_mode mode then status_ok else invalid_parameter) w (
          guarded (if env.created == 0 then internal_error else status_ok) w
            (if failed then (s, handle, drop_context env w') else (status_ok, handle, w'))))

  abbrev pub first_pointers : Status
  first_pointers =
      if not env.pointers.context_given
      then null_parameter
      else if not env.pointers.key_given
      then null_parameter
      else status_ok

  -- The checks at the start of each function; the Boolean says that the key has the type and the size.
  abbrev pub key_status : Bool → Status
  key_status supported =
      if not env.pointers.context_given
      then null_parameter
      else if not env.pointers.key_given
      then null_parameter
      else if not supported
      then invalid_key_type
      else if not env.pointers.client_given
      then null_parameter
      else if not env.pointers.caller_given
      then null_parameter
      else status_ok

  abbrev pub aes_key : Status
  aes_key = key_status (supports_aes key.key_type key.size)

  -- `ta_sa_crypto_cipher_init_aes_ecb`
  unfoldable pub init_aes_ecb : ℕ → Result
  unfolding start_symmetric
  init_aes_ecb algorithm = guarded aes_key w (start_symmetric false algorithm)

  -- `ta_sa_crypto_cipher_init_aes_cbc`
  unfoldable pub init_aes_cbc : ℕ → Option IvParameters → Result
  unfolding start_symmetric
  init_aes_cbc algorithm p =
      guarded aes_key w
        (guarded (checks (iv_checks p) status_ok) w (start_symmetric false algorithm))

  -- `ta_sa_crypto_cipher_init_aes_ctr`
  unfoldable pub init_aes_ctr : Option IvParameters → Result
  unfolding start_symmetric
  init_aes_ctr p =
      guarded aes_key w
        (guarded (checks (iv_checks p) status_ok) w (start_symmetric false CipherAlgorithm.aes_ctr))

  -- `ta_sa_crypto_cipher_init_aes_gcm`
  unfoldable pub init_aes_gcm : Option AeadParameters → Result
  unfolding start_symmetric
  init_aes_gcm p =
      guarded aes_key w (
        guarded (checks (aead_checks p) status_ok) w (start_symmetric true CipherAlgorithm.aes_gcm))

  abbrev pub chacha20_key : Status
  chacha20_key = key_status (supports_chacha20 key.key_type key.size)

  -- `ta_sa_crypto_cipher_init_chacha20`
  unfoldable pub init_chacha20 : Option Chacha20Parameters → Result
  unfolding start_symmetric
  init_chacha20 p = guarded chacha20_key w (
      guarded (checks (chacha20_checks p) status_ok) w
        (start_symmetric false CipherAlgorithm.chacha20))

  -- `ta_sa_crypto_cipher_init_chacha20_poly1305`
  unfoldable pub init_chacha20_poly1305 : Option AeadParameters → Result
  unfolding start_symmetric
  init_chacha20_poly1305 p = guarded chacha20_key w (
      guarded (checks (aead_checks p) status_ok) w
        (start_symmetric true CipherAlgorithm.chacha20_poly1305))

  abbrev pub rsa_key : Status
  rsa_key = key_status (supports_rsa key.key_type key.size)

  abbrev pub decrypts : Status
  decrypts = if mode == CipherMode.decrypt_mode then status_ok else invalid_parameter

  -- `ta_sa_crypto_cipher_init_rsa_pkcs1v15`; `rsa_verify_cipher` accepts this algorithm.
  unfoldable pub init_rsa_pkcs1v15 : Result
  init_rsa_pkcs1v15 = guarded rsa_key w (
      guarded decrypts w (
        add_asymmetric_key env.alloc env.add_locks CipherAlgorithm.rsa_pkcs1v15 mode key.address
          caller w))

  -- The end of ta_sa_crypto_cipher_init_rsa_oaep, which releases the cipher if one was handed out.
  unfoldable pub release_cipher : Status → ℕ → ℕ → Ciphers → Result
  release_cipher s handle object w' =
      let r = release env.release_locks (some w'.store) handle object (some caller) in
      if object == 0
      then (s, handle, w')
      else (s, handle, record w' { store = store_or r.1 w'.store })

  -- What `ta_sa_crypto_cipher_init_rsa_oaep` does with the key in the store.
  unfoldable pub set_oaep : OaepParameters → ℕ → Ciphers → Result
  unfolding release_cipher
  set_oaep p handle w' =
      let (s, object, w1) = acquire_exclusive env.acquire_locks env.cipher_locks handle caller w' in
      let (s', w2) =
        set_oaep_parameters env.label_allocated object p.digest_algorithm p.mgf1_digest_algorithm
          p.label p.label_length w1 in
      if not (is_ok s)
      then release_cipher s handle object w1
      else release_cipher s' handle object w2

  abbrev pub is_label : Option (List ℕ) → Bool
  is_label none = false
  is_label (some l) = true

  -- `ta_sa_crypto_cipher_init_rsa_oaep`; `rsa_verify_cipher` accepts parameters that are given.
  unfoldable pub init_rsa_oaep : Option OaepParameters → Result
  unfolding set_oaep
  init_rsa_oaep none = guarded first_pointers w (null_parameter, slot_invalid, w)
  init_rsa_oaep (some p) =
      let (s, handle, w') =
        add_asymmetric_key env.alloc env.add_locks CipherAlgorithm.rsa_oaep mode key.address caller
          w in
      let placed = set_oaep p handle w' in
      guarded first_pointers w (
        guarded
          (if not (is_label p.label) && not (p.label_length == 0)
            then invalid_parameter
            else status_ok)
          w
          (guarded rsa_key w
            (guarded decrypts w (if not (is_ok s) then (s, handle, w') else placed))))

  -- `is_pcurve` of taimpl/src/internal/ec.c
  abbrev pub is_pcurve : ℕ → Bool
  is_pcurve c =
      c == Curve.nist_p192
      || c == Curve.nist_p224
      || c == Curve.nist_p256
      || c == Curve.nist_p384
      || c == Curve.nist_p521

  -- `ta_sa_crypto_cipher_init_ec`, with `ec_verify_cipher`
  unfoldable pub init_ec : Result
  init_ec = guarded (key_status (supports_ec key.key_type key.curve key.size)) w (
      guarded decrypts w (
        guarded (if is_pcurve key.curve then status_ok else operation_not_allowed) w (
          add_asymmetric_key env.alloc env.add_locks CipherAlgorithm.ec_elgamal mode key.address
            caller w)))
