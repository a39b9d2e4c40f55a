-- ===== src/KeyUnwrap.antt =====
-- taimpl/src/ta_sa_key_unwrap.c: a key comes out of its encryption with another key. The functions of
-- taimpl/src/internal/unwrap.c are in Unwrap; what the key store hands out and takes is an argument.
pub mod Unwrap
pub mod Imported
pub mod Allowed
use tasecureapi.Prelude.{
  ℕ, ◌%◌, Bool, ◌&&◌, ◌||◌, not, Option, none, some, List, [], ◌∷◌, ◌++◌, ltb, ◌==◌, if◌then◌else◌,
  checks, Status, status_ok, null_parameter, invalid_parameter, operation_not_allowed,
  invalid_key_type,
}
use tasecureapi.Prelude.KeyType
use tasecureapi.Prelude.CipherAlgorithm
use tasecureapi.Pad.{aes_block_size}
use tasecureapi.Rights.{Rights, allowed_unwrap}
use tasecureapi.KeySize.{supports_aes, supports_chacha20, supports_rsa, supports_ec}
use tasecureapi.Slots.{slot_invalid}
use tasecureapi.Svp.{is_ok}
use tasecureapi.Symmetric.Last.{chacha20_tag_length}
use tasecureapi.StoredKey.{Key}
use tasecureapi.CipherInit.Algorithms.{
  IvParameters, AeadParameters, Chacha20Parameters, OaepParameters, iv_checks, aead_checks,
}
use tasecureapi.KeyUnwrap.Unwrap.{
  Environment, Wrapped, ElgamalParameters, unwrap_blocks, unwrap_bytes, unwrap_rsa, unwrap_ec,
}

-- `sa_unwrap_parameters_aes_gcm` and `sa_unwrap_parameters_chacha20_poly1305`, and their tag.
pub record TaggedParameters : Type 0 where
  pub aead : AeadParameters
  pub tag_given : Bool
  pub tag_length : ℕ

-- The untyped pointer to the parameters, as each of the types that it is cast to.
pub record Parameters : Type 0 where
  pub as_iv : Option IvParameters
  pub as_tagged : Option TaggedParameters
  pub as_chacha20 : Option Chacha20Parameters
  pub as_oaep : Option OaepParameters
  pub as_elgamal : Option ElgamalParameters

-- The status, `*key`, and the key that the key store was given.
pub record Outcome : Type 0 where
  pub status : Status
  pub handle : ℕ
  pub imported : Option Key

abbrev failed : Status → Outcome
failed s = record { status = s; handle = slot_invalid; imported = none }

abbrev pub tagged_checks : Option TaggedParameters → List (Bool × Status)
tagged_checks none = (Bool.true, null_parameter) ∷ []
tagged_checks (some p) = aead_checks (some p.aead) ++ (not p.tag_given, null_parameter) ∷ []

-- The nonce stands behind the counter.
abbrev pub counter_checks : Option Chacha20Parameters → List (Bool × Status)
counter_checks none = (Bool.true, null_parameter) ∷ []
counter_checks (some p) =
    (not p.counter_given, null_parameter)
    ∷ (not (p.counter_length == 4), invalid_parameter)
    ∷ (not p.nonce_given, null_parameter)
    ∷ (not (p.nonce_length == 12), invalid_parameter)
    ∷ []

abbrev pub tag_length_of : Option TaggedParameters → ℕ
tag_length_of none = 0
tag_length_of (some p) = p.tag_length

module _ (env : Environment) (store : Key → Status × ℕ) (found : Status × Option Key)
    (wrapped : Wrapped) where
  -- `key_store_import_stored_key` of the key that was unwrapped. A good status comes with a key.
  abbrev pub import_unwrapped : Status × Option Key → Outcome
  import_unwrapped (s, none) = failed (if is_ok s then null_parameter else s)
  import_unwrapped (s, some key) =
      let (stored, handle) = store key in
      if is_ok s then record { status = stored; handle = handle; imported = some key } else failed s

  -- What the functions for the algorithms do behind their checks: the checks of the wrapping key, and
  -- the function of unwrap.c.
  abbrev pub with_wrapping :
      (Key → List (Bool × Status)) → (Key → Status × Option Key) → Status × Option Key → Outcome
  with_wrapping guards unwrap (s, none) = failed (if is_ok s then null_parameter else s)
  with_wrapping guards unwrap (s, some key) =
      let checked = checks (guards key) status_ok in
      let unwrapped = import_unwrapped (unwrap key) in
      if not (is_ok s) then failed s else if not (is_ok checked) then failed checked else unwrapped

  abbrev pub guarded_unwrap :
      List (Bool × Status) → (Key → List (Bool × Status)) → (Key → Status × Option Key) → Outcome
  guarded_unwrap first guards unwrap =
      let checked = checks first status_ok in
      let rest = with_wrapping guards unwrap found in if is_ok checked then rest else failed checked

  abbrev pub may_unwrap : Key → Bool × Status
  may_unwrap key = (not (allowed_unwrap (some key.header.rights) env.now), operation_not_allowed)

  abbrev pub aes_guards : Key → List (Bool × Status)
  aes_guards key =
      may_unwrap key
      ∷ (not (supports_aes key.header.key_type key.header.size), invalid_key_type)
      ∷ []

  abbrev pub chacha20_guards : Key → List (Bool × Status)
  chacha20_guards key =
      may_unwrap key
      ∷ (not (supports_chacha20 key.header.key_type key.header.size), invalid_key_type)
      ∷ []

  abbrev pub rsa_guards : Key → List (Bool × Status)
  rsa_guards key =
      (not (supports_rsa key.header.key_type key.header.size), invalid_key_type)
      ∷ may_unwrap key
      ∷ (not (wrapped.in_length == key.header.size), invalid_parameter)
      ∷ []

  abbrev pub ec_guards : Key → List (Bool × Status)
  ec_guards key =
      may_unwrap key
      ∷ (
        not (supports_ec key.header.key_type key.header.type_parameters.curve key.header.size),
        invalid_key_type,
      )
      ∷ []

  abbrev pub in_blocks : Bool × Status
  in_blocks = (not (wrapped.in_length % aes_block_size == 0), invalid_parameter)

  -- `ta_sa_key_unwrap_aes_ecb`
  unfoldable pub key_unwrap_aes_ecb : ℕ → Outcome
  key_unwrap_aes_ecb a =
      guarded_unwrap (in_blocks ∷ []) aes_guards
        (unwrap_blocks env wrapped a (a == CipherAlgorithm.aes_ecb_pkcs7))

  -- `ta_sa_key_unwrap_aes_cbc`
  unfoldable pub key_unwrap_aes_cbc : ℕ → Option IvParameters → Outcome
  key_unwrap_aes_cbc a p =
      guarded_unwrap (iv_checks p ++ in_blocks ∷ []) aes_guards
        (unwrap_blocks env wrapped a (a == CipherAlgorithm.aes_cbc_pkcs7))

  -- `ta_sa_key_unwrap_aes_ctr`
  unfoldable pub key_unwrap_aes_ctr : Option IvParameters → Outcome
  key_unwrap_aes_ctr p =
      guarded_unwrap (iv_checks p) aes_guards (unwrap_bytes env wrapped CipherAlgorithm.aes_ctr)

  -- `ta_sa_key_unwrap_aes_gcm`
  unfoldable pub key_unwrap_aes_gcm : Option TaggedParameters → Outcome
  key_unwrap_aes_gcm p =
      guarded_unwrap
        (tagged_checks p ++ (ltb aes_block_size (tag_length_of p), invalid_parameter) ∷ [])
        aes_guards (unwrap_bytes env wrapped CipherAlgorithm.aes_gcm)

  -- `ta_sa_key_unwrap_chacha20`
  unfoldable pub key_unwrap_chacha20 : Option Chacha20Parameters → Outcome
  key_unwrap_chacha20 p =
      guarded_unwrap (counter_checks p) chacha20_guards
        (unwrap_bytes env wrapped CipherAlgorithm.chacha20)

  -- `ta_sa_key_unwrap_chacha20_poly1305`
  unfoldable pub key_unwrap_chacha20_poly1305 : Option TaggedParameters → Outcome
  key_unwrap_chacha20_poly1305 p =
      guarded_unwrap
        (tagged_checks p ++ (not (tag_length_of p == chacha20_tag_length), invalid_parameter) ∷ [])
        chacha20_guards (unwrap_bytes env wrapped CipherAlgorithm.chacha20_poly1305)

  abbrev pub only_symmetric : Bool × Status
  only_symmetric = (not (wrapped.key_type == KeyType.symmetric), invalid_parameter)

  -- `ta_sa_key_unwrap_rsa`
  unfoldable pub key_unwrap_rsa : ℕ → Option OaepParameters → Outcome
  key_unwrap_rsa a p =
      guarded_unwrap (only_symmetric ∷ []) rsa_guards
        (unwrap_rsa env wrapped (a == CipherAlgorithm.rsa_oaep) p)

  -- `ta_sa_key_unwrap_ec`
  unfoldable pub key_unwrap_ec : Option ElgamalParameters → Outcome
  key_unwrap_ec none =
      failed (if wrapped.key_type == KeyType.symmetric then null_parameter else invalid_parameter)
  key_unwrap_ec (some p) = guarded_unwrap (only_symmetric ∷ []) ec_guards (unwrap_ec env wrapped p)

  -- The choice of `ta_sa_key_unwrap`; the Boolean says whether OpenSSL is older than 1.1.0.
  unfoldable pub unwrap_algorithm : Bool → ℕ → Parameters → Outcome
  unfolding key_unwrap_aes_ecb key_unwrap_aes_cbc key_unwrap_aes_ctr key_unwrap_aes_gcm
      key_unwrap_chacha20 key_unwrap_chacha20_poly1305 key_unwrap_rsa key_unwrap_ec
  unwrap_algorithm old_openssl a p =
      if a == CipherAlgorithm.aes_ecb || a == CipherAlgorithm.aes_ecb_pkcs7
      then key_unwrap_aes_ecb a
      else if a == CipherAlgorithm.aes_cbc || a == CipherAlgorithm.aes_cbc_pkcs7
      then key_unwrap_aes_cbc a p.as_iv
      else if a == CipherAlgorithm.aes_ctr
      then key_unwrap_aes_ctr p.as_iv
      else if a == CipherAlgorithm.aes_gcm
      then key_unwrap_aes_gcm p.as_tagged
      else if a == CipherAlgorithm.chacha20 && not old_openssl
      then key_unwrap_chacha20 p.as_chacha20
      else if a == CipherAlgorithm.chacha20_poly1305 && not old_openssl
      then key_unwrap_chacha20_poly1305 p.as_tagged
      else if a == CipherAlgorithm.rsa_pkcs1v15 || a == CipherAlgorithm.rsa_oaep
      then key_unwrap_rsa a p.as_oaep
      else if a == CipherAlgorithm.ec_elgamal
      then key_unwrap_ec p.as_elgamal
      else failed invalid_parameter

  -- `ta_sa_key_unwrap`, with the status of `client_store_acquire`; the pointers that may be NULL are
  -- those to the caller, the handle, the rights and the input.
  unfoldable pub key_unwrap : List Bool → Status → Bool → ℕ → Parameters → Outcome
  unfolding unwrap_algorithm
  key_unwrap [] client old_openssl a p =
      let unwrapped = unwrap_algorithm old_openssl a p in
      if is_ok client then unwrapped else failed client
  key_unwrap (given ∷ pointers) client old_openssl a p =
      let rest = key_unwrap pointers client old_openssl a p in
      if given then rest else failed null_parameter
