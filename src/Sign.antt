-- ===== src/Sign.antt =====
-- taimpl/src/ta_sa_crypto_sign.c: a signature with a key of the key store. The functions of OpenSSL
-- that sign, and what the key store hands out, are arguments.
pub mod Algorithms
pub mod Allowed
use tasecureapi.Prelude.{
  ℕ, ◌+◌, ◌-◌, ◌*◌, ◌^◌, ◌%◌, Bool, true, ◌&&◌, ◌||◌, not, Option, none, some, List, [], ◌∷◌, ltb,
  ◌==◌, if◌then◌else◌, checks, Status, status_ok, null_parameter, invalid_parameter,
  invalid_key_type, operation_not_allowed, operation_not_supported,
}
use tasecureapi.Memory.{size_mod}
use tasecureapi.Rights.{allowed_sign}
use tasecureapi.KeySize.{supports_ec, supports_rsa, ec_key_size_from_curve}
use tasecureapi.KeySize.Curve
use tasecureapi.Svp.{is_ok}
use tasecureapi.StoredKey.{Key}

-- `sa_signature_algorithm`, as the number that it is.
abbrev pub rsa_pss : ℕ
rsa_pss = 1

abbrev pub ecdsa : ℕ
ecdsa = 2

abbrev pub eddsa : ℕ
eddsa = 3

-- `digest_length` of util/src/digest_util.c, with SIZE_MAX for what is not a digest algorithm.
unfoldable pub digest_length : ℕ → ℕ
digest_length digest =
    if digest == 0
    then 20
    else if digest == 1
    then 32
    else if digest == 2
    then 48
    else if digest == 3
    then 64
    else size_mod - 1

-- The parameters of ECDSA, RSA-PSS and RSA-PKCS1v1.5, of which all but RSA-PSS have only the digest and
-- whether it is precomputed.
pub record SignParameters : Type 0 where
  pub digest_algorithm : ℕ
  pub mgf1_digest_algorithm : ℕ
  pub precomputed_digest : Bool
  pub salt_length : ℕ

-- A call of `ec_sign_ecdsa`, `ec_sign_eddsa`, `rsa_sign_pss` or `rsa_sign_pkcs1v15`.
pub record Signing : Type 0 where
  pub algorithm : ℕ
  pub key : Key
  pub parameters : Option SignParameters

-- What the code does not decide: the status of a call that signs and the length that it stores, and
-- the time.
pub record Environment : Type 0 where
  pub sign : Signing → Status × ℕ
  pub now : ℕ

-- What the caller gives: whether the output is given and its length, and whether the input is missing
-- although its length is not 0.
pub record Request : Type 0 where
  pub out_given : Bool
  pub out_length : ℕ
  pub in_missing : Bool

-- The status, `*out_length`, and the call that signed.
pub record Outcome : Type 0 where
  pub status : Status
  pub out_length : ℕ
  pub signed : Option Signing

abbrev pub failed : Request → Status → Outcome
failed r s = record { status = s; out_length = r.out_length; signed = none }

abbrev pub is_digest : ℕ → Bool
is_digest d = d == 0 || d == 1 || d == 2 || d == 3

-- The curves of ECDSA.
abbrev pub is_nist_curve : ℕ → Bool
is_nist_curve c =
    c == Curve.nist_p192
    || c == Curve.nist_p224
    || c == Curve.nist_p256
    || c == Curve.nist_p384
    || c == Curve.nist_p521

module _ (env : Environment) (r : Request) (key : Key) where
  -- What the functions do behind their parameters: the checks of the key, the length of the signature,
  -- the checks that need the output, and the call.
  abbrev pub sign_with : List (Bool × Status) → ℕ → List (Bool × Status) → Signing → Outcome
  sign_with guards needed late call =
      let checked = checks guards status_ok in
      let ready = checks ((ltb r.out_length needed, invalid_parameter) ∷ late) status_ok in
      let (s, stored) = env.sign call in
      if not (is_ok checked)
      then failed r checked
      else if not r.out_given
      then record { status = status_ok; out_length = needed; signed = none }
      else if not (is_ok ready)
      then failed r ready
      else record { status = s; out_length = stored; signed = some call }

  abbrev pub input_guard : Bool × Status
  input_guard = (r.in_missing, null_parameter)

  abbrev pub ec_guard : Bool × Status
  ec_guard = (
    not (supports_ec key.header.key_type key.header.type_parameters.curve key.header.size),
    invalid_key_type,
  )

  abbrev pub rsa_guard : Bool × Status
  rsa_guard = (not (supports_rsa key.header.key_type key.header.size), invalid_key_type)

  abbrev pub digest_guard : SignParameters → Bool × Status
  digest_guard p = (not (is_digest p.digest_algorithm), invalid_parameter)

  abbrev pub without_parameters : Outcome
  without_parameters = failed r null_parameter

  abbrev pub call_of : ℕ → Option SignParameters → Signing
  call_of algorithm p = record { algorithm = algorithm; key = key; parameters = p }

  -- `ta_sa_crypto_sign_ecdsa`
  unfoldable pub sign_ecdsa : Option SignParameters → Outcome
  sign_ecdsa none = without_parameters
  sign_ecdsa (some p) =
      sign_with
        (input_guard
          ∷ digest_guard p
          ∷ (not (is_nist_curve key.header.type_parameters.curve), invalid_parameter)
          ∷ ec_guard
          ∷ [])
        (key.header.size * 2) [] (call_of ecdsa (some p))

  -- `ta_sa_crypto_sign_eddsa`
  unfoldable pub sign_eddsa : Outcome
  sign_eddsa =
      let c = key.header.type_parameters.curve in
      sign_with
        (input_guard
          ∷ (not (c == Curve.ed25519) && not (c == Curve.ed448), invalid_parameter)
          ∷ ec_guard
          ∷ (ec_key_size_from_curve c * 2 == 0, operation_not_supported)
          ∷ [])
        (ec_key_size_from_curve c * 2) [] (call_of eddsa none)

  -- `ta_sa_crypto_sign_rsa_pss`; the length of the salt is compared with a difference of `size_t`.
  unfoldable pub sign_rsa_pss : Option SignParameters → Outcome
  sign_rsa_pss none = without_parameters
  sign_rsa_pss (some p) =
      let digest = digest_length p.digest_algorithm in
      let max_salt_length = (key.header.size + size_mod + size_mod - digest - 2) % size_mod in
      sign_with
        (input_guard
          ∷ digest_guard p
          ∷ (not (is_digest p.mgf1_digest_algorithm), invalid_parameter)
          ∷ rsa_guard
          ∷ [])
        key.header.size
        ((digest == size_mod - 1, invalid_parameter)
          ∷ (ltb max_salt_length p.salt_length, invalid_parameter)
          ∷ [])
        (call_of rsa_pss (some p))

  -- `ta_sa_crypto_sign_rsa_pkcs1v15`
  unfoldable pub sign_rsa_pkcs1v15 : Option SignParameters → Outcome
  sign_rsa_pkcs1v15 none = without_parameters
  sign_rsa_pkcs1v15 (some p) =
      sign_with (input_guard ∷ digest_guard p ∷ rsa_guard ∷ []) key.header.size []
        (call_of 0 (some p))

  -- The choice of `ta_sa_crypto_sign`, behind the right to sign.
  unfoldable pub sign_algorithm : ℕ → Option SignParameters → Outcome
  unfolding sign_ecdsa sign_eddsa sign_rsa_pss sign_rsa_pkcs1v15
  sign_algorithm a p =
      let chosen =
        if a == ecdsa
        then sign_ecdsa p
        else if a == eddsa
        then sign_eddsa
        else if a == rsa_pss
        then sign_rsa_pss p
        else sign_rsa_pkcs1v15 p in
      if not (allowed_sign (some key.header.rights) env.now)
      then failed r operation_not_allowed
      else chosen

-- What `ta_sa_crypto_sign` checks before it takes the client.
abbrev pub request_guards : Bool → Request → ℕ → List (Bool × Status)
request_guards caller_given r a =
    (not (a == 0 || a == rsa_pss || a == ecdsa || a == eddsa), invalid_parameter)
    ∷ (r.in_missing, null_parameter)
    ∷ (not caller_given, null_parameter)
    ∷ []

-- What it does with what the key store gives; a key without a header is no key.
unfoldable pub sign_found :
    Environment → Request → Status × Option Key → ℕ → Option SignParameters → Outcome
unfolding sign_algorithm
sign_found env r (s, none) a p = failed r (if is_ok s then null_parameter else s)
sign_found env r (s, some key) a p =
    let signed = sign_algorithm env r key a p in if is_ok s then signed else failed r s

-- `ta_sa_crypto_sign`, with a pointer to the length, what `client_store_acquire` returns and what
-- `key_store_unwrap` gives. The Boolean says whether the caller is given.
unfoldable pub crypto_sign :
    Environment
    → Bool
    → Request
    → Status
    → Status × Option Key
    → ℕ
    → Option SignParameters
    → Outcome
unfolding sign_found
crypto_sign env caller_given r client found a p =
    let checked = checks (request_guards caller_given r a) status_ok in
    let signed = sign_found env r found a p in
    if not (is_ok checked)
    then failed r checked
    else if not (is_ok client)
    then failed r client
    else signed
