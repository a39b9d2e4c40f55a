-- ===== src/Sign/Algorithms.antt =====
-- What the functions of ta_sa_crypto_sign for the algorithms have checked when they sign.
use tasecureapi.Prelude.{
  ℕ, ◌+◌, ◌-◌, ◌%◌, ◌*◌, ◌≤◌, ◌≡◌, refl, ap, subst, ◌⊎◌, inl, inr, Bool, true, false, ◌&&◌, not,
  Option, none, some, List, [], ◌∷◌, All, arith, ltb, ◌==◌, checks, Status, status_ok,
  null_parameter, invalid_parameter, operation_not_supported, Bool-cases,
}
use tasecureapi.Memory.{size_mod}
use tasecureapi.KeySize.{
  supports_ec, supports_rsa, valid_rsa_size, valid_ec_size, ec_key_size_from_curve,
}
use tasecureapi.KeySize.Curve
use tasecureapi.Svp.{is_ok}
use tasecureapi.Svp.Bounds.{is_ok_lem}
use tasecureapi.StoredKey.{Key}
use tasecureapi.CipherProcess.Guards.{all_errors, checks_passed}
use tasecureapi.Sign.{
  rsa_pss, ecdsa, eddsa, digest_length, SignParameters, Signing, Environment, Request, Outcome,
  failed, call_of, is_nist_curve, is_digest, sign_with, input_guard, ec_guard, rsa_guard,
  digest_guard, sign_ecdsa, sign_eddsa, sign_rsa_pss, sign_rsa_pkcs1v15,
}

-- The keys that an algorithm takes, and the room for the signature.
abbrev pub Fits : Signing → ℕ → Type 0
Fits c room =
    let h = c.key.header in
    ((c.algorithm ≡ ecdsa)
      × (is_nist_curve h.type_parameters.curve ≡ true)
      × (supports_ec h.key_type h.type_parameters.curve h.size ≡ true)
      × (h.size * 2 ≤ room))
    ⊎ ((c.algorithm ≡ eddsa)
        × ((h.type_parameters.curve ≡ Curve.ed25519) ⊎ (h.type_parameters.curve ≡ Curve.ed448))
        × (supports_ec h.key_type h.type_parameters.curve h.size ≡ true)
        × (h.size * 2 ≤ room))
    ⊎ ((c.algorithm ≡ rsa_pss)
        × (supports_rsa h.key_type h.size ≡ true)
        × (h.size ≤ room)
        × ((p : SignParameters) × (c.parameters ≡ some p)
            × (p.salt_length + digest_length p.digest_algorithm + 2 ≤ h.size)))
    ⊎ ((c.algorithm ≡ 0) × (supports_rsa h.key_type h.size ≡ true) × (h.size ≤ room))

-- What a call that signed says.
pub record Signed (r : Request) (key : Key) (a : ℕ) (o : Outcome) : Type 0 where
  pub signed :
      (c : Signing)
      → o.signed ≡ some c
      → (c.key ≡ key) × (c.algorithm ≡ a) × (r.out_given ≡ true) × Fits c r.out_length

-- The size of a key is that of its curve.
ec_size :
    (key_type curve size : ℕ)
    → supports_ec key_type curve size ≡ true
    → size ≡ ec_key_size_from_curve curve
unfolding supports_ec valid_ec_size
ec_size key_type curve size h = ground arith

-- The difference does not wrap around, since an RSA key is longer than any digest.
salt_fits :
    (key_type size digest salt : ℕ)
    → supports_rsa key_type size ≡ true
    → is_digest digest ≡ true
    → ltb ((size + size_mod + size_mod - digest_length digest - 2) % size_mod) salt ≡ false
    → salt + digest_length digest + 2 ≤ size
unfolding supports_rsa valid_rsa_size digest_length
salt_fits key_type size digest salt supported known small = ground arith

signing_or : Signing → Option Signing → Signing
signing_or c none = c
signing_or c (some d) = d

module _ (env : Environment) (r : Request) (key : Key) where
  sign_with-Signed :
      (guards late : List (Bool × Status)) (needed : ℕ) (call : Signing)
      → all_errors guards ≡ true
      → all_errors late ≡ true
      → call.key ≡ key
      → (All (λ g. g.0 ≡ false) guards
          → All (λ g. g.0 ≡ false) late
          → needed ≤ r.out_length
          → Fits call r.out_length)
      → Signed r key call.algorithm (sign_with env r key guards needed late call)
  unfolding signing_or
  sign_with-Signed guards late needed call errors late_errors same fits = record {
    signed = λ c h.
        let checked = checks guards status_ok in
        let ready = checks ((ltb r.out_length needed, invalid_parameter) ∷ late) status_ok in
        elim (Bool-cases (is_ok checked)) [
          | inr bad ↦ absurd (ground (arith, h, bad))
          | inl good ↦ elim (Bool-cases r.out_given) [
            | inr missing ↦ absurd (ground (arith, h, good, missing))
            | inl given ↦ elim (Bool-cases (is_ok ready)) [
              | inr bad ↦ absurd (ground (arith, h, good, given, bad))
              | inl fine ↦
                  let told : some call ≡ some c = ground (arith, h, good, given, fine) in
                  let late_passed =
                    checks_passed ((ltb r.out_length needed, invalid_parameter) ∷ late) status_ok
                      late_errors (is_ok_lem ready fine) in
                  let passed = checks_passed guards status_ok errors (is_ok_lem checked good) in
                  subst
                    (λ c.
                      (c.key ≡ key)
                      × (c.algorithm ≡ call.algorithm)
                      × (r.out_given ≡ true)
                      × Fits c r.out_length)
                    (ap (signing_or call) told)
                    (
                      same,
                      refl,
                      given,
                      fits passed.0 late_passed.0.1 (ground (arith, late_passed.0.0)),
                    )
            ]
          ]
        ];
  }

  failed-Signed : (a : ℕ) (s : Status) → Signed r key a (failed r s)
  failed-Signed a s = record { signed = λ c h. absurd (ground (arith, h)) }

  pub sign_ecdsa-Signed : (p : Option SignParameters) → Signed r key ecdsa (sign_ecdsa env r key p)
  unfolding sign_ecdsa
  sign_ecdsa-Signed none = failed-Signed ecdsa null_parameter
  sign_ecdsa-Signed (some p) =
      sign_with-Signed
        (input_guard env r key
          ∷ digest_guard env r key p
          ∷ (not (is_nist_curve key.header.type_parameters.curve), invalid_parameter)
          ∷ ec_guard env r key
          ∷ [])
        [] (key.header.size * 2) (call_of env r key ecdsa (some p)) refl refl refl
        (λ passed late room. inl (refl, ground (arith, passed), ground (arith, passed), room))

  pub sign_eddsa-Signed : Signed r key eddsa (sign_eddsa env r key)
  unfolding sign_eddsa
  sign_eddsa-Signed =
      let c = key.header.type_parameters.curve in
      sign_with-Signed
        (input_guard env r key
          ∷ (not (c == Curve.ed25519) && not (c == Curve.ed448), invalid_parameter)
          ∷ ec_guard env r key
          ∷ (ec_key_size_from_curve c * 2 == 0, operation_not_supported)
          ∷ [])
        [] (ec_key_size_from_curve c * 2) (call_of env r key eddsa none) refl refl refl
        (λ passed late room.
          let same = ec_size key.header.key_type c key.header.size (ground (arith, passed)) in
          inr
            (inl (refl, ground (arith, passed), ground (arith, passed), omega (arith, same, room))))

  pub sign_rsa_pkcs1v15-Signed :
      (p : Option SignParameters) → Signed r key 0 (sign_rsa_pkcs1v15 env r key p)
  unfolding sign_rsa_pkcs1v15
  sign_rsa_pkcs1v15-Signed none = failed-Signed 0 null_parameter
  sign_rsa_pkcs1v15-Signed (some p) =
      sign_with-Signed (input_guard env r key ∷ digest_guard env r key p ∷ rsa_guard env r key ∷ [])
        [] key.header.size (call_of env r key 0 (some p)) refl refl refl
        (λ passed late room. inr (inr (inr (refl, ground (arith, passed), room))))

  pub sign_rsa_pss-Signed :
      (p : Option SignParameters) → Signed r key rsa_pss (sign_rsa_pss env r key p)
  unfolding sign_rsa_pss
  sign_rsa_pss-Signed none = failed-Signed rsa_pss null_parameter
  sign_rsa_pss-Signed (some p) =
      let digest = digest_length p.digest_algorithm in
      let max_salt_length = (key.header.size + size_mod + size_mod - digest - 2) % size_mod in
      sign_with-Signed
        (input_guard env r key
          ∷ digest_guard env r key p
          ∷ (not (is_digest p.mgf1_digest_algorithm), invalid_parameter)
          ∷ rsa_guard env r key
          ∷ [])
        ((digest == size_mod - 1, invalid_parameter)
          ∷ (ltb max_salt_length p.salt_length, invalid_parameter)
          ∷ [])
        key.header.size (call_of env r key rsa_pss (some p)) refl refl refl
        (λ passed late room.
          let supported : supports_rsa key.header.key_type key.header.size ≡ true =
            ground (arith, passed) in
          let is_known : is_digest p.digest_algorithm ≡ true = ground (arith, passed) in
          let small : ltb max_salt_length p.salt_length ≡ false = ground (arith, late) in
          inr (
            inr (
              inl (
                refl,
                supported,
                room,
                (
                  p,
                  refl,
                  salt_fits key.header.key_type key.header.size p.digest_algorithm p.salt_length
                      supported is_known small,
                ),
              ))))
