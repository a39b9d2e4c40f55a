-- ===== src/CipherInit/Fits.antt =====
-- The keys that the functions for the algorithms take.
use tasecureapi.Prelude.{
  ℕ, ◌≡◌, refl, ◌⊎◌, inl, inr, Bool, true, false, ◌||◌, ◌&&◌, not, Option, none, some, arith, ◌==◌,
  if◌then◌else◌, Status, status_ok, null_parameter, invalid_parameter, operation_not_allowed,
  Bool-cases, Uuid,
}
use tasecureapi.Prelude.CipherAlgorithm
use tasecureapi.Prelude.CipherMode
use tasecureapi.Prelude.KeyType
use tasecureapi.Slots.{slot_invalid}
use tasecureapi.Svp.{is_ok}
use tasecureapi.Svp.Bounds.{is_ok_lem}
use tasecureapi.KeySize.{
  supports_aes, supports_chacha20, supports_rsa, supports_ec, valid_aes_size, valid_rsa_size,
  valid_ec_size, ec_key_size_from_curve,
}
use tasecureapi.KeySize.Curve
use tasecureapi.CipherStore.{add_asymmetric_key, Ciphers, Result}
use tasecureapi.CipherInit.Algorithms.{
  first_pointers, key_status, Environment, StoredKey, IvParameters, AeadParameters,
  Chacha20Parameters, OaepParameters, Parameters, guarded, is_label, set_oaep, is_pcurve, aes_key,
  chacha20_key, rsa_key, decrypts, init_aes_ecb, init_aes_cbc, init_aes_ctr, init_aes_gcm,
  init_chacha20, init_chacha20_poly1305, init_rsa_pkcs1v15, init_rsa_oaep, init_ec,
}
use tasecureapi.CipherInit.{init_algorithm, is_algorithm}

-- The keys that AES takes, those of ChaCha20, of RSA, and of ElGamal on a curve of NIST.
abbrev pub IsAesKey : StoredKey → Type 0
IsAesKey key = (key.key_type ≡ KeyType.symmetric) × ((key.size ≡ 16) ⊎ (key.size ≡ 32))

abbrev pub IsChacha20Key : StoredKey → Type 0
IsChacha20Key key = (key.key_type ≡ KeyType.symmetric) × (key.size ≡ 32)

abbrev pub IsRsaKey : StoredKey → Type 0
IsRsaKey key =
    (key.key_type ≡ KeyType.rsa)
    × ((key.size ≡ 128) ⊎ (key.size ≡ 256) ⊎ (key.size ≡ 384) ⊎ (key.size ≡ 512))

abbrev pub IsEcKey : StoredKey → Type 0
IsEcKey key =
    (key.key_type ≡ KeyType.ec)
    × (((key.curve ≡ Curve.nist_p192) × (key.size ≡ 24))
        ⊎ ((key.curve ≡ Curve.nist_p224) × (key.size ≡ 28))
        ⊎ ((key.curve ≡ Curve.nist_p256) × (key.size ≡ 32))
        ⊎ ((key.curve ≡ Curve.nist_p384) × (key.size ≡ 48))
        ⊎ ((key.curve ≡ Curve.nist_p521) × (key.size ≡ 66)))

abbrev pub IsAes : ℕ → Type 0
IsAes a =
    (a ≡ CipherAlgorithm.aes_ecb)
    ⊎ (a ≡ CipherAlgorithm.aes_ecb_pkcs7)
    ⊎ (a ≡ CipherAlgorithm.aes_cbc)
    ⊎ (a ≡ CipherAlgorithm.aes_cbc_pkcs7)
    ⊎ (a ≡ CipherAlgorithm.aes_ctr)
    ⊎ (a ≡ CipherAlgorithm.aes_gcm)

-- The keys that an algorithm takes, and the modes.
abbrev pub Fits : ℕ → ℕ → StoredKey → Type 0
Fits a mode key =
    (IsAes a × IsAesKey key)
    ⊎ (((a ≡ CipherAlgorithm.chacha20) ⊎ (a ≡ CipherAlgorithm.chacha20_poly1305))
        × IsChacha20Key key)
    ⊎ (((a ≡ CipherAlgorithm.rsa_pkcs1v15) ⊎ (a ≡ CipherAlgorithm.rsa_oaep))
        × IsRsaKey key
        × (mode ≡ CipherMode.decrypt_mode))
    ⊎ ((a ≡ CipherAlgorithm.ec_elgamal) × IsEcKey key × (mode ≡ CipherMode.decrypt_mode))

-- What a good status of a result says.
record Fitted (a mode : ℕ) (key : StoredKey) (r : Result) : Type 0 where
  fitted : r.0 ≡ status_ok → Fits a mode key

choice-Fitted :
    {a mode : ℕ} {key : StoredKey} (b : Bool) (x y : Result)
    → (b ≡ true → Fitted a mode key x)
    → (b ≡ false → Fitted a mode key y)
    → Fitted a mode key (if b then x else y)
choice-Fitted true x y hx hy = hx refl
choice-Fitted false x y hx hy = hy refl

pub guarded_ok :
    (s : Status) (w : Ciphers) (r : Result)
    → (guarded s w r).0 ≡ status_ok
    → (s ≡ status_ok) × (r.0 ≡ status_ok)
guarded_ok s w r h = elim (Bool-cases (is_ok s)) [
  | inl fine ↦ (is_ok_lem s fine, ground (arith, fine))
  | inr bad ↦ absurd (ground (arith, bad))
]

module _ (env : Environment) (caller : Uuid) (mode : ℕ) (key : StoredKey) (w : Ciphers) where
  aes_key_ok : aes_key env caller mode key w ≡ status_ok → IsAesKey key
  unfolding supports_aes valid_aes_size
  aes_key_ok h = ground arith

  chacha20_key_ok : chacha20_key env caller mode key w ≡ status_ok → IsChacha20Key key
  unfolding supports_chacha20
  chacha20_key_ok h = ground arith

  rsa_key_ok : rsa_key env caller mode key w ≡ status_ok → IsRsaKey key
  unfolding supports_rsa valid_rsa_size
  rsa_key_ok h = ground arith

  decrypts_ok : decrypts env caller mode key w ≡ status_ok → mode ≡ CipherMode.decrypt_mode
  decrypts_ok h = ground arith

  init_aes_ecb_ok : (a : ℕ) → (init_aes_ecb env caller mode key w a).0 ≡ status_ok → IsAesKey key
  unfolding init_aes_ecb
  init_aes_ecb_ok a h = aes_key_ok (guarded_ok (aes_key env caller mode key w) w _ h).0

  init_aes_cbc_ok :
      (a : ℕ) (p : Option IvParameters)
      → (init_aes_cbc env caller mode key w a p).0 ≡ status_ok
      → IsAesKey key
  unfolding init_aes_cbc
  init_aes_cbc_ok a p h = aes_key_ok (guarded_ok (aes_key env caller mode key w) w _ h).0

  init_aes_ctr_ok :
      (p : Option IvParameters)
      → (init_aes_ctr env caller mode key w p).0 ≡ status_ok
      → IsAesKey key
  unfolding init_aes_ctr
  init_aes_ctr_ok p h = aes_key_ok (guarded_ok (aes_key env caller mode key w) w _ h).0

  init_aes_gcm_ok :
      (p : Option AeadParameters)
      → (init_aes_gcm env caller mode key w p).0 ≡ status_ok
      → IsAesKey key
  unfolding init_aes_gcm
  init_aes_gcm_ok p h = aes_key_ok (guarded_ok (aes_key env caller mode key w) w _ h).0

  init_chacha20_ok :
      (p : Option Chacha20Parameters)
      → (init_chacha20 env caller mode key w p).0 ≡ status_ok
      → IsChacha20Key key
  unfolding init_chacha20
  init_chacha20_ok p h = chacha20_key_ok (guarded_ok (chacha20_key env caller mode key w) w _ h).0

  init_chacha20_poly1305_ok :
      (p : Option AeadParameters)
      → (init_chacha20_poly1305 env caller mode key w p).0 ≡ status_ok
      → IsChacha20Key key
  unfolding init_chacha20_poly1305
  init_chacha20_poly1305_ok p h =
      chacha20_key_ok (guarded_ok (chacha20_key env caller mode key w) w _ h).0

  init_rsa_pkcs1v15_ok :
      (init_rsa_pkcs1v15 env caller mode key w).0 ≡ status_ok
      → IsRsaKey key × (mode ≡ CipherMode.decrypt_mode)
  unfolding init_rsa_pkcs1v15
  init_rsa_pkcs1v15_ok h =
      let g = guarded_ok (rsa_key env caller mode key w) w _ h in
      (rsa_key_ok g.0, decrypts_ok (guarded_ok (decrypts env caller mode key w) w _ g.1).0)

  init_rsa_oaep_ok :
      (p : Option OaepParameters)
      → (init_rsa_oaep env caller mode key w p).0 ≡ status_ok
      → IsRsaKey key × (mode ≡ CipherMode.decrypt_mode)
  unfolding init_rsa_oaep
  init_rsa_oaep_ok none h =
      let g =
        guarded_ok (first_pointers env caller mode key w) w (null_parameter, slot_invalid, w) h in
      absurd (ground (arith, g.1))
  init_rsa_oaep_ok (some p) h =
      let a =
        add_asymmetric_key env.alloc env.add_locks CipherAlgorithm.rsa_oaep mode key.address caller
          w in
      let label : Status =
        if not (is_label env caller mode key w p.label) && not (p.label_length == 0)
        then invalid_parameter
        else status_ok in
      let body : Result = if not (is_ok a.0) then a else set_oaep env caller mode key w p a.1 a.2 in
      let decrypting : Result = guarded (decrypts env caller mode key w) w body in
      let checked : Result =
        guarded label w (guarded (rsa_key env caller mode key w) w decrypting) in
      let f = guarded_ok (first_pointers env caller mode key w) w checked h in
      let l = guarded_ok label w (guarded (rsa_key env caller mode key w) w decrypting) f.1 in
      let g = guarded_ok (rsa_key env caller mode key w) w decrypting l.1 in
      (rsa_key_ok g.0, decrypts_ok (guarded_ok (decrypts env caller mode key w) w body g.1).0)

  supports_ec-IsEcKey :
      key_status env caller mode key w (supports_ec key.key_type key.curve key.size) ≡ status_ok
      → (if is_pcurve env caller mode key w key.curve then status_ok else operation_not_allowed)
        ≡ status_ok
      → IsEcKey key
  unfolding supports_ec valid_ec_size ec_key_size_from_curve
  supports_ec-IsEcKey supported on_curve = ground arith

  init_ec_ok :
      (init_ec env caller mode key w).0 ≡ status_ok → IsEcKey key × (mode ≡ CipherMode.decrypt_mode)
  unfolding init_ec
  init_ec_ok h =
      let fits = key_status env caller mode key w (supports_ec key.key_type key.curve key.size) in
      let curve : Status =
        if is_pcurve env caller mode key w key.curve then status_ok else operation_not_allowed in
      let added =
        add_asymmetric_key env.alloc env.add_locks CipherAlgorithm.ec_elgamal mode key.address
          caller w in
      let body : Result = guarded curve w added in
      let g = guarded_ok fits w (guarded (decrypts env caller mode key w) w body) h in
      let d = guarded_ok (decrypts env caller mode key w) w body g.1 in
      let curve_ok = guarded_ok curve w added d.1 in
      (supports_ec-IsEcKey g.0 curve_ok.0, decrypts_ok d.0)

  -- The choice behind AES in the modes ECB, CBC and CTR.
  other_algorithm :
      (a : ℕ) (p : Parameters)
      → is_algorithm a ≡ true
      → (a == CipherAlgorithm.aes_ecb || a == CipherAlgorithm.aes_ecb_pkcs7) ≡ false
      → (a == CipherAlgorithm.aes_cbc || a == CipherAlgorithm.aes_cbc_pkcs7) ≡ false
      → (a == CipherAlgorithm.aes_ctr) ≡ false
      → Fitted a mode key (
          if a == CipherAlgorithm.aes_gcm
          then init_aes_gcm env caller mode key w p.as_aead
          else if a == CipherAlgorithm.chacha20
          then init_chacha20 env caller mode key w p.as_chacha20
          else if a == CipherAlgorithm.chacha20_poly1305
          then init_chacha20_poly1305 env caller mode key w p.as_aead
          else if a == CipherAlgorithm.rsa_pkcs1v15
          then init_rsa_pkcs1v15 env caller mode key w
          else if a == CipherAlgorithm.rsa_oaep
          then init_rsa_oaep env caller mode key w p.as_oaep
          else init_ec env caller mode key w)
  other_algorithm a p is_a n1 n2 n3 =
      choice-Fitted (a == CipherAlgorithm.aes_gcm) _ _
        (λ e. record { fitted = λ h. inl (ground (arith, e), init_aes_gcm_ok p.as_aead h) })
        (λ n4.
          choice-Fitted (a == CipherAlgorithm.chacha20) _ _
            (λ e. record {
              fitted = λ h. inr (inl (ground (arith, e), init_chacha20_ok p.as_chacha20 h));
            })
            (λ n5.
              choice-Fitted (a == CipherAlgorithm.chacha20_poly1305) _ _
                (λ e. record {
                  fitted =
                      λ h. inr (inl (ground (arith, e), init_chacha20_poly1305_ok p.as_aead h));
                })
                (λ n6.
                  choice-Fitted (a == CipherAlgorithm.rsa_pkcs1v15) _ _
                    (λ e. record {
                      fitted = λ h.
                          let k = init_rsa_pkcs1v15_ok h in
                          inr (inr (inl (ground (arith, e), k.0, k.1)));
                    })
                    (λ n7.
                      choice-Fitted (a == CipherAlgorithm.rsa_oaep) _ _
                        (λ e. record {
                          fitted = λ h.
                              let k = init_rsa_oaep_ok p.as_oaep h in
                              inr (inr (inl (ground (arith, e), k.0, k.1)));
                        })
                        (λ n8. record {
                          fitted = λ h.
                              let k = init_ec_ok h in
                              inr (
                                inr (
                                  inr (
                                    ground (arith, is_a, n1, n2, n3, n4, n5, n6, n7, n8),
                                    k.0,
                                    k.1,
                                  )));
                        })))))

  pub init_algorithm-Fits :
      (a : ℕ) (p : Parameters)
      → is_algorithm a ≡ true
      → (init_algorithm env caller mode key w a p).0 ≡ status_ok
      → Fits a mode key
  unfolding init_algorithm
  init_algorithm-Fits a p is_a h =
      let chosen : Fitted a mode key (init_algorithm env caller mode key w a p) =
        choice-Fitted (a == CipherAlgorithm.aes_ecb || a == CipherAlgorithm.aes_ecb_pkcs7) _ _
          (λ e. record { fitted = λ h. inl (ground (arith, e), init_aes_ecb_ok a h) })
          (λ n1.
            choice-Fitted (a == CipherAlgorithm.aes_cbc || a == CipherAlgorithm.aes_cbc_pkcs7) _ _
              (λ e. record { fitted = λ h. inl (ground (arith, e), init_aes_cbc_ok a p.as_iv h) })
              (λ n2.
                choice-Fitted (a == CipherAlgorithm.aes_ctr) _ _
                  (λ e. record { fitted = λ h. inl (ground (arith, e), init_aes_ctr_ok p.as_iv h) })
                  (λ n3. other_algorithm a p is_a n1 n2 n3))) in
      chosen.fitted h
