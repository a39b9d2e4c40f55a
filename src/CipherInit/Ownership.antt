-- ===== src/CipherInit/Ownership.antt =====
-- Who owns the key after ta_sa_crypto_cipher_init.
use tasecureapi.Prelude.{
  ℕ, ◌≡◌, refl, ap, ◌⊎◌, inl, inr, ◌≢◌, Bool, true, false, ◌||◌, Option, ◌∷◌, arith, ◌==◌,
  if◌then◌else◌, checks, Status, status_ok, operation_not_allowed, Uuid,
}
use tasecureapi.Prelude.CipherAlgorithm
use tasecureapi.Svp.{is_ok}
use tasecureapi.ObjectStore.Valid.{IsValid}
use tasecureapi.KeySize.{supports_ec}
use tasecureapi.CipherStore.{Ciphers, Result, add_asymmetric_key}
use tasecureapi.CipherInit.Algorithms.{
  key_status, Environment, StoredKey, IvParameters, AeadParameters, Chacha20Parameters, Parameters,
  guarded, iv_checks, aead_checks, chacha20_checks, aes_key, chacha20_key, rsa_key, decrypts,
  is_pcurve, start_symmetric, init_aes_ecb, init_aes_cbc, init_aes_ctr, init_aes_gcm, init_chacha20,
  init_chacha20_poly1305, init_rsa_pkcs1v15, init_ec,
}
use tasecureapi.CipherInit.{init_algorithm, free_unless_ok, init_with_key, key_allowed}
use tasecureapi.CipherInit.Outcome.{
  Taken, KeyOutcome, guarded-KeyOutcome, start_symmetric-KeyOutcome, asymmetric-KeyOutcome,
}

module _ (env : Environment) (caller : Uuid) (mode : ℕ) (key : StoredKey) (w : Ciphers)
    (v : IsValid w.store) (ne : key.address ≢ 0) where
  guard-KeyOutcome :
      (s : Status) (r : Result)
      → KeyOutcome w caller key.address r
      → KeyOutcome w caller key.address (guarded s w r)
  guard-KeyOutcome s r h = guarded-KeyOutcome s w caller key.address r h

  init_aes_ecb-KeyOutcome :
      (a : ℕ) → KeyOutcome w caller key.address (init_aes_ecb env caller mode key w a)
  unfolding init_aes_ecb
  init_aes_ecb-KeyOutcome a =
      guard-KeyOutcome (aes_key env caller mode key w)
        (start_symmetric env caller mode key w false a)
        (start_symmetric-KeyOutcome env caller mode key w v ne false a)

  init_aes_cbc-KeyOutcome :
      (a : ℕ) (p : Option IvParameters)
      → KeyOutcome w caller key.address (init_aes_cbc env caller mode key w a p)
  unfolding init_aes_cbc
  init_aes_cbc-KeyOutcome a p =
      guard-KeyOutcome (aes_key env caller mode key w)
        (guarded (checks (iv_checks p) status_ok) w (start_symmetric env caller mode key w false a))
        (guard-KeyOutcome (checks (iv_checks p) status_ok)
          (start_symmetric env caller mode key w false a)
          (start_symmetric-KeyOutcome env caller mode key w v ne false a))

  init_aes_ctr-KeyOutcome :
      (p : Option IvParameters)
      → KeyOutcome w caller key.address (init_aes_ctr env caller mode key w p)
  unfolding init_aes_ctr
  init_aes_ctr-KeyOutcome p =
      guard-KeyOutcome (aes_key env caller mode key w)
        (guarded (checks (iv_checks p) status_ok) w
          (start_symmetric env caller mode key w false CipherAlgorithm.aes_ctr))
        (guard-KeyOutcome (checks (iv_checks p) status_ok)
          (start_symmetric env caller mode key w false CipherAlgorithm.aes_ctr)
          (start_symmetric-KeyOutcome env caller mode key w v ne false CipherAlgorithm.aes_ctr))

  init_aes_gcm-KeyOutcome :
      (p : Option AeadParameters)
      → KeyOutcome w caller key.address (init_aes_gcm env caller mode key w p)
  unfolding init_aes_gcm
  init_aes_gcm-KeyOutcome p =
      guard-KeyOutcome (aes_key env caller mode key w)
        (guarded (checks (aead_checks p) status_ok) w
          (start_symmetric env caller mode key w true CipherAlgorithm.aes_gcm))
        (guard-KeyOutcome (checks (aead_checks p) status_ok)
          (start_symmetric env caller mode key w true CipherAlgorithm.aes_gcm)
          (start_symmetric-KeyOutcome env caller mode key w v ne true CipherAlgorithm.aes_gcm))

  init_chacha20-KeyOutcome :
      (p : Option Chacha20Parameters)
      → KeyOutcome w caller key.address (init_chacha20 env caller mode key w p)
  unfolding init_chacha20
  init_chacha20-KeyOutcome p =
      guard-KeyOutcome (chacha20_key env caller mode key w)
        (guarded (checks (chacha20_checks p) status_ok) w
          (start_symmetric env caller mode key w false CipherAlgorithm.chacha20))
        (guard-KeyOutcome (checks (chacha20_checks p) status_ok)
          (start_symmetric env caller mode key w false CipherAlgorithm.chacha20)
          (start_symmetric-KeyOutcome env caller mode key w v ne false CipherAlgorithm.chacha20))

  init_chacha20_poly1305-KeyOutcome :
      (p : Option AeadParameters)
      → KeyOutcome w caller key.address (init_chacha20_poly1305 env caller mode key w p)
  unfolding init_chacha20_poly1305
  init_chacha20_poly1305-KeyOutcome p =
      guard-KeyOutcome (chacha20_key env caller mode key w)
        (guarded (checks (aead_checks p) status_ok) w
          (start_symmetric env caller mode key w true CipherAlgorithm.chacha20_poly1305))
        (guard-KeyOutcome (checks (aead_checks p) status_ok)
          (start_symmetric env caller mode key w true CipherAlgorithm.chacha20_poly1305)
          (start_symmetric-KeyOutcome env caller mode key w v ne true
            CipherAlgorithm.chacha20_poly1305))

  init_rsa_pkcs1v15-KeyOutcome :
      KeyOutcome w caller key.address (init_rsa_pkcs1v15 env caller mode key w)
  unfolding init_rsa_pkcs1v15
  init_rsa_pkcs1v15-KeyOutcome =
      guard-KeyOutcome (rsa_key env caller mode key w)
        (guarded (decrypts env caller mode key w) w (
          add_asymmetric_key env.alloc env.add_locks CipherAlgorithm.rsa_pkcs1v15 mode key.address
            caller w))
        (guard-KeyOutcome (decrypts env caller mode key w)
          (add_asymmetric_key env.alloc env.add_locks CipherAlgorithm.rsa_pkcs1v15 mode key.address
            caller w)
          (asymmetric-KeyOutcome env caller mode key w v ne CipherAlgorithm.rsa_pkcs1v15))

  init_ec-KeyOutcome : KeyOutcome w caller key.address (init_ec env caller mode key w)
  unfolding init_ec
  init_ec-KeyOutcome =
      let curve : Status =
        if is_pcurve env caller mode key w key.curve then status_ok else operation_not_allowed in
      let fits = key_status env caller mode key w (supports_ec key.key_type key.curve key.size) in
      let added =
        add_asymmetric_key env.alloc env.add_locks CipherAlgorithm.ec_elgamal mode key.address
          caller w in
      guard-KeyOutcome fits (guarded (decrypts env caller mode key w) w (guarded curve w added)) (
        guard-KeyOutcome (decrypts env caller mode key w) (guarded curve w added) (
          guard-KeyOutcome curve added
            (asymmetric-KeyOutcome env caller mode key w v ne CipherAlgorithm.ec_elgamal)))

  either-KeyOutcome :
      (test : Bool) (r r' : Result)
      → KeyOutcome w caller key.address r
      → KeyOutcome w caller key.address r'
      → KeyOutcome w caller key.address (if test then r else r')
  either-KeyOutcome true r r' h h' = h
  either-KeyOutcome false r r' h h' = h'

  init_algorithm-KeyOutcome :
      (a : ℕ) (p : Parameters)
      → a ≢ CipherAlgorithm.rsa_oaep
      → KeyOutcome w caller key.address (init_algorithm env caller mode key w a p)
  unfolding init_algorithm
  init_algorithm-KeyOutcome a p not_oaep =
      let other : (a == CipherAlgorithm.rsa_oaep) ≡ false = ground (arith, not_oaep) in
      let r8 : Result = init_ec env caller mode key w in
      let r6 : Result =
        if a == CipherAlgorithm.rsa_pkcs1v15 then init_rsa_pkcs1v15 env caller mode key w else r8 in
      let r5 : Result =
        if a == CipherAlgorithm.chacha20_poly1305
        then init_chacha20_poly1305 env caller mode key w p.as_aead
        else r6 in
      let r4 : Result =
        if a == CipherAlgorithm.chacha20
        then init_chacha20 env caller mode key w p.as_chacha20
        else r5 in
      let r3 : Result =
        if a == CipherAlgorithm.aes_gcm then init_aes_gcm env caller mode key w p.as_aead else r4 in
      let r2 : Result =
        if a == CipherAlgorithm.aes_ctr then init_aes_ctr env caller mode key w p.as_iv else r3 in
      let r1 : Result =
        if a == CipherAlgorithm.aes_cbc || a == CipherAlgorithm.aes_cbc_pkcs7
        then init_aes_cbc env caller mode key w a p.as_iv
        else r2 in
      let r0 : Result =
        if a == CipherAlgorithm.aes_ecb || a == CipherAlgorithm.aes_ecb_pkcs7
        then init_aes_ecb env caller mode key w a
        else r1 in
      rw (other, init_algorithm)
        (either-KeyOutcome (a == CipherAlgorithm.aes_ecb || a == CipherAlgorithm.aes_ecb_pkcs7)
          (init_aes_ecb env caller mode key w a) r1 (init_aes_ecb-KeyOutcome a)
          (either-KeyOutcome (a == CipherAlgorithm.aes_cbc || a == CipherAlgorithm.aes_cbc_pkcs7)
            (init_aes_cbc env caller mode key w a p.as_iv) r2 (init_aes_cbc-KeyOutcome a p.as_iv)
            (either-KeyOutcome (a == CipherAlgorithm.aes_ctr)
              (init_aes_ctr env caller mode key w p.as_iv) r3 (init_aes_ctr-KeyOutcome p.as_iv)
              (either-KeyOutcome (a == CipherAlgorithm.aes_gcm)
                (init_aes_gcm env caller mode key w p.as_aead) r4
                (init_aes_gcm-KeyOutcome p.as_aead)
                (either-KeyOutcome (a == CipherAlgorithm.chacha20)
                  (init_chacha20 env caller mode key w p.as_chacha20) r5
                  (init_chacha20-KeyOutcome p.as_chacha20)
                  (either-KeyOutcome (a == CipherAlgorithm.chacha20_poly1305)
                    (init_chacha20_poly1305 env caller mode key w p.as_aead) r6
                    (init_chacha20_poly1305-KeyOutcome p.as_aead)
                    (either-KeyOutcome (a == CipherAlgorithm.rsa_pkcs1v15)
                      (init_rsa_pkcs1v15 env caller mode key w) r8 init_rsa_pkcs1v15-KeyOutcome
                      (init_ec-KeyOutcome))))))))

  free-owned :
      (r : Result)
      → KeyOutcome w caller key.address r
      → let r' = free_unless_ok env caller mode key w r in
        ((r'.0 ≡ status_ok) × Taken w caller key.address r'.1 r'.2)
        ⊎ ((is_ok r'.0 ≡ false) × (r'.2.at ≡ w.at) × (r'.2.freed_keys ≡ key.address ∷ w.freed_keys))
  free-owned (s, handle, w') (inl (good, taken)) = rw good (inl (refl, taken))
  free-owned (s, handle, w') (inr (bad, left)) =
      let given : (key.address == 0) ≡ false = ground (arith, ne) in
      rw (bad, given) (inr (bad, left.same_ciphers, ap (λ ks. key.address ∷ ks) left.keys_kept))

  -- With a valid object store, a key that is not NULL, and any algorithm but RSA-OAEP: if
  -- `ta_sa_crypto_cipher_init` succeeds with the unwrapped key, the store of ciphers has a cipher for the
  -- key at the handle that is returned, and the key is not freed; otherwise no cipher was added, and the
  -- key is freed once.
  pub init_with_key-owned :
      (a : ℕ) (p : Parameters)
      → a ≢ CipherAlgorithm.rsa_oaep
      → let r = init_with_key env caller mode key w a p in
        ((r.0 ≡ status_ok) × Taken w caller key.address r.1 r.2)
        ⊎ ((is_ok r.0 ≡ false) × (r.2.at ≡ w.at) × (r.2.freed_keys ≡ key.address ∷ w.freed_keys))
  unfolding init_with_key
  init_with_key-owned a p not_oaep =
      let allowed : Status =
        if key_allowed env caller mode key w then status_ok else operation_not_allowed in
      let tried : Result = init_algorithm env caller mode key w a p in
      free-owned (guarded allowed w tried)
        (guard-KeyOutcome allowed tried (init_algorithm-KeyOutcome a p not_oaep))
