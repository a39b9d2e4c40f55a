-- ===== src/CipherProcess/Allowed.antt =====
-- What a command has checked when it has processed data.
use tasecureapi.Prelude.{
  ℕ, ◌*◌, ◌%◌, ◌≡◌, refl, ◌⊎◌, inl, inr, Bool, true, false, ◌||◌, Option, some, List, All, arith,
  ◌==◌, if◌then◌else◌, checks, Status, status_ok, Bool-cases, Option-cases,
}
use tasecureapi.Prelude.CipherMode
use tasecureapi.Prelude.CipherAlgorithm
use tasecureapi.Prelude.KeyType
use tasecureapi.Rights.{Rights, allowed_decrypt}
use tasecureapi.Memory.{size_mod}
use tasecureapi.Rights.Flag
use tasecureapi.Rights.Allowed.{Has, InPeriod, OutputsIfSymmetric, allowed_cipher_iff}
use tasecureapi.Svp.{is_ok}
use tasecureapi.Cenc.Verify.{is_some}
use tasecureapi.CipherStore.{is_symmetric}
use tasecureapi.CipherProcess.Types.{returned, Cipher, Calls, Environment, Call, Handled}
use tasecureapi.CipherProcess.Last.{
  EndParameters, pkcs7_guards, stream_guards, gcm_guards, chacha20_poly1305_guards, last_aes_pkcs7,
  last_stream, last_aes_gcm, last_chacha20_poly1305, last_algorithm,
}
use tasecureapi.CipherProcess.Guards.{all_errors, chosen, checks_passed, handled_checked}
use tasecureapi.CipherProcess.Handlers.{
  is_padded, process_rsa_pkcs1v15, process_rsa_oaep, process_ec_elgamal, symmetric_guards,
  asymmetric_guards, mode_status, process_symmetric, process_algorithm,
}

-- The rights of the cipher's key allow its mode, now and with the outputs in use.
pub record Permitted {C : Type 0} (env : Environment) (cipher : Cipher C) (rights : Rights)
    : Type 0 where
  pub has_rights : cipher.rights ≡ some rights
  pub mode :
      ((cipher.mode ≡ CipherMode.encrypt_mode) × Has rights Flag.encrypt)
      ⊎ ((cipher.mode ≡ CipherMode.decrypt_mode) × Has rights Flag.decrypt)
  pub period : InPeriod rights env.now
  pub outputs :
      is_symmetric cipher.algorithm ≡ true → OutputsIfSymmetric rights env.outputs KeyType.symmetric

module _ {C : Type 0} (env : Environment) (cipher : Cipher C) where
  mode_status-Permitted :
      is_some cipher.rights ≡ true
      → mode_status env cipher ≡ status_ok
      → (rights : Rights) × Permitted env cipher rights
  mode_status-Permitted given h = elim (Option-cases cipher.rights) [
    | inl missing ↦ absurd (ground (arith, missing))
    | inr (rights, present) ↦
        let iff = allowed_cipher_iff rights env.now env.outputs KeyType.symmetric in
        elim (Bool-cases (cipher.mode == CipherMode.encrypt_mode)) [
          | inl encrypts ↦
              let x = (iff.1.0) (ground (arith, h, encrypts, present)) in
              (
                rights,
                record {
                  has_rights = present;
                  mode = inl (ground (arith, encrypts), x.0);
                  period = x.1;
                  outputs = λ s. x.2;
                },
              )
          | inr other ↦
              let x = (iff.0.0) (ground (arith, h, other, present)) in
              (
                rights,
                record {
                  has_rights = present;
                  mode = inr (ground (arith, h, other), x.0);
                  period = x.1;
                  outputs = λ s. x.2;
                },
              )
        ]
  ]

  process_symmetric-Permitted :
      (calls : Calls C) (call : Call)
      → (process_symmetric calls env cipher call).status ≡ status_ok
      → (rights : Rights) × Permitted env cipher rights
  unfolding process_symmetric
  process_symmetric-Permitted calls call h =
      let passed =
        checks_passed (symmetric_guards env cipher call) (mode_status env cipher) refl
          (handled_checked cipher call _ _ h) in
      mode_status-Permitted (ground (arith, passed.0)) passed.1

  asymmetric-Permitted :
      (call : Call) (expected key_type : ℕ)
      → is_symmetric cipher.algorithm ≡ false
      → checks (asymmetric_guards env cipher call expected key_type) status_ok ≡ status_ok
      → (rights : Rights) × Permitted env cipher rights
  asymmetric-Permitted call expected key_type other h =
      let passed =
        (checks_passed (asymmetric_guards env cipher call expected key_type) status_ok refl h).0 in
      elim (Option-cases cipher.rights) [
        | inl missing ↦ absurd (ground (arith, passed, missing))
        | inr (rights, present) ↦
            let allowed : allowed_decrypt (some rights) env.now env.outputs key_type ≡ true =
              ground (arith, passed, present) in
            let x = ((allowed_cipher_iff rights env.now env.outputs key_type).0).0 allowed in
            (
              rights,
              record {
                has_rights = present;
                mode = inr (ground (arith, passed), x.0);
                period = x.1;
                outputs = λ s. absurd (ground (arith, s, other));
              },
            )
      ]

  pub process_algorithm-Permitted :
      (calls : Calls C) (call : Call)
      → (process_algorithm calls env cipher call).status ≡ status_ok
      → (rights : Rights) × Permitted env cipher rights
  unfolding process_algorithm process_rsa_pkcs1v15 process_rsa_oaep process_ec_elgamal
  process_algorithm-Permitted calls call h = elim (chosen (is_symmetric cipher.algorithm) _ _ h) [
    | inl (symmetric, done) ↦ process_symmetric-Permitted calls call done
    | inr (other, rest) ↦
        let from_key = asymmetric-Permitted call in
        elim (chosen (cipher.algorithm == CipherAlgorithm.rsa_pkcs1v15) _ _ rest) [
          | inl (e, done) ↦
              from_key cipher.key_size KeyType.rsa other (handled_checked cipher call _ _ done)
          | inr (n, rest2) ↦
              elim (chosen (cipher.algorithm == CipherAlgorithm.rsa_oaep) _ _ rest2) [
                | inl (e, done) ↦
                    from_key cipher.key_size KeyType.rsa other
                      (handled_checked cipher call _ _ done)
                | inr (n2, rest3) ↦
                    elim (chosen (cipher.algorithm == CipherAlgorithm.ec_elgamal) _ _ rest3) [
                      | inl (e, done) ↦
                          from_key (cipher.key_size * 4 % size_mod) KeyType.ec other
                            (handled_checked cipher call _ _ done)
                      | inr (n3, bad) ↦ absurd (ground (arith, bad))
                    ]
              ]
        ]
  ]

  -- Guards in front of the mode and its right.
  guarded-Permitted :
      (call : Call) (guards : List (Bool × Status)) (handled : Handled C)
      → all_errors guards ≡ true
      → (All (λ g. g.0 ≡ false) guards → is_some cipher.rights ≡ true)
      → (let checked = checks guards (mode_status env cipher) in
          if is_ok checked then handled else returned cipher call checked).status
        ≡ status_ok
      → (rights : Rights) × Permitted env cipher rights
  guarded-Permitted call guards handled errors given h =
      let passed =
        checks_passed guards (mode_status env cipher) errors (handled_checked cipher call _ _ h) in
      mode_status-Permitted (given passed.0) passed.1

  pub last_algorithm-Permitted :
      (calls : Calls C) (p : Option EndParameters) (call : Call)
      → (call.out == 0) ≡ false
      → (last_algorithm calls env cipher p call).status ≡ status_ok
      → (rights : Rights) × Permitted env cipher rights
  unfolding last_algorithm last_aes_pkcs7 last_stream last_aes_gcm last_chacha20_poly1305
  last_algorithm-Permitted calls p call out h =
      let a = cipher.algorithm in
      elim (chosen (is_padded a) _ _ h) [
        | inl (e, done) ↦ elim (chosen (call.out == 0) _ _ done) [
          | inl (null, x) ↦ absurd (ground (arith, null, out))
          | inr (given, x) ↦
              guarded-Permitted call (pkcs7_guards env cipher call) _ refl
                (λ passed. ground (arith, passed)) x
        ]
        | inr (n, rest) ↦
            elim (chosen (a == CipherAlgorithm.aes_ctr || a == CipherAlgorithm.chacha20) _ _ rest) [
              | inl (e, done) ↦
                  guarded-Permitted call (stream_guards env cipher call) _ refl
                    (λ passed. ground (arith, passed)) done
              | inr (n2, rest2) ↦ elim (chosen (a == CipherAlgorithm.aes_gcm) _ _ rest2) [
                | inl (e, done) ↦
                    guarded-Permitted call (gcm_guards env cipher call p) _ refl
                      (λ passed. ground (arith, passed)) done
                | inr (n3, rest3) ↦
                    elim (chosen (a == CipherAlgorithm.chacha20_poly1305) _ _ rest3) [
                      | inl (e, done) ↦
                          guarded-Permitted call (chacha20_poly1305_guards env cipher call p) _ refl
                            (λ passed. ground (arith, passed)) done
                      | inr (n4, bad) ↦ absurd (ground (arith, bad))
                    ]
              ]
            ]
      ]
