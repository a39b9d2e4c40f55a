-- ===== src/KeyUnwrap/Allowed.antt =====
-- What ta_sa_key_unwrap has checked when it has unwrapped a key.
use tasecureapi.Prelude.{
  ℕ, ◌≡◌, refl, ap, ◌⊎◌, inl, inr, Bool, true, false, ◌&&◌, ◌||◌, not, Option, none, some, List, [],
  ◌∷◌, ◌++◌, ltb, invalid_parameter, All, arith, ◌==◌, if◌then◌else◌, checks, Status, status_ok,
  Bool-cases,
}
use tasecureapi.Prelude.KeyType
use tasecureapi.Prelude.CipherAlgorithm
use tasecureapi.Rights.{Rights, allowed_unwrap}
use tasecureapi.Rights.Flag
use tasecureapi.Rights.Allowed.{Has, InPeriod, allowed_use_iff}
use tasecureapi.KeySize.{supports_aes, supports_chacha20, supports_rsa, supports_ec}
use tasecureapi.Svp.{is_ok}
use tasecureapi.Svp.Bounds.{is_ok_lem}
use tasecureapi.StoredKey.{Key, Header}
use tasecureapi.CipherInit.Algorithms.{OaepParameters, iv_checks}
use tasecureapi.Pad.{aes_block_size}
use tasecureapi.Symmetric.Last.{chacha20_tag_length}
use tasecureapi.CipherProcess.Guards.{all_errors, checks_passed}
use tasecureapi.KeyUnwrap.Unwrap.{Environment, Wrapped, ElgamalParameters, unwrap_rsa, unwrap_ec}
use tasecureapi.KeyUnwrap.Imported.{
  Restricted, Imported, unwrap_blocks-Imported, unwrap_bytes-Imported, unwrap_rsa-Imported,
  unwrap_ec-Imported,
}
use tasecureapi.KeyUnwrap.{
  Parameters, Outcome, import_unwrapped, guarded_unwrap, aes_guards, chacha20_guards, tagged_checks,
  counter_checks, tag_length_of, rsa_guards, ec_guards, only_symmetric, in_blocks,
  key_unwrap_aes_ecb, key_unwrap_aes_cbc, key_unwrap_aes_ctr, key_unwrap_aes_gcm,
  key_unwrap_chacha20, key_unwrap_chacha20_poly1305, key_unwrap_rsa, key_unwrap_ec,
  unwrap_algorithm, key_unwrap,
}

-- The wrapping keys that an algorithm takes.
abbrev pub Fits : ℕ → Header → Type 0
Fits a h =
    (((a ≡ CipherAlgorithm.aes_ecb)
        ⊎ (a ≡ CipherAlgorithm.aes_ecb_pkcs7)
        ⊎ (a ≡ CipherAlgorithm.aes_cbc)
        ⊎ (a ≡ CipherAlgorithm.aes_cbc_pkcs7)
        ⊎ (a ≡ CipherAlgorithm.aes_ctr)
        ⊎ (a ≡ CipherAlgorithm.aes_gcm))
      × (supports_aes h.key_type h.size ≡ true))
    ⊎ (((a ≡ CipherAlgorithm.chacha20) ⊎ (a ≡ CipherAlgorithm.chacha20_poly1305))
        × (supports_chacha20 h.key_type h.size ≡ true))
    ⊎ (((a ≡ CipherAlgorithm.rsa_pkcs1v15) ⊎ (a ≡ CipherAlgorithm.rsa_oaep))
        × (supports_rsa h.key_type h.size ≡ true))
    ⊎ ((a ≡ CipherAlgorithm.ec_elgamal)
        × (supports_ec h.key_type h.type_parameters.curve h.size ≡ true))

-- The key store has handed out a key that may unwrap now and that fits the algorithm, and has taken a
-- key with the rights that this one leaves.
pub record Unwrapped (env : Environment) (rights : Rights) (a : ℕ) (found : Status × Option Key)
    (imported : Option Key) : Type 0 where
  pub wrapping : Key
  pub handed_out : found ≡ (status_ok, some wrapping)
  pub usage : Has wrapping.header.rights Flag.unwrap
  pub period : InPeriod wrapping.header.rights env.now
  pub fits : Fits a wrapping.header
  pub key : Key
  pub stored : imported ≡ some key
  pub restricted : Restricted rights wrapping.header.rights key

-- What a good status of an outcome says.
record Done (env : Environment) (rights : Rights) (a : ℕ) (found : Status × Option Key)
    (o : Outcome) : Type 0 where
  done : o.status ≡ status_ok → Unwrapped env rights a found o.imported

module _ (env : Environment) (store : Key → Status × ℕ) (wrapped : Wrapped) (a : ℕ) where
  import_unwrapped_ok :
      (found : Status × Option Key) (parent : Rights) (r : Status × Option Key)
      → Imported wrapped.rights parent r
      → (import_unwrapped env store found wrapped r).status ≡ status_ok
      → (key : Key) × ((import_unwrapped env store found wrapped r).imported ≡ some key)
        × Restricted wrapped.rights parent key
  import_unwrapped_ok found parent (s, none) h good = absurd (elim (Bool-cases (is_ok s)) [
    | inl fine ↦ ground (arith, good, fine)
    | inr bad ↦ ground (arith, good, bad)
  ])
  import_unwrapped_ok found parent (s, some key) h good = elim (Bool-cases (is_ok s)) [
    | inl fine ↦ let k = h (is_ok_lem s fine) in rw fine k
    | inr bad ↦ absurd (ground (arith, good, bad))
  ]

  guarded_unwrap_ok :
      (first : List (Bool × Status)) (guards : Key → List (Bool × Status))
      (unwrap : Key → Status × Option Key)
      → ((key : Key) → all_errors (guards key) ≡ true)
      → ((key : Key)
          → All (λ g. g.0 ≡ false) (guards key)
          → (allowed_unwrap (some key.header.rights) env.now ≡ true) × Fits a key.header)
      → ((key : Key) → Imported wrapped.rights key.header.rights (unwrap key))
      → (found : Status × Option Key)
      → (guarded_unwrap env store found wrapped first guards unwrap).status ≡ status_ok
      → Unwrapped env wrapped.rights a found
          (guarded_unwrap env store found wrapped first guards unwrap).imported
  guarded_unwrap_ok first guards unwrap errors allowed imports (s, none) h =
      absurd (elim (Bool-cases (is_ok (checks first status_ok))) [
        | inr bad ↦ ground (arith, h, bad)
        | inl fine ↦ elim (Bool-cases (is_ok s)) [
          | inl good ↦ ground (arith, h, fine, good)
          | inr bad ↦ ground (arith, h, fine, bad)
        ]
      ])
  guarded_unwrap_ok first guards unwrap errors allowed imports (s, some key) h =
      let checked = checks (guards key) status_ok in
      elim (Bool-cases (is_ok (checks first status_ok))) [
        | inr bad ↦ absurd (ground (arith, h, bad))
        | inl good1 ↦ elim (Bool-cases (is_ok s)) [
          | inr bad ↦ absurd (ground (arith, h, good1, bad))
          | inl good2 ↦ elim (Bool-cases (is_ok checked)) [
            | inr bad ↦ absurd (ground (arith, h, good1, good2, bad))
            | inl good3 ↦
                let u = import_unwrapped env store (s, some key) wrapped (unwrap key) in
                let good : u.status ≡ status_ok = ground (arith, h, good1, good2, good3) in
                let made =
                  import_unwrapped_ok (s, some key) key.header.rights (unwrap key) (imports key)
                    good in
                let x =
                  allowed key
                    (checks_passed (guards key) status_ok (errors key)
                      (is_ok_lem checked good3)).0 in
                let may = ((allowed_use_iff key.header.rights env.now).2.0) x.0 in
                rw (good1, good2, good3)
                  (record {
                    wrapping = key;
                    handed_out = ap (λ s. (s, some key)) (is_ok_lem s good2);
                    usage = may.0;
                    period = may.1;
                    fits = x.1;
                    key = made.0;
                    stored = made.1;
                    restricted = made.2;
                  })
          ]
        ]
      ]

module _ (env : Environment) (store : Key → Status × ℕ) (wrapped : Wrapped) (a : ℕ)
    (found : Status × Option Key) where
  abbrev IsDone : Outcome → Type 0
  IsDone = Done env wrapped.rights a found

  choice-Done :
      (b : Bool) (x y : Outcome)
      → (b ≡ true → IsDone x)
      → (b ≡ false → IsDone y)
      → IsDone (if b then x else y)
  choice-Done true x y hx hy = hx refl
  choice-Done false x y hx hy = hy refl

  aes-Done :
      (first : List (Bool × Status)) (unwrap : Key → Status × Option Key)
      → (a ≡ CipherAlgorithm.aes_ecb)
        ⊎ (a ≡ CipherAlgorithm.aes_ecb_pkcs7)
        ⊎ (a ≡ CipherAlgorithm.aes_cbc)
        ⊎ (a ≡ CipherAlgorithm.aes_cbc_pkcs7)
        ⊎ (a ≡ CipherAlgorithm.aes_ctr)
        ⊎ (a ≡ CipherAlgorithm.aes_gcm)
      → ((key : Key) → Imported wrapped.rights key.header.rights (unwrap key))
      → IsDone
          (guarded_unwrap env store found wrapped first (aes_guards env store found wrapped) unwrap)
  aes-Done first unwrap is_aes imports = record {
    done =
        guarded_unwrap_ok env store wrapped a first (aes_guards env store found wrapped) unwrap
          (λ key. refl)
          (λ key passed. (ground (arith, passed), inl (is_aes, ground (arith, passed)))) imports
          found;
  }

  chacha20-Done :
      (first : List (Bool × Status)) (unwrap : Key → Status × Option Key)
      → (a ≡ CipherAlgorithm.chacha20) ⊎ (a ≡ CipherAlgorithm.chacha20_poly1305)
      → ((key : Key) → Imported wrapped.rights key.header.rights (unwrap key))
      → IsDone (
          guarded_unwrap env store found wrapped first
            (chacha20_guards env store found wrapped)
            unwrap)
  chacha20-Done first unwrap is_chacha20 imports = record {
    done =
        guarded_unwrap_ok env store wrapped a first (chacha20_guards env store found wrapped) unwrap
          (λ key. refl)
          (λ key passed. (ground (arith, passed), inr (inl (is_chacha20, ground (arith, passed)))))
          imports found;
  }

  rsa-Done :
      (p : Option OaepParameters)
      → (a ≡ CipherAlgorithm.rsa_pkcs1v15) ⊎ (a ≡ CipherAlgorithm.rsa_oaep)
      → IsDone (key_unwrap_rsa env store found wrapped a p)
  unfolding key_unwrap_rsa
  rsa-Done p is_rsa = record {
    done =
        guarded_unwrap_ok env store wrapped a (only_symmetric env store found wrapped ∷ [])
          (rsa_guards env store found wrapped)
          (unwrap_rsa env wrapped (a == CipherAlgorithm.rsa_oaep) p) (λ key. refl)
          (λ key passed. (ground (arith, passed), inr (inr (inl (is_rsa, ground (arith, passed))))))
          (λ key. unwrap_rsa-Imported env wrapped key (a == CipherAlgorithm.rsa_oaep) p) found;
  }

  ec-Done :
      (p : Option ElgamalParameters)
      → a ≡ CipherAlgorithm.ec_elgamal
      → IsDone (key_unwrap_ec env store found wrapped p)
  unfolding key_unwrap_ec
  ec-Done none is_ec = record {
    done = λ h. absurd (elim (Bool-cases (wrapped.key_type == KeyType.symmetric)) [
      | inl e ↦ ground (arith, h, e)
      | inr e ↦ ground (arith, h, e)
    ]);
  }
  ec-Done (some p) is_ec = record {
    done =
        guarded_unwrap_ok env store wrapped a (only_symmetric env store found wrapped ∷ [])
          (ec_guards env store found wrapped) (unwrap_ec env wrapped p) (λ key. refl)
          (λ key passed. (ground (arith, passed), inr (inr (inr (is_ec, ground (arith, passed))))))
          (λ key. unwrap_ec-Imported env wrapped key p) found;
  }

  unwrap_algorithm-Done :
      (old_openssl : Bool) (p : Parameters)
      → IsDone (unwrap_algorithm env store found wrapped old_openssl a p)
  unfolding unwrap_algorithm key_unwrap_aes_ecb key_unwrap_aes_cbc key_unwrap_aes_ctr
      key_unwrap_aes_gcm key_unwrap_chacha20 key_unwrap_chacha20_poly1305
  unwrap_algorithm-Done old_openssl p =
      let blocks =
        λ (padding : ℕ) (key : Key). unwrap_blocks-Imported env wrapped key a (a == padding) in
      let bytes = λ (algorithm : ℕ) (key : Key). unwrap_bytes-Imported env wrapped key algorithm in
      choice-Done (a == CipherAlgorithm.aes_ecb || a == CipherAlgorithm.aes_ecb_pkcs7) _ _
        (λ e.
          aes-Done (in_blocks env store found wrapped ∷ []) _ (ground (arith, e))
            (blocks CipherAlgorithm.aes_ecb_pkcs7))
        (λ n.
          choice-Done (a == CipherAlgorithm.aes_cbc || a == CipherAlgorithm.aes_cbc_pkcs7) _ _
            (λ e.
              aes-Done (iv_checks p.as_iv ++ in_blocks env store found wrapped ∷ []) _
                (ground (arith, e)) (blocks CipherAlgorithm.aes_cbc_pkcs7))
            (λ n.
              choice-Done (a == CipherAlgorithm.aes_ctr) _ _
                (λ e.
                  aes-Done (iv_checks p.as_iv) _ (ground (arith, e))
                    (bytes CipherAlgorithm.aes_ctr))
                (λ n.
                  choice-Done (a == CipherAlgorithm.aes_gcm) _ _
                    (λ e.
                      aes-Done
                        (tagged_checks p.as_tagged
                          ++ (ltb aes_block_size (tag_length_of p.as_tagged), invalid_parameter)
                            ∷ [])
                        _ (ground (arith, e)) (bytes CipherAlgorithm.aes_gcm))
                    (λ n.
                      choice-Done (a == CipherAlgorithm.chacha20 && not old_openssl) _ _
                        (λ e.
                          chacha20-Done (counter_checks p.as_chacha20) _ (ground (arith, e))
                            (bytes CipherAlgorithm.chacha20))
                        (λ n.
                          choice-Done (a == CipherAlgorithm.chacha20_poly1305 && not old_openssl) _
                            _
                            (λ e.
                              chacha20-Done
                                (tagged_checks p.as_tagged
                                  ++ (
                                    not (tag_length_of p.as_tagged == chacha20_tag_length),
                                    invalid_parameter,
                                  )
                                    ∷ [])
                                _ (ground (arith, e)) (bytes CipherAlgorithm.chacha20_poly1305))
                            (λ n.
                              choice-Done
                                (a == CipherAlgorithm.rsa_pkcs1v15 || a == CipherAlgorithm.rsa_oaep)
                                _ _ (λ e. rsa-Done p.as_oaep (ground (arith, e)))
                                (λ n.
                                  choice-Done (a == CipherAlgorithm.ec_elgamal) _ _
                                    (λ e. ec-Done p.as_elgamal (ground (arith, e)))
                                    (λ n. record { done = λ h. absurd (ground (arith, h)) }))))))))

-- If `ta_sa_key_unwrap` returns a good status, the key store has handed out a wrapping key whose rights
-- allow it to unwrap now and whose type and size fit the algorithm, and has taken a key of a supported
-- type and size whose rights are those of the request as the wrapping key restricts them.
pub key_unwrap_allowed :
    (env : Environment) (store : Key → Status × ℕ) (found : Status × Option Key) (wrapped : Wrapped)
    (pointers : List Bool) (client : Status) (old_openssl : Bool) (a : ℕ) (p : Parameters)
    → let o = key_unwrap env store found wrapped pointers client old_openssl a p in
      o.status ≡ status_ok → Unwrapped env wrapped.rights a found o.imported
unfolding key_unwrap
key_unwrap_allowed env store found wrapped [] client old_openssl a p h =
    elim (Bool-cases (is_ok client)) [
      | inl good ↦
          let done = (unwrap_algorithm-Done env store wrapped a found old_openssl p).done in
          rw good (done (ground (arith, h, good)))
      | inr bad ↦ absurd (ground (arith, h, bad))
    ]
key_unwrap_allowed env store found wrapped (true ∷ pointers) client old_openssl a p h =
    key_unwrap_allowed env store found wrapped pointers client old_openssl a p h
key_unwrap_allowed env store found wrapped (false ∷ pointers) client old_openssl a p h =
    absurd (ground (arith, h))
