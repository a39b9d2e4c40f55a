-- ===== src/CipherInit/Allowed.antt =====
-- What ta_sa_crypto_cipher_init has checked when it succeeds.
use tasecureapi.Prelude.{
  ℕ, ◌≡◌, ap, ◌⊎◌, inl, inr, Bool, true, not, Option, none, some, [], ◌∷◌, arith, ◌==◌,
  if◌then◌else◌, checks, Status, status_ok, null_parameter, invalid_parameter,
  operation_not_allowed, Bool-cases, Uuid,
}
use tasecureapi.Prelude.CipherMode
use tasecureapi.Rights.Flag
use tasecureapi.Rights.Allowed.{Has, InPeriod, OutputsIfSymmetric, allowed_cipher_iff}
use tasecureapi.Svp.{is_ok}
use tasecureapi.Svp.Bounds.{is_ok_lem}
use tasecureapi.CipherStore.{Ciphers, Result, is_mode}
use tasecureapi.CipherInit.Algorithms.{all_given, Environment, StoredKey, Parameters, guarded}
use tasecureapi.CipherInit.{
  init_algorithm, free_unless_ok, init_with_key, key_allowed, with_unwrapped, is_algorithm,
  cipher_init,
}
use tasecureapi.CipherInit.Fits.{Fits, guarded_ok, init_algorithm-Fits}

-- The right to use a key in a mode, now and for the outputs in use.
abbrev pub Permitted : Environment → ℕ → StoredKey → Type 0
Permitted env mode key =
    (((mode ≡ CipherMode.encrypt_mode) × Has key.rights Flag.encrypt)
      ⊎ ((mode ≡ CipherMode.decrypt_mode) × Has key.rights Flag.decrypt))
    × InPeriod key.rights env.now
    × OutputsIfSymmetric key.rights env.outputs key.key_type

module _ (env : Environment) (caller : Uuid) (mode : ℕ) (key : StoredKey) (w : Ciphers) where
  free_unless_ok-ok :
      (r : Result) → (free_unless_ok env caller mode key w r).0 ≡ status_ok → r.0 ≡ status_ok
  free_unless_ok-ok (s, handle, w') h = elim (Bool-cases (is_ok s)) [
    | inl fine ↦ is_ok_lem s fine
    | inr bad ↦ absurd (ground (arith, bad))
  ]

  key_allowed-Permitted :
      is_mode mode ≡ true → key_allowed env caller mode key w ≡ true → Permitted env mode key
  key_allowed-Permitted known h =
      let iff = allowed_cipher_iff key.rights env.now env.outputs key.key_type in
      elim (Bool-cases (mode == CipherMode.encrypt_mode)) [
        | inl encrypts ↦
            let x = (iff.1.0) (ground (arith, h, encrypts)) in
            ((inl (ground (arith, encrypts), x.0)), x.1, x.2)
        | inr other ↦
            let x = (iff.0.0) (ground (arith, h, other)) in
            ((inr (ground (arith, known, other), x.0)), x.1, x.2)
      ]

  init_with_key_ok :
      (a : ℕ) (p : Parameters)
      → is_algorithm a ≡ true
      → is_mode mode ≡ true
      → (init_with_key env caller mode key w a p).0 ≡ status_ok
      → Permitted env mode key × Fits a mode key
  unfolding init_with_key
  init_with_key_ok a p is_a known h =
      let allowed : Status =
        if key_allowed env caller mode key w then status_ok else operation_not_allowed in
      let tried : Result = init_algorithm env caller mode key w a p in
      let g = guarded_ok allowed w tried (free_unless_ok-ok (guarded allowed w tried) h) in
      (
        key_allowed-Permitted known (ground (arith, g.0)),
        init_algorithm-Fits env caller mode key w a p is_a g.1,
      )

with_unwrapped_ok :
    (env : Environment) (caller : Uuid) (a mode : ℕ) (unwrapped : Status × Option StoredKey)
    (p : Parameters) (w : Ciphers)
    → is_algorithm a ≡ true
    → is_mode mode ≡ true
    → (with_unwrapped env caller a mode unwrapped p w).0 ≡ status_ok
    → (key : StoredKey) × (unwrapped ≡ (status_ok, some key))
      × Permitted env mode key
      × Fits a mode key
unfolding with_unwrapped
with_unwrapped_ok env caller a mode (s, none) p w is_a known h =
    absurd (elim (Bool-cases (is_ok s)) [
      | inl fine ↦ ground (arith, h, fine)
      | inr bad ↦ ground (arith, h, bad)
    ])
with_unwrapped_ok env caller a mode (s, some key) p w is_a known h = elim (Bool-cases (is_ok s)) [
  | inl fine ↦
      let called = record env { pointers = all_given } in
      let started : (init_with_key called caller mode key w a p).0 ≡ status_ok =
        ground (arith, h, fine) in
      let r = init_with_key_ok called caller mode key w a p is_a known started in
      (key, ap (λ x. (x, some key)) (is_ok_lem s fine), r.0, r.1)
  | inr bad ↦ absurd (ground (arith, h, bad))
]

-- If `ta_sa_crypto_cipher_init` succeeds, the key was unwrapped; its rights allow it to be used in the
-- mode now and for the outputs in use; and its type and size fit the algorithm and the mode: keys
-- of 16 or 32 bytes for AES and of 32 for ChaCha20; and, only to decrypt, RSA keys of 128, 256, 384 or
-- 512 bytes, and EC keys on one of the five curves of NIST, of the size of the curve.
pub cipher_init_allowed :
    (env : Environment) (caller : Option Uuid) (context_given : Bool) (a mode : ℕ) (client : Status)
    (unwrapped : Status × Option StoredKey) (p : Parameters) (w : Ciphers)
    → (cipher_init env caller context_given a mode client unwrapped p w).0 ≡ status_ok
    → (key : StoredKey) × (unwrapped ≡ (status_ok, some key))
      × Permitted env mode key
      × Fits a mode key
unfolding cipher_init
cipher_init_allowed env none context_given a mode client unwrapped p w h = cc
cipher_init_allowed env (some caller) context_given a mode client unwrapped p w h =
    let started = with_unwrapped env caller a mode unwrapped p w in
    let refused : Status =
      checks
        ((not context_given, null_parameter)
          ∷ (not (is_algorithm a), invalid_parameter)
          ∷ (not (is_mode mode), invalid_parameter)
          ∷ [])
        status_ok in
    let g = guarded_ok refused w (guarded client w started) h in
    let is_a : is_algorithm a ≡ true = elim (Bool-cases (is_algorithm a)) [
      | inl y ↦ y
      | inr n ↦ absurd (ground (arith, g.0, n))
    ] in
    let known : is_mode mode ≡ true = elim (Bool-cases (is_mode mode)) [
      | inl y ↦ y
      | inr n ↦ absurd (ground (arith, g.0, n))
    ] in
    with_unwrapped_ok env caller a mode unwrapped p w is_a known (guarded_ok client w started g.1).1
