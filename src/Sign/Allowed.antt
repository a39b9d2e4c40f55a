-- ===== src/Sign/Allowed.antt =====
-- What ta_sa_crypto_sign has checked when it signs.
use tasecureapi.Prelude.{
  ℕ, ◌≡◌, refl, ap, sym, subst, inl, inr, Bool, true, false, ◌||◌, Option, none, some, All, arith,
  ◌==◌, if◌then◌else◌, checks, Status, status_ok, Bool-cases,
}
use tasecureapi.Rights.{allowed_sign}
use tasecureapi.Rights.Flag
use tasecureapi.Rights.Allowed.{Has, InPeriod, allowed_use_iff}
use tasecureapi.Svp.{is_ok}
use tasecureapi.Svp.Bounds.{is_ok_lem}
use tasecureapi.StoredKey.{Key}
use tasecureapi.CipherProcess.Guards.{checks_passed}
use tasecureapi.Sign.{
  rsa_pss, ecdsa, eddsa, SignParameters, Signing, Environment, Request, Outcome, sign_algorithm,
  request_guards, sign_found, crypto_sign,
}
use tasecureapi.Sign.Algorithms.{
  Fits, Signed, sign_ecdsa-Signed, sign_eddsa-Signed, sign_rsa_pss-Signed, sign_rsa_pkcs1v15-Signed,
}

abbrev known_algorithm : ℕ → Bool
known_algorithm a = a == 0 || a == rsa_pss || a == ecdsa || a == eddsa

known_of :
    (caller_given : Bool) (r : Request) (a : ℕ)
    → All (λ g. g.0 ≡ false) (request_guards caller_given r a)
    → known_algorithm a ≡ true
known_of caller_given r a passed = ground (arith, passed)

-- The rights of a key that may sign, said of an equal key.
allows :
    (k key : Key) (env : Environment)
    → k ≡ key
    → allowed_sign (some key.header.rights) env.now ≡ true
    → Has k.header.rights Flag.sign × InPeriod k.header.rights env.now
allows k key env same allowed =
    subst (λ k. Has k.header.rights Flag.sign × InPeriod k.header.rights env.now) (sym same)
      (((allowed_use_iff key.header.rights env.now).3.0) allowed)

module _ (env : Environment) (r : Request) (key : Key) where
  choice-Signed :
      (a : ℕ) (b : Bool) (x y : Outcome)
      → (b ≡ true → Signed r key a x)
      → (b ≡ false → Signed r key a y)
      → Signed r key a (if b then x else y)
  choice-Signed a true x y hx hy = hx refl
  choice-Signed a false x y hx hy = hy refl

  -- The algorithm of a lemma is the one that a test has found.
  moved : (a b : ℕ) (o : Outcome) → a ≡ b → Signed r key b o → Signed r key a o
  moved a b o e h = subst (λ n. Signed r key n o) (sym e) h

  sign_algorithm-Signed :
      (a : ℕ) (p : Option SignParameters)
      → known_algorithm a ≡ true
      → (c : Signing) → (sign_algorithm env r key a p).signed ≡ some c
      → (allowed_sign (some key.header.rights) env.now ≡ true)
        × ((c.key ≡ key) × (c.algorithm ≡ a) × (r.out_given ≡ true) × Fits c r.out_length)
  unfolding sign_algorithm
  sign_algorithm-Signed a p known c h =
      elim (Bool-cases (allowed_sign (some key.header.rights) env.now)) [
        | inr refused ↦ absurd (ground (arith, h, refused))
        | inl allowed ↦
            let chosen : Signed r key a (sign_algorithm env r key a p) = rw allowed (
              choice-Signed a (a == ecdsa) _ _
                (λ e. moved a ecdsa _ (ground (arith, e)) (sign_ecdsa-Signed env r key p))
                (λ n1.
                  choice-Signed a (a == eddsa) _ _
                    (λ e. moved a eddsa _ (ground (arith, e)) (sign_eddsa-Signed env r key))
                    (λ n2.
                      choice-Signed a (a == rsa_pss) _ _
                        (λ e.
                          moved a rsa_pss _ (ground (arith, e)) (sign_rsa_pss-Signed env r key p))
                        (λ n3.
                          moved a 0 _ (ground (arith, known, n1, n2, n3))
                            (sign_rsa_pkcs1v15-Signed env r key p))))) in
            (allowed, chosen.signed c h)
      ]

-- What is known of a key that has signed.
abbrev pub SignedWith : Environment → Request → Status × Option Key → ℕ → Signing → Type 0
SignedWith env r found a c =
    (found ≡ (status_ok, some c.key))
    × (c.algorithm ≡ a)
    × Has c.key.header.rights Flag.sign
    × InPeriod c.key.header.rights env.now
    × (r.out_given ≡ true)
    × Fits c r.out_length

sign_found-Signed :
    (env : Environment) (r : Request) (found : Status × Option Key) (a : ℕ)
    (p : Option SignParameters) (c : Signing)
    → known_algorithm a ≡ true
    → (sign_found env r found a p).signed ≡ some c
    → SignedWith env r found a c
unfolding sign_found
sign_found-Signed env r (s, none) a p c known h = absurd (ground (arith, h))
sign_found-Signed env r (s, some key) a p c known h = elim (Bool-cases (is_ok s)) [
  | inr bad ↦ absurd (ground (arith, h, bad))
  | inl good ↦
      let x = sign_algorithm-Signed env r key a p known c (ground (arith, h, good)) in
      subst (λ k. SignedWith env r (s, some k) a c) x.1.0
        (
          ap (λ s. (s, some c.key)) (is_ok_lem s good),
          x.1.1,
          (allows c.key key env x.1.0 x.0).0,
          (allows c.key key env x.1.0 x.0).1,
          x.1.2,
          x.1.3,
        )
]

-- If `ta_sa_crypto_sign` has a key sign, the key store has handed out this key, its rights allow it to
-- sign now, the caller has given an output, and the key is of the type and size (and for ECDSA and EdDSA
-- on a curve) of the requested algorithm, with room in the output for a signature of the length of the
-- RSA key or of two coordinates; for RSA-PSS the salt and the digest fit into the key.
pub crypto_sign_allowed :
    (env : Environment) (caller_given : Bool) (r : Request) (client : Status)
    (found : Status × Option Key) (a : ℕ) (p : Option SignParameters) (c : Signing)
    → (crypto_sign env caller_given r client found a p).signed ≡ some c
    → SignedWith env r found a c
unfolding crypto_sign
crypto_sign_allowed env caller_given r client found a p c h =
    let checked = checks (request_guards caller_given r a) status_ok in
    elim (Bool-cases (is_ok checked)) [
      | inr bad ↦ absurd (ground (arith, h, bad))
      | inl good ↦ elim (Bool-cases (is_ok client)) [
        | inr bad ↦ absurd (ground (arith, h, good, bad))
        | inl fine ↦
            let passed =
              checks_passed (request_guards caller_given r a) status_ok refl
                (is_ok_lem checked good) in
            sign_found-Signed env r found a p c (known_of caller_given r a passed.0)
              (ground (arith, h, good, fine))
      ]
    ]
