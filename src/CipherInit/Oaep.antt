-- ===== src/CipherInit/Oaep.antt =====
-- The key of RSA-OAEP when the last steps of ta_sa_crypto_cipher_init_rsa_oaep fail.
use tasecureapi.Prelude.{
  ℕ, ◌≡◌, refl, ap, sym, ◌∙◌, ◌≢◌, true, false, Option, none, some, List, ◌∷◌, arith, ◌==◌, Status,
  status_ok, Bool-cases, Option-cases, Uuid, inl, inr,
}
use tasecureapi.Prelude.CipherAlgorithm
use tasecureapi.Prelude.CipherMode
use tasecureapi.KeySize.{supports_rsa}
use tasecureapi.Svp.{is_ok}
use tasecureapi.ObjectStore.{acquire}
use tasecureapi.ObjectStore.Valid.{IsValid}
use tasecureapi.CipherStore.{
  CipherObject, Ciphers, Result, put, add_asymmetric_key, acquire_exclusive, set_oaep_parameters,
  new_cipher,
}
use tasecureapi.CipherStore.Owned.{add_asymmetric_key-Outcome}
use tasecureapi.CipherInit.Algorithms.{
  all_given, Environment, StoredKey, OaepParameters, Parameters, set_oaep, release_cipher,
  init_rsa_oaep,
}
use tasecureapi.CipherInit.{init_algorithm, init_with_key, free_unless_ok, key_allowed}

-- A cipher for the key lies at an address, and the keys that were freed are these.
pub record Kept (key address : ℕ) (freed : List ℕ) (w : Ciphers) : Type 0 where
  pub cipher : CipherObject
  pub stored : w.at address ≡ some cipher
  pub same_key : cipher.stored_key ≡ key
  pub same_freed : w.freed_keys ≡ freed

abbrev key_of : Option CipherObject → ℕ
key_of none = 0
key_of (some c) = c.stored_key

put-Kept :
    (key address : ℕ) (freed : List ℕ) (w : Ciphers) (at_object : ℕ) (old new : CipherObject)
    → w.at at_object ≡ some old
    → new.stored_key ≡ old.stored_key
    → Kept key address freed w
    → Kept key address freed (record w { at = put w.at at_object new })
put-Kept key address freed w at_object old new e same k = elim (Bool-cases (address == at_object)) [
  | inl here ↦
      let same_place : address ≡ at_object = ground (arith, here) in
      let both : some k.cipher ≡ some old = sym k.stored ∙ ap w.at same_place ∙ e in
      record {
        cipher = new;
        stored = rw here refl;
        same_key = same ∙ sym (ap key_of both) ∙ k.same_key;
        same_freed = k.same_freed;
      }
  | inr there ↦ record {
    cipher = k.cipher;
    stored = rw there k.stored;
    same_key = k.same_key;
    same_freed = k.same_freed;
  }
]

set_oaep_parameters_fails :
    (key address : ℕ) (freed : List ℕ) (object digest mgf1 : ℕ) (label : List ℕ) (label_length : ℕ)
    (w : Ciphers)
    → Kept key address freed w
    → let r = set_oaep_parameters false object digest mgf1 (some label) label_length w in
      (is_ok r.0 ≡ false) × Kept key address freed r.1
unfolding set_oaep_parameters
set_oaep_parameters_fails key address freed object digest mgf1 label label_length w k =
    elim (Option-cases (w.at object)) [
      | inl e ↦ rw (e, set_oaep_parameters) (refl, k)
      | inr (c, e) ↦
          let failed = record c {
            oaep_digest_algorithm = digest;
            oaep_mgf1_digest_algorithm = mgf1;
            oaep_label = none;
          } in
          rw (e, set_oaep_parameters) (refl, put-Kept key address freed w object c failed e refl k)
    ]

module _ (env : Environment) (caller : Uuid) (mode : ℕ) (key : StoredKey) (w : Ciphers) where
  release_cipher-Kept :
      (k address : ℕ) (freed : List ℕ) (s : Status) (handle object : ℕ) (w' : Ciphers)
      → Kept k address freed w'
      → let r = release_cipher env caller mode key w s handle object w' in
        (r.0 ≡ s) × Kept k address freed r.2
  unfolding release_cipher
  release_cipher-Kept k address freed s handle object w' h = elim (Bool-cases (object == 0)) [
    | inl z ↦ rw z (refl, h)
    | inr nz ↦ rw nz (
      refl,
      record {
        cipher = h.cipher;
        stored = h.stored;
        same_key = h.same_key;
        same_freed = h.same_freed;
      },
    )
  ]

  acquire_exclusive-Kept :
      (k address : ℕ) (freed : List ℕ) (handle : ℕ) (w' : Ciphers)
      → Kept k address freed w'
      → Kept k address freed
          (acquire_exclusive env.acquire_locks env.cipher_locks handle caller w').2
  unfolding acquire_exclusive
  acquire_exclusive-Kept k address freed handle w' h =
      let r = acquire true env.acquire_locks (some w'.store) handle (some caller) in
      elim (Bool-cases (is_ok r.status)) [
        | inl fine ↦ rw fine (record {
          cipher = h.cipher;
          stored = h.stored;
          same_key = h.same_key;
          same_freed = h.same_freed;
        })
        | inr bad ↦ rw bad (record {
          cipher = h.cipher;
          stored = h.stored;
          same_key = h.same_key;
          same_freed = h.same_freed;
        })
      ]

  set_oaep_fails :
      (k address : ℕ) (freed : List ℕ) (p : OaepParameters) (label : List ℕ) (handle : ℕ)
      (w' : Ciphers)
      → env.label_allocated ≡ false
      → p.label ≡ some label
      → Kept k address freed w'
      → let r = set_oaep env caller mode key w p handle w' in
        (is_ok r.0 ≡ false) × Kept k address freed r.2
  unfolding set_oaep
  set_oaep_fails k address freed p label handle w' no_memory given h =
      let a = acquire_exclusive env.acquire_locks env.cipher_locks handle caller w' in
      let k1 = acquire_exclusive-Kept k address freed handle w' h in
      elim (Bool-cases (is_ok a.0)) [
        | inl fine ↦
            let f =
              set_oaep_parameters_fails k address freed a.1 p.digest_algorithm
                p.mgf1_digest_algorithm label p.label_length a.2 k1 in
            let o =
              set_oaep_parameters false a.1 p.digest_algorithm p.mgf1_digest_algorithm (some label)
                p.label_length a.2 in
            let r = release_cipher-Kept k address freed o.0 handle a.1 o.1 f.1 in
            rw (fine, set_oaep) (rw (no_memory, given) (ap is_ok r.0 ∙ f.0, r.1))
        | inr bad ↦
            let r = release_cipher-Kept k address freed a.0 handle a.1 a.2 k1 in
            rw (bad, set_oaep) (ap is_ok r.0 ∙ bad, r.1)
      ]

  init_rsa_oaep_eq :
      (o : OaepParameters) (label : List ℕ)
      → env.pointers ≡ all_given
      → o.label ≡ some label
      → supports_rsa key.key_type key.size ≡ true
      → mode ≡ CipherMode.decrypt_mode
      → let a =
          add_asymmetric_key env.alloc env.add_locks CipherAlgorithm.rsa_oaep mode key.address
            caller w in
        a.0 ≡ status_ok
        → init_rsa_oaep env caller mode key w (some o) ≡ set_oaep env caller mode key w o a.1 a.2
  unfolding init_rsa_oaep
  init_rsa_oaep_eq o label pointers given_l fits decrypting added =
      let test : (mode == CipherMode.decrypt_mode) ≡ true = ground (arith, decrypting) in
      rw (pointers, init_rsa_oaep) (rw given_l (rw fits (rw test (rw added refl))))

  init_with_key_oaep :
      (p : Parameters) (o : OaepParameters) (label : List ℕ)
      → env.pointers ≡ all_given
      → p.as_oaep ≡ some o
      → o.label ≡ some label
      → key_allowed env caller mode key w ≡ true
      → supports_rsa key.key_type key.size ≡ true
      → mode ≡ CipherMode.decrypt_mode
      → let a =
          add_asymmetric_key env.alloc env.add_locks CipherAlgorithm.rsa_oaep mode key.address
            caller w in
        a.0 ≡ status_ok
        → init_with_key env caller mode key w CipherAlgorithm.rsa_oaep p
          ≡ free_unless_ok env caller mode key w (set_oaep env caller mode key w o a.1 a.2)
  unfolding init_with_key init_algorithm
  init_with_key_oaep p o label pointers given_p given_l allowed fits decrypting added =
      rw (allowed, init_with_key)
        (rw (given_p, init_algorithm)
          (ap (free_unless_ok env caller mode key w)
            (init_rsa_oaep_eq o label pointers given_l fits decrypting added)))

  free_unless_ok-Kept :
      key.address ≢ 0
      → (k address : ℕ) (freed : List ℕ) (r : Result) → is_ok r.0 ≡ false
      → Kept k address freed r.2
      → let r' = free_unless_ok env caller mode key w r in
        (is_ok r'.0 ≡ false) × Kept k address (key.address ∷ freed) r'.2
  free_unless_ok-Kept ne k address freed (s, handle, w') bad h =
      let given : (key.address == 0) ≡ false = ground (arith, ne) in
      rw (bad, given)
        (
          bad,
          record {
            cipher = h.cipher;
            stored = h.stored;
            same_key = h.same_key;
            same_freed = ap (λ ks. key.address ∷ ks) h.same_freed;
          },
        )

  -- With RSA-OAEP and the mode to decrypt, all pointers given, an RSA key that is not NULL, has a valid
  -- size and is allowed, a valid store that takes its cipher, and a label whose allocation fails:
  -- `ta_sa_crypto_cipher_init` reports an error and frees the key, but a cipher for the same key stays
  -- in the store of ciphers.
  pub oaep-freed :
      (p : Parameters) (o : OaepParameters) (label : List ℕ)
      → IsValid w.store
      → key.address ≢ 0
      → env.pointers ≡ all_given
      → p.as_oaep ≡ some o
      → o.label ≡ some label
      → env.label_allocated ≡ false
      → key_allowed env caller mode key w ≡ true
      → supports_rsa key.key_type key.size ≡ true
      → mode ≡ CipherMode.decrypt_mode
      → (add_asymmetric_key env.alloc env.add_locks CipherAlgorithm.rsa_oaep mode key.address caller
          w).0
        ≡ status_ok
      → let r = init_with_key env caller mode key w CipherAlgorithm.rsa_oaep p in
        (is_ok r.0 ≡ false)
        × (address : ℕ) × Kept key.address address (key.address ∷ w.freed_keys) r.2
  oaep-freed p o label v ne pointers given_p given_l no_memory allowed fits decrypting added =
      let a =
        add_asymmetric_key env.alloc env.add_locks CipherAlgorithm.rsa_oaep mode key.address caller
          w in
      let placed = set_oaep env caller mode key w o a.1 a.2 in
      elim (add_asymmetric_key-Outcome env.alloc env.add_locks CipherAlgorithm.rsa_oaep mode
        key.address caller w v ne) [
          | inl (good, holds) ↦
              let kept : Kept key.address holds.address w.freed_keys a.2 = record {
                cipher = new_cipher CipherAlgorithm.rsa_oaep mode 0 key.address;
                stored = holds.stored;
                same_key = refl;
                same_freed = holds.keys_kept;
              } in
              let f =
                set_oaep_fails key.address holds.address w.freed_keys o label a.1 a.2 no_memory
                  given_l kept in
              let r =
                free_unless_ok-Kept ne key.address holds.address w.freed_keys placed f.0 f.1 in
              rw
                (init_with_key_oaep p o label pointers given_p given_l allowed fits decrypting
                  added)
                (r.0, holds.address, r.1)
          | inr (bad, same) ↦ absurd (ground (arith, added, bad))
        ]
