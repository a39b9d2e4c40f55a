-- ===== src/CipherInit/Outcome.antt =====
-- What becomes of a key that is offered to the store of ciphers.
use tasecureapi.Prelude.{
  ℕ, ◌≡◌, refl, ◌⊎◌, inl, inr, ◌≢◌, Bool, false, not, arith, ◌==◌, if◌then◌else◌, Status, status_ok,
  invalid_parameter, internal_error, Bool-cases, Uuid,
}
use tasecureapi.Slots.{slot_invalid}
use tasecureapi.Svp.{is_ok}
use tasecureapi.ObjectStore.Valid.{IsValid}
use tasecureapi.Symmetric.{symmetric_verify_cipher}
use tasecureapi.CipherStore.{
  CipherObject, Ciphers, Result, free_pointer, is_mode, new_cipher, add_symmetric_context,
  add_asymmetric_key,
}
use tasecureapi.CipherStore.Owned.{
  Holds, add_symmetric_context-Outcome, add_asymmetric_key-Outcome, add_symmetric_context_handle,
}
use tasecureapi.CipherInit.Algorithms.{Environment, StoredKey, guarded, start_symmetric}

-- The store of ciphers has taken the key, in a cipher for it.
pub record Taken (w : Ciphers) (caller : Uuid) (key handle : ℕ) (w' : Ciphers) : Type 0 where
  pub cipher : CipherObject
  pub same_key : cipher.stored_key ≡ key
  pub holds : Holds w caller cipher handle w'

-- The key still belongs to the caller, and no cipher was added.
pub record Left (w w' : Ciphers) : Type 0 where
  pub same_ciphers : w'.at ≡ w.at
  pub keys_kept : w'.freed_keys ≡ w.freed_keys

abbrev pub KeyOutcome : Ciphers → Uuid → ℕ → Result → Type 0
KeyOutcome w caller key r =
    ((r.0 ≡ status_ok) × Taken w caller key r.1 r.2) ⊎ ((is_ok r.0 ≡ false) × Left w r.2)

pub guarded-KeyOutcome :
    (s : Status) (w : Ciphers) (caller : Uuid) (key : ℕ) (r : Result)
    → KeyOutcome w caller key r
    → KeyOutcome w caller key (guarded s w r)
guarded-KeyOutcome s w caller key r h = elim (Bool-cases (is_ok s)) [
  | inl fine ↦ rw fine h
  | inr bad ↦ rw bad (inr (bad, record { same_ciphers = refl; keys_kept = refl }))
]

module _ (env : Environment) (caller : Uuid) (mode : ℕ) (key : StoredKey) (w : Ciphers)
    (v : IsValid w.store) (ne : key.address ≢ 0) where
  pub start_symmetric-KeyOutcome :
      (by_handle : Bool) (algorithm : ℕ)
      → KeyOutcome w caller key.address (start_symmetric env caller mode key w by_handle algorithm)
  unfolding start_symmetric
  start_symmetric-KeyOutcome by_handle algorithm =
      let a =
        add_symmetric_context env.alloc env.add_locks algorithm mode env.created key.address caller
          w in
      let o =
        add_symmetric_context-Outcome env.alloc env.add_locks algorithm mode env.created key.address
          caller w v ne in
      let told =
        add_symmetric_context_handle env.alloc env.add_locks algorithm mode env.created key.address
          caller w in
      let failed = if by_handle then a.1 == slot_invalid else not (is_ok a.0) in
      let same : failed ≡ not (is_ok a.0) = elim (Bool-cases by_handle) [
        | inl b ↦ ground (arith, told, b)
        | inr b ↦ ground (arith, b)
      ] in
      let dropped = record a.2 { freed_contexts = free_pointer env.created a.2.freed_contexts } in
      let body : Result = if failed then (a.0, a.1, dropped) else (status_ok, a.1, a.2) in
      let made : Status = if env.created == 0 then internal_error else status_ok in
      let known : Status = if is_mode mode then status_ok else invalid_parameter in
      let verified = symmetric_verify_cipher env.old_openssl algorithm mode in
      let guard = λ (s : Status) (r : Result). guarded-KeyOutcome s w caller key.address r in
      guard verified (guarded known w (guarded made w body)) (
        guard known (guarded made w body) (
          guard made body (elim o [
            | inl (good, holds) ↦
                let cipher = new_cipher algorithm mode env.created key.address in
                rw same
                  (rw good (inl (refl, record { cipher = cipher; same_key = refl; holds = holds })))
            | inr (bad, same_w) ↦ rw same (
                rw bad (
                  inr (
                    bad,
                    record { same_ciphers = same_w.same_ciphers; keys_kept = same_w.keys_kept },
                  )))
          ])))

  pub asymmetric-KeyOutcome :
      (algorithm : ℕ)
      → KeyOutcome w caller key.address
          (add_asymmetric_key env.alloc env.add_locks algorithm mode key.address caller w)
  asymmetric-KeyOutcome algorithm =
      elim (add_asymmetric_key-Outcome env.alloc env.add_locks algorithm mode key.address caller w v
        ne) [
          | inl (good, holds) ↦ inl (
            good,
            record {
              cipher = new_cipher algorithm mode 0 key.address;
              same_key = refl;
              holds = holds;
            },
          )
          | inr (bad, same) ↦
              inr (bad, record { same_ciphers = same.same_ciphers; keys_kept = same.keys_kept })
        ]
