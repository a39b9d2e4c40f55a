-- ===== src/CipherStore/Owned.antt =====
-- Who owns the key and the symmetric context of a cipher that is added.
use tasecureapi.Prelude.{
  ℕ, ◌≡◌, refl, ap, ◌⊎◌, inl, inr, ◌≢◌, Bool, true, false, not, Option, none, some, arith, ◌==◌,
  if◌then◌else◌, Status, status_ok, null_parameter, invalid_parameter, internal_error, Bool-cases,
  Uuid,
}
use tasecureapi.Prelude.CipherMode
use tasecureapi.Svp.{is_ok}
use tasecureapi.Svp.Bounds.{is_ok_lem}
use tasecureapi.Slots.{slot_invalid}
use tasecureapi.ObjectStore.{ObjectStore, add_locked, add}
use tasecureapi.ObjectStore.Valid.{IsValid}
use tasecureapi.ObjectStore.Access.{Placed, add_effect}
use tasecureapi.CipherStore.{
  CipherObject, Ciphers, Result, put, handle_of, place, new_cipher, is_symmetric, is_asymmetric,
  is_mode, add_symmetric_context, add_asymmetric_key,
}

-- An add that succeeds gives a handle and a store, with the object in it.
add_ok :
    (locked : Bool) (store : ObjectStore) (object : ℕ) (caller : Uuid)
    → IsValid store
    → is_ok (add true locked (some store) object (some caller)).status ≡ true
    → (slot : ℕ) × (store' : ObjectStore) × (add true locked (some store) object (some caller)
        ≡ record { status = status_ok; slot = some slot; store = some store' })
      × Placed store slot object caller store'
unfolding add
add_ok true store object caller v h =
    let a = add_locked store object caller in
    elim (Bool-cases (object == 0)) [
      | inl null ↦ absurd (ground (arith, null))
      | inr given ↦
          let fine : is_ok a.0 ≡ true = ground (arith, given) in
          let e : add true true (some store) object (some caller)
              ≡ record { status = status_ok; slot = some a.1; store = some a.2 } =
            rw (given, add)
              (ap (λ s. record { status = s; slot = some a.1; store = some a.2 })
                (is_ok_lem a.0 fine)) in
          (a.1, a.2, e, add_effect store object caller v e)
    ]
add_ok false store object caller v h = absurd (ground arith)

-- The store has taken a cipher, with its key and its context, and nothing was freed.
pub record Holds (w : Ciphers) (caller : Uuid) (cipher : CipherObject) (handle : ℕ) (w' : Ciphers)
    : Type 0 where
  pub address : ℕ
  pub entry : Placed w.store handle address caller w'.store
  pub stored : w'.at address ≡ some cipher
  pub contexts_kept : w'.freed_contexts ≡ w.freed_contexts
  pub keys_kept : w'.freed_keys ≡ w.freed_keys

-- No cipher was added, and nothing was freed.
pub record Untouched (w w' : Ciphers) : Type 0 where
  pub same_ciphers : w'.at ≡ w.at
  pub contexts_kept : w'.freed_contexts ≡ w.freed_contexts
  pub keys_kept : w'.freed_keys ≡ w.freed_keys

-- What may come of an attempt to add a cipher: the caller still owns what it gave unless the status is
-- good.
abbrev pub Outcome : Ciphers → Uuid → CipherObject → Result → Type 0
Outcome w caller cipher r =
    ((r.0 ≡ status_ok) × Holds w caller cipher r.1 r.2) ⊎ ((is_ok r.0 ≡ false) × Untouched w r.2)

put_same :
    (at : ℕ → Option CipherObject) (address : ℕ) (cipher : CipherObject)
    → put at address cipher address ≡ some cipher
put_same at address cipher = ground arith

place-Outcome :
    (alloc : Option ℕ) (locked : Bool) (cipher : CipherObject) (caller : Uuid) (w : Ciphers)
    → IsValid w.store
    → cipher.stored_key ≢ 0
    → Outcome w caller cipher (place alloc locked cipher caller w)
unfolding place
place-Outcome none locked cipher caller w v key =
    inr (refl, record { same_ciphers = refl; contexts_kept = refl; keys_kept = refl })
place-Outcome (some address) locked cipher caller w v key =
    let given : (cipher.stored_key == 0) ≡ false = ground arith in
    let r = add true locked (some w.store) address (some caller) in
    elim (Bool-cases (is_ok r.status)) [
      | inl fine ↦
          let a = add_ok locked w.store address caller v fine in
          rw (given, place)
            (rw a.2 (
              inl (
                refl,
                record {
                  address = address;
                  entry = a.3;
                  stored = put_same w.at address cipher;
                  contexts_kept = refl;
                  keys_kept = refl;
                },
              )))
      | inr bad ↦
          rw (given, place)
            (rw bad
              (inr (bad, record { same_ciphers = refl; contexts_kept = refl; keys_kept = refl })))
    ]

-- A guard in front of an attempt.
guard-Outcome :
    (found : Bool) (error : Status) (w : Ciphers) (caller : Uuid) (cipher : CipherObject)
    (r : Result)
    → is_ok error ≡ false
    → Outcome w caller cipher r
    → Outcome w caller cipher (if found then (error, slot_invalid, w) else r)
guard-Outcome true error w caller cipher r bad h =
    inr (bad, record { same_ciphers = refl; contexts_kept = refl; keys_kept = refl })
guard-Outcome false error w caller cipher r bad h = h

-- Adding a symmetric context either gives it to the store with its key, or leaves both to the caller.
pub add_symmetric_context-Outcome :
    (alloc : Option ℕ) (locked : Bool) (algorithm mode context key : ℕ) (caller : Uuid)
    (w : Ciphers)
    → IsValid w.store
    → key ≢ 0
    → Outcome w caller
        (new_cipher algorithm mode context key)
        (add_symmetric_context alloc locked algorithm mode context key caller w)
unfolding add_symmetric_context
add_symmetric_context-Outcome alloc locked algorithm mode context key caller w v ne =
    let cipher = new_cipher algorithm mode context key in
    let guard =
      λ (found : Bool) (error : Status) (r : Result). guard-Outcome found error w caller cipher r in
    let placed = place alloc locked cipher caller w in
    let with_mode = if not (is_mode mode) then (invalid_parameter, slot_invalid, w) else placed in
    let with_algorithm =
      if not (is_symmetric algorithm) then (internal_error, slot_invalid, w) else with_mode in
    guard (context == 0) null_parameter with_algorithm refl (
      guard (not (is_symmetric algorithm)) internal_error with_mode refl (
        guard (not (is_mode mode)) invalid_parameter placed refl
          (place-Outcome alloc locked cipher caller w v ne)))

-- Adding an asymmetric key either gives it to the store, or leaves it to the caller.
pub add_asymmetric_key-Outcome :
    (alloc : Option ℕ) (locked : Bool) (algorithm mode key : ℕ) (caller : Uuid) (w : Ciphers)
    → IsValid w.store
    → key ≢ 0
    → Outcome w caller
        (new_cipher algorithm mode 0 key)
        (add_asymmetric_key alloc locked algorithm mode key caller w)
unfolding add_asymmetric_key
add_asymmetric_key-Outcome alloc locked algorithm mode key caller w v ne =
    let cipher = new_cipher algorithm mode 0 key in
    let guard =
      λ (found : Bool) (error : Status) (r : Result). guard-Outcome found error w caller cipher r in
    let placed = place alloc locked cipher caller w in
    let with_mode =
      if not (mode == CipherMode.decrypt_mode)
      then (invalid_parameter, slot_invalid, w)
      else placed in
    let with_algorithm =
      if not (is_asymmetric algorithm) then (internal_error, slot_invalid, w) else with_mode in
    guard (key == 0) null_parameter with_algorithm refl (
      guard (not (is_asymmetric algorithm)) internal_error with_mode refl (
        guard (not (mode == CipherMode.decrypt_mode)) invalid_parameter placed refl
          (place-Outcome alloc locked cipher caller w v ne)))

-- The handle tells success as the status does.
add_handle :
    (locked : Bool) (store : ObjectStore) (object : ℕ) (caller : Uuid)
    → let r = add true locked (some store) object (some caller) in
      (handle_of r.slot == slot_invalid) ≡ not (is_ok r.status)
unfolding add add_locked
add_handle locked store object caller = ground arith

place_handle :
    (alloc : Option ℕ) (locked : Bool) (cipher : CipherObject) (caller : Uuid) (w : Ciphers)
    → let r = place alloc locked cipher caller w in (r.1 == slot_invalid) ≡ not (is_ok r.0)
unfolding place
place_handle none locked cipher caller w = refl
place_handle (some address) locked cipher caller w =
    ground (arith, add_handle locked w.store address caller)

pub add_symmetric_context_handle :
    (alloc : Option ℕ) (locked : Bool) (algorithm mode context key : ℕ) (caller : Uuid)
    (w : Ciphers)
    → let r = add_symmetric_context alloc locked algorithm mode context key caller w in
      (r.1 == slot_invalid) ≡ not (is_ok r.0)
unfolding add_symmetric_context
add_symmetric_context_handle alloc locked algorithm mode context key caller w =
    ground (arith, place_handle alloc locked (new_cipher algorithm mode context key) caller w)
