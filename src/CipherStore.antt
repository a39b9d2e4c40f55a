-- ===== src/CipherStore.antt =====
-- taimpl/src/internal/cipher_store.c: the ciphers of a client, which lie in an object store. Memory is
-- a map from addresses to ciphers, with the lists of the keys and the symmetric contexts that were
-- freed; what cipher_alloc returns and whether a mutex is locked are arguments.
pub mod Owned
use tasecureapi.Prelude.{
  ℕ, Bool, true, false, ◌&&◌, ◌||◌, not, Option, none, some, List, [], ◌∷◌, ◌==◌, if◌then◌else◌,
  checks, Status, status_ok, null_parameter, invalid_parameter, internal_error, Uuid,
}
use tasecureapi.Prelude.CipherAlgorithm
use tasecureapi.Prelude.CipherMode
use tasecureapi.Slots.{slot_invalid}
use tasecureapi.Svp.{is_ok}
use tasecureapi.ObjectStore.{ObjectStore, Added, add, acquire}

-- `struct cipher_s`, without its mutex; a pointer is its address, and 0 is NULL.
pub record CipherObject : Type 0 where
  pub cipher_algorithm : ℕ
  pub cipher_mode : ℕ
  pub symmetric_context : ℕ
  pub stored_key : ℕ
  pub oaep_digest_algorithm : ℕ
  pub oaep_mgf1_digest_algorithm : ℕ
  pub oaep_label : Option (List ℕ)
  pub oaep_label_length : ℕ

-- A cipher as cipher_store_add_symmetric_context and cipher_store_add_asymmetric_key fill it in.
abbrev pub new_cipher : ℕ → ℕ → ℕ → ℕ → CipherObject
new_cipher algorithm mode context key = record {
  cipher_algorithm = algorithm;
  cipher_mode = mode;
  symmetric_context = context;
  stored_key = key;
  oaep_digest_algorithm = 0;
  oaep_mgf1_digest_algorithm = 0;
  oaep_label = none;
  oaep_label_length = 0;
}

pub record Ciphers : Type 0 where
  pub store : ObjectStore
  pub at : ℕ → Option CipherObject
  pub freed_contexts : List ℕ
  pub freed_keys : List ℕ

abbrev pub put : (ℕ → Option CipherObject) → ℕ → CipherObject → ℕ → Option CipherObject
put at address cipher a = if a == address then some cipher else at a

-- `symmetric_context_free` and `stored_key_free`, which leave NULL alone.
abbrev pub free_pointer : ℕ → List ℕ → List ℕ
free_pointer p freed = if p == 0 then freed else p ∷ freed

-- `cipher_free` of a cipher that has not been put into the store
abbrev pub cipher_free : CipherObject → Ciphers → Ciphers
cipher_free cipher w = record w {
  freed_contexts = free_pointer cipher.symmetric_context w.freed_contexts;
  freed_keys = free_pointer cipher.stored_key w.freed_keys;
}

abbrev pub store_or : Option ObjectStore → ObjectStore → ObjectStore
store_or none s = s
store_or (some s') s = s'

abbrev pub handle_of : Option ℕ → ℕ
handle_of none = slot_invalid
handle_of (some slot) = slot

-- The status, the handle and the ciphers.
abbrev pub Result : Type 0
Result = Status × ℕ × Ciphers

-- The end of the two functions that add a cipher. When the object store does not take it, its pointers
-- are set to NULL before it is freed.
unfoldable pub place : Option ℕ → Bool → CipherObject → Uuid → Ciphers → Result
place none locked cipher caller w = (internal_error, slot_invalid, w)
place (some address) locked cipher caller w =
    let r = add true locked (some w.store) address (some caller) in
    let w' = record w { store = store_or r.store w.store } in
    if cipher.stored_key == 0
    then (internal_error, slot_invalid, cipher_free cipher w)
    else if not (is_ok r.status)
    then (r.status, handle_of r.slot, w')
    else (status_ok, handle_of r.slot, record w' { at = put w.at address cipher })

abbrev pub is_symmetric : ℕ → Bool
is_symmetric a =
    a == CipherAlgorithm.aes_ecb
    || a == CipherAlgorithm.aes_ecb_pkcs7
    || a == CipherAlgorithm.aes_cbc
    || a == CipherAlgorithm.aes_cbc_pkcs7
    || a == CipherAlgorithm.aes_ctr
    || a == CipherAlgorithm.aes_gcm
    || a == CipherAlgorithm.chacha20
    || a == CipherAlgorithm.chacha20_poly1305

abbrev pub is_asymmetric : ℕ → Bool
is_asymmetric a =
    a == CipherAlgorithm.rsa_oaep
    || a == CipherAlgorithm.rsa_pkcs1v15
    || a == CipherAlgorithm.ec_elgamal

abbrev pub is_mode : ℕ → Bool
is_mode m = m == CipherMode.encrypt_mode || m == CipherMode.decrypt_mode

-- `cipher_store_add_symmetric_context`, with its pointers given.
unfoldable pub add_symmetric_context : Option ℕ → Bool → ℕ → ℕ → ℕ → ℕ → Uuid → Ciphers → Result
unfolding place
add_symmetric_context alloc locked algorithm mode context key caller w =
    let placed = place alloc locked (new_cipher algorithm mode context key) caller w in
    if context == 0
    then (null_parameter, slot_invalid, w)
    else if not (is_symmetric algorithm)
    then (internal_error, slot_invalid, w)
    else if not (is_mode mode)
    then (invalid_parameter, slot_invalid, w)
    else placed

-- `cipher_store_add_asymmetric_key`, with its pointers given.
unfoldable pub add_asymmetric_key : Option ℕ → Bool → ℕ → ℕ → ℕ → Uuid → Ciphers → Result
unfolding place
add_asymmetric_key alloc locked algorithm mode key caller w =
    let placed = place alloc locked (new_cipher algorithm mode 0 key) caller w in
    if key == 0
    then (null_parameter, slot_invalid, w)
    else if not (is_asymmetric algorithm)
    then (internal_error, slot_invalid, w)
    else if not (mode == CipherMode.decrypt_mode)
    then (invalid_parameter, slot_invalid, w)
    else placed

-- `cipher_store_acquire_exclusive`, with its pointers given: the cipher is handed out also when its
-- mutex is not locked.
unfoldable pub acquire_exclusive : Bool → Bool → ℕ → Uuid → Ciphers → Status × ℕ × Ciphers
acquire_exclusive store_locked cipher_locked handle caller w =
    let r = acquire true store_locked (some w.store) handle (some caller) in
    let w' = record w { store = store_or r.store w.store } in
    let object = object_or r.object in
    if not (is_ok r.status)
    then (r.status, 0, w')
    else (if cipher_locked then status_ok else internal_error, object, w')
  where
    object_or : Option ℕ → ℕ
    object_or none = 0
    object_or (some o) = o

-- `cipher_set_oaep_parameters` of the cipher at an address; the Boolean says whether the allocation for
-- the label succeeds.
unfoldable pub set_oaep_parameters :
    Bool → ℕ → ℕ → ℕ → Option (List ℕ) → ℕ → Ciphers → Status × Ciphers
set_oaep_parameters allocated address digest mgf1 label label_length w = elim (w.at address) [
  | none ↦ (null_parameter, w)
  | some c ↦
      let with_digests = record c {
        oaep_digest_algorithm = digest;
        oaep_mgf1_digest_algorithm = mgf1;
      } in
      let failed = is_label label && not allocated in
      if failed
      then (
        internal_error,
        record w { at = put w.at address (record with_digests { oaep_label = none }) },
      )
      else (
        status_ok,
        record w {
          at =
              put w.at address
                (record with_digests { oaep_label = label; oaep_label_length = label_length });
        },
      )
]
  where
    is_label : Option (List ℕ) → Bool
    is_label none = false
    is_label (some l) = true
