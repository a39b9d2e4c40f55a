-- ===== src/KeyExchange.antt =====
-- taimpl/src/ta_sa_key_exchange.c: a shared secret becomes a key of the key store. The secrets of dh.c
-- and ec.c, the derivations of netflix.c, and what the key store hands out and takes, are arguments.
pub mod Kept
use tasecureapi.Prelude.{
  ℕ, Bool, true, ◌&&◌, not, Option, none, some, List, [], ◌∷◌, ◌==◌, if◌then◌else◌, checks, Status,
  status_ok, null_parameter, invalid_parameter, operation_not_allowed, invalid_key_type,
}
use tasecureapi.Prelude.KeyType
use tasecureapi.Rights.{Rights, allowed_exchange, allowed_derive}
use tasecureapi.KeySize.{supports_dh, supports_ec}
use tasecureapi.Slots.{slot_invalid}
use tasecureapi.Svp.{is_ok}
use tasecureapi.StoredKey.{Key}

-- What the code does not decide: `dh_compute_shared_secret`, `ec_compute_ecdh_shared_secret`,
-- `kdf_netflix_shared_secret` (two keys), `kdf_netflix_wrapping`, the status and the handle when the key
-- store takes a key, and the time.
pub record Environment : Type 0 where
  pub compute_dh : Rights → Key → Status × Option Key
  pub compute_ecdh : Rights → Key → Status × Option Key
  pub derive_shared : Rights → Rights → Key → Option Key → Status × (Option Key × Option Key)
  pub derive_wrapping : Rights → Rights → Option Key → Option Key → Status × Option Key
  pub store : Key → Status × ℕ
  pub now : ℕ

-- The variables of the caller: `*key`, `*parameters->out_ke` and `*parameters->out_kh`.
pub record Handles : Type 0 where
  pub key : ℕ
  pub ke : ℕ
  pub kh : ℕ

-- `sa_key_exchange_parameters_netflix_authenticated_dh`, with what the key store gives for `in_kw`.
pub record NetflixParameters : Type 0 where
  pub found_in : Status × Option Key
  pub ke_given : Bool
  pub rights_ke : Option Rights
  pub kh_given : Bool
  pub rights_kh : Option Rights

-- The status, the variables of the caller, and the handles of the new keys that are in the key store.
pub record Outcome : Type 0 where
  pub status : Status
  pub handles : Handles
  pub kept : List ℕ

abbrev pub without_keys : Status → Handles → Outcome
without_keys s handles = record { status = s; handles = handles; kept = [] }

-- `key_store_import_stored_key`: the handle is invalid unless the status is good.
abbrev pub import_stored_key : (Key → Status × ℕ) → Option Key → Status × ℕ
import_stored_key store none = (null_parameter, slot_invalid)
import_stored_key store (some key) =
    let (s, handle) = store key in if is_ok s then (s, handle) else (s, slot_invalid)

-- `key_store_remove` of a handle that is not invalid.
abbrev pub remove_handle : ℕ → List ℕ → List ℕ
remove_handle h [] = []
remove_handle h (k ∷ kept) = let rest = remove_handle h kept in if k == h then rest else k ∷ rest

abbrev pub remove_valid : ℕ → List ℕ → List ℕ
remove_valid h kept = if not (h == slot_invalid) then remove_handle h kept else kept

-- What the statuses of the steps of `ta_sa_key_exchange_netflix_dh` lead to: those of the shared secret,
-- of the derivation of two keys and of their imports, of the derivation of the third key and its import.
unfoldable pub netflix_outcome :
    Handles → Status → Status → Status × ℕ → Status × ℕ → Status → Status × ℕ → Outcome
netflix_outcome none_yet s derived (s_ke, ke) (s_kh, kh) wrapped (s_key, key) =
    let with_ke = record none_yet { ke = ke } in
    let with_both = record with_ke { kh = kh } in
    let with_all = record with_both { key = key } in
    if not (is_ok s)
    then without_keys invalid_parameter none_yet
    else if not (is_ok derived)
    then without_keys derived none_yet
    else if not (is_ok s_ke)
    then without_keys s_ke with_ke
    else if not (is_ok s_kh)
    then record { status = s_kh; handles = with_both; kept = ke ∷ [] }
    else if not (is_ok wrapped)
    then record { status = wrapped; handles = with_both; kept = kh ∷ ke ∷ [] }
    else if not (is_ok s_key)
    then record { status = s_key; handles = with_all; kept = kh ∷ ke ∷ [] }
    else record { status = s_key; handles = with_all; kept = key ∷ kh ∷ ke ∷ [] }

-- The end of `ta_sa_key_exchange_netflix_dh`: unless the status is good, the keys are removed.
unfoldable pub remove_on_error : Outcome → Outcome
remove_on_error o =
    let h = o.handles in
    if is_ok o.status
    then o
    else record o { kept = remove_valid h.key (remove_valid h.kh (remove_valid h.ke o.kept)) }

module _ (env : Environment) (rights : Rights) (found : Status × Option Key) where
  -- What is checked of a key that the key store hands out; without a header it is no key.
  abbrev pub key_status : Status × Option Key → (Key → List (Bool × Status)) → Status
  key_status (s, none) guards = if is_ok s then null_parameter else s
  key_status (s, some key) guards =
      let checked = checks (guards key) status_ok in if is_ok s then checked else s

  abbrev pub dh_guards : Key → List (Bool × Status)
  dh_guards key =
      (not (allowed_exchange (some key.header.rights) env.now), operation_not_allowed)
      ∷ (not (supports_dh key.header.key_type key.header.size), invalid_key_type)
      ∷ []

  abbrev pub ecdh_guards : Key → List (Bool × Status)
  ecdh_guards key =
      (not (allowed_exchange (some key.header.rights) env.now), operation_not_allowed)
      ∷ (
        not (supports_ec key.header.key_type key.header.type_parameters.curve key.header.size),
        invalid_key_type,
      )
      ∷ []

  abbrev pub in_guards : Key → List (Bool × Status)
  in_guards key =
      (not (allowed_derive (some key.header.rights) env.now), operation_not_allowed)
      ∷ (not (key.header.key_type == KeyType.symmetric), invalid_key_type)
      ∷ []

  -- A key is imported, and its handle stored for the caller.
  abbrev pub import_secret : Handles → Option Key → Outcome
  import_secret handles secret =
      let (s, handle) = import_stored_key env.store secret in
      record {
        status = s;
        handles = record handles { key = handle };
        kept = if is_ok s then handle ∷ [] else [];
      }

  -- The secret of a private key.
  abbrev pub secret_of :
      Status × Option Key → (Rights → Key → Status × Option Key) → Rights → Status × Option Key
  secret_of (s, none) compute r = (null_parameter, none)
  secret_of (s, some key) compute r = compute r key

  -- `ta_sa_key_exchange_dh`, with pointers that are given
  unfoldable pub exchange_dh : Handles → Outcome
  exchange_dh before =
      let handles = record before { key = slot_invalid } in
      let checked = key_status found dh_guards in
      let (s, secret) = secret_of found env.compute_dh rights in
      let done = import_secret handles secret in
      if not (is_ok checked)
      then without_keys checked handles
      else if not (is_ok s)
      then without_keys invalid_parameter handles
      else done

  -- `ta_sa_key_exchange_ecdh`
  unfoldable pub exchange_ecdh : Handles → Outcome
  exchange_ecdh before =
      let handles = record before { key = slot_invalid } in
      let checked = key_status found ecdh_guards in
      let (s, secret) = secret_of found env.compute_ecdh rights in
      let done = import_secret handles secret in
      if not (is_ok checked)
      then without_keys checked handles
      else if not (is_ok s)
      then without_keys s handles
      else done

  -- The keys that `ta_sa_key_exchange_netflix_dh` makes from the input key and the private key.
  unfoldable pub netflix_keys : Rights → Rights → Key → Handles → Outcome
  unfolding netflix_outcome
  netflix_keys rights_ke rights_kh wrapping none_yet =
      let in_rights = wrapping.header.rights in
      let (s, secret) = secret_of found env.compute_dh in_rights in
      let (derived, (enc, hmac)) = env.derive_shared rights_ke rights_kh wrapping secret in
      let (wrapped, wrap) = env.derive_wrapping rights in_rights enc hmac in
      netflix_outcome none_yet s derived (import_stored_key env.store enc)
        (import_stored_key env.store hmac) wrapped (import_stored_key env.store wrap)

  -- Its loop that runs once, with all pointers.
  unfoldable pub netflix_checked : Rights → Rights → Status × Option Key → Handles → Outcome
  unfolding netflix_keys
  netflix_checked rights_ke rights_kh (s, none) none_yet =
      without_keys (key_status (s, none) in_guards) none_yet
  netflix_checked rights_ke rights_kh (s, some wrapping) none_yet =
      let in_checked = key_status (s, some wrapping) in_guards in
      let checked = key_status found dh_guards in
      let made = netflix_keys rights_ke rights_kh wrapping none_yet in
      if not (is_ok in_checked)
      then without_keys in_checked none_yet
      else if not (is_ok checked)
      then without_keys checked none_yet
      else made

  -- `ta_sa_key_exchange_netflix_dh`; each variable of the caller is set after the check of its pointer.
  unfoldable pub exchange_netflix : Option NetflixParameters → Handles → Outcome
  unfolding netflix_checked remove_on_error
  exchange_netflix none before = without_keys null_parameter before
  exchange_netflix (some p) before =
      let with_key = record before { key = slot_invalid } in
      let with_ke = record with_key { ke = slot_invalid } in
      let with_kh = record with_ke { kh = slot_invalid } in
      if not p.ke_given then without_keys null_parameter with_key else elim p.rights_ke [
        | none ↦ without_keys null_parameter with_ke
        | some rights_ke ↦
            if not p.kh_given then without_keys null_parameter with_ke else elim p.rights_kh [
              | none ↦ without_keys null_parameter with_kh
              | some rights_kh ↦
                  remove_on_error (netflix_checked rights_ke rights_kh p.found_in with_kh)
            ]
      ]

  -- `ta_sa_key_exchange`: whether all pointers are given, what `client_store_acquire` returns, the
  -- algorithm, its parameters, and the variables of the caller.
  unfoldable pub key_exchange : Bool → Status → ℕ → Option NetflixParameters → Handles → Outcome
  unfolding exchange_dh exchange_ecdh exchange_netflix
  key_exchange all_given client a p before =
      let by_dh = exchange_dh before in
      let by_ecdh = exchange_ecdh before in
      let by_netflix = exchange_netflix p before in
      if not all_given
      then without_keys null_parameter before
      else if not (is_ok client)
      then without_keys client before
      else if a == 0
      then by_dh
      else if a == 1
      then by_ecdh
      else if a == 2
      then by_netflix
      else without_keys invalid_parameter before
