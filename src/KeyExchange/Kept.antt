-- ===== src/KeyExchange/Kept.antt =====
-- Which keys ta_sa_key_exchange leaves in the key store.
use tasecureapi.Prelude.{
  ℕ, ◌≡◌, refl, inl, inr, Bool, true, false, not, Option, none, some, List, [], ◌∷◌, arith, ◌==◌,
  if◌then◌else◌, Status, null_parameter, invalid_parameter, Bool-cases,
}
use tasecureapi.Rights.{Rights}
use tasecureapi.Slots.{slot_invalid}
use tasecureapi.Svp.{is_ok}
use tasecureapi.StoredKey.{Key}
use tasecureapi.KeyExchange.{
  Environment, Handles, NetflixParameters, Outcome, without_keys, key_status, secret_of, dh_guards,
  ecdh_guards, in_guards, import_stored_key, import_secret, exchange_dh, exchange_ecdh,
  netflix_outcome, netflix_keys, remove_on_error, netflix_checked, exchange_netflix, key_exchange,
}

-- The key store never gives the invalid handle with a good status.
abbrev pub ValidHandles : (Key → Status × ℕ) → Type 0
ValidHandles store =
    (key : Key) → is_ok (store key).0 ≡ true → ((store key).1 == slot_invalid) ≡ false

-- The handles that an exchange gives to the caller: one, or the three of the Netflix exchange.
abbrev pub only_key : Handles → List ℕ
only_key handles = handles.key ∷ []

abbrev pub all_three : Handles → List ℕ
all_three handles = handles.key ∷ handles.kh ∷ handles.ke ∷ []

abbrev pub given_by : ℕ → Handles → List ℕ
given_by a = if a == 2 then all_three else only_key

-- With a good status the new keys in the store are those of the handles that are given, and with
-- another there are none.
pub record KeptIfGood (given : Handles → List ℕ) (o : Outcome) : Type 0 where
  pub on_error : is_ok o.status ≡ false → o.kept ≡ []
  pub when_good : is_ok o.status ≡ true → o.kept ≡ given o.handles

import_valid :
    (store : Key → Status × ℕ) (secret : Option Key)
    → ValidHandles store
    → is_ok (import_stored_key store secret).0 ≡ true
    → ((import_stored_key store secret).1 == slot_invalid) ≡ false
import_valid store none valid good = absurd (ground (arith, good))
import_valid store (some key) valid good = elim (Bool-cases (is_ok (store key).0)) [
  | inl fine ↦ let v = valid key fine in ground (arith, v, fine)
  | inr bad ↦ absurd (ground (arith, good, bad))
]

import_invalid :
    (store : Key → Status × ℕ) (secret : Option Key)
    → is_ok (import_stored_key store secret).0 ≡ false
    → (import_stored_key store secret).1 ≡ slot_invalid
import_invalid store none bad = refl
import_invalid store (some key) bad = elim (Bool-cases (is_ok (store key).0)) [
  | inl fine ↦ absurd (ground (arith, bad, fine))
  | inr worse ↦ ground (arith, worse)
]

-- The outcome of the steps, when the keys are removed after an error.
netflix_outcome-Kept :
    (none_yet : Handles) (s derived : Status) (s_ke : Status) (ke : ℕ) (s_kh : Status) (kh : ℕ)
    (wrapped : Status) (s_key : Status) (key : ℕ)
    → none_yet.key ≡ slot_invalid
    → (is_ok s_ke ≡ true → (ke == slot_invalid) ≡ false)
    → (is_ok s_kh ≡ true → (kh == slot_invalid) ≡ false)
    → (is_ok s_key ≡ false → key ≡ slot_invalid)
    → KeptIfGood all_three (
        remove_on_error
          (netflix_outcome none_yet s derived (s_ke, ke) (s_kh, kh) wrapped (s_key, key)))
unfolding netflix_outcome remove_on_error
netflix_outcome-Kept none_yet s derived s_ke ke s_kh kh wrapped s_key key start valid_ke valid_kh
      none_key =
    record { on_error = ground arith; when_good = ground arith }

-- Without new keys, a status that is not good leaves none.
without_keys-Kept :
    (s : Status) (handles : Handles)
    → is_ok s ≡ false
    → KeptIfGood all_three (remove_on_error (without_keys s handles))
unfolding remove_on_error
without_keys-Kept s handles bad = record { on_error = ground arith; when_good = ground arith }

without_keys-good :
    {given : Handles → List ℕ} {handles : Handles} (s : Status)
    → is_ok s ≡ false
    → KeptIfGood given (without_keys s handles)
without_keys-good s bad = record { on_error = ground arith; when_good = ground arith }

choice-Kept :
    {given : Handles → List ℕ} (b : Bool) (x y : Outcome)
    → (b ≡ true → KeptIfGood given x)
    → (b ≡ false → KeptIfGood given y)
    → KeptIfGood given (if b then x else y)
choice-Kept true x y hx hy = hx refl
choice-Kept false x y hx hy = hy refl

-- Behind a pointer that must be given.
pointers-Kept :
    {keys : Handles → List ℕ} (given : Bool) (handles : Handles) (o : Outcome)
    → (given ≡ true → KeptIfGood keys o)
    → KeptIfGood keys (if not given then without_keys null_parameter handles else o)
pointers-Kept true handles o h = h refl
pointers-Kept false handles o h = without_keys-good null_parameter refl

rights-Kept :
    {keys : Handles → List ℕ} (rights : Option Rights) (handles : Handles) (f : Rights → Outcome)
    → ((r : Rights) → KeptIfGood keys (f r))
    → KeptIfGood keys (elim rights [ none ↦ without_keys null_parameter handles | some r ↦ f r ])
rights-Kept none handles f h = without_keys-good null_parameter refl
rights-Kept (some r) handles f h = h r

-- Behind a status that must be good; on an error there is a status `e` that is not.
checked-Kept :
    (Holds : Outcome → Type 0) (s e : Status) (handles : Handles) (o : Outcome)
    → ((s : Status) → is_ok s ≡ false → Holds (without_keys s handles))
    → (is_ok s ≡ false → is_ok e ≡ false)
    → Holds o
    → Holds (if not (is_ok s) then without_keys e handles else o)
checked-Kept Holds s e handles o without errs holds = elim (Bool-cases (is_ok s)) [
  | inl good ↦ rw good holds
  | inr bad ↦ rw bad (without e (errs bad))
]

module _ (env : Environment) (rights : Rights) (found : Status × Option Key) where
  import_secret-Kept :
      (handles : Handles) (secret : Option Key)
      → KeptIfGood only_key (import_secret env rights found handles secret)
  import_secret-Kept handles none = record { on_error = ground arith; when_good = ground arith }
  import_secret-Kept handles (some key) = record {
    on_error = ground arith;
    when_good = ground arith;
  }

  exchange_dh-Kept : (before : Handles) → KeptIfGood only_key (exchange_dh env rights found before)
  unfolding exchange_dh
  exchange_dh-Kept before =
      let handles = record before { key = slot_invalid } in
      let checked = key_status env rights found found (dh_guards env rights found) in
      let s = secret_of env rights found found env.compute_dh rights in
      let done = import_secret env rights found handles s.1 in
      checked-Kept (KeptIfGood only_key) checked checked handles
        (if not (is_ok s.0) then without_keys invalid_parameter handles else done) without_keys-good
        (λ bad. bad)
        (checked-Kept (KeptIfGood only_key) s.0 invalid_parameter handles done without_keys-good
          (λ bad. refl) (import_secret-Kept handles s.1))

  exchange_ecdh-Kept :
      (before : Handles) → KeptIfGood only_key (exchange_ecdh env rights found before)
  unfolding exchange_ecdh
  exchange_ecdh-Kept before =
      let handles = record before { key = slot_invalid } in
      let checked = key_status env rights found found (ecdh_guards env rights found) in
      let s = secret_of env rights found found env.compute_ecdh rights in
      let done = import_secret env rights found handles s.1 in
      checked-Kept (KeptIfGood only_key) checked checked handles
        (if not (is_ok s.0) then without_keys s.0 handles else done) without_keys-good (λ bad. bad)
        (checked-Kept (KeptIfGood only_key) s.0 s.0 handles done without_keys-good (λ bad. bad)
          (import_secret-Kept handles s.1))

  -- A status of an error, also where the key store gives no key.
  key_status-bad : (s : Status) → is_ok (if is_ok s then null_parameter else s) ≡ false
  key_status-bad s = elim (Bool-cases (is_ok s)) [
    | inl good ↦ ground (arith, good)
    | inr bad ↦ ground (arith, bad)
  ]

  netflix_keys-Kept :
      ValidHandles env.store
      → (rights_ke rights_kh : Rights) (wrapping : Key) (none_yet : Handles)
      → none_yet.key ≡ slot_invalid
      → KeptIfGood all_three
          (remove_on_error (netflix_keys env rights found rights_ke rights_kh wrapping none_yet))
  unfolding netflix_keys
  netflix_keys-Kept valid rights_ke rights_kh wrapping none_yet start =
      let in_rights = wrapping.header.rights in
      let s = secret_of env rights found found env.compute_dh in_rights in
      let d = env.derive_shared rights_ke rights_kh wrapping s.1 in
      let w = env.derive_wrapping rights in_rights d.1.0 d.1.1 in
      let ke = import_stored_key env.store d.1.0 in
      let kh = import_stored_key env.store d.1.1 in
      let key = import_stored_key env.store w.1 in
      netflix_outcome-Kept none_yet s.0 d.0 ke.0 ke.1 kh.0 kh.1 w.0 key.0 key.1 start
        (import_valid env.store d.1.0 valid) (import_valid env.store d.1.1 valid)
        (import_invalid env.store w.1)

  netflix_checked-Kept :
      ValidHandles env.store
      → (rights_ke rights_kh : Rights) (found_in : Status × Option Key) (none_yet : Handles)
      → none_yet.key ≡ slot_invalid
      → KeptIfGood all_three
          (remove_on_error (netflix_checked env rights found rights_ke rights_kh found_in none_yet))
  unfolding netflix_checked
  netflix_checked-Kept valid rights_ke rights_kh (s, none) none_yet start =
      without_keys-Kept _ none_yet (key_status-bad s)
  netflix_checked-Kept valid rights_ke rights_kh (s, some wrapping) none_yet start =
      let Holds = λ (o : Outcome). KeptIfGood all_three (remove_on_error o) in
      let in_checked =
        key_status env rights found (s, some wrapping) (in_guards env rights found) in
      let checked = key_status env rights found found (dh_guards env rights found) in
      let made = netflix_keys env rights found rights_ke rights_kh wrapping none_yet in
      checked-Kept Holds in_checked in_checked none_yet
        (if not (is_ok checked) then without_keys checked none_yet else made)
        (λ s. without_keys-Kept s none_yet) (λ bad. bad)
        (checked-Kept Holds checked checked none_yet made (λ s. without_keys-Kept s none_yet)
          (λ bad. bad) (netflix_keys-Kept valid rights_ke rights_kh wrapping none_yet start))

  exchange_netflix-Kept :
      ValidHandles env.store
      → (p : Option NetflixParameters) (before : Handles)
      → KeptIfGood all_three (exchange_netflix env rights found p before)
  unfolding exchange_netflix
  exchange_netflix-Kept valid none before = without_keys-good null_parameter refl
  exchange_netflix-Kept valid (some p) before =
      let with_key = record before { key = slot_invalid } in
      let with_ke = record with_key { ke = slot_invalid } in
      let with_kh = record with_ke { kh = slot_invalid } in
      let last = λ (ke kh : Rights).
        remove_on_error (netflix_checked env rights found ke kh p.found_in with_kh) in
      let with_rights_kh : Rights → Outcome = λ ke. elim p.rights_kh [
        | none ↦ without_keys null_parameter with_kh
        | some kh ↦ last ke kh
      ] in
      let with_rights_ke : Outcome = elim p.rights_ke [
        | none ↦ without_keys null_parameter with_ke
        | some ke ↦
            if not p.kh_given then without_keys null_parameter with_ke else with_rights_kh ke
      ] in
      pointers-Kept p.ke_given with_key with_rights_ke (λ given.
        rights-Kept p.rights_ke with_ke
          (λ ke. if not p.kh_given then without_keys null_parameter with_ke else with_rights_kh ke)
          (λ ke. pointers-Kept p.kh_given with_ke (with_rights_kh ke) (λ given.
            rights-Kept p.rights_kh with_kh (last ke)
              (λ kh. netflix_checked-Kept valid ke kh p.found_in with_kh refl))))

-- The keys that an algorithm gives.
for_algorithm :
    (a : ℕ) (given : Handles → List ℕ) (o : Outcome)
    → given_by a ≡ given
    → KeptIfGood given o
    → KeptIfGood (given_by a) o
for_algorithm a given o same h = rw same h

-- Unless its status is good, `ta_sa_key_exchange` leaves no new key in the key store. With a good status it
-- leaves exactly those whose handles it gives to the caller: for the Netflix exchange `*key`, `*out_kh` and
-- `*out_ke`, and for the other algorithms `*key`. The key store gives no invalid handle with a good
-- status.
pub key_exchange_kept :
    (env : Environment) (rights : Rights) (found : Status × Option Key) (all_given : Bool)
    (client : Status) (a : ℕ) (p : Option NetflixParameters) (before : Handles)
    → ValidHandles env.store
    → KeptIfGood (given_by a) (key_exchange env rights found all_given client a p before)
unfolding key_exchange
key_exchange_kept env rights found all_given client a p before valid =
    let by_dh = exchange_dh env rights found before in
    let by_ecdh = exchange_ecdh env rights found before in
    let by_netflix = exchange_netflix env rights found p before in
    let unknown = without_keys invalid_parameter before in
    let other = if a == 2 then by_netflix else unknown in
    let chosen = if a == 0 then by_dh else if a == 1 then by_ecdh else other in
    pointers-Kept all_given before
      (if not (is_ok client) then without_keys client before else chosen)
      (λ given.
        checked-Kept (KeptIfGood (given_by a)) client client before chosen without_keys-good
          (λ bad. bad)
          (choice-Kept (a == 0) by_dh (if a == 1 then by_ecdh else other)
            (λ e.
              for_algorithm a only_key by_dh (ground (arith, e))
                (exchange_dh-Kept env rights found before))
            (λ n.
              choice-Kept (a == 1) by_ecdh other
                (λ e.
                  for_algorithm a only_key by_ecdh (ground (arith, e))
                    (exchange_ecdh-Kept env rights found before))
                (λ n.
                  choice-Kept (a == 2) by_netflix unknown
                    (λ e.
                      for_algorithm a all_three by_netflix (ground (arith, e))
                        (exchange_netflix-Kept env rights found valid p before))
                    (λ n. without_keys-good invalid_parameter refl)))))
