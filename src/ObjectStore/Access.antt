-- ===== src/ObjectStore/Access.antt =====
-- Who gets an object: each outcome of acquire, release and add, with what it leaves unchanged.
use tasecureapi.Prelude.{
  ℕ, ◌+◌, ◌%◌, ◌<◌, ◌≡◌, refl, ◌↔◌, ◌≢◌, Bool, true, false, Option, none, some, arith, ◌==◌,
  if◌then◌else◌, length, set, length-set, status_ok, Uuid, IsUuid,
}
use tasecureapi.Memory.{size_mod}
use tasecureapi.Memory.Compare.{memcmp_constant_iff}
use tasecureapi.Slots.{Slots, slot_invalid, allocate}
use tasecureapi.Slots.Laws.{Allocates, exhausted, fresh, allocate-Allocates}
use tasecureapi.ObjectStore.{
  StoreObject, ObjectStore, object_at, differs, add, acquire_locked, acquire, release_locked,
  release,
}
use tasecureapi.ObjectStore.Valid.{IsValid, object_at_set}

pub differs_iff : (a b : Uuid) → IsUuid a → IsUuid b → (differs a b ≡ false) ↔ (a ≡ b)
differs_iff a b ha hb =
    let e = memcmp_constant_iff a b 16 ha hb in
    (λ h. e.0 (ground arith), λ h. ground (arith, e.1 h))

-- With identifiers of 16 bytes and the mutex locked, `acquire` succeeds exactly for the owner of an object that is there, in a store that
-- is not shutting down.
pub acquire_ok :
    (store : ObjectStore) (slot : ℕ) (caller : Uuid)
    → IsUuid (object_at store slot).owner_uuid
    → IsUuid caller
    → let r = acquire true true (some store) slot (some caller) in
      (r.status ≡ status_ok) ↔ (
        (slot < store.slot_count)
        × (store.is_shutting_down ≡ false)
        × ((object_at store slot).object ≢ 0)
        × ((object_at store slot).owner_uuid ≡ caller))
unfolding acquire
acquire_ok store slot caller ho hc =
    let d = differs_iff (object_at store slot).owner_uuid caller ho hc in
    (λ h. ground (arith, d), λ h. ground (arith, d))

-- A call of `acquire` that fails gives no object and changes nothing.
pub acquire_fails :
    (given locked : Bool) (store : Option ObjectStore) (slot : ℕ) (caller : Option Uuid)
    → (acquire given locked store slot caller).status ≢ status_ok
    → let r = acquire given locked store slot caller in
      (r.store ≡ store) × (r.object ≡ (if given then some 0 else none))
unfolding acquire
acquire_fails given locked store slot caller h = ground arith

-- A call of `acquire` that succeeds hands out the object of the slot, adds one reference to that slot, and
-- leaves every other slot as it was.
pub acquire_effect :
    (store : ObjectStore) (slot : ℕ) (caller : Uuid) (t : ℕ)
    → length store.objects ≡ store.slot_count
    → (acquire true true (some store) slot (some caller)).status ≡ status_ok
    → let r = acquire true true (some store) slot (some caller) in
      (r.object ≡ some (object_at store slot).object)
      × ((store' : ObjectStore) × (r.store ≡ some store')
          × (object_at store' t ≡ (
              if t == slot
              then record (object_at store slot) {
                reference_count = ((object_at store slot).reference_count + 1) % size_mod;
              }
              else object_at store t))
          × (store'.slots ≡ store.slots))
unfolding acquire
acquire_effect store slot caller t size h = (
  ground arith,
  (
    (acquire_locked store slot caller).2,
    ground arith,
    ground (
      arith,
      object_at_set store.objects slot t (record (object_at store slot) {
        reference_count = ((object_at store slot).reference_count + 1) % size_mod;
      }),
    ),
    ground arith,
  ),
)

-- With identifiers of 16 bytes and the mutex locked, `release` succeeds exactly for the owner of the object in the slot, if that object is
-- the one that is given and has a reference.
pub release_ok :
    (store : ObjectStore) (slot object : ℕ) (caller : Uuid)
    → IsUuid (object_at store slot).owner_uuid
    → IsUuid caller
    → ((release true (some store) slot object (some caller)).0 ≡ status_ok) ↔ (
        (slot < store.slot_count)
        × (object ≢ 0)
        × ((object_at store slot).object ≡ object)
        × (0 < (object_at store slot).reference_count)
        × ((object_at store slot).owner_uuid ≡ caller))
unfolding release
release_ok store slot object caller ho hc =
    let d = differs_iff (object_at store slot).owner_uuid caller ho hc in
    (λ h. ground (arith, d), λ h. ground (arith, d))

-- A release that fails changes nothing.
pub release_fails :
    (locked : Bool) (store : Option ObjectStore) (slot object : ℕ) (caller : Option Uuid)
    → (release locked store slot object caller).0 ≢ status_ok
    → (release locked store slot object caller).1 ≡ store
unfolding release
release_fails locked store slot object caller h = ground arith

abbrev counted : StoreObject → ℕ → StoreObject
counted o n = record o { reference_count = n }

-- What is acquired can be released by the same caller, and then every slot is as it was before, if
-- the reference count did not wrap.
pub release-acquire :
    (store : ObjectStore) (slot : ℕ) (caller : Uuid) (t : ℕ) {store' : ObjectStore} {object : ℕ}
    → length store.objects ≡ store.slot_count
    → (object_at store slot).reference_count + 1 < size_mod
    → acquire true true (some store) slot (some caller)
      ≡ record { status = status_ok; object = some object; store = some store' }
    → (store'' : ObjectStore) × (release true (some store') slot object (some caller)
        ≡ (status_ok, some store''))
      × (object_at store'' t ≡ object_at store t)
      × (store''.slots ≡ store.slots)
unfolding acquire release
release-acquire store slot caller t {store'} {object} size small h =
    let n = (object_at store slot).reference_count in
    let acquired = object_at_set store.objects slot in
    let o = object_at store slot in
    (
      (release_locked store' slot object caller).1,
      ground (arith, acquired slot (counted o ((n + 1) % size_mod))),
      ground (
        arith,
        acquired slot (counted o ((n + 1) % size_mod)),
        acquired t (counted o ((n + 1) % size_mod)),
        length-set store.objects slot (counted o ((n + 1) % size_mod)),
        object_at_set store'.objects slot t (counted o n),
      ),
      ground (arith, acquired slot (counted o ((n + 1) % size_mod))),
    )

-- What `add` has done when it succeeds.
pub record Placed (store : ObjectStore) (slot object : ℕ) (caller : Uuid) (store' : ObjectStore)
    : Type 0 where
  pub in_range : slot < store.slot_count
  pub was_empty : (object_at store slot).object ≡ 0
  pub entries :
      (t : ℕ)
      → object_at store' t ≡ (
          if t == slot
          then record { object = object; reference_count = 0; owner_uuid = caller }
          else object_at store t)
  pub same_count : store'.slot_count ≡ store.slot_count
  pub running : store'.is_shutting_down ≡ false

placed :
    (store : ObjectStore) (object : ℕ) (caller : Uuid) (slot : ℕ) (slots' : Slots)
    → IsValid store
    → store.is_shutting_down ≡ false
    → slot ≢ slot_invalid
    → Allocates store.slots slot slots'
    → Placed store slot object caller (record store {
      slots = slots';
      objects =
          set store.objects slot
            (record (object_at store slot) { object = object; owner_uuid = caller });
    })
placed store object caller slot slots' v running ne (exhausted e e' all) = absurd (ne e)
placed store object caller slot slots' v running ne (fresh lt unset bits valid count) =
    let inside : slot < store.slot_count = omega (arith, v.same_count) in
    let empty = (v.held slot inside).0 unset in
    record {
      in_range = inside;
      was_empty = empty;
      entries = λ t. ground (
        arith,
        v.unused slot inside empty,
        object_at_set store.objects slot t
            (record (object_at store slot) { object = object; owner_uuid = caller })
            (omega (arith, v.size)),
      );
      same_count = refl;
      running = running;
    }

-- On a valid store, an add that succeeds puts the object, owned by the caller and without a reference, into a slot
-- that was empty, and touches no other slot.
pub add_effect :
    (store : ObjectStore) (object : ℕ) (caller : Uuid) {slot : ℕ} {store' : ObjectStore}
    → IsValid store
    → add true true (some store) object (some caller)
      ≡ record { status = status_ok; slot = some slot; store = some store' }
    → Placed store slot object caller store'
unfolding add
add_effect store object caller {slot} {store'} v h = ground (
  arith,
  placed store object caller (allocate store.slots).0 (allocate store.slots).1 v,
  allocate-Allocates store.slots v.slots_valid,
)
