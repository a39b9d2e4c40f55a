-- ===== src/ObjectStore.antt =====
-- taimpl/src/internal/object_store.c: the table of reference-counted objects that the key, cipher,
-- MAC, SVP and client stores share. A pointer to an object is a number, and 0 is NULL. Each function
-- takes, besides its arguments, whether its `mtx_lock` succeeds; what other threads do while a
-- function sleeps is a list of turns.
pub mod Valid
pub mod Access
pub mod Remove
pub mod Threads
use tasecureapi.Prelude.{
  ℕ, zero, suc, ◌+◌, ◌-◌, ◌%◌, ◌^◌, Bool, true, false, ◌&&◌, not, Option, none, some, List, [], ◌∷◌,
  leb, ◌==◌, if◌then◌else◌, get_or, set, replicate, Status, status_ok, null_parameter,
  invalid_parameter, internal_error, operation_not_allowed, no_available_resource_slot, Uuid,
}
use tasecureapi.Memory.{size_mod, memcmp_constant}
use tasecureapi.Slots.{Slots, slot_invalid, int_bits, init as slots_init, allocate, free}

-- `store_object_t`
pub record StoreObject : Type 0 where
  pub object : ℕ
  pub reference_count : ℕ
  pub owner_uuid : Uuid

-- An entry after the `memset` of `object_store_init`.
abbrev pub empty_object : StoreObject
empty_object = record { object = 0; reference_count = 0; owner_uuid = replicate 16 0 }

-- `struct object_store_s`, without its mutex, its free function and its name.
pub record ObjectStore : Type 0 where
  pub slots : Slots
  pub objects : List StoreObject
  pub slot_count : ℕ
  pub is_shutting_down : Bool
  pub release_count : ℕ

abbrev pub object_at : ObjectStore → ℕ → StoreObject
object_at store slot = get_or store.objects slot empty_object

-- `memory_memcmp_constant(...) != 0` on two identifiers
abbrev pub differs : Uuid → Uuid → Bool
differs a b = not (memcmp_constant a b 16 == 0)

-- What succeeds of the resources that `object_store_init` asks for.
pub record InitResources : Type 0 where
  pub bitfield_alloc : Bool
  pub slots_alloc : Bool
  pub objects_alloc : Bool
  pub store_alloc : Bool
  pub mutex_init : Bool

-- The first argument says whether the pointer `object_free` is given.
unfoldable pub init : Bool → ℕ → InitResources → Option ObjectStore
init object_free count r =
    if not object_free
    then none
    else if not (count % int_bits == 0)
    then none
    else elim (slots_init r.bitfield_alloc r.slots_alloc count) [
      | none ↦ none
      | some slots ↦
          if not r.objects_alloc
          then none
          else if not r.store_alloc
          then none
          else if not r.mutex_init
          then none
          else some (record {
            slots = slots;
            objects = replicate count empty_object;
            slot_count = count;
            is_shutting_down = false;
            release_count = 0;
          })
    ]

unfoldable pub increment_release_count : Bool → ObjectStore → Bool × ObjectStore
increment_release_count locked store =
    if not locked
    then (false, store)
    else if store.is_shutting_down
    then (false, store)
    else (true, record store { release_count = (store.release_count + 1) % size_mod })

unfoldable pub decrement_release_count : Bool → ObjectStore → ObjectStore
decrement_release_count locked store =
    if not locked
    then store
    else record store { release_count = (store.release_count + size_mod - 1) % size_mod }

-- What a pass of the loop of `store_remove` ends in: it is done, with the object to free or 0, or
-- the object is in use and the thread sleeps.
pub data Pass : Type 0 where
  finished : Status → ℕ → ObjectStore → Pass
  waits : Pass

-- One pass under the mutex. No caller means that the store is shutting down.
unfoldable pub remove_pass : ObjectStore → ℕ → Option Uuid → Pass
remove_pass store slot caller_uuid =
    let entry = object_at store slot in
    if entry.object == 0
    then finished invalid_parameter 0 store
    else if refused entry caller_uuid
    then finished operation_not_allowed 0 store
    else if entry.reference_count == 0
    then finished status_ok entry.object (record store {
      objects = set store.objects slot (record entry { object = 0 });
      slots = free store.slots slot;
    })
    else waits
  where
    refused : StoreObject → Option Uuid → Bool
    refused entry none = false
    refused entry (some caller) = differs entry.owner_uuid caller

-- What other threads do before a pass, and whether the pass gets the mutex.
pub record Turn : Type 0 where
  pub others : ObjectStore → ObjectStore
  pub locks : Bool

pub record Removed : Type 0 where
  pub status : Status
  pub object_to_free : ℕ
  pub store : ObjectStore

-- The loop of `store_remove`. `none` means that it still waits when the turns run out.
unfoldable pub remove_loop : List Turn → ObjectStore → ℕ → Option Uuid → Option Removed
unfolding remove_pass
remove_loop [] store slot caller_uuid = none
remove_loop (t ∷ turns) store slot caller_uuid =
    let store' = t.others store in
    let rest = remove_loop turns store' slot caller_uuid in
    if not t.locks
    then some (record { status = internal_error; object_to_free = 0; store = store' })
    else elim (remove_pass store' slot caller_uuid) [
      | finished s o after ↦ some (record { status = s; object_to_free = o; store = after })
      | waits ↦ rest
    ]

count_down : Bool → Option Removed → Option Removed
unfolding decrement_release_count
count_down locked none = none
count_down locked (some r) = some (record r { store = decrement_release_count locked r.store })

-- `store_remove`, with the locks of the two updates of the release count.
unfoldable pub store_remove :
    Bool → Bool → List Turn → ObjectStore → ℕ → Option Uuid → Option Removed
unfolding remove_loop increment_release_count count_down
store_remove inc_locks dec_locks turns store slot caller_uuid =
    if leb store.slot_count slot
    then some (record { status = invalid_parameter; object_to_free = 0; store = store })
    else elim caller_uuid [
      | none ↦ remove_loop turns store slot none
      | some caller ↦ counted caller (increment_release_count inc_locks store)
    ]
  where
    counted : Uuid → Bool × ObjectStore → Option Removed
    counted caller (true, store') =
        count_down dec_locks (remove_loop turns store' slot (some caller))
    counted caller (false, store') =
        some (record { status = status_ok; object_to_free = 0; store = store' })

-- `object_store_remove`; 0 is handed to the free function when there is nothing to free.
unfoldable pub remove :
    Bool
    → Bool
    → List Turn
    → Option ObjectStore
    → ℕ
    → Option Uuid
    → Option (Status × ℕ × Option ObjectStore)
unfolding store_remove
remove inc_locks dec_locks turns none slot caller_uuid = some (null_parameter, 0, none)
remove inc_locks dec_locks turns (some store) slot none = some (null_parameter, 0, some store)
remove inc_locks dec_locks turns (some store) slot (some caller) =
    elim (store_remove inc_locks dec_locks turns store slot (some caller)) [
      | none ↦ none
      | some r ↦ some (r.status, r.object_to_free, some r.store)
    ]

-- The wait of `object_store_shutdown` for the release count to be 0.
unfoldable pub shutdown_wait : List Turn → ObjectStore → Option ObjectStore
shutdown_wait [] store = none
shutdown_wait (t ∷ turns) store =
    let store' = t.others store in
    let rest = shutdown_wait turns store' in
    if not t.locks then some store' else if store'.release_count == 0 then some store' else rest

-- Its loop over the slots, from slot `i` on with `n` slots left: what is freed, in order.
freeing : ℕ → Option (List ℕ × ObjectStore) → Option (List ℕ × ObjectStore)
freeing o none = none
freeing o (some (freed, store)) = some ((if o == 0 then freed else o ∷ freed), store)

unfoldable pub shutdown_slots :
    ℕ → ℕ → (ℕ → List Turn) → ObjectStore → Option (List ℕ × ObjectStore)
unfolding freeing
shutdown_slots zero i turns store = some ([], store)
shutdown_slots (suc n) i turns store = elim (store_remove true true (turns i) store i none) [
  | none ↦ none
  | some r ↦ freeing r.object_to_free (shutdown_slots n (suc i) turns r.store)
]

freed_of : Option (List ℕ × ObjectStore) → Option (List ℕ)
freed_of none = none
freed_of (some (freed, store)) = some freed

-- `object_store_shutdown`: the objects that it frees. `none` means that it still waits.
unfoldable pub shutdown : Bool → List Turn → (ℕ → List Turn) → Option ObjectStore → Option (List ℕ)
unfolding shutdown_wait freed_of
shutdown locked waiting turns none = some []
shutdown locked waiting turns (some store) =
    if not locked
    then some []
    else elim (shutdown_wait waiting (record store { is_shutting_down = true })) [
      | none ↦ none
      | some store' ↦ freed_of (shutdown_slots store'.slot_count 0 turns store')
    ]

pub record Added : Type 0 where
  pub status : Status
  pub slot : Option ℕ
  pub store : Option ObjectStore

-- `object_store_add` under the mutex: the status, `*slot`, and the store.
unfoldable pub add_locked : ObjectStore → ℕ → Uuid → Status × ℕ × ObjectStore
add_locked store object caller =
    let (slot, slots) = allocate store.slots in
    let store' = record store { slots = slots } in
    if store.is_shutting_down
    then (internal_error, slot_invalid, store)
    else if slot == slot_invalid
    then (no_available_resource_slot, slot, store')
    else (
      status_ok,
      slot,
      record store' {
        objects =
            set store.objects slot
              (record (object_at store slot) { object = object; owner_uuid = caller });
      },
    )

-- `object_store_add`; the first argument says whether the pointer to the slot is given.
unfoldable pub add : Bool → Bool → Option ObjectStore → ℕ → Option Uuid → Added
unfolding add_locked
add slot_given locked store object caller_uuid =
    if slot_given
    then checked store caller_uuid
    else record { status = null_parameter; slot = none; store = store }
  where
    refuse : Status → Added
    refuse s = record { status = s; slot = some slot_invalid; store = store }

    enter : ObjectStore → Uuid → Added
    enter st caller =
        let (s, slot, st') = add_locked st object caller in
        if locked
        then record { status = s; slot = some slot; store = some st' }
        else refuse internal_error

    checked : Option ObjectStore → Option Uuid → Added
    checked none c = refuse null_parameter
    checked (some st) none = refuse null_parameter
    checked (some st) (some caller) = if object == 0 then refuse null_parameter else enter st caller

pub record Acquired : Type 0 where
  pub status : Status
  pub object : Option ℕ
  pub store : Option ObjectStore

-- `object_store_acquire` under the mutex: the status, `*object`, and the store.
unfoldable pub acquire_locked : ObjectStore → ℕ → Uuid → Status × ℕ × ObjectStore
acquire_locked store slot caller =
    let entry = object_at store slot in
    if store.is_shutting_down
    then (internal_error, 0, store)
    else if entry.object == 0
    then (invalid_parameter, 0, store)
    else if differs entry.owner_uuid caller
    then (operation_not_allowed, 0, store)
    else (
      status_ok,
      entry.object,
      record store {
        objects =
            set store.objects slot
              (record entry { reference_count = (entry.reference_count + 1) % size_mod });
      },
    )

-- `object_store_acquire`; the first argument says whether the pointer to the object is given.
unfoldable pub acquire : Bool → Bool → Option ObjectStore → ℕ → Option Uuid → Acquired
unfolding acquire_locked
acquire object_given locked store slot caller_uuid =
    if object_given
    then checked store caller_uuid
    else record { status = null_parameter; object = none; store = store }
  where
    refuse : Status → Acquired
    refuse s = record { status = s; object = some 0; store = store }

    enter : ObjectStore → Uuid → Acquired
    enter st caller =
        let (s, object, st') = acquire_locked st slot caller in
        if leb st.slot_count slot
        then refuse invalid_parameter
        else if locked
        then record { status = s; object = some object; store = some st' }
        else refuse internal_error

    checked : Option ObjectStore → Option Uuid → Acquired
    checked none c = refuse null_parameter
    checked (some st) none = refuse null_parameter
    checked (some st) (some caller) = enter st caller

-- `object_store_release` under the mutex.
unfoldable pub release_locked : ObjectStore → ℕ → ℕ → Uuid → Status × ObjectStore
release_locked store slot object caller =
    let entry = object_at store slot in
    if differs entry.owner_uuid caller
    then (operation_not_allowed, store)
    else if not (entry.object == object)
    then (internal_error, store)
    else if entry.reference_count == 0
    then (internal_error, store)
    else (
      status_ok,
      record store {
        objects =
            set store.objects slot (record entry { reference_count = entry.reference_count - 1 });
      },
    )

unfoldable pub release :
    Bool → Option ObjectStore → ℕ → ℕ → Option Uuid → Status × Option ObjectStore
unfolding release_locked
release locked none slot object caller_uuid = (null_parameter, none)
release locked (some store) slot object none = (null_parameter, some store)
release locked (some store) slot object (some caller) =
    let (s, store') = release_locked store slot object caller in
    if leb store.slot_count slot
    then (invalid_parameter, some store)
    else if object == 0
    then (null_parameter, some store)
    else if locked
    then (s, some store')
    else (internal_error, some store)

unfoldable pub size : Option ObjectStore → ℕ
size none = 0
size (some store) = store.slot_count
