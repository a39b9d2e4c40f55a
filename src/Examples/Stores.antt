-- ===== src/Examples/Stores.antt =====
-- A store of 32 slots, with one object of an owner `alice` in it.
use tasecureapi.Prelude.{
  ℕ, get_or-replicate, ◌<◌, ◌≡◌, refl, ap, ◌↔◌, true, false, none, some, [], ◌∷◌, arith, replicate,
  set, status_ok, Uuid, ◌≢◌, ◌∙◌,
}
use tasecureapi.Memory.{memcmp_constant, memcmp_loop}
use tasecureapi.Slots.{init as slots_init, allocate, allocate_from, ffs, ffs_from}
use tasecureapi.Prelude.Bits.{test_bit}
use tasecureapi.ObjectStore.{
  ObjectStore, InitResources, empty_object, object_at, init, add, add_locked, acquire,
  acquire_locked, release, release_locked, remove_loop, remove_pass, shutdown, Turn,
}
use tasecureapi.ObjectStore.Valid.{IsValid, init-IsValid, object_at_set}
use tasecureapi.ObjectStore.Access.{acquire_ok, release-acquire, Placed, add_effect}
use tasecureapi.ObjectStore.Remove.{
  idle, removed, after_others, Referenced, remove_waits, shutdown_frees_all,
}
use tasecureapi.ObjectStore.Threads.{
  System, update, Step, adds, acquires, removes, closes, Balanced, Step-Balanced, HeldRun, still,
  more, held_object_stays,
}

abbrev pub alice : Uuid
alice = replicate 16 1

abbrev bob : Uuid
bob = replicate 16 2

abbrev all_given : InitResources
all_given = record {
  bitfield_alloc = true;
  slots_alloc = true;
  objects_alloc = true;
  store_alloc = true;
  mutex_init = true;
}

abbrev pub fresh : ObjectStore
fresh = record {
  slots = record { bitfield = 0 ∷ []; slot_count = 32; block_count = 1 };
  objects = replicate 32 empty_object;
  slot_count = 32;
  is_shutting_down = false;
  release_count = 0;
}

-- The store with object 7 in slot 31 and `n` references to it.
abbrev stored : ℕ → ObjectStore
stored n = record {
  slots = record { bitfield = 1 ∷ []; slot_count = 32; block_count = 1 };
  objects =
      set (replicate 32 empty_object) 31
        (record { object = 7; reference_count = n; owner_uuid = alice });
  slot_count = 32;
  is_shutting_down = false;
  release_count = 0;
}

fresh-init : init true 32 all_given ≡ some fresh
unfolding init slots_init
fresh-init = refl

pub fresh-IsValid : IsValid fresh
fresh-IsValid = (init-IsValid 32 all_given (omega arith) fresh-init).0

fresh-empty : (t : ℕ) → object_at fresh t ≡ empty_object
fresh-empty = (init-IsValid 32 all_given (omega arith) fresh-init).1

add-fresh :
    add true true (some fresh) 7 (some alice)
    ≡ record { status = status_ok; slot = some 31; store = some (stored 0) }
unfolding add add_locked allocate allocate_from ffs ffs_from test_bit
add-fresh = refl

add_effect_example : Placed fresh 31 7 alice (stored 0)
add_effect_example = add_effect fresh 7 alice fresh-IsValid add-fresh

acquire-stored :
    acquire true true (some (stored 0)) 31 (some alice)
    ≡ record { status = status_ok; object = some 7; store = some (stored 1) }
unfolding acquire acquire_locked memcmp_constant memcmp_loop
acquire-stored = refl

acquire_ok_example :
    ((acquire true true (some (stored 0)) 31 (some alice)).status ≡ status_ok)
    ↔ ((31 < 32) × (false ≡ false) × ◌≢◌ {A = ℕ} 7 0 × (alice ≡ alice))
acquire_ok_example = acquire_ok (stored 0) 31 alice refl refl

refused-bob : (acquire true true (some (stored 0)) 31 (some bob)).status ≢ status_ok
unfolding acquire acquire_locked memcmp_constant memcmp_loop
refused-bob = λ h. cc

release-acquire_example :
    (store'' : ObjectStore) × (release true (some (stored 1)) 31 7 (some alice)
      ≡ (status_ok, some store''))
    × (object_at store'' 31 ≡ object_at (stored 0) 31)
    × (store''.slots ≡ (stored 0).slots)
release-acquire_example = release-acquire (stored 0) 31 alice 31 refl (omega arith) acquire-stored

refused-release : (release true (some (stored 0)) 31 7 (some alice)).0 ≢ status_ok
unfolding release release_locked memcmp_constant memcmp_loop
refused-release = λ h. cc

-- Two threads hold the object, and release it one after the other.
abbrev release_one : Turn
release_one = record { others = λ store. (release_locked store 31 7 alice).1; locks = true }

released-stored :
    ((release_locked (stored 2) 31 7 alice).1 ≡ stored 1)
    × ((release_locked (stored 1) 31 7 alice).1 ≡ stored 0)
unfolding release_locked memcmp_constant memcmp_loop
released-stored = (refl, refl)

abbrev last_store : ObjectStore
last_store = release_one.others (after_others (release_one ∷ []) (stored 2))

still_used : Referenced (release_one ∷ []) (stored 2) 31 alice
still_used = rw released-stored.0 (refl, (λ h. omega arith, refl), λ h. omega arith, tt)

last-stored : last_store ≡ stored 0
last-stored =
    ap (λ store. (release_locked store 31 7 alice).1) released-stored.0 ∙ released-stored.1

remove_waits_example :
    (remove_loop (release_one ∷ []) (stored 2) 31 (some alice) ≡ none)
    × (remove_loop (release_one ∷ release_one ∷ []) (stored 2) 31 (some alice)
        ≡ some (record {
          status = status_ok;
          object_to_free = (object_at last_store 31).object;
          store = removed last_store 31;
        }))
remove_waits_example =
    remove_waits (release_one ∷ []) release_one [] (stored 2) 31 alice refl still_used refl
      (rw last-stored ((λ h. omega arith), refl)) (rw last-stored refl)

unused-stored : (t : ℕ) → (object_at (stored 0) t).reference_count ≡ 0
unused-stored t = ground (
  arith,
  object_at_set fresh.objects 31 t (record { object = 7; reference_count = 0; owner_uuid = alice })
      (omega arith),
  get_or-replicate 32 t empty_object,
)

shutdown_frees_all_example :
    shutdown true (idle ∷ []) (λ t. idle ∷ []) (some (stored 0)) ≡ some (7 ∷ [])
shutdown_frees_all_example = shutdown_frees_all (stored 0) [] (λ t. []) refl refl unused-stored

-- Three threads: one adds the object and acquires it, one closes the store, one removes.
abbrev at_start : System
at_start = record { store = fresh; holders = λ t. 0 }

abbrev added : System
added = record { store = stored 0; holders = λ t. 0 }

abbrev in_use : System
in_use = record { store = stored 1; holders = update (λ t. 0) 31 1 }

abbrev closed : System
closed = record in_use { store = record (stored 1) { is_shutting_down = true } }

at_start-Balanced : Balanced at_start
at_start-Balanced = record {
  valid = fresh-IsValid;
  counted = λ t h. ap (λ o. o.reference_count) (fresh-empty t);
  bounded = λ t h. omega arith;
}

adding : Step at_start added
unfolding add_locked allocate allocate_from ffs ffs_from test_bit
adding = adds 7 alice (λ h. omega arith) refl

Step-Balanced_example : Balanced added
Step-Balanced_example = Step-Balanced at_start-Balanced adding

acquiring : Step added in_use
unfolding acquire_locked memcmp_constant memcmp_loop
acquiring = acquires 31 alice (omega arith) refl (omega arith) refl

in_use-Balanced : Balanced in_use
in_use-Balanced = Step-Balanced (Step-Balanced at_start-Balanced adding) acquiring

-- The shutdown finds the object in use, and waits.
removing : Step closed closed
unfolding remove_pass
removing = removes 31 none (omega arith) refl

held_run : HeldRun 31 in_use closed
held_run = more (more still (omega arith) (closes refl)) (omega arith) removing

held_object_stays_example :
    ((object_at closed.store 31).object ≡ 7) × ((object_at closed.store 31).owner_uuid ≡ alice)
held_object_stays_example = held_object_stays in_use-Balanced (omega arith) held_run
