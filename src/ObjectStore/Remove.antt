-- ===== src/ObjectStore/Remove.antt =====
-- Removal and shutdown: what is freed, when the wait ends, and that nothing is freed twice or left.
use tasecureapi.Prelude.{
  ℕ, zero, suc, ◌+◌, ◌≤◌, ◌<◌, ◌≡◌, refl, ap, sym, ◌∙◌, ◌≢◌, true, false, none, some, List, [], ◌∷◌,
  arith, ◌==◌, if◌then◌else◌, length, get_or, set, drop, ◌++◌, length-set, status_ok,
  invalid_parameter, Uuid, IsUuid,
}
use tasecureapi.Memory.{size_mod}
use tasecureapi.Slots.{free}
use tasecureapi.ObjectStore.{
  StoreObject, ObjectStore, empty_object, object_at, differs, Turn, remove_loop, store_remove,
  remove, shutdown_wait, shutdown_slots, freed_of, shutdown,
}
use tasecureapi.ObjectStore.Valid.{object_at_set}
use tasecureapi.ObjectStore.Access.{differs_iff}

-- Nothing happens before the pass, and it gets the mutex.
abbrev pub idle : Turn
idle = record { others = λ store. store; locks = true }

abbrev pub removed : ObjectStore → ℕ → ObjectStore
removed store slot = record store {
  objects = set store.objects slot (record (object_at store slot) { object = 0 });
  slots = free store.slots slot;
}

-- In a store that is not shutting down, an owner who removes an object that nobody references gets
-- it freed at once: its slot is emptied and given back, and the release count, which does not wrap,
-- is as it was.
pub remove_unreferenced :
    (store : ObjectStore) (slot : ℕ) (caller : Uuid) (turns : List Turn)
    → IsUuid caller
    → slot < store.slot_count
    → store.is_shutting_down ≡ false
    → store.release_count + 1 < size_mod
    → (object_at store slot).object ≢ 0
    → (object_at store slot).reference_count ≡ 0
    → (object_at store slot).owner_uuid ≡ caller
    → remove true true (idle ∷ turns) (some store) slot (some caller)
      ≡ some (status_ok, (object_at store slot).object, some (removed store slot))
unfolding remove
remove_unreferenced store slot caller turns hc lt running small here unused owner = ground (
  arith,
  (differs_iff (object_at store slot).owner_uuid caller (ap length owner ∙ hc) hc).1 owner,
)

-- The object of a slot is there, and the caller owns it.
abbrev pub OwnedBy : ObjectStore → ℕ → Uuid → Type 0
OwnedBy store slot caller =
    ((object_at store slot).object ≢ 0) × ((object_at store slot).owner_uuid ≡ caller)

-- What the other threads make of the store in some turns.
abbrev pub after_others : List Turn → ObjectStore → ObjectStore
after_others [] store = store
after_others (t ∷ turns) store = after_others turns (t.others store)

-- Whatever the other threads do in these turns, each pass gets the mutex and finds the object of the
-- caller with references, how many it may be.
abbrev pub Referenced : List Turn → ObjectStore → ℕ → Uuid → Type 0
Referenced [] store slot caller = Unit
Referenced (t ∷ turns) store slot caller =
    (t.locks ≡ true)
    × OwnedBy (t.others store) slot caller
    × ((object_at (t.others store) slot).reference_count ≢ 0)
    × Referenced turns (t.others store) slot caller

owner_same :
    (store : ObjectStore) (slot : ℕ) (caller : Uuid)
    → IsUuid caller
    → OwnedBy store slot caller
    → differs (object_at store slot).owner_uuid caller ≡ false
owner_same store slot caller hc owned =
    (differs_iff (object_at store slot).owner_uuid caller (ap length owned.1 ∙ hc) hc).1 owned.1

append_nil : (turns : List Turn) → turns ++ [] ≡ turns
append_nil [] = refl
append_nil (t ∷ turns) = ap (λ ts. t ∷ ts) (append_nil turns)

waiting :
    (waits rest : List Turn) (store : ObjectStore) (slot : ℕ) (caller : Uuid)
    → IsUuid caller
    → Referenced waits store slot caller
    → remove_loop (waits ++ rest) store slot (some caller)
      ≡ remove_loop rest (after_others waits store) slot (some caller)
unfolding remove_loop
waiting [] rest store slot caller hc used = refl
waiting (t ∷ waits) rest store slot caller hc used = ground (
  arith,
  used.0,
  used.1,
  used.2,
  owner_same (t.others store) slot caller hc used.1,
  waiting waits rest (t.others store) slot caller hc used.3,
)

-- A removal by the owner, whose passes all get the mutex: it still waits after any number of passes
-- between which the other threads do what they like with the store, as long as each pass finds the object
-- of the caller referenced; and the first pass that finds it without references frees it, empties its
-- slot and gives the slot back.
pub remove_waits :
    (waits : List Turn) (last : Turn) (rest : List Turn) (store : ObjectStore) (slot : ℕ)
    (caller : Uuid)
    → IsUuid caller
    → Referenced waits store slot caller
    → last.locks ≡ true
    → let found = last.others (after_others waits store) in
      OwnedBy found slot caller
      → (object_at found slot).reference_count ≡ 0
      → (remove_loop waits store slot (some caller) ≡ none)
        × (remove_loop (waits ++ (last ∷ rest)) store slot (some caller)
            ≡ some (record {
              status = status_ok;
              object_to_free = (object_at found slot).object;
              store = removed found slot;
            }))
unfolding remove_loop
remove_waits waits last rest store slot caller hc used locks owned released =
    let found = last.others (after_others waits store) in
    (
      ap (λ turns. remove_loop turns store slot (some caller)) (sym (append_nil waits))
          ∙ waiting waits [] store slot caller hc used,
      waiting waits (last ∷ rest) store slot caller hc used
          ∙ ground (arith, locks, owned, released, owner_same found slot caller hc owned),
    )

-- The objects of a table, in the order of their slots.
abbrev pub live : List StoreObject → List ℕ
live [] = []
live (o ∷ os) = if o.object == 0 then live os else o.object ∷ live os

drop_step :
    (os : List StoreObject) (i : ℕ)
    → i < length os
    → drop i os ≡ get_or os i empty_object ∷ drop (suc i) os
drop_step [] i h = absurd (omega arith)
drop_step (o ∷ os) zero h = refl
drop_step (o ∷ os) (suc i) h = drop_step os i (omega arith)

drop-set :
    (os : List StoreObject) (i : ℕ) (o : StoreObject) → drop (suc i) (set os i o) ≡ drop (suc i) os
drop-set [] i o = refl
drop-set (x ∷ os) zero o = refl
drop-set (x ∷ os) (suc i) o = drop-set os i o

drop_all : (os : List StoreObject) (i : ℕ) → length os ≤ i → drop i os ≡ []
drop_all [] zero h = refl
drop_all [] (suc i) h = refl
drop_all (o ∷ os) zero h = absurd (omega arith)
drop_all (o ∷ os) (suc i) h = drop_all os i (omega arith)

-- Nobody references an object from slot `i` on.
abbrev Quiet : ℕ → ObjectStore → Type 0
Quiet i store = (t : ℕ) → i ≤ t → (object_at store t).reference_count ≡ 0

-- What the visit of one slot by the shutdown leaves.
abbrev swept : ObjectStore → ℕ → ObjectStore
swept store i = if (object_at store i).object == 0 then store else removed store i

sweep_slot :
    (store : ObjectStore) (i : ℕ) (turns : List Turn)
    → i < store.slot_count
    → (object_at store i).reference_count ≡ 0
    → store_remove true true (idle ∷ turns) store i none
      ≡ some (record {
        status = (if (object_at store i).object == 0 then invalid_parameter else status_ok);
        object_to_free = (object_at store i).object;
        store = swept store i;
      })
unfolding store_remove
sweep_slot store i turns lt unused = ground arith

Quiet-swept :
    (store : ObjectStore) (i : ℕ)
    → i < length store.objects
    → Quiet i store
    → Quiet (suc i) (swept store i)
Quiet-swept store i lt quiet t h = ground (
  arith,
  quiet t (omega arith),
  object_at_set store.objects i t (record (object_at store i) { object = 0 }) lt,
)

sweep :
    (n i : ℕ) (turns : ℕ → List Turn) (store : ObjectStore)
    → i + n ≡ store.slot_count
    → length store.objects ≡ store.slot_count
    → Quiet i store
    → (store' : ObjectStore) × (shutdown_slots n i (λ t. idle ∷ turns t) store
        ≡ some (live (drop i store.objects), store'))
unfolding shutdown_slots
sweep zero i turns store e size quiet = (store, rw (drop_all store.objects i (omega arith)) refl)
sweep (suc n) i turns store e size quiet =
    let lt : i < store.slot_count = omega arith in
    let ih =
      sweep n (suc i) turns (swept store i) (ground arith)
        (ground (arith, length-set store.objects i (record (object_at store i) { object = 0 })))
        (Quiet-swept store i (omega arith) quiet) in
    (
      ih.0,
      rw (sweep_slot store i (turns i) lt (quiet i (omega arith)), shutdown_slots)
          (ground (
            arith,
            ih.1,
            drop_step store.objects i (omega arith),
            drop-set store.objects i (record (object_at store i) { object = 0 }),
          )),
    )

-- A shutdown of a store that nobody uses any more ends, and frees exactly the objects that the
-- store holds, each once, in the order of their slots.
pub shutdown_frees_all :
    (store : ObjectStore) (waiting : List Turn) (turns : ℕ → List Turn)
    → length store.objects ≡ store.slot_count
    → store.release_count ≡ 0
    → ((t : ℕ) → (object_at store t).reference_count ≡ 0)
    → shutdown true (idle ∷ waiting) (λ t. idle ∷ turns t) (some store) ≡ some (live store.objects)
unfolding shutdown freed_of shutdown_wait
shutdown_frees_all store waiting turns size released quiet =
    let closed = record store { is_shutting_down = true } in
    let r = sweep store.slot_count 0 turns closed (omega arith) size (λ t h. quiet t) in
    ground (arith, r.1)
