-- ===== src/ObjectStore/Valid.antt =====
-- The invariant of the store: a slot is allocated exactly when it holds an object, and a slot
-- without an object has no references. Every operation keeps it.
use native.Mathlib.Decide.{ℕ_discrete}
use tasecureapi.Prelude.{
  ℕ, ◌+◌, ◌-◌, ◌%◌, ◌<◌, ◌≡◌, refl, ◌∙◌, ◌↔◌, inl, inr, ◌≢◌, true, false, Option, some, List, arith,
  ◌==◌, if◌then◌else◌, Option-cases, length, get_or, set, replicate, length-set, get_or-set_self,
  get_or-set_ne, get_or-replicate, length-replicate, Uuid,
}
use tasecureapi.Memory.{size_mod}
use tasecureapi.Slots.{Slots, slot_invalid, init as slots_init, allocate, free}
use tasecureapi.Slots.Laws.{
  allocated, Allocates, exhausted, fresh, allocate-Allocates, free_lem, free-IsValid,
  slot_count-free, init_lem as slots_init_lem,
}
use tasecureapi.Slots.Laws as SlotLaws
use tasecureapi.ObjectStore.{
  StoreObject, ObjectStore, InitResources, empty_object, object_at, init, Pass, finished, waits,
  remove_pass, add_locked, acquire_locked, release_locked,
}

pub record IsValid (store : ObjectStore) : Type 0 where
  pub slots_valid : SlotLaws.IsValid store.slots
  pub same_count : store.slots.slot_count ≡ store.slot_count
  pub size : length store.objects ≡ store.slot_count
  pub held :
      (t : ℕ)
      → t < store.slot_count
      → (allocated store.slots t ≡ 0) ↔ ((object_at store t).object ≡ 0)
  pub unused :
      (t : ℕ)
      → t < store.slot_count
      → (object_at store t).object ≡ 0
      → (object_at store t).reference_count ≡ 0

-- An entry after a write to one.
pub object_at_set :
    (objects : List StoreObject) (slot t : ℕ) (o : StoreObject)
    → slot < length objects
    → get_or (set objects slot o) t empty_object
      ≡ (if t == slot then o else get_or objects t empty_object)
object_at_set objects slot t o lt = elim (ℕ_discrete slot t) [
  | yes e ↦ rw (← e) (ground (arith, get_or-set_self objects slot o empty_object lt))
  | no ne ↦ ground (arith, get_or-set_ne objects slot t o empty_object ne)
]

-- A write to one entry, with the bit of its slot to match.
module _ (store : ObjectStore) (slots' : Slots) (slot bit : ℕ) (o : StoreObject) (v : IsValid store)
    (lt : slot < store.slot_count) (slots_valid' : SlotLaws.IsValid slots')
    (count' : slots'.slot_count ≡ store.slot_count)
    (bits : (t : ℕ) → allocated slots' t ≡ (if t == slot then bit else allocated store.slots t))
    (same : (bit ≡ 0) ↔ (o.object ≡ 0)) (none_used : o.object ≡ 0 → o.reference_count ≡ 0) where
  entry :
      (t : ℕ)
      → get_or (set store.objects slot o) t empty_object
        ≡ (if t == slot then o else object_at store t)
  entry t = object_at_set store.objects slot t o (omega (arith, v.size))

  pub write-IsValid : IsValid (record store { slots = slots'; objects = set store.objects slot o })
  write-IsValid = record {
    slots_valid = slots_valid';
    same_count = count';
    size = length-set store.objects slot o ∙ v.size;
    held = λ t h. rw (bits t, entry t) (ground (arith, v.held t h));
    unused = λ t h. rw (entry t) (ground (arith, v.unused t h));
  }

-- A change of the references of an object that is there.
pub recount-IsValid :
    (store : ObjectStore) (slot n : ℕ)
    → IsValid store
    → slot < store.slot_count
    → (object_at store slot).object ≢ 0
    → IsValid (record store {
      objects = set store.objects slot (record (object_at store slot) { reference_count = n });
    })
recount-IsValid store slot n v lt ne =
    write-IsValid store store.slots slot (allocated store.slots slot)
      (record (object_at store slot) { reference_count = n }) v lt v.slots_valid v.same_count
      (λ t. ground arith) (v.held slot lt) (λ e. absurd (ne e))

pub acquire_locked-IsValid :
    (store : ObjectStore) (slot : ℕ) (caller : Uuid)
    → IsValid store
    → slot < store.slot_count
    → IsValid (acquire_locked store slot caller).2
unfolding acquire_locked
acquire_locked-IsValid store slot caller v lt = ground (
  arith,
  recount-IsValid store slot (((object_at store slot).reference_count + 1) % size_mod) v lt,
)

pub release_locked-IsValid :
    (store : ObjectStore) (slot object : ℕ) (caller : Uuid)
    → IsValid store
    → slot < store.slot_count
    → object ≢ 0
    → IsValid (release_locked store slot object caller).1
unfolding release_locked
release_locked-IsValid store slot object caller v lt ne =
    ground (arith, recount-IsValid store slot ((object_at store slot).reference_count - 1) v lt)

-- What `add` leaves for each thing that `slots_allocate` may do.
added-IsValid :
    (store : ObjectStore) (object : ℕ) (caller : Uuid) (slot : ℕ) (slots' : Slots)
    → IsValid store
    → object ≢ 0
    → Allocates store.slots slot slots'
    → IsValid (
        if slot == slot_invalid then record store { slots = slots' } else record store {
          slots = slots';
          objects =
              set store.objects slot
                (record (object_at store slot) { object = object; owner_uuid = caller });
        })
added-IsValid store object caller slot slots' v ne (exhausted e e' all) = rw (e, e') v
added-IsValid store object caller slot slots' v ne (fresh lt unset bits valid count) = ground (
  arith,
  v.slots_valid.fits,
  write-IsValid store slots' slot 1
      (record (object_at store slot) { object = object; owner_uuid = caller }) v
      (omega (arith, v.same_count)) valid (count ∙ v.same_count) bits
      (λ e. absurd (omega arith), λ e. absurd (ne e)) (λ e. absurd (ne e)),
)

pub add_locked-IsValid :
    (store : ObjectStore) (object : ℕ) (caller : Uuid)
    → IsValid store
    → object ≢ 0
    → IsValid (add_locked store object caller).2
unfolding add_locked
add_locked-IsValid store object caller v ne = ground (
  arith,
  added-IsValid store object caller (allocate store.slots).0 (allocate store.slots).1 v ne
      (allocate-Allocates store.slots v.slots_valid),
)

-- What a pass of the removal leaves, or leaves alone.
abbrev pub after_pass : ObjectStore → Pass → ObjectStore
after_pass store (finished s o store') = store'
after_pass store waits = store

pub remove_pass-IsValid :
    (store : ObjectStore) (slot : ℕ) (caller_uuid : Option Uuid)
    → IsValid store
    → slot < store.slot_count
    → IsValid (after_pass store (remove_pass store slot caller_uuid))
unfolding remove_pass
remove_pass-IsValid store slot caller_uuid v lt = ground (
  arith,
  write-IsValid store (free store.slots slot) slot 0 (record (object_at store slot) { object = 0 })
      v lt (free-IsValid store.slots slot v.slots_valid)
      (slot_count-free store.slots slot ∙ v.same_count)
      (λ t. free_lem store.slots slot t v.slots_valid) (λ e. refl, λ e. refl),
)

abbrev initial_store : ℕ → Slots → ObjectStore
initial_store count slots = record {
  slots = slots;
  objects = replicate count empty_object;
  slot_count = count;
  is_shutting_down = false;
  release_count = 0;
}

initial-IsValid :
    (count : ℕ) (slots : Slots)
    → SlotLaws.IsValid slots
    → slots.slot_count ≡ count
    → ((t : ℕ) → allocated slots t ≡ 0)
    → IsValid (initial_store count slots)
initial-IsValid count slots valid same clear = record {
  slots_valid = valid;
  same_count = same;
  size = length-replicate count empty_object;
  held = λ t h. rw (clear t, get_or-replicate count t empty_object) (λ _. refl, λ _. refl);
  unused = λ t h e. rw (get_or-replicate count t empty_object) refl;
}

-- Below 2^64 slots, a store that `init` gives is valid, and every slot of it is empty.
pub init-IsValid :
    (count : ℕ) (r : InitResources) {store : ObjectStore}
    → count < size_mod
    → init true count r ≡ some store
    → IsValid store × ((t : ℕ) → object_at store t ≡ empty_object)
unfolding init
init-IsValid count r {store} h e =
    elim (Option-cases (slots_init r.bitfield_alloc r.slots_alloc count)) [
      | inl failed ↦ absurd (ground (arith, failed))
      | inr (slots, made) ↦
          let s = slots_init_lem r.bitfield_alloc r.slots_alloc count h made in
          let built : store ≡ initial_store count slots = ground (arith, made) in
          rw built
            (initial-IsValid count slots s.0 s.1 s.2, λ t. get_or-replicate count t empty_object)
    ]
