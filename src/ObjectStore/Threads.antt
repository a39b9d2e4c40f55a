-- ===== src/ObjectStore/Threads.antt =====
-- Threads that share a store, as interleavings of the critical sections of object_store.c. The
-- system counts, for each slot, the references that threads hold: what they acquired and have not
-- released. A thread releases only what it holds.
use tasecureapi.Prelude.{
  ℕ, ◌+◌, ◌-◌, ◌%◌, ◌<◌, ◌≡◌, refl, ◌∙◌, ◌≢◌, true, Option, arith, ◌==◌, if◌then◌else◌, set,
  status_ok, Uuid,
}
use tasecureapi.Memory.{size_mod}
use tasecureapi.Slots.{Slots, slot_invalid, allocate}
use tasecureapi.Slots.Laws.{Allocates, exhausted, fresh, allocate-Allocates}
use tasecureapi.ObjectStore.{
  ObjectStore, object_at, add_locked, acquire_locked, release_locked, remove_pass,
  increment_release_count, decrement_release_count,
}
use tasecureapi.ObjectStore.Valid.{
  IsValid, object_at_set, after_pass, add_locked-IsValid, acquire_locked-IsValid,
  release_locked-IsValid, remove_pass-IsValid,
}

pub record System : Type 0 where
  pub store : ObjectStore
  pub holders : ℕ → ℕ

abbrev pub update : (ℕ → ℕ) → ℕ → ℕ → ℕ → ℕ
update f slot n t = if t == slot then n else f t

-- One critical section of one thread. `removes` is a pass of the loop of `store_remove`, by its
-- caller or by the shutdown; `closes` sets the flag of the shutdown.
pub data Step (s u : System) : Type 0 where
  adds :
      (object : ℕ) (caller : Uuid)
      → object ≢ 0
      → u ≡ record s { store = (add_locked s.store object caller).2 }
      → Step s u
  acquires :
      (slot : ℕ) (caller : Uuid)
      → slot < s.store.slot_count
      → (acquire_locked s.store slot caller).0 ≡ status_ok
      → s.holders slot + 1 < size_mod
      → u ≡ record {
        store = (acquire_locked s.store slot caller).2;
        holders = update s.holders slot (s.holders slot + 1);
      }
      → Step s u
  releases :
      (slot object : ℕ) (caller : Uuid)
      → slot < s.store.slot_count
      → object ≢ 0
      → 0 < s.holders slot
      → (release_locked s.store slot object caller).0 ≡ status_ok
      → u ≡ record {
        store = (release_locked s.store slot object caller).1;
        holders = update s.holders slot (s.holders slot - 1);
      }
      → Step s u
  removes :
      (slot : ℕ) (caller_uuid : Option Uuid)
      → slot < s.store.slot_count
      → u ≡ record s { store = after_pass s.store (remove_pass s.store slot caller_uuid) }
      → Step s u
  begins : u ≡ record s { store = (increment_release_count true s.store).1 } → Step s u
  ends : u ≡ record s { store = decrement_release_count true s.store } → Step s u
  closes : u ≡ record s { store = record s.store { is_shutting_down = true } } → Step s u

-- The count of each slot is the number of the references that threads hold.
pub record Balanced (s : System) : Type 0 where
  pub valid : IsValid s.store
  pub counted :
      (t : ℕ) → t < s.store.slot_count → (object_at s.store t).reference_count ≡ s.holders t
  pub bounded : (t : ℕ) → t < s.store.slot_count → s.holders t < size_mod

-- What one step does to the entry of a slot: the object stays, or nobody holds it.
pub record Moved (s u : System) (t : ℕ) : Type 0 where
  pub count : u.store.slot_count ≡ s.store.slot_count
  pub balance : (object_at u.store t).reference_count ≡ u.holders t
  pub stable : 0 < s.holders t → (object_at u.store t).object ≡ (object_at s.store t).object
  pub owned : 0 < s.holders t → (object_at u.store t).owner_uuid ≡ (object_at s.store t).owner_uuid
  pub small : u.holders t < size_mod

add-Moved :
    (s : System) (object : ℕ) (caller : Uuid) (slot : ℕ) (slots' : Slots) (t : ℕ)
    → Balanced s
    → t < s.store.slot_count
    → Allocates s.store.slots slot slots'
    → Moved s
        (record s {
          store =
              (if slot == slot_invalid then record s.store { slots = slots' } else record s.store {
                slots = slots';
                objects =
                    set s.store.objects slot
                      (record (object_at s.store slot) { object = object; owner_uuid = caller });
              });
        })
        t
add-Moved s object caller slot slots' t b h (exhausted e e' all) =
    ground (arith, b.counted t h, b.bounded t h)
add-Moved s object caller slot slots' t b h (fresh lt unset bits valid count) = ground (
  arith,
  b.counted t h,
  b.bounded t h,
  b.valid.slots_valid.fits,
  (b.valid.held slot (omega (arith, b.valid.same_count))).0 unset,
  b.valid.unused slot (omega (arith, b.valid.same_count)),
  b.counted slot (omega (arith, b.valid.same_count)),
  object_at_set s.store.objects slot t
      (record (object_at s.store slot) { object = object; owner_uuid = caller })
      (omega (arith, b.valid.size, b.valid.same_count)),
)

-- From a balanced system, a step keeps the count of each slot equal to what threads hold, and keeps
-- the object and the owner of a slot that some thread holds.
pub Step-Moved :
    {s u : System} (t : ℕ) → Balanced s → Step s u → t < s.store.slot_count → Moved s u t
unfolding add_locked acquire_locked release_locked remove_pass increment_release_count
    decrement_release_count
Step-Moved {s} {u} t b (adds object caller ne e) h = rw e (
    ground (
      arith,
      add-Moved s object caller (allocate s.store.slots).0 (allocate s.store.slots).1 t b h
          (allocate-Allocates s.store.slots b.valid.slots_valid),
      b.counted t h,
      b.bounded t h,
    ))
Step-Moved {s} {u} t b (acquires slot caller lt ok small e) h = rw e (
    ground (
      arith,
      b.counted t h,
      b.counted slot lt,
      b.bounded t h,
      object_at_set s.store.objects slot t
          (record (object_at s.store slot) {
            reference_count = ((object_at s.store slot).reference_count + 1) % size_mod;
          })
          (omega (arith, b.valid.size)),
    ))
Step-Moved {s} {u} t b (releases slot object caller lt ne some_held ok e) h = rw e (
    ground (
      arith,
      b.counted t h,
      b.counted slot lt,
      b.bounded t h,
      object_at_set s.store.objects slot t
          (record (object_at s.store slot) {
            reference_count = (object_at s.store slot).reference_count - 1;
          })
          (omega (arith, b.valid.size)),
    ))
Step-Moved {s} {u} t b (removes slot caller_uuid lt e) h = rw e (
    ground (
      arith,
      b.counted t h,
      b.counted slot lt,
      b.bounded t h,
      object_at_set s.store.objects slot t (record (object_at s.store slot) { object = 0 })
          (omega (arith, b.valid.size)),
    ))
Step-Moved {s} {u} t b (begins e) h = ground (arith, b.counted t h, b.bounded t h)
Step-Moved {s} {u} t b (ends e) h = ground (arith, b.counted t h, b.bounded t h)
Step-Moved {s} {u} t b (closes e) h = ground (arith, b.counted t h, b.bounded t h)

Step-IsValid : {s u : System} → Balanced s → Step s u → IsValid u.store
unfolding increment_release_count decrement_release_count
Step-IsValid {s} {u} b (adds object caller ne e) =
    rw e (add_locked-IsValid s.store object caller b.valid ne)
Step-IsValid {s} {u} b (acquires slot caller lt ok small e) =
    rw e (acquire_locked-IsValid s.store slot caller b.valid lt)
Step-IsValid {s} {u} b (releases slot object caller lt ne some_held ok e) =
    rw e (release_locked-IsValid s.store slot object caller b.valid lt ne)
Step-IsValid {s} {u} b (removes slot caller_uuid lt e) =
    rw e (remove_pass-IsValid s.store slot caller_uuid b.valid lt)
Step-IsValid {s} {u} b (begins e) = rw e (ground (arith, b.valid))
Step-IsValid {s} {u} b (ends e) = rw e (ground (arith, b.valid))
Step-IsValid {s} {u} b (closes e) = rw e (ground (arith, b.valid))

slot_count-Step : {s u : System} → Step s u → u.store.slot_count ≡ s.store.slot_count
unfolding add_locked acquire_locked release_locked remove_pass increment_release_count
    decrement_release_count
slot_count-Step (adds object caller ne e) = rw e (ground arith)
slot_count-Step (acquires slot caller lt ok small e) = rw e (ground arith)
slot_count-Step (releases slot object caller lt ne some_held ok e) = rw e (ground arith)
slot_count-Step (removes slot caller_uuid lt e) = rw e (ground arith)
slot_count-Step (begins e) = rw e (ground arith)
slot_count-Step (ends e) = rw e (ground arith)
slot_count-Step (closes e) = rw e (ground arith)

-- From a system that is balanced, every step of every thread keeps the store valid and its reference counts equal to the references
-- that threads hold.
pub Step-Balanced : {s u : System} → Balanced s → Step s u → Balanced u
Step-Balanced {s} {u} b st = record {
  valid = Step-IsValid b st;
  counted = λ t h. (Step-Moved t b st (omega (arith, slot_count-Step st))).balance;
  bounded = λ t h. (Step-Moved t b st (omega (arith, slot_count-Step st))).small;
}

pub data Reach (s : System) : System → Type 0 where
  here : Reach s s
  next : {t u : System} → Reach s t → Step t u → Reach s u

pub Reach-Balanced : {s u : System} → Balanced s → Reach s u → Balanced u
Reach-Balanced b here = b
Reach-Balanced b (next r st) = Step-Balanced (Reach-Balanced b r) st

-- Runs during which some thread holds a reference to the slot before every step.
pub data HeldRun (slot : ℕ) (s : System) : System → Type 0 where
  still : HeldRun slot s s
  more : {t u : System} → HeldRun slot s t → 0 < t.holders slot → Step t u → HeldRun slot s u

HeldRun-Reach : {slot : ℕ} {s u : System} → HeldRun slot s u → Reach s u
HeldRun-Reach still = here
HeldRun-Reach (more r held st) = next (HeldRun-Reach r) st

slot_count-Reach : {s u : System} → Reach s u → u.store.slot_count ≡ s.store.slot_count
slot_count-Reach here = refl
slot_count-Reach (next r st) = slot_count-Step st ∙ slot_count-Reach r

-- From a balanced system, however the threads interleave, as long as some thread holds a reference to a slot, the object of
-- that slot and its owner stay: no thread frees or replaces them, not even the shutdown.
pub held_object_stays :
    {slot : ℕ} {s u : System}
    → Balanced s
    → slot < s.store.slot_count
    → HeldRun slot s u
    → ((object_at u.store slot).object ≡ (object_at s.store slot).object)
      × ((object_at u.store slot).owner_uuid ≡ (object_at s.store slot).owner_uuid)
held_object_stays b lt still = (refl, refl)
held_object_stays {slot} {s} {u} b lt (more {t} r held st) =
    let before = held_object_stays b lt r in
    let moved =
      Step-Moved slot (Reach-Balanced b (HeldRun-Reach r)) st
        (omega (arith, slot_count-Reach (HeldRun-Reach r))) in
    (moved.stable held ∙ before.0, moved.owned held ∙ before.1)
