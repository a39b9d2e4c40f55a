-- ===== src/Json/Callbacks.antt =====
-- The parse context of json.c and the callbacks that yajl makes.
use tasecureapi.Prelude.{
  ℕ, zero, suc, Bool, Option, none, some, List, [], ◌∷◌, ltb, if◌then◌else◌, length, ℤ,
}
use tasecureapi.Json.{
  Value, null, boolean, double, integer, string, array, object, Elements, nil, element, Entries,
  end, entry, alloc, add_key, set_last_value, add_last, new_value, empty_array, empty_map,
}

-- `json_parse_context_t`, without the handle of yajl. The first value of the stack is its top.
pub record Context : Type 0 where
  pub stack : List Value
  pub root : Value
  pub allocs : ℕ

-- `json_array_add`: nothing is added where its allocation fails.
unfoldable pub array_add : Context → Elements → List Value → Value → Context
array_add c xs below value = elim (alloc c.allocs) [
  | none ↦ record c { allocs = 0 }
  | some n ↦ record c { stack = array (add_last xs value) ∷ below; allocs = n }
]

-- `json_parse_context_set_value`: the value is dropped where the top of the stack cannot hold one.
unfoldable pub set_value_on : List Value → Context → Value → Context
unfolding array_add
set_value_on [] c value = record c { root = value }
set_value_on (object end ∷ below) c value = c
set_value_on (object (entry k n v es) ∷ below) c value = record c {
  stack = object (set_last_value (entry k n v es) value) ∷ below;
}
set_value_on (array nil ∷ below) c value = c
set_value_on (array (element v xs) ∷ below) c value = array_add c (element v xs) below value
set_value_on (null ∷ below) c value = c
set_value_on (boolean b ∷ below) c value = c
set_value_on (double d ∷ below) c value = c
set_value_on (integer i ∷ below) c value = c
set_value_on (string s ∷ below) c value = c

unfoldable pub set_value : Context → Value → Context
unfolding set_value_on
set_value c value = set_value_on c.stack c value

-- `json_parse_context_push`; it allocates the entry of the stack.
unfoldable pub push : Context → Value → Option Context
push c value = elim (alloc c.allocs) [
  | none ↦ none
  | some n ↦ some (record c { stack = value ∷ c.stack; allocs = n })
]

-- `json_parse_context_pop`: the value on the top goes to the one below, or is the root.
unfoldable pub pop_from : List Value → Context → Context
unfolding set_value
pop_from [] c = c
pop_from (v ∷ below) c = set_value (record c { stack = below }) v

unfoldable pub pop : Context → Context
unfolding pop_from
pop c = pop_from c.stack c

-- The callbacks that yajl makes, with their arguments. A key may be NULL.
pub data Event : Type 0 where
  bool_event : Bool → Event
  double_event : ℕ → Event
  integer_event : ℤ → Event
  null_event : Event
  string_event : List ℕ → Event
  map_key_event : Option (List ℕ) → Event
  start_map_event : Event
  end_map_event : Event
  start_array_event : Event
  end_array_event : Event

-- A callback that fails returns 0, here `none`, and yajl gives up.
abbrev pub Reply : Type 0
Reply = Option Context

-- `bool_callback`, `double_callback`, `integer_callback`, `string_callback`: a new value is made,
-- and put where it belongs.
unfoldable pub value_callback : Context → Value → Reply
unfolding new_value set_value
value_callback c value = elim (new_value c.allocs value) [
  | none ↦ none
  | some (n, v) ↦ some (set_value (record c { allocs = n }) v)
]

unfoldable pub null_callback : Context → Reply
unfolding set_value
null_callback c = some (set_value c null)

-- `MAX_KEY_LENGTH`
abbrev pub max_key_length : ℕ
max_key_length = 255

-- The end of `map_key_callback`: the entry and the key are allocated; where only the second fails,
-- the key stays NULL.
unfoldable pub add_entry : Context → Entries → List Value → List ℕ → Reply
unfolding add_key
add_entry c end below key = none
add_entry c (entry k n v es) below key = elim (alloc c.allocs) [
  | none ↦ none
  | some m ↦ elim (alloc m) [
    | none ↦ some (record c {
      stack = object (add_key (entry k n v es) none (length key)) ∷ below;
      allocs = 0;
    })
    | some m' ↦ some (record c {
      stack = object (add_key (entry k n v es) (some key) (length key)) ∷ below;
      allocs = m';
    })
  ]
]

unfoldable pub map_key_on : List Value → Context → Option (List ℕ) → Reply
unfolding add_entry
map_key_on [] c key = none
map_key_on (object es ∷ below) c none = none
map_key_on (object es ∷ below) c (some key) =
    if ltb max_key_length (length key) then none else add_entry c es below key
map_key_on (null ∷ below) c key = none
map_key_on (boolean b ∷ below) c key = none
map_key_on (double d ∷ below) c key = none
map_key_on (integer i ∷ below) c key = none
map_key_on (string s ∷ below) c key = none
map_key_on (array xs ∷ below) c key = none

unfoldable pub map_key_callback : Context → Option (List ℕ) → Reply
unfolding map_key_on
map_key_callback c key = map_key_on c.stack c key

-- `start_map_callback` and `start_array_callback`
unfoldable pub start_callback : Context → Value → Reply
unfolding new_value push
start_callback c value = elim (new_value c.allocs value) [
  | none ↦ none
  | some (n, v) ↦ push (record c { allocs = n }) v
]

-- `end_map_callback` and `end_array_callback`
unfoldable pub end_callback : Context → Reply
unfolding pop
end_callback c = some (pop c)

-- `global_json.callbacks`
unfoldable pub callback : Context → Event → Reply
unfolding value_callback null_callback map_key_callback start_callback end_callback
callback c (bool_event b) = value_callback c (boolean b)
callback c (double_event d) = value_callback c (double d)
callback c (integer_event i) = value_callback c (integer i)
callback c null_event = null_callback c
callback c (string_event s) = value_callback c (string s)
callback c (map_key_event key) = map_key_callback c key
callback c start_map_event = start_callback c empty_map
callback c end_map_event = end_callback c
callback c start_array_event = start_callback c empty_array
callback c end_array_event = end_callback c

-- `yajl_parse`, which makes the callbacks in order and stops at the first that fails
unfoldable pub run : List Event → Context → Reply
run [] c = some c
run (e ∷ es) c = elim (callback c e) [ none ↦ none | some c' ↦ run es c' ]

-- `json_parse_bytes`: the value, or NULL. `yajl` gives the callbacks for a text, and whether both
-- `yajl_parse` and `yajl_complete_parse` accept it; `allocs` are the allocations that succeed.
unfoldable pub parse_bytes : (List ℕ → List Event × Bool) → ℕ → Option (List ℕ) → Value
parse_bytes yajl allocs none = null
parse_bytes yajl zero (some text) = null
parse_bytes yajl (suc n) (some text) =
    let (events, accepted) = yajl text in
    elim (run events (record { stack = []; root = null; allocs = n })) [
      | none ↦ null
      | some c ↦ if accepted then c.root else null
    ]
