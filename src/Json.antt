-- ===== src/Json.antt =====
-- taimpl/src/internal/json.c: the values that the parser's callbacks build, and the accessors. The
-- text itself is read by yajl, which is not part of the repository: it is the argument `yajl` of
-- `parse_bytes`, the callbacks that it makes and whether it accepts the text.
pub mod Callbacks
pub mod Access
pub mod Documents
pub mod Roundtrip
pub mod Parse
pub mod Find
use tasecureapi.Prelude.{ℕ, zero, suc, Bool, Option, none, some, List, [], ◌∷◌, ℤ}

-- `json_value_t*`, and the lists that a value of the types array and map points to. `null` is the
-- NULL pointer, which stands for the JSON null, and so are `nil` and `end`. Both lists begin with an
-- entry that holds nothing. A double is its bit pattern.
mutual
  pub data Value : Type 0 where
    null : Value
    boolean : Bool → Value
    double : ℕ → Value
    integer : ℤ → Value
    string : List ℕ → Value
    array : Elements → Value
    object : Entries → Value

  -- `json_array_t*`
  pub data Elements : Type 0 where
    nil : Elements
    element : Value → Elements → Elements

  -- `json_map_t*`: the key, or none for a NULL key, its length, the value and the next entry.
  pub data Entries : Type 0 where
    end : Entries
    entry : Option (List ℕ) → ℕ → Value → Entries → Entries

-- `memory_internal_alloc`: the allocations that still succeed, after one more.
abbrev pub alloc : ℕ → Option ℕ
alloc zero = none
alloc (suc n) = some n

-- `json_map_size`, of a list that is not NULL
unfoldable pub map_size : Entries → ℕ
map_size end = 0
map_size (entry k n v end) = 0
map_size (entry k n v (entry k' n' v' es)) = suc (map_size (entry k' n' v' es))

-- `json_map_set_value` on `json_map_last_key_value`
unfoldable pub set_last_value : Entries → Value → Entries
set_last_value end new = end
set_last_value (entry k n v end) new = entry k n new end
set_last_value (entry k n v (entry k' n' v' es)) new =
    entry k n v (set_last_value (entry k' n' v' es) new)

-- `json_map_add_key_value` and `json_map_set_key`: a new last entry with a key and no value
unfoldable pub add_key : Entries → Option (List ℕ) → ℕ → Entries
add_key end key count = entry key count null end
add_key (entry k n v es) key count = entry k n v (add_key es key count)

-- `json_array_size`, of a list that is not NULL
unfoldable pub array_size : Elements → ℕ
array_size nil = 0
array_size (element v nil) = 0
array_size (element v (element v' xs)) = suc (array_size (element v' xs))

-- The list that `json_array_add` leaves
unfoldable pub add_last : Elements → Value → Elements
add_last nil new = element new nil
add_last (element v xs) new = element v (add_last xs new)

-- What the functions `json_value_new_*` return: the allocations that are left, and the value or
-- NULL. Each makes two, the payload and the value.
abbrev pub New : Type 0
New = Option (ℕ × Value)

unfoldable pub new_value : ℕ → Value → New
new_value allocs value = elim (alloc allocs) [
  | none ↦ none
  | some n ↦ elim (alloc n) [ none ↦ none | some m ↦ some (m, value) ]
]

-- `json_value_new_array` and `json_value_new_map`, with the entry that holds nothing
abbrev pub empty_array : Value
empty_array = array (element null nil)

abbrev pub empty_map : Value
empty_map = object (entry none 0 null end)
