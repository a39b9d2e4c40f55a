-- ===== src/Json/Access.antt =====
-- The accessors of json.c. Where a function returns NULL, 0 or false with a log line, so does the
-- model.
use tasecureapi.Prelude.{ℕ, zero, suc, Bool, false, Option, none, some, List, [], ◌∷◌, ℤ, pos}
use tasecureapi.Json.{
  Value, null, boolean, double, integer, string, array, object, Elements, nil, element, Entries,
  end, entry, array_size, map_size,
}

-- `json_type_e`
pub data JsonType : Type 0 where
  bool_type : JsonType
  double_type : JsonType
  int_type : JsonType
  string_type : JsonType
  array_type : JsonType
  map_type : JsonType

-- `json_value_get_type`; none is -1, for NULL.
unfoldable pub get_type : Value → Option JsonType
get_type null = none
get_type (boolean b) = some bool_type
get_type (double d) = some double_type
get_type (integer i) = some int_type
get_type (string s) = some string_type
get_type (array xs) = some array_type
get_type (object es) = some map_type

unfoldable pub as_bool : Value → Bool
as_bool (boolean b) = b
as_bool _ = false

unfoldable pub as_double : Value → ℕ
as_double (double d) = d
as_double _ = 0

unfoldable pub as_integer : Value → ℤ
as_integer (integer i) = i
as_integer _ = pos 0

-- `json_value_as_string`; the size that it stores is the length of the list.
unfoldable pub as_string : Value → Option (List ℕ)
as_string (string s) = some s
as_string _ = none

-- The loop of `json_value_as_array`: `n` values, each after a step to the next element.
unfoldable pub elements_after : ℕ → Elements → List Value
elements_after zero xs = []
elements_after (suc n) nil = []
elements_after (suc n) (element v nil) = []
elements_after (suc n) (element v (element v' xs)) = v' ∷ elements_after n (element v' xs)

unfoldable pub as_array : Value → Option (List Value)
unfolding elements_after array_size
as_array (array nil) = none
as_array (array (element v xs)) = some (elements_after (array_size (element v xs)) (element v xs))
as_array _ = none

-- `json_key_value_t`
pub record KeyValue : Type 0 where
  pub key : Option (List ℕ)
  pub key_length : ℕ
  pub value : Value

-- The loop of `json_value_as_map`
unfoldable pub entries_after : ℕ → Entries → List KeyValue
entries_after zero es = []
entries_after (suc n) end = []
entries_after (suc n) (entry k m v end) = []
entries_after (suc n) (entry k m v (entry k' m' v' es)) =
    record { key = k'; key_length = m'; value = v' } ∷ entries_after n (entry k' m' v' es)

unfoldable pub as_map : Value → Option (List KeyValue)
unfolding entries_after map_size
as_map (object end) = none
as_map (object (entry k m v es)) = some (entries_after (map_size (entry k m v es)) (entry k m v es))
as_map _ = none
