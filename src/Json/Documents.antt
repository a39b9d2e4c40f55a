-- ===== src/Json/Documents.antt =====
-- Abstract JSON documents: the callbacks that a parser makes for one, the value that stands for it,
-- and the allocations that building it takes.
use tasecureapi.Prelude.{ℕ, ◌+◌, ◌≤◌, Bool, none, some, List, [], ◌∷◌, ◌++◌, length, ℤ}
use tasecureapi.Json.{
  Value, null, boolean, double, integer, string, array, object, Elements, nil, element, Entries,
  end, entry,
}
use tasecureapi.Json.Callbacks.{
  Event, bool_event, double_event, integer_event, null_event, string_event, map_key_event,
  start_map_event, end_map_event, start_array_event, end_array_event, max_key_length,
}

mutual
  pub data Doc : Type 0 where
    nothing : Doc
    truth : Bool → Doc
    real : ℕ → Doc
    number : ℤ → Doc
    text : List ℕ → Doc
    list : Docs → Doc
    dict : Fields → Doc

  pub data Docs : Type 0 where
    no_docs : Docs
    doc : Doc → Docs → Docs

  pub data Fields : Type 0 where
    no_fields : Fields
    field : List ℕ → Doc → Fields → Fields

-- The callbacks, in the order of the text.
unfoldable mutual
  pub events : Doc → List Event
  events nothing = null_event ∷ []
  events (truth b) = bool_event b ∷ []
  events (real d) = double_event d ∷ []
  events (number i) = integer_event i ∷ []
  events (text s) = string_event s ∷ []
  events (list ds) = start_array_event ∷ (events_docs ds ++ (end_array_event ∷ []))
  events (dict fs) = start_map_event ∷ (events_fields fs ++ (end_map_event ∷ []))

  pub events_docs : Docs → List Event
  events_docs no_docs = []
  events_docs (doc d ds) = events d ++ events_docs ds

  pub events_fields : Fields → List Event
  events_fields no_fields = []
  events_fields (field k d fs) = map_key_event (some k) ∷ (events d ++ events_fields fs)

-- The value, with the first entry of each list that holds nothing.
unfoldable mutual
  pub built : Doc → Value
  built nothing = null
  built (truth b) = boolean b
  built (real d) = double d
  built (number i) = integer i
  built (text s) = string s
  built (list ds) = array (element null (built_docs ds))
  built (dict fs) = object (entry none 0 null (built_fields fs))

  pub built_docs : Docs → Elements
  built_docs no_docs = nil
  built_docs (doc d ds) = element (built d) (built_docs ds)

  pub built_fields : Fields → Entries
  built_fields no_fields = end
  built_fields (field k d fs) = entry (some k) (length k) (built d) (built_fields fs)

-- The allocations: two for a value, one more for a place on the stack, one for an element of an
-- array, two for an entry of a map.
unfoldable mutual
  pub cost : Doc → ℕ
  cost nothing = 0
  cost (truth b) = 2
  cost (real d) = 2
  cost (number i) = 2
  cost (text s) = 2
  cost (list ds) = 3 + cost_docs ds
  cost (dict fs) = 3 + cost_fields fs

  pub cost_docs : Docs → ℕ
  cost_docs no_docs = 0
  cost_docs (doc d ds) = cost d + 1 + cost_docs ds

  pub cost_fields : Fields → ℕ
  cost_fields no_fields = 0
  cost_fields (field k d fs) = 2 + cost d + cost_fields fs

-- No key is longer than the parser allows.
abbrev mutual
  pub ShortKeys : Doc → Type 0
  ShortKeys nothing = Unit {0}
  ShortKeys (truth b) = Unit {0}
  ShortKeys (real d) = Unit {0}
  ShortKeys (number i) = Unit {0}
  ShortKeys (text s) = Unit {0}
  ShortKeys (list ds) = ShortKeysDocs ds
  ShortKeys (dict fs) = ShortKeysFields fs

  pub ShortKeysDocs : Docs → Type 0
  ShortKeysDocs no_docs = Unit {0}
  ShortKeysDocs (doc d ds) = ShortKeys d × ShortKeysDocs ds

  pub ShortKeysFields : Fields → Type 0
  ShortKeysFields no_fields = Unit {0}
  ShortKeysFields (field k d fs) = (length k ≤ max_key_length) × ShortKeys d × ShortKeysFields fs
