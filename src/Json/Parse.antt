-- ===== src/Json/Parse.antt =====
-- What `json_parse_bytes` makes of a text, when no allocation fails, and what the accessors of
-- arrays and maps give of it.
use mathlib.Core.List.{append-nil}
use tasecureapi.Prelude.{
  ℕ, suc, ◌+◌, ◌≡◌, refl, sym, ap, ◌∙◌, Bool, Option, none, some, List, [], ◌∷◌, length,
  if◌then◌else◌,
}
use tasecureapi.Json.{Value, null, element, entry, array_size, map_size}
use tasecureapi.Json.Callbacks.{Event, run, set_value, set_value_on, parse_bytes}
use tasecureapi.Json.Access.{as_array, as_map, elements_after, entries_after, KeyValue}
use tasecureapi.Json.Documents.{
  Doc, list, dict, Docs, no_docs, doc, Fields, no_fields, field, events, built, built_docs,
  built_fields, cost, ShortKeys,
}
use tasecureapi.Json.Roundtrip.{context, run-events}

run-all :
    (d : Doc) (n : ℕ)
    → ShortKeys d
    → run (events d) (context [] null (cost d + n)) ≡ some (context [] (built d) n)
unfolding run set_value set_value_on
run-all d n h =
    ap (λ es. run es (context [] null (cost d + n))) (sym (append-nil (events d)))
    ∙ run-events d [] [] null n h

finish : ℕ → List Event × Bool → Value
finish n p = elim (run p.0 (context [] null n)) [
  | none ↦ null
  | some c ↦ if p.1 then c.root else null
]

finish-events :
    (d : Doc) (accepted : Bool) (n : ℕ)
    → ShortKeys d
    → finish (cost d + n) (events d, accepted) ≡ (if accepted then built d else null)
unfolding finish
finish-events d accepted n h = rw (run-all d n h, finish) refl

-- Where yajl makes the callbacks of a document for a text, no key is longer than 255 bytes, and
-- there is one allocation for the context and `cost d` for the values, the parser returns the value
-- of the document if yajl accepts the text, and else NULL.
pub parse-events :
    (yajl : List ℕ → List Event × Bool) (input : List ℕ) (d : Doc) (accepted : Bool) (n : ℕ)
    → ShortKeys d
    → yajl input ≡ (events d, accepted)
    → parse_bytes yajl (suc (cost d + n)) (some input) ≡ (if accepted then built d else null)
unfolding parse_bytes finish
parse-events yajl input d accepted n h e = ap (finish (cost d + n)) e ∙ finish-events d accepted n h

unfoldable pub built_list : Docs → List Value
built_list no_docs = []
built_list (doc d ds) = built d ∷ built_list ds

unfoldable pub built_pairs : Fields → List KeyValue
built_pairs no_fields = []
built_pairs (field k d fs) =
    record { key = some k; key_length = length k; value = built d } ∷ built_pairs fs

elements_after-built :
    (ds : Docs) (v : Value)
    → elements_after (array_size (element v (built_docs ds))) (element v (built_docs ds))
      ≡ built_list ds
unfolding elements_after array_size built_docs built_list
elements_after-built no_docs v = refl
elements_after-built (doc d ds) v = ap (◌∷◌ (built d)) (elements_after-built ds (built d))

entries_after-built :
    (fs : Fields) (k : Option (List ℕ)) (m : ℕ) (v : Value)
    → entries_after (map_size (entry k m v (built_fields fs))) (entry k m v (built_fields fs))
      ≡ built_pairs fs
unfolding entries_after map_size built_fields built_pairs
entries_after-built no_fields k m v = refl
entries_after-built (field key d fs) k m v =
    ap (◌∷◌ (record { key = some key; key_length = length key; value = built d }))
      (entries_after-built fs (some key) (length key) (built d))

-- The accessors of an array and of a map give the values of the document's elements and fields, in
-- order.
pub accessors-built :
    (ds : Docs) (fs : Fields)
    → (as_array (built (list ds)) ≡ some (built_list ds))
      × (as_map (built (dict fs)) ≡ some (built_pairs fs))
unfolding built as_array as_map
accessors-built ds fs =
    (ap some (elements_after-built ds null), ap some (entries_after-built fs none 0 null))
