-- ===== src/Json/Roundtrip.antt =====
-- The callbacks for a document build the value of the document.
use mathlib.Core.List.{append_assoc}
use tasecureapi.Prelude.{
  ℕ, suc, ◌+◌, ◌≤◌, ◌≡◌, refl, sym, ap, ◌∙◌, Bool, false, Option, none, some, List, [], ◌∷◌, ◌++◌,
  arith, length, ltb, ℤ,
}
use tasecureapi.Json.{
  Value, null, boolean, double, integer, string, array, object, Elements, nil, element, Entries,
  end, entry, add_key, set_last_value, add_last, new_value, empty_array, empty_map,
}
use tasecureapi.Json.Callbacks.{
  Context, Event, bool_event, double_event, integer_event, null_event, string_event, map_key_event,
  start_map_event, end_map_event, start_array_event, end_array_event, callback, run, set_value,
  set_value_on, array_add, map_key_on, add_entry, pop, pop_from, push, value_callback,
  null_callback, map_key_callback, start_callback, end_callback,
}
use tasecureapi.Json.Documents.{
  Doc, nothing, truth, real, number, text, list, dict, Docs, no_docs, doc, Fields, no_fields, field,
  events, events_docs, events_fields, built, built_docs, built_fields, cost, cost_docs, cost_fields,
  ShortKeys, ShortKeysDocs, ShortKeysFields,
}

abbrev pub context : List Value → Value → ℕ → Context
context stack root allocs = record { stack = stack; root = root; allocs = allocs }

append_elements : Elements → Elements → Elements
append_elements nil ys = ys
append_elements (element v xs) ys = element v (append_elements xs ys)

append_entries : Entries → Entries → Entries
append_entries end fs = fs
append_entries (entry k n v es) fs = entry k n v (append_entries es fs)

-- A run of one event more, for each kind of event.
run-value :
    (e : Event) (v : Value) (rest : List Event) (stack : List Value) (root : Value) (n : ℕ)
    → ((c : Context) → callback c e ≡ value_callback c v)
    → run (e ∷ rest) (context stack root (2 + n)) ≡ run rest (set_value (context stack root n) v)
unfolding run value_callback new_value
run-value e v rest stack root n h =
    let p : 2 + n ≡ suc (suc n) = omega arith in
    rw p (rw (h (context stack root (suc (suc n))), run) refl)

run-start :
    (e : Event) (v : Value) (rest : List Event) (stack : List Value) (root : Value) (n : ℕ)
    → ((c : Context) → callback c e ≡ start_callback c v)
    → run (e ∷ rest) (context stack root (3 + n)) ≡ run rest (context (v ∷ stack) root n)
unfolding run start_callback new_value push
run-start e v rest stack root n h =
    let p : 3 + n ≡ suc (suc (suc n)) = omega arith in
    rw p (rw (h (context stack root (suc (suc (suc n)))), run) refl)

run-end :
    (e : Event) (v : Value) (rest : List Event) (stack : List Value) (root : Value) (n : ℕ)
    → ((c : Context) → callback c e ≡ end_callback c)
    → run (e ∷ rest) (context (v ∷ stack) root n) ≡ run rest (set_value (context stack root n) v)
unfolding run end_callback pop pop_from
run-end e v rest stack root n h = rw (h (context (v ∷ stack) root n), run) refl

run-key :
    (key : List ℕ) (rest : List Event) (k : Option (List ℕ)) (m : ℕ) (v : Value) (es : Entries)
    (below : List Value) (root : Value) (n : ℕ)
    → length key ≤ 255
    → run (map_key_event (some key) ∷ rest) (context (object (entry k m v es) ∷ below) root (2 + n))
      ≡ run rest
          (context (object (add_key (entry k m v es) (some key) (length key)) ∷ below) root n)
unfolding run callback map_key_callback map_key_on add_entry
run-key key rest k m v es below root n h =
    let p : 2 + n ≡ suc (suc n) = omega arith in
    let q : ltb 255 (length key) ≡ false = ground arith in rw p (rw (q, run) refl)

-- A value that is set on an array is its new last element.
set-array :
    (w v : Value) (xs : Elements) (below : List Value) (root : Value) (n : ℕ)
    → set_value (context (array (element v xs) ∷ below) root (1 + n)) w
      ≡ context (array (add_last (element v xs) w) ∷ below) root n
unfolding set_value set_value_on array_add
set-array w v xs below root n = let p : 1 + n ≡ suc n = omega arith in rw p refl

append-add_last :
    (xs : Elements) (w : Value) (ys : Elements)
    → append_elements (add_last xs w) ys ≡ append_elements xs (element w ys)
unfolding append_elements add_last
append-add_last nil w ys = refl
append-add_last (element v xs) w ys = ap (element v) (append-add_last xs w ys)

add_last-element :
    (v : Value) (xs : Elements) (w : Value) → add_last (element v xs) w ≡ element v (add_last xs w)
unfolding add_last
add_last-element v xs w = refl

-- A value that is set on a map whose last entry is a new key is the value of that key.
set-key :
    (es : Entries) (key : List ℕ) (w : Value)
    → set_last_value (add_key es (some key) (length key)) w
      ≡ append_entries es (entry (some key) (length key) w end)
unfolding set_last_value add_key append_entries
set-key end key w = refl
set-key (entry k m v end) key w = refl
set-key (entry k m v (entry k' m' v' es)) key w =
    ap (entry k m v) (set-key (entry k' m' v' es) key w)

append_entries_assoc :
    (es fs gs : Entries)
    → append_entries (append_entries es fs) gs ≡ append_entries es (append_entries fs gs)
unfolding append_entries
append_entries_assoc end fs gs = refl
append_entries_assoc (entry k m v es) fs gs = ap (entry k m v) (append_entries_assoc es fs gs)

append_entries-end : (es : Entries) → append_entries es end ≡ es
unfolding append_entries
append_entries-end end = refl
append_entries-end (entry k m v es) = ap (entry k m v) (append_entries-end es)

append_elements-nil : (xs : Elements) → append_elements xs nil ≡ xs
unfolding append_elements
append_elements-nil nil = refl
append_elements-nil (element v xs) = ap (element v) (append_elements-nil xs)

-- What comes after a key in a map.
set-map :
    (key : List ℕ) (w : Value) (k : Option (List ℕ)) (m : ℕ) (v : Value) (es : Entries)
    (below : List Value) (root : Value) (n : ℕ)
    → set_value
        (context (object (add_key (entry k m v es) (some key) (length key)) ∷ below) root n)
        w
      ≡ context
          (object (append_entries (entry k m v es) (entry (some key) (length key) w end)) ∷ below)
          root
          n
unfolding set_value set_value_on add_key
set-map key w k m v es below root n =
    ap (λ fs. context (object fs ∷ below) root n) (set-key (entry k m v es) key w)

-- The lemmas for one event, for the events that have no document inside.
run-nothing :
    (rest : List Event) (c : Context) → run (null_event ∷ rest) c ≡ run rest (set_value c null)
unfolding run callback null_callback
run-nothing rest c = refl

is_value-bool : (b : Bool) (c : Context) → callback c (bool_event b) ≡ value_callback c (boolean b)
unfolding callback
is_value-bool b c = refl

is_value-double : (d : ℕ) (c : Context) → callback c (double_event d) ≡ value_callback c (double d)
unfolding callback
is_value-double d c = refl

is_value-integer :
    (i : ℤ) (c : Context) → callback c (integer_event i) ≡ value_callback c (integer i)
unfolding callback
is_value-integer i c = refl

is_value-string :
    (s : List ℕ) (c : Context) → callback c (string_event s) ≡ value_callback c (string s)
unfolding callback
is_value-string s c = refl

starts-array : (c : Context) → callback c start_array_event ≡ start_callback c empty_array
unfolding callback
starts-array c = refl

starts-map : (c : Context) → callback c start_map_event ≡ start_callback c empty_map
unfolding callback
starts-map c = refl

ends-array : (c : Context) → callback c end_array_event ≡ end_callback c
unfolding callback
ends-array c = refl

ends-map : (c : Context) → callback c end_map_event ≡ end_callback c
unfolding callback
ends-map c = refl

mutual
  unfolding events events_docs events_fields built built_docs built_fields cost cost_docs
      cost_fields append_elements append_entries

  pub run-events :
      (d : Doc) (rest : List Event) (stack : List Value) (root : Value) (n : ℕ)
      → ShortKeys d
      → run (events d ++ rest) (context stack root (cost d + n))
        ≡ run rest (set_value (context stack root n) (built d))
  run-events nothing rest stack root n h =
      let p : 0 + n ≡ n = omega arith in rw p (run-nothing rest (context stack root n))
  run-events (truth b) rest stack root n h =
      run-value (bool_event b) (boolean b) rest stack root n (is_value-bool b)
  run-events (real d) rest stack root n h =
      run-value (double_event d) (double d) rest stack root n (is_value-double d)
  run-events (number i) rest stack root n h =
      run-value (integer_event i) (integer i) rest stack root n (is_value-integer i)
  run-events (text s) rest stack root n h =
      run-value (string_event s) (string s) rest stack root n (is_value-string s)
  run-events (list ds) rest stack root n h =
      let p : 3 + cost_docs ds + n ≡ 3 + (cost_docs ds + n) = omega arith in
      let q = append_assoc (events_docs ds) (end_array_event ∷ []) rest in
      ap
        (λ m.
          run (start_array_event ∷ ((events_docs ds ++ (end_array_event ∷ [])) ++ rest))
            (context stack root m))
        p
      ∙ ap (λ es. run (start_array_event ∷ es) (context stack root (3 + (cost_docs ds + n)))) q
      ∙ run-start start_array_event empty_array (events_docs ds ++ (end_array_event ∷ rest)) stack
          root (cost_docs ds + n) starts-array
      ∙ run-docs ds null nil (end_array_event ∷ rest) stack root n h
      ∙ run-end end_array_event (array (element null (built_docs ds))) rest stack root n ends-array
  run-events (dict fs) rest stack root n h =
      let p : 3 + cost_fields fs + n ≡ 3 + (cost_fields fs + n) = omega arith in
      let q = append_assoc (events_fields fs) (end_map_event ∷ []) rest in
      ap
        (λ m.
          run (start_map_event ∷ ((events_fields fs ++ (end_map_event ∷ [])) ++ rest))
            (context stack root m))
        p
      ∙ ap (λ es. run (start_map_event ∷ es) (context stack root (3 + (cost_fields fs + n)))) q
      ∙ run-start start_map_event empty_map (events_fields fs ++ (end_map_event ∷ rest)) stack root
          (cost_fields fs + n) starts-map
      ∙ run-fields fs none 0 null end (end_map_event ∷ rest) stack root n h
      ∙ run-end end_map_event (object (entry none 0 null (built_fields fs))) rest stack root n
          ends-map

  run-docs :
      (ds : Docs) (v : Value) (xs : Elements) (rest : List Event) (below : List Value)
      (root : Value) (n : ℕ)
      → ShortKeysDocs ds
      → run
          (events_docs ds ++ rest)
          (context (array (element v xs) ∷ below) root (cost_docs ds + n))
        ≡ run rest (context (array (append_elements (element v xs) (built_docs ds)) ∷ below) root n)
  run-docs no_docs v xs rest below root n h =
      let p : 0 + n ≡ n = omega arith in
      ap (λ m. run rest (context (array (element v xs) ∷ below) root m)) p
      ∙ ap (λ ys. run rest (context (array (element v ys) ∷ below) root n))
          (sym (append_elements-nil xs))
  run-docs (doc d ds) v xs rest below root n h =
      let p : cost d + 1 + cost_docs ds + n ≡ cost d + (1 + (cost_docs ds + n)) = omega arith in
      let q = append_assoc (events d) (events_docs ds) rest in
      let stack = array (element v xs) ∷ below in
      ap (λ m. run ((events d ++ events_docs ds) ++ rest) (context stack root m)) p
      ∙ ap (λ es. run es (context stack root (cost d + (1 + (cost_docs ds + n))))) q
      ∙ run-events d (events_docs ds ++ rest) stack root (1 + (cost_docs ds + n)) (h.0)
      ∙ ap (run (events_docs ds ++ rest)) (set-array (built d) v xs below root (cost_docs ds + n))
      ∙ ap (λ ys. run (events_docs ds ++ rest) (context (array ys ∷ below) root (cost_docs ds + n)))
          (add_last-element v xs (built d))
      ∙ run-docs ds v (add_last xs (built d)) rest below root n (h.1)
      ∙ ap (λ ys. run rest (context (array (element v ys) ∷ below) root n))
          (append-add_last xs (built d) (built_docs ds))

  run-fields :
      (fs : Fields) (k : Option (List ℕ)) (m : ℕ) (v : Value) (es : Entries) (rest : List Event)
      (below : List Value) (root : Value) (n : ℕ)
      → ShortKeysFields fs
      → run
          (events_fields fs ++ rest)
          (context (object (entry k m v es) ∷ below) root (cost_fields fs + n))
        ≡ run rest
            (context (object (append_entries (entry k m v es) (built_fields fs)) ∷ below) root n)
  run-fields no_fields k m v es rest below root n h =
      let p : 0 + n ≡ n = omega arith in
      ap (λ l. run rest (context (object (entry k m v es) ∷ below) root l)) p
      ∙ ap (λ gs. run rest (context (object (entry k m v gs) ∷ below) root n))
          (sym (append_entries-end es))
  run-fields (field key d fs) k m v es rest below root n h =
      let p : 2 + cost d + cost_fields fs + n ≡ 2 + (cost d + (cost_fields fs + n)) = omega arith in
      let q = append_assoc (events d) (events_fields fs) rest in
      let stack = object (entry k m v es) ∷ below in
      let keyed = object (add_key (entry k m v es) (some key) (length key)) ∷ below in
      let last = entry (some key) (length key) (built d) end in
      ap
        (λ l.
          run (map_key_event (some key) ∷ ((events d ++ events_fields fs) ++ rest))
            (context stack root l))
        p
      ∙ ap
          (λ ev.
            run (map_key_event (some key) ∷ ev)
              (context stack root (2 + (cost d + (cost_fields fs + n)))))
          q
      ∙ run-key key (events d ++ (events_fields fs ++ rest)) k m v es below root
          (cost d + (cost_fields fs + n)) (h.0)
      ∙ run-events d (events_fields fs ++ rest) keyed root (cost_fields fs + n) (h.1)
      ∙ ap (run (events_fields fs ++ rest))
          (set-map key (built d) k m v es below root (cost_fields fs + n))
      ∙ run-fields fs k m v (append_entries es last) rest below root n (h.2)
      ∙ ap (λ gs. run rest (context (object (entry k m v gs) ∷ below) root n))
          (append_entries_assoc es last (built_fields fs))
