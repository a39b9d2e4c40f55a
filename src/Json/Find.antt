-- ===== src/Json/Find.antt =====
-- `json_key_value_find` and `string_to_lowercase` of json.c.
use mathlib.Core.List.{List-discrete}
use native.Mathlib.Decide.{ℕ_discrete}
use tasecureapi.Prelude.{
  ℕ, zero, suc, ◌+◌, ◌≤◌, ◌<◌, ◌≡◌, refl, sym, ap, inl, inr, ◌↔◌, ◌⊎◌, true, ◌&&◌, Option, none,
  some, List, [], ◌∷◌, arith, leb, ◌==◌, if◌then◌else◌, length, All, strnlen, strncmp_same,
  Bool-cases,
}
use tasecureapi.Json.Callbacks.{max_key_length}
use tasecureapi.Json.Access.{KeyValue, as_map}
use tasecureapi.Json.Documents.{dict, no_docs, Fields, no_fields, field, built}
use tasecureapi.Json.Parse.{built_pairs, accessors-built}

-- The bytes at a key; a NULL key has none.
abbrev pub key_bytes : Option (List ℕ) → List ℕ
key_bytes none = []
key_bytes (some k) = k

-- The loop of `json_key_value_find`
unfoldable pub find_from : List ℕ → ℕ → List KeyValue → Option KeyValue
find_from key key_length [] = none
find_from key key_length (kv ∷ kvs) =
    let rest = find_from key key_length kvs in
    if key_length == kv.key_length && strncmp_same (key_bytes kv.key) key key_length
    then some kv
    else rest

-- `json_key_value_find`: the entry that it points to. The count is the length of the array.
unfoldable pub find : Option (List ℕ) → Option (List KeyValue) → Option KeyValue
unfolding find_from strnlen
find none key_values = none
find (some key) none = none
find (some key) (some key_values) =
    if strnlen key (max_key_length + 1) == max_key_length + 1
    then none
    else find_from key (strnlen key (max_key_length + 1)) key_values

-- `string_to_lowercase`, in place
unfoldable pub string_to_lowercase : List ℕ → List ℕ
string_to_lowercase [] = []
string_to_lowercase (c ∷ s) =
    (if leb b'A' c && leb c b'Z' then c + 32 else c) ∷ string_to_lowercase s

-- No byte of the key ends the string.
abbrev pub IsString : List ℕ → Type 0
IsString k = All (λ c. 0 < c) k

strnlen-length : (k : List ℕ) (n : ℕ) → IsString k → length k < n → strnlen k n ≡ length k
unfolding strnlen
strnlen-length k zero h lt = absurd (omega arith)
strnlen-length [] (suc n) h lt = refl
strnlen-length (c ∷ k) (suc n) h lt = ground (arith, h.0, strnlen-length k n h.1 (omega arith))

strncmp_same_iff :
    (s k : List ℕ)
    → IsString k
    → length k ≡ length s
    → (strncmp_same s k (length k) ≡ true) ↔ (s ≡ k)
unfolding strncmp_same
strncmp_same_iff [] [] h e = (λ _. refl, λ _. refl)
strncmp_same_iff [] (d ∷ k) h e = absurd (omega arith)
strncmp_same_iff (c ∷ s) [] h e = absurd (omega arith)
strncmp_same_iff (c ∷ s) (d ∷ k) h e =
    let ih = strncmp_same_iff s k h.1 (omega arith) in
    (λ p. ground (arith, h.0, ih), λ p. ground (arith, h.0, ih))

-- The field of a document that comes first with a key.
abbrev pub first_field : List ℕ → Fields → Option KeyValue
first_field key no_fields = none
first_field key (field k d fs) = elim (List-discrete ℕ_discrete k key) [
  | yes _ ↦ some (record { key = some k; key_length = length k; value = built d })
  | no _ ↦ first_field key fs
]

find_from-first_field :
    (key : List ℕ) (fs : Fields)
    → IsString key
    → find_from key (length key) (built_pairs fs) ≡ first_field key fs
unfolding find_from built_pairs
find_from-first_field key no_fields h = refl
find_from-first_field key (field k d fs) h =
    let ih = find_from-first_field key fs h in
    elim (List-discrete ℕ_discrete k key)
      as (λ r. find_from key (length key) (built_pairs (field k d fs)) ≡ (elim r [
        | yes _ ↦ some (record { key = some k; key_length = length k; value = built d })
        | no _ ↦ first_field key fs
      ])) [
        | yes e ↦
            let q : length key ≡ length k = sym (ap length e) in
            let t = (strncmp_same_iff k key h q).1 e in ground (arith, q, t)
        | no ne ↦ elim (ℕ_discrete (length key) (length k)) [
          | yes q ↦ elim (Bool-cases (strncmp_same k key (length key))) [
            | inl t ↦ absurd (ne ((strncmp_same_iff k key h q).0 t))
            | inr f ↦ ground (arith, f, ih)
          ]
          | no other ↦ ground (arith, ih)
        ]
      ]

-- A lookup in the entries of a document's map finds the first field with the key, or nothing, for a
-- key that is a string of at most 255 bytes.
pub find-first_field :
    (key : List ℕ) (fs : Fields)
    → IsString key
    → length key ≤ max_key_length
    → find (some key) (as_map (built (dict fs))) ≡ first_field key fs
unfolding find
find-first_field key fs h small =
    let p = (accessors-built no_docs fs).1 in
    let q = strnlen-length key 256 h (omega arith) in
    rw (p, find) (rw q (ground (arith, find_from-first_field key fs h)))

-- `string_to_lowercase` keeps the length, leaves no upper case letter, and changes nothing the
-- second time.
pub string_to_lowercase_lem :
    (s : List ℕ)
    → (length (string_to_lowercase s) ≡ length s)
      × All (λ c. (c < b'A') ⊎ (b'Z' < c)) (string_to_lowercase s)
      × (string_to_lowercase (string_to_lowercase s) ≡ string_to_lowercase s)
unfolding string_to_lowercase
string_to_lowercase_lem [] = (refl, tt, refl)
string_to_lowercase_lem (c ∷ s) =
    let ih = string_to_lowercase_lem s in
    let d = if leb b'A' c && leb c b'Z' then c + 32 else c in
    let other : (d < b'A') ⊎ (b'Z' < d) = ground arith in
    let same : (if leb b'A' d && leb d b'Z' then d + 32 else d) ≡ d = ground arith in
    (ap suc ih.0, (other, ih.1), rw (same, ih.2) refl)
