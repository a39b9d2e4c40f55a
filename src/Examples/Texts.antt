-- ===== src/Examples/Texts.antt =====
-- A padded block, two arrays to compare, and a JSON text.
use tasecureapi.Prelude.{
  ℕ, suc, ◌+◌, ◌-◌, ◌<◌, ◌≡◌, refl, Bool, true, false, some, List, [], ◌∷◌, ◌++◌, arith, get_or,
  replicate, length, pos,
}
use tasecureapi.Pad.{check_pkcs7, check_from, apply_pkcs7}
use tasecureapi.Pad.Laws.{check-apply}
use tasecureapi.Json.Callbacks.{Event, parse_bytes}
use tasecureapi.Json.Documents.{
  Fields, Doc, list, dict, truth, number, nothing, no_docs, doc, no_fields, field, events, built,
  cost,
}
use tasecureapi.Json.Parse.{parse-events}

-- Thirteen bytes of a message, and three of padding.
abbrev block : List ℕ
block = replicate 13 9 ++ replicate 3 3

check-block : check_pkcs7 true (some block) ≡ (true, some 3)
unfolding check_pkcs7 check_from
check-block = refl

-- The bytes that the length names must all be that length.
check-broken : check_pkcs7 true (some (replicate 14 9 ++ (2 ∷ 3 ∷ []))) ≡ (false, some 3)
unfolding check_pkcs7 check_from
check-broken = refl

check-apply_example :
    (padded : List ℕ) × (apply_pkcs7 (some (replicate 16 9)) 3 ≡ (true, some padded))
    × (check_pkcs7 true (some padded) ≡ (true, some 3))
    × ((j : ℕ) → j < 16 - 3 → get_or padded j 0 ≡ get_or (replicate 16 9) j 0)
    × (length padded ≡ 16)
check-apply_example = check-apply (replicate 16 9) 3 refl (omega arith) (omega arith)

-- `{"a": [true, 5, null]}`
abbrev document : Doc
document = dict (
    field (b'a' ∷ []) (list (doc (truth true) (doc (number (pos 5)) (doc nothing no_docs))))
      no_fields)

abbrev yajl : List ℕ → List Event × Bool
yajl input = (events document, true)

parse-events_example : parse_bytes yajl (suc (cost document + 0)) (some []) ≡ built document
parse-events_example = parse-events yajl [] document true 0 (omega arith) refl

-- The first of two fields with the same key.
abbrev twice : Fields
twice = field (b'a' ∷ []) (truth true) (field (b'a' ∷ []) nothing no_fields)
