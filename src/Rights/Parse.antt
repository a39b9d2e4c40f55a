-- ===== src/Rights/Parse.antt =====
-- `convert_uuid` against the texts of identifiers: bytes in hexadecimal digits of either case, some
-- with a dash before them.
use mathlib.Core.List.{append_assoc, append-nil}
use tasecureapi.Prelude.{
  ℕ, zero, suc, ◌+◌, ◌-◌, ◌*◌, ◌/◌, ◌%◌, ◌≤◌, ◌<◌, ◌≡◌, refl, sym, ap, subst, ◌∙◌, ◌≢◌, Bool, true,
  false, ◌||◌, List, [], ◌∷◌, ◌++◌, arith, ltb, ◌==◌, if◌then◌else◌, length, get_or, drop, All,
  Uuid, IsUuid,
}
use tasecureapi.Rights.{lower, is_hex, hex_value, convert_from, convert_uuid}

-- A hexadecimal digit, in upper case or in lower case.
abbrev pub hex_digit : Bool → ℕ → ℕ
hex_digit upper n = if ltb n 10 then n + b'0' else if upper then n - 10 + b'A' else n - 10 + b'a'

-- A byte, and whether a dash stands before it.
abbrev pub Item : Type 0
Item = Bool × ℕ

abbrev pub text : Bool → List Item → List ℕ
text upper [] = []
text upper ((true, b) ∷ items) =
    b'-' ∷ hex_digit upper (b / 16) ∷ hex_digit upper (b % 16) ∷ text upper items
text upper ((false, b) ∷ items) =
    hex_digit upper (b / 16) ∷ hex_digit upper (b % 16) ∷ text upper items

abbrev pub bytes : List Item → List ℕ
bytes [] = []
bytes ((d, b) ∷ items) = b ∷ bytes items

abbrev pub IsByte : ℕ → Type 0
IsByte b = b < 256

hex_digit_lem :
    (upper : Bool) (n : ℕ)
    → n < 16
    → (is_hex (lower (hex_digit upper n)) ≡ true)
      × (hex_value (lower (hex_digit upper n)) ≡ n)
      × (hex_digit upper n ≢ b'-')
unfolding is_hex lower hex_value
hex_digit_lem true n h = ground arith
hex_digit_lem false n h = ground arith

-- The elements of a suffix.
get_or-drop : (xs : List ℕ) (i k : ℕ) → get_or xs (i + k) 0 ≡ get_or (drop i xs) k 0
get_or-drop xs zero k = let e : 0 + k ≡ k = omega arith in rw e refl
get_or-drop [] (suc i) k = refl
get_or-drop (x ∷ xs) (suc i) k =
    let e : suc i + k ≡ suc (i + k) = omega arith in rw e (get_or-drop xs i k)

drop-nil : (k : ℕ) → drop {A = ℕ} k [] ≡ []
drop-nil zero = refl
drop-nil (suc k) = refl

drop-drop : (xs : List ℕ) (i k : ℕ) → drop (i + k) xs ≡ drop k (drop i xs)
drop-drop xs zero k = let e : 0 + k ≡ k = omega arith in rw e refl
drop-drop [] (suc i) k = rw (drop-nil k, drop-nil (suc i + k)) refl
drop-drop (x ∷ xs) (suc i) k =
    let e : suc i + k ≡ suc (i + k) = omega arith in rw e (drop-drop xs i k)

-- One round on a byte without a dash, and on a byte with one.
plain_round :
    (upper : Bool) (n i b : ℕ) (str written rest : List ℕ)
    → b < 256
    → i + 2 ≤ 36
    → drop i str ≡ hex_digit upper (b / 16) ∷ hex_digit upper (b % 16) ∷ rest
    → convert_from (suc n) i str 36 written ≡ convert_from n (i + 2) str 36 (written ++ (b ∷ []))
unfolding convert_from
plain_round upper n i b str written rest hb fits e = ground (
  arith,
  get_or-drop str i 0,
  get_or-drop str i 1,
  hex_digit_lem upper (b / 16) (omega arith),
  hex_digit_lem upper (b % 16) (omega arith),
)

dash_round :
    (upper : Bool) (n i b : ℕ) (str written rest : List ℕ)
    → b < 256
    → i + 3 ≤ 36
    → drop i str ≡ b'-' ∷ hex_digit upper (b / 16) ∷ hex_digit upper (b % 16) ∷ rest
    → convert_from (suc n) i str 36 written ≡ convert_from n (i + 3) str 36 (written ++ (b ∷ []))
unfolding convert_from
dash_round upper n i b str written rest hb fits e = ground (
  arith,
  get_or-drop str i 0,
  get_or-drop str i 1,
  get_or-drop str i 2,
  hex_digit_lem upper (b / 16) (omega arith),
  hex_digit_lem upper (b % 16) (omega arith),
)

-- The rounds on all items, from the place in the text where they stand.
many_rounds :
    (upper : Bool) (items : List Item) (n i : ℕ) (str written rest : List ℕ)
    → All IsByte (bytes items)
    → i + length (text upper items) ≤ 36
    → drop i str ≡ text upper items ++ rest
    → convert_from (length items + n) i str 36 written
      ≡ convert_from n (i + length (text upper items)) str 36 (written ++ bytes items)
many_rounds upper [] n i str written rest hb fits e =
    let p : 0 + n ≡ n = omega arith in
    let q : i + 0 ≡ i = omega arith in rw (p, q, append-nil written) refl
many_rounds upper ((true, b) ∷ items) n i str written rest hb fits e =
    let p : suc (length items) + n ≡ suc (length items + n) = omega arith in
    let q : i + suc (suc (suc (length (text upper items)))) ≡ i + 3 + length (text upper items) =
      omega arith in
    rw (p, q)
      (dash_round upper (length items + n) i b str written (text upper items ++ rest) hb.0
          (omega arith) e
        ∙ many_rounds upper items n (i + 3) str (written ++ (b ∷ [])) rest hb.1 (omega arith)
            (drop-drop str i 3 ∙ ap (drop 3) e)
        ∙ ap (convert_from n (i + 3 + length (text upper items)) str 36)
            (append_assoc written (b ∷ []) (bytes items)))
many_rounds upper ((false, b) ∷ items) n i str written rest hb fits e =
    let p : suc (length items) + n ≡ suc (length items + n) = omega arith in
    let q : i + suc (suc (length (text upper items))) ≡ i + 2 + length (text upper items) =
      omega arith in
    rw (p, q)
      (plain_round upper (length items + n) i b str written (text upper items ++ rest) hb.0
          (omega arith) e
        ∙ many_rounds upper items n (i + 2) str (written ++ (b ∷ [])) rest hb.1 (omega arith)
            (drop-drop str i 2 ∙ ap (drop 2) e)
        ∙ ap (convert_from n (i + 2 + length (text upper items)) str 36)
            (append_assoc written (b ∷ []) (bytes items)))

whole :
    (upper : Bool) (items : List Item) (n : ℕ)
    → length items + n ≡ 16
    → All IsByte (bytes items)
    → length (text upper items) ≡ 36
    → convert_from 16 0 (text upper items) 36 []
      ≡ convert_from n 36 (text upper items) 36 (bytes items)
whole upper items n count hb size =
    let str = text upper items in
    let e : 0 + length str ≡ 36 = omega arith in
    subst (λ k. convert_from k 0 str 36 [] ≡ convert_from n 36 str 36 (bytes items)) count
      (subst
        (λ k. convert_from (length items + n) 0 str 36 [] ≡ convert_from n k str 36 (bytes items)) e
        (many_rounds upper items n 0 str [] [] hb (omega arith) (sym (append-nil str))))

-- The usual text of an identifier has dashes before the bytes 4, 6, 8 and 10.
abbrev pub dash_at : ℕ → Bool
dash_at j = j == 4 || j == 6 || j == 8 || j == 10

abbrev pub items_from : ℕ → List ℕ → List Item
items_from j [] = []
items_from j (b ∷ bs) = (dash_at j, b) ∷ items_from (suc j) bs

abbrev pub uuid_text : Bool → Uuid → List ℕ
uuid_text upper u = text upper (items_from 0 u)

bytes-items_from : (j : ℕ) (u : List ℕ) → bytes (items_from j u) ≡ u
bytes-items_from j [] = refl
bytes-items_from j (b ∷ u) = ap (◌∷◌ b) (bytes-items_from (suc j) u)

length-items_from : (j : ℕ) (u : List ℕ) → length (items_from j u) ≡ length u
length-items_from j [] = refl
length-items_from j (b ∷ u) = ap suc (length-items_from (suc j) u)

-- The characters of `n` bytes from byte `j` on.
abbrev characters : ℕ → ℕ → ℕ
characters j zero = 0
characters j (suc n) = (if dash_at j then 3 else 2) + characters (suc j) n

length-text :
    (upper : Bool) (j : ℕ) (u : List ℕ)
    → length (text upper (items_from j u)) ≡ characters j (length u)
length-text upper j [] = refl
length-text upper j (b ∷ u) = ground (arith, length-text upper (suc j) u)

-- The loop ends when the bytes are written, and when the text is at its end.
last_round : (str written : List ℕ) → convert_from 0 36 str 36 written ≡ (true, written)
unfolding convert_from
last_round str written = refl

exhausted_round :
    (n : ℕ) (str written : List ℕ) → convert_from (suc n) 36 str 36 written ≡ (true, written)
unfolding convert_from
exhausted_round n str written = refl

-- Every identifier of 16 bytes is read back from its usual text of 36 characters, in either case.
pub convert_uuid-text :
    (upper : Bool) (u : Uuid)
    → IsUuid u
    → All IsByte u
    → (length (uuid_text upper u) ≡ 36) × (convert_uuid (uuid_text upper u) 36 ≡ (true, u))
unfolding convert_uuid
convert_uuid-text upper u hu hb = (size, read)
  where
    items : List Item
    items = items_from 0 u

    size : length (uuid_text upper u) ≡ 36
    size = length-text upper 0 u ∙ ap (characters 0) hu

    same_bytes : bytes items ≡ u
    same_bytes = bytes-items_from 0 u

    read : convert_from 16 0 (uuid_text upper u) 36 [] ≡ (true, u)
    read =
        whole upper items 0 (omega (arith, length-items_from 0 u))
          (subst (All IsByte) (sym same_bytes) hb) size
        ∙ last_round (text upper items) (bytes items)
        ∙ ap (λ (bs : List ℕ). (true, bs)) same_bytes

-- Bytes that each have a dash before them.
abbrev pub dashed : List ℕ → List Item
dashed [] = []
dashed (b ∷ bs) = (true, b) ∷ dashed bs

bytes-dashed : (u : List ℕ) → bytes (dashed u) ≡ u
bytes-dashed [] = refl
bytes-dashed (b ∷ u) = ap (◌∷◌ b) (bytes-dashed u)

length-dashed :
    (upper : Bool) (u : List ℕ)
    → (length (dashed u) ≡ length u) × (length (text upper (dashed u)) ≡ 3 * length u)
length-dashed upper [] = omega arith
length-dashed upper (b ∷ u) = omega (arith, length-dashed upper u)

-- A text with a dash before each of twelve bytes is accepted too, but then only these twelve bytes
-- of the identifier are written.
pub convert_uuid_short :
    (upper : Bool) (u : List ℕ)
    → length u ≡ 12
    → All IsByte u
    → (length (text upper (dashed u)) ≡ 36) × (convert_uuid (text upper (dashed u)) 36 ≡ (true, u))
unfolding convert_uuid
convert_uuid_short upper u hu hb = (size, read)
  where
    size : length (text upper (dashed u)) ≡ 36
    size = omega (arith, length-dashed upper u)

    read : convert_from 16 0 (text upper (dashed u)) 36 [] ≡ (true, u)
    read =
        whole upper (dashed u) 4 (omega (arith, length-dashed upper u))
          (subst (All IsByte) (sym (bytes-dashed u)) hb) size
        ∙ exhausted_round 3 (text upper (dashed u)) (bytes (dashed u))
        ∙ ap (λ (bs : List ℕ). (true, bs)) (bytes-dashed u)
