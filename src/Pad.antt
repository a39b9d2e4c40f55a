-- ===== src/Pad.antt =====
-- taimpl/src/internal/pad.c: the PKCS 7 padding of one block of 16 bytes.
pub mod Laws
use tasecureapi.Prelude.{
  ℕ, zero, suc, ◌-◌, Bool, true, false, ◌||◌, not, Option, none, some, List, ltb, ◌==◌,
  if◌then◌else◌, get_or, set,
}

-- `AES_BLOCK_SIZE`
abbrev pub aes_block_size : ℕ
aes_block_size = 16

-- The loop of `pad_check_pkcs7` from byte `i` on, with `n` rounds left.
unfoldable pub check_from : ℕ → ℕ → List ℕ → ℕ → Bool
check_from zero i block pad_value = true
check_from (suc n) i block pad_value =
    let rest = check_from n (suc i) block pad_value in
    if not (get_or block i 0 == pad_value) then false else rest

-- `pad_check_pkcs7`: its result, and `*pad_value` if it was written. The first argument says whether
-- the pointer `pad_value` is given.
unfoldable pub check_pkcs7 : Bool → Option (List ℕ) → Bool × Option ℕ
unfolding check_from
check_pkcs7 false block = (false, none)
check_pkcs7 true none = (false, none)
check_pkcs7 true (some block) =
    let pad_value = get_or block 15 0 in
    if ltb pad_value 1 || ltb aes_block_size pad_value
    then (false, some pad_value)
    else (check_from pad_value (aes_block_size - pad_value) block pad_value, some pad_value)

-- The loop of `pad_apply_pkcs7` from byte `i` on, with `n` rounds left.
unfoldable pub apply_from : ℕ → ℕ → List ℕ → ℕ → List ℕ
apply_from zero i out pad_value = out
apply_from (suc n) i out pad_value = apply_from n (suc i) (set out i pad_value) pad_value

-- `pad_apply_pkcs7`: its result, and the block.
unfoldable pub apply_pkcs7 : Option (List ℕ) → ℕ → Bool × Option (List ℕ)
unfolding apply_from
apply_pkcs7 none pad_value = (false, none)
apply_pkcs7 (some out) pad_value =
    if ltb pad_value 1 || ltb aes_block_size pad_value
    then (false, some out)
    else (true, some (apply_from pad_value (aes_block_size - pad_value) out pad_value))
