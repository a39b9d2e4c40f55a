-- ===== src/Rights/Usage.antt =====
-- The usage bits: what setting, clearing and testing one does to each bit, and the flags that
-- `key_usage_to_usage_flags` gives for each usage.
use tasecureapi.Prelude.{
  ℕ, zero, suc, ◌-◌, ◌%◌, ◌^◌, ◌<◌, ◌≡◌, refl, ◌↔◌, ◌⊎◌, inl, inr, Bool, true, false, ◌&&◌, ◌||◌,
  not, Option, none, some, arith, ◌==◌, ltb, if◌then◌else◌, Status, status_ok, ℤ, pos, negsuc,
}
use tasecureapi.Prelude.KeyType
use tasecureapi.Prelude.Bits.{
  test_bit, test_bit-le-one, test_bit-or, test_bit-and, test_bit-pow, test_bit-complement,
  bit_and-pow-eq-zero, pow-lt-pow,
}
use tasecureapi.Rights.Flag
use tasecureapi.Rights.KeyUsage
use tasecureapi.Rights.{
  bit_mask, bit_set, bit_clear, bit_test, KeySubtype, is_hmac, clear_usage, set_exchange,
  set_data_and_key, set_data_only, key_usage_to_usage_flags,
}

pub bit_test_iff : (a b : ℕ) → (bit_test a b ≡ true) ↔ (test_bit a (b % 64) ≡ 1)
unfolding bit_test
bit_test_iff a b = (
  λ h. ground (arith, bit_and-pow-eq-zero a (b % 64), test_bit-le-one a (b % 64)),
  λ h. ground (arith, bit_and-pow-eq-zero a (b % 64)),
)

pub test_bit-bit_set :
    (a b k : ℕ) → test_bit (bit_set a b) k ≡ (if k == b % 64 then 1 else test_bit a k)
unfolding bit_set
test_bit-bit_set a b k =
    rw (test_bit-or a (bit_mask b) k, test_bit-pow (b % 64) k) (ground (arith, test_bit-le-one a k))

pub test_bit-bit_clear :
    (a b k : ℕ) → k < 64 → test_bit (bit_clear a b) k ≡ (if k == b % 64 then 0 else test_bit a k)
unfolding bit_clear
test_bit-bit_clear a b k h = ground (
  arith,
  test_bit-and a (2 ^ 64 - 1 - bit_mask b) k,
  test_bit-complement 64 (bit_mask b) k (pow-lt-pow (b % 64) 64 (omega arith)) h,
  test_bit-pow (b % 64) k,
  test_bit-le-one a k,
)

test_bit-clear_usage :
    (f k : ℕ) → k < 64 → test_bit (clear_usage f) k ≡ (if ltb k 6 then 0 else test_bit f k)
unfolding clear_usage
test_bit-clear_usage f k h =
    simp
      (
        test_bit-bit_clear _ Flag.sign k h,
        test_bit-bit_clear _ Flag.encrypt k h,
        test_bit-bit_clear _ Flag.decrypt k h,
        test_bit-bit_clear _ Flag.unwrap k h,
        test_bit-bit_clear _ Flag.derive k h,
        test_bit-bit_clear f Flag.key_exchange k h,
      )
      (ground arith)

exchanges : ℕ → Bool
exchanges key_type = key_type == KeyType.dh || key_type == KeyType.ec

test_bit-set_exchange :
    (f key_type k : ℕ)
    → test_bit (set_exchange f key_type) k
      ≡ (if exchanges key_type && k == Flag.key_exchange then 1 else test_bit f k)
unfolding set_exchange exchanges
test_bit-set_exchange f key_type k = ground (arith, test_bit-bit_set f Flag.key_exchange k)

test_bit-set_data_and_key :
    (f key_type k : ℕ)
    → test_bit (set_data_and_key f key_type) k
      ≡ (if ltb 0 k && ltb k 6 then 1 else test_bit (set_exchange f key_type) k)
unfolding set_data_and_key
test_bit-set_data_and_key f key_type k =
    simp
      (
        test_bit-bit_set _ Flag.derive k,
        test_bit-bit_set _ Flag.sign k,
        test_bit-bit_set _ Flag.encrypt k,
        test_bit-bit_set _ Flag.decrypt k,
        test_bit-bit_set _ Flag.unwrap k,
      )
      (ground arith)

test_bit-set_data_only :
    (f key_type : ℕ) (subtype : KeySubtype) (k : ℕ)
    → test_bit (set_data_only f key_type subtype) k ≡ (
        if k == Flag.derive || k == Flag.sign
        then 1
        else if not (is_hmac subtype) && (k == Flag.decrypt || k == Flag.encrypt)
        then 1
        else test_bit (set_exchange f key_type) k)
unfolding set_data_only
test_bit-set_data_only f key_type subtype k =
    simp (test_bit-bit_set _ Flag.derive k, test_bit-bit_set _ Flag.sign k)
      (ground (
        arith,
        test_bit-bit_set (bit_set (set_exchange f key_type) Flag.decrypt) Flag.encrypt k,
        test_bit-bit_set (set_exchange f key_type) Flag.decrypt k,
      ))

-- What a usage grants, as a table: the bit, and when it is set.
abbrev pub grants_data : ℕ → ℕ → Bool → ℕ → Bool
grants_data usage key_type hmac bit =
    let both = usage == KeyUsage.typej_data_and_key || usage == KeyUsage.soc_data_and_key in
    let on_data = both || usage == KeyUsage.data_only in
    if bit == Flag.key_exchange
    then on_data && (key_type == KeyType.dh || key_type == KeyType.ec)
    else if bit == Flag.derive
    then on_data
    else if bit == Flag.unwrap
    then both || usage == KeyUsage.key_only
    else if bit == Flag.encrypt
    then both || (usage == KeyUsage.data_only && not hmac)
    else if bit == Flag.decrypt
    then both || (usage == KeyUsage.data_only && not hmac)
    else if bit == Flag.sign
    then on_data
    else false

abbrev pub grants : ℤ → ℕ → Bool → ℕ → Bool
grants (pos usage) key_type hmac bit = grants_data usage key_type hmac bit
grants (negsuc usage) key_type hmac bit = false

abbrev pub bit_of : Bool → ℕ
bit_of b = if b then 1 else 0

abbrev pub flags_after : ℕ → Status × Option ℕ → ℕ
flags_after flags (s, none) = flags
flags_after flags (s, some f) = f

data_and_key_bits :
    (flags usage key_type : ℕ) (hmac : Bool) (k : ℕ)
    → k < 64
    → (usage ≡ 0) ⊎ (usage ≡ 3)
    → test_bit (set_data_and_key (clear_usage flags) key_type) k
      ≡ (if ltb k 6 then bit_of (grants_data usage key_type hmac k) else test_bit flags k)
unfolding exchanges
data_and_key_bits flags usage key_type hmac k h both =
    rw
      (
        test_bit-set_data_and_key (clear_usage flags) key_type k,
        test_bit-set_exchange (clear_usage flags) key_type k,
        test_bit-clear_usage flags k h,
      )
      (ground arith)

data_only_bits :
    (flags key_type : ℕ) (subtype : KeySubtype) (k : ℕ)
    → k < 64
    → test_bit (set_data_only (clear_usage flags) key_type subtype) k
      ≡ (if ltb k 6 then bit_of (grants_data 1 key_type (is_hmac subtype) k) else test_bit flags k)
unfolding exchanges
data_only_bits flags key_type subtype k h =
    rw
      (
        test_bit-set_data_only (clear_usage flags) key_type subtype k,
        test_bit-set_exchange (clear_usage flags) key_type k,
        test_bit-clear_usage flags k h,
      )
      (ground arith)

key_only_bits :
    (flags key_type : ℕ) (hmac : Bool) (k : ℕ)
    → k < 64
    → test_bit (bit_set (clear_usage flags) Flag.unwrap) k
      ≡ (if ltb k 6 then bit_of (grants_data 2 key_type hmac k) else test_bit flags k)
key_only_bits flags key_type hmac k h =
    rw (test_bit-bit_set (clear_usage flags) Flag.unwrap k, test_bit-clear_usage flags k h)
      (ground arith)

-- Each of the six usage bits is then set exactly when the table grants it, and every other bit,
-- an output protection or another, is as it was; so it is also for an unknown usage, which is
-- refused and leaves the six bits cleared.
pub usage_flags_table :
    (flags : ℕ) (usage : ℤ) (key_type : ℕ) (subtype : KeySubtype) (k : ℕ)
    → k < 64
    → test_bit (flags_after flags (key_usage_to_usage_flags (some flags) usage key_type subtype)) k
      ≡ (if ltb k 6 then bit_of (grants usage key_type (is_hmac subtype) k) else test_bit flags k)
unfolding key_usage_to_usage_flags
usage_flags_table flags (negsuc usage) key_type subtype k h = test_bit-clear_usage flags k h
usage_flags_table flags (pos zero) key_type subtype k h =
    data_and_key_bits flags 0 key_type (is_hmac subtype) k h (inl refl)
usage_flags_table flags (pos (suc zero)) key_type subtype k h =
    data_only_bits flags key_type subtype k h
usage_flags_table flags (pos (suc (suc zero))) key_type subtype k h =
    key_only_bits flags key_type (is_hmac subtype) k h
usage_flags_table flags (pos (suc (suc (suc zero)))) key_type subtype k h =
    data_and_key_bits flags 3 key_type (is_hmac subtype) k h (inr refl)
usage_flags_table flags (pos (suc (suc (suc (suc usage))))) key_type subtype k h =
    ground (arith, test_bit-clear_usage flags k h)

-- The call succeeds exactly for the four usages.
pub usage_flags_ok :
    (flags usage key_type : ℕ) (subtype : KeySubtype)
    → ((key_usage_to_usage_flags (some flags) (pos usage) key_type subtype).0 ≡ status_ok)
      ↔ (usage < 4)
unfolding key_usage_to_usage_flags
usage_flags_ok flags usage key_type subtype = (λ h. ground arith, λ h. ground arith)
