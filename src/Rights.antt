-- ===== src/Rights.antt =====
-- taimpl/src/internal/rights.c: what the rights of a key allow. A pointer argument is an option. The
-- current time of `time(NULL)` and the answer of `video_output_poll`, which a vendor replaces, are
-- arguments; the answer is `none` where the call fails.
pub mod Flag
pub mod KeyUsage
pub mod Usage
pub mod Allowed
pub mod Caller
pub mod Parse
use tasecureapi.Prelude.{
  strnlen, ℕ, zero, suc, ◌+◌, ◌-◌, ◌*◌, ◌%◌, ◌^◌, bit_and, bit_or, Bool, true, false, not, ◌&&◌,
  ◌||◌, Option, none, some, List, [], ◌∷◌, ◌++◌, ltb, leb, ◌==◌, if◌then◌else◌, length, get_or,
  replicate, Status, status_ok, null_parameter, invalid_key_format, Uuid, ℤ, pos, negsuc,
  is_positive,
}
use tasecureapi.Prelude.KeyType
use Flag
use KeyUsage
use tasecureapi.Memory.{memcmp_constant}

-- `SA_USAGE_BIT_MASK`, `_SET`, `_CLEAR` and `_TEST` of client/include/sa_types.h, on 64 bits
abbrev pub bit_mask : ℕ → ℕ
bit_mask b = 2 ^ (b % 64)

unfoldable pub bit_set : ℕ → ℕ → ℕ
bit_set a b = bit_or a (bit_mask b)

unfoldable pub bit_clear : ℕ → ℕ → ℕ
bit_clear a b = bit_and a (2 ^ 64 - 1 - bit_mask b)

unfoldable pub bit_test : ℕ → ℕ → Bool
bit_test a b = not (bit_and a (bit_mask b) == 0)

-- `sa_rights`
pub record Rights : Type 0 where
  pub id : List ℕ
  pub usage_flags : ℕ
  pub child_usage_flags : ℕ
  pub not_before : ℕ
  pub not_on_or_after : ℕ
  pub allowed_tas : List Uuid

-- `video_output_state_t`
pub record VideoOutputState : Type 0 where
  pub analog_unprotected_count : ℤ
  pub analog_cgmsa_count : ℤ
  pub digital_unprotected_count : ℤ
  pub digital_hdcp14_count : ℤ
  pub digital_hdcp22_count : ℤ
  pub svp_enabled : Bool

unfoldable pub validate_format : Option Rights → Bool
unfolding strnlen
validate_format none = false
validate_format (some r) = not (strnlen r.id 64 == 64)

unfoldable pub allowed_time : Option Rights → ℕ → Bool
allowed_time none time = false
allowed_time (some r) time =
    if ltb time r.not_before then false else if leb r.not_on_or_after time then false else true

unfoldable pub allowed_video_output_state : Option Rights → Option VideoOutputState → Bool
allowed_video_output_state none state = false
allowed_video_output_state (some r) none = false
allowed_video_output_state (some r) (some v) =
    if not (bit_test r.usage_flags Flag.svp_optional) && not v.svp_enabled
    then false
    else if not (bit_test r.usage_flags Flag.analog_unprotected)
        && is_positive v.analog_unprotected_count
    then false
    else if not (bit_test r.usage_flags Flag.analog_cgmsa) && is_positive v.analog_cgmsa_count
    then false
    else if not (bit_test r.usage_flags Flag.digital_unprotected)
        && is_positive v.digital_unprotected_count
    then false
    else if not (bit_test r.usage_flags Flag.digital_hdcp14) && is_positive v.digital_hdcp14_count
    then false
    else if not (bit_test r.usage_flags Flag.digital_hdcp22) && is_positive v.digital_hdcp22_count
    then false
    else true

-- The second argument is what `video_output_poll` gives.
unfoldable pub validate_video_output_state : Option Rights → Option VideoOutputState → Bool
validate_video_output_state none poll = false
validate_video_output_state (some r) none = false
validate_video_output_state (some r) (some v) =
    if not (allowed_video_output_state (some r) (some v)) then false else true

unfoldable pub allowed_derive : Option Rights → ℕ → Bool
allowed_derive none now = false
allowed_derive (some r) now =
    if not (bit_test r.usage_flags Flag.derive)
    then false
    else if not (allowed_time (some r) now)
    then false
    else true

unfoldable pub allowed_exchange : Option Rights → ℕ → Bool
allowed_exchange none now = false
allowed_exchange (some r) now =
    if not (bit_test r.usage_flags Flag.key_exchange)
    then false
    else if not (allowed_time (some r) now)
    then false
    else true

unfoldable pub allowed_unwrap : Option Rights → ℕ → Bool
allowed_unwrap none now = false
allowed_unwrap (some r) now =
    if not (bit_test r.usage_flags Flag.unwrap)
    then false
    else if not (allowed_time (some r) now)
    then false
    else true

unfoldable pub allowed_sign : Option Rights → ℕ → Bool
allowed_sign none now = false
allowed_sign (some r) now =
    if not (bit_test r.usage_flags Flag.sign)
    then false
    else if not (allowed_time (some r) now)
    then false
    else true

unfoldable pub allowed_decrypt : Option Rights → ℕ → Option VideoOutputState → ℕ → Bool
allowed_decrypt none now poll key_type = false
allowed_decrypt (some r) now poll key_type =
    if not (bit_test r.usage_flags Flag.decrypt)
    then false
    else if not (allowed_time (some r) now)
    then false
    else if key_type == KeyType.symmetric && not (validate_video_output_state (some r) poll)
    then false
    else true

unfoldable pub allowed_encrypt : Option Rights → ℕ → Option VideoOutputState → ℕ → Bool
allowed_encrypt none now poll key_type = false
allowed_encrypt (some r) now poll key_type =
    if not (bit_test r.usage_flags Flag.encrypt)
    then false
    else if not (allowed_time (some r) now)
    then false
    else if key_type == KeyType.symmetric && not (validate_video_output_state (some r) poll)
    then false
    else true

unfoldable pub allowed_clear : Option Rights → Bool
allowed_clear none = false
allowed_clear (some r) = if not (bit_test r.usage_flags Flag.svp_optional) then false else true

-- `NO_MATCH` and `ALL_MATCH`
abbrev pub no_match : Uuid
no_match = replicate 16 0x00

abbrev pub all_match : Uuid
all_match = replicate 16 0xff

-- `MAX_NUM_ALLOWED_TA_IDS`
abbrev pub max_num_allowed_ta_ids : ℕ
max_num_allowed_ta_ids = 32

abbrev pub same : Uuid → Uuid → Bool
same a b = memcmp_constant a b 16 == 0

-- The loop of `rights_allowed_uuid`, with `n` rounds left.
unfoldable pub allowed_uuid_from : ℕ → ℕ → List Uuid → Uuid → Bool
unfolding memcmp_constant
allowed_uuid_from zero i tas caller = false
allowed_uuid_from (suc n) i tas caller =
    let entry = get_or tas i [] in
    let rest = allowed_uuid_from n (suc i) tas caller in
    if same entry no_match
    then rest
    else if same entry all_match
    then true
    else if same entry caller
    then true
    else rest

unfoldable pub allowed_uuid : Option Rights → Option Uuid → Bool
unfolding allowed_uuid_from
allowed_uuid none caller_uuid = false
allowed_uuid (some r) none = false
allowed_uuid (some r) (some caller) =
    allowed_uuid_from max_num_allowed_ta_ids 0 r.allowed_tas caller

pub data KeySubtype : Type 0 where
  private_subtype : KeySubtype
  aes_subtype : KeySubtype
  hmac_subtype : KeySubtype
  chacha20_subtype : KeySubtype

abbrev pub is_hmac : KeySubtype → Bool
is_hmac hmac_subtype = true
is_hmac _ = false

unfoldable pub clear_usage : ℕ → ℕ
clear_usage f =
    let f = bit_clear f Flag.key_exchange in
    let f = bit_clear f Flag.derive in
    let f = bit_clear f Flag.unwrap in
    let f = bit_clear f Flag.decrypt in let f = bit_clear f Flag.encrypt in bit_clear f Flag.sign

unfoldable pub set_exchange : ℕ → ℕ → ℕ
set_exchange f key_type =
    if key_type == KeyType.dh || key_type == KeyType.ec then bit_set f Flag.key_exchange else f

unfoldable pub set_data_and_key : ℕ → ℕ → ℕ
set_data_and_key f key_type =
    let f = set_exchange f key_type in
    let f = bit_set f Flag.unwrap in
    let f = bit_set f Flag.decrypt in
    let f = bit_set f Flag.encrypt in let f = bit_set f Flag.sign in bit_set f Flag.derive

unfoldable pub set_data_only : ℕ → ℕ → KeySubtype → ℕ
set_data_only f key_type subtype =
    let f = set_exchange f key_type in
    let f = if is_hmac subtype then f else bit_set (bit_set f Flag.decrypt) Flag.encrypt in
    let f = bit_set f Flag.sign in bit_set f Flag.derive

-- `key_usage_to_usage_flags`: the status, and `*usage_flags` after the call.
unfoldable pub key_usage_to_usage_flags : Option ℕ → ℤ → ℕ → KeySubtype → Status × Option ℕ
key_usage_to_usage_flags none key_usage key_type subtype = (null_parameter, none)
key_usage_to_usage_flags (some flags) (negsuc k) key_type subtype =
    (invalid_key_format, some (clear_usage flags))
key_usage_to_usage_flags (some flags) (pos k) key_type subtype =
    let f = clear_usage flags in
    if k == KeyUsage.typej_data_and_key || k == KeyUsage.soc_data_and_key
    then (status_ok, some (set_data_and_key f key_type))
    else if k == KeyUsage.data_only
    then (status_ok, some (set_data_only f key_type subtype))
    else if k == KeyUsage.key_only
    then (status_ok, some (bit_set f Flag.unwrap))
    else (invalid_key_format, some f)

-- `UUID_LENGTH`
abbrev pub uuid_length : ℕ
uuid_length = 36

-- `if ('A' <= c && c <= 'Z') c += 32;`
unfoldable pub lower : ℕ → ℕ
lower c = if leb b'A' c && leb c b'Z' then c + 32 else c

unfoldable pub is_hex : ℕ → Bool
is_hex c = not ((ltb c b'0' || ltb b'9' c) && (ltb c b'a' || ltb b'f' c))

unfoldable pub hex_value : ℕ → ℕ
hex_value c = if leb b'0' c && leb c b'9' then c - b'0' else c - b'a' + 10

-- The loop of `convert_uuid` with `n` bytes still to be written: whether it succeeds, and the bytes
-- that it has written.
unfoldable pub convert_from : ℕ → ℕ → List ℕ → ℕ → List ℕ → Bool × List ℕ
convert_from zero i str count written = (true, written)
convert_from (suc n) i str count written =
    let start = if get_or str i 0 == b'-' then i + 1 else i in
    let c1 = lower (get_or str start 0) in
    let c2 = lower (get_or str (start + 1) 0) in
    let byte = (hex_value c1 * 16 + hex_value c2) % 256 in
    let rest = convert_from n (start + 2) str count (written ++ (byte ∷ [])) in
    if leb count i
    then (true, written)
    else if leb count start
    then (false, written)
    else if leb count (start + 1) || not (is_hex c1)
    then (false, written)
    else if not (is_hex c2)
    then (false, written)
    else rest

unfoldable pub convert_uuid : List ℕ → ℕ → Bool × List ℕ
convert_uuid uuid_str uuid_str_length =
    if not (uuid_str_length == uuid_length)
    then (false, [])
    else convert_from 16 0 uuid_str uuid_str_length []
