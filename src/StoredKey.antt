-- ===== src/StoredKey.antt =====
-- taimpl/src/internal/stored_key.c: the creation of a key in memory, and the rights of a key that is
-- derived from, exchanged with or unwrapped by another. Whether allocations succeed is an argument.
pub mod ChildRights
pub mod Created
use tasecureapi.Prelude.{
  ℕ, ◌-◌, ◌%◌, ◌^◌, bit_and, bit_or, Bool, ◌||◌, not, Option, none, some, List, [], ◌∷◌, ◌==◌,
  if◌then◌else◌, checks, take, Status, status_ok, null_parameter, invalid_parameter, internal_error,
}
use tasecureapi.Rights.{Rights, bit_mask, validate_format}
use tasecureapi.Rights.Flag
use tasecureapi.KeySize.{supports_any}
use tasecureapi.Svp.{is_ok}
use tasecureapi.Cenc.Verify.{is_some}

-- `SA_USAGE_FLAG_ALLOWED_DIGITAL_DTCP`
abbrev pub digital_dtcp : ℕ
digital_dtcp = 11

-- `SA_USAGE_OUTPUT_PROTECTIONS_MASK`
abbrev pub output_protections_mask : ℕ
output_protections_mask = bit_or (bit_mask Flag.analog_unprotected) (
    bit_or (bit_mask Flag.analog_cgmsa) (
      bit_or (bit_mask Flag.digital_unprotected) (
        bit_or (bit_mask Flag.digital_hdcp14) (
          bit_or (bit_mask Flag.digital_hdcp22)
            (bit_or (bit_mask digital_dtcp) (bit_mask Flag.svp_optional))))))

-- `SA_KEY_USAGE_MASK`
abbrev pub key_usage_mask : ℕ
key_usage_mask = bit_or (bit_mask Flag.key_exchange) (
    bit_or (bit_mask Flag.derive) (
      bit_or (bit_mask Flag.unwrap)
        (bit_or (bit_mask Flag.encrypt) (bit_or (bit_mask Flag.decrypt) (bit_mask Flag.sign)))))

-- `~` on 64 bits
abbrev pub complement : ℕ → ℕ
complement a = 2 ^ 64 - 1 - a

-- `KEY_ONLY_MASK`
abbrev pub key_only_mask : ℕ
key_only_mask = bit_and (complement (bit_mask Flag.unwrap)) key_usage_mask

-- `restrict_child_rights`, of rights that are given.
unfoldable pub restrict_child_rights : Rights → Option Rights → Rights
restrict_child_rights rights none = rights
restrict_child_rights rights (some root) =
    let outputs = bit_and (complement root.usage_flags) output_protections_mask in
    let usages = bit_and (complement root.child_usage_flags) key_usage_mask in
    if not (bit_and root.usage_flags key_only_mask == 0) || root.child_usage_flags == 0
    then record rights { usage_flags = bit_and rights.usage_flags (complement outputs) }
    else record rights { usage_flags = bit_and rights.usage_flags (complement usages) }

-- `sa_type_parameters`: the curve, and the parameters of Diffie-Hellman as bytes.
pub record TypeParameters : Type 0 where
  pub curve : ℕ
  pub dh_parameters : List ℕ

-- `sa_header`; the size is a `uint16_t` and the type a `uint8_t`.
pub record Header : Type 0 where
  pub magic : List ℕ
  pub rights : Rights
  pub key_type : ℕ
  pub type_parameters : TypeParameters
  pub size : ℕ

-- `stored_key_s`
pub record Key : Type 0 where
  pub header : Header
  pub key_length : ℕ
  pub key : List ℕ

-- The text "sak0"
abbrev pub magic : List ℕ
magic = 115 ∷ 97 ∷ 107 ∷ 48 ∷ []

-- `stored_key_create`, with a pointer for the result; the Booleans say whether the allocations of the
-- structure and of the key succeed. Without a key the structure is freed.
unfoldable pub create :
    Bool
    → Bool
    → Option Rights
    → Option Rights
    → ℕ
    → TypeParameters
    → ℕ
    → Option (List ℕ)
    → ℕ
    → Status × Option Key
unfolding restrict_child_rights
create allocated key_allocated none parent key_type type_parameters size input in_length =
    (null_parameter, none)
create allocated key_allocated (some rights) parent key_type type_parameters size none in_length =
    (null_parameter, none)
create allocated key_allocated (some rights) parent key_type type_parameters size (some bytes)
      in_length =
    let checked =
      checks
        ((not (supports_any key_type type_parameters.curve size), invalid_parameter)
          ∷ (not (validate_format (some rights)), invalid_parameter)
          ∷ (not allocated, internal_error)
          ∷ (not key_allocated, internal_error)
          ∷ [])
        status_ok in
    if is_ok checked
    then (
      status_ok,
      some (record {
        header = record {
          magic = magic;
          rights = restrict_child_rights rights parent;
          key_type = key_type % 2 ^ 8;
          type_parameters = type_parameters;
          size = size % 2 ^ 16;
        };
        key_length = in_length;
        key = take in_length bytes;
      }),
    )
    else (checked, none)

-- `stored_key_import`
unfoldable pub import_key :
    Bool → Bool → Option Rights → ℕ → TypeParameters → ℕ → Option (List ℕ) → ℕ → Status × Option Key
unfolding create
import_key allocated key_allocated rights key_type type_parameters size input in_length =
    create allocated key_allocated rights none key_type type_parameters size input in_length

-- `stored_key_get_header`, `stored_key_get_length` and `stored_key_get_key`
abbrev pub get_header : Option Key → Option Header
get_header none = none
get_header (some k) = some k.header

abbrev pub get_length : Option Key → ℕ
get_length none = 0
get_length (some k) = k.key_length

abbrev pub get_key : Option Key → Option (List ℕ)
get_key none = none
get_key (some k) = some k.key
