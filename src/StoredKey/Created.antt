-- ===== src/StoredKey/Created.antt =====
-- What stored_key_create makes.
use tasecureapi.Prelude.{
  ℕ, ◌%◌, ◌^◌, ◌≡◌, refl, Bool, true, Option, some, List, arith, take, status_ok,
}
use tasecureapi.Rights.{Rights, validate_format}
use tasecureapi.KeySize.{
  supports_any, supports_aes, supports_hmac, supports_rsa, supports_ec, supports_dh, valid_aes_size,
  valid_hmac_size, valid_rsa_size, valid_ec_size, valid_dh_size, ec_key_size_from_curve,
}
use tasecureapi.StoredKey.{TypeParameters, Key, magic, create, restrict_child_rights}

-- The sizes and types of all keys fit the fields of `sa_header`.
supports_any_fits :
    (key_type curve size : ℕ)
    → supports_any key_type curve size ≡ true
    → (key_type % 2 ^ 8 ≡ key_type) × (size % 2 ^ 16 ≡ size)
unfolding supports_any supports_aes supports_hmac supports_rsa supports_ec supports_dh
    valid_aes_size valid_hmac_size valid_rsa_size valid_ec_size valid_dh_size ec_key_size_from_curve
supports_any_fits key_type curve size h = (ground arith, ground arith)

-- A key that `stored_key_create` makes.
pub record Made (rights : Rights) (parent : Option Rights) (key_type : ℕ) (p : TypeParameters)
    (size : ℕ) (bytes : List ℕ) (in_length : ℕ) (made : Option Key) : Type 0 where
  pub key : Key
  pub given : made ≡ some key
  pub key_type_kept : key.header.key_type ≡ key_type
  pub curve_kept : key.header.type_parameters ≡ p
  pub size_kept : key.header.size ≡ size
  pub rights_restricted : key.header.rights ≡ restrict_child_rights rights parent
  pub bytes_copied : key.key ≡ take in_length bytes
  pub length_stored : key.key_length ≡ in_length
  pub size_supported : supports_any key_type p.curve size ≡ true
  pub format_valid : validate_format (some rights) ≡ true

-- If `stored_key_create` returns a good status, it stores a key of a supported size with rights of a
-- valid format: its type and its size are those that are given, although the header has 8 and 16 bits
-- for them, its bytes are a copy of the input, and its rights are those that the parent leaves.
pub create-Made :
    (allocated key_allocated : Bool) (rights : Rights) (parent : Option Rights) (key_type : ℕ)
    (p : TypeParameters) (size : ℕ) (bytes : List ℕ) (in_length : ℕ)
    → let r =
        create allocated key_allocated
          (some rights)
          parent
          key_type
          p
          size
          (some bytes)
          in_length in
      r.0 ≡ status_ok → Made rights parent key_type p size bytes in_length r.1
unfolding create
create-Made allocated key_allocated rights parent key_type p size bytes in_length h =
    let supported : supports_any key_type p.curve size ≡ true = ground (arith, h) in
    let valid : validate_format (some rights) ≡ true = ground (arith, h) in
    let fits = supports_any_fits key_type p.curve size supported in
    let first : allocated ≡ true = ground (arith, h) in
    let second : key_allocated ≡ true = ground (arith, h) in
    rw (supported, valid, first, second)
      (record {
        key = record {
          header = record {
            magic = magic;
            rights = restrict_child_rights rights parent;
            key_type = key_type % 2 ^ 8;
            type_parameters = p;
            size = size % 2 ^ 16;
          };
          key_length = in_length;
          key = take in_length bytes;
        };
        given = refl;
        key_type_kept = fits.0;
        curve_kept = refl;
        size_kept = fits.1;
        rights_restricted = refl;
        bytes_copied = refl;
        length_stored = refl;
        size_supported = supported;
        format_valid = valid;
      })
