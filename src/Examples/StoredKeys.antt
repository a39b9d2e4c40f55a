-- ===== src/Examples/StoredKeys.antt =====
-- A key that is unwrapped by a key which may only unwrap.
use tasecureapi.Prelude.{
  ℕ, ◌≡◌, refl, true, false, none, some, List, [], ◌∷◌, arith, status_ok, strnlen,
}
use tasecureapi.Prelude.KeyType
use tasecureapi.Prelude.Bits.{test_bit}
use tasecureapi.Rights.{Rights, validate_format, allowed_unwrap, allowed_time, bit_test}
use tasecureapi.KeySize.{supports_any, supports_aes, valid_aes_size}
use tasecureapi.StoredKey.{Key, TypeParameters, create, restrict_child_rights}
use tasecureapi.StoredKey.ChildRights.{child_flags}
use tasecureapi.StoredKey.Created.{Made, create-Made}
use tasecureapi.Prelude.CipherAlgorithm
use tasecureapi.KeyUnwrap.Unwrap.{Environment, Wrapped, unwrap_bytes, import_key}
use tasecureapi.KeyUnwrap.{Parameters, key_unwrap, unwrap_algorithm, key_unwrap_aes_ctr}
use tasecureapi.KeyUnwrap.Allowed.{Unwrapped, key_unwrap_allowed}
use tasecureapi.Examples.Samples.{rights}

-- A parent that may only unwrap keys, for decryption.
abbrev parent : Rights
parent = record rights { usage_flags = 4; child_usage_flags = 16 }

-- The flag SA_USAGE_FLAG_SVP_OPTIONAL, which the parent does not have.
child_flags_example : test_bit (restrict_child_rights rights (some parent)).usage_flags 12 ≡ 1
unfolding test_bit
child_flags_example = child_flags rights parent 12 (omega arith) (omega arith) (omega arith)

abbrev no_curve : TypeParameters
no_curve = record { curve = 0; dh_parameters = [] }

creates :
    (create true true
      (some rights)
      (some parent)
      KeyType.symmetric
      no_curve
      16
      (some (7 ∷ 8 ∷ []))
      2).0
    ≡ status_ok
unfolding create supports_any supports_aes valid_aes_size validate_format strnlen
creates = refl

create-Made_example :
    Made rights
      (some parent)
      KeyType.symmetric
      no_curve
      16
      (7 ∷ 8 ∷ [])
      2
      (create true true
        (some rights)
        (some parent)
        KeyType.symmetric
        no_curve
        16
        (some (7 ∷ 8 ∷ []))
        2).1
create-Made_example =
    create-Made true true rights (some parent) KeyType.symmetric no_curve 16 (7 ∷ 8 ∷ []) 2 creates

abbrev bytes : List ℕ
bytes = 1 ∷ 2 ∷ 3 ∷ 4 ∷ 5 ∷ 6 ∷ 7 ∷ 8 ∷ 9 ∷ 10 ∷ 11 ∷ 12 ∷ 13 ∷ 14 ∷ 15 ∷ 16 ∷ []

abbrev wrapping : Key
wrapping = record {
  header = record {
    magic = [];
    rights = parent;
    key_type = KeyType.symmetric;
    type_parameters = no_curve;
    size = 16;
  };
  key_length = 16;
  key = bytes;
}

abbrev env : Environment
env = record {
  bytes_allocated = true;
  key_allocated = true;
  copy_allocated = true;
  decrypt = λ a key input. (status_ok, input);
  decrypt_rsa = λ is_oaep key input. (status_ok, input);
  decrypt_elgamal = λ key input. (status_ok, input);
  ec_validate_private = λ curve input n. 0;
  rsa_validate_private = λ input n. 0;
  in_front = [];
  now = 150;
}

abbrev wrapped : Wrapped
wrapped = record {
  rights = rights;
  key_type = KeyType.symmetric;
  curve = none;
  input = bytes;
  in_length = 16;
}

abbrev iv_parameters : Parameters
iv_parameters = record {
  as_iv = some (record { iv_given = true; iv_length = 16 });
  as_tagged = none;
  as_chacha20 = none;
  as_oaep = none;
  as_elgamal = none;
}

unwraps :
    (key_unwrap env
      (λ key. (status_ok, 7))
      (status_ok, some wrapping)
      wrapped
      (true ∷ true ∷ true ∷ true ∷ [])
      status_ok
      false
      CipherAlgorithm.aes_ctr
      iv_parameters).status
    ≡ status_ok
unfolding key_unwrap unwrap_algorithm key_unwrap_aes_ctr unwrap_bytes import_key create supports_any
    supports_aes valid_aes_size validate_format strnlen allowed_unwrap allowed_time bit_test
unwraps = refl

key_unwrap_allowed_example :
    Unwrapped env rights CipherAlgorithm.aes_ctr
      (status_ok, some wrapping)
      (key_unwrap env
        (λ key. (status_ok, 7))
        (status_ok, some wrapping)
        wrapped
        (true ∷ true ∷ true ∷ true ∷ [])
        status_ok
        false
        CipherAlgorithm.aes_ctr
        iv_parameters).imported
key_unwrap_allowed_example =
    key_unwrap_allowed env (λ key. (status_ok, 7)) (status_ok, some wrapping) wrapped
      (true ∷ true ∷ true ∷ true ∷ []) status_ok false CipherAlgorithm.aes_ctr iv_parameters unwraps
