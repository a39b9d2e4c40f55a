-- ===== src/KeyUnwrap/Unwrap.antt =====
-- taimpl/src/internal/unwrap.c: the bytes of a key are decrypted with another key, and become a stored
-- key with its rights. The decryptions, which call OpenSSL, are an argument, and so are the checks of
-- the private keys of elliptic curves and of RSA.
use tasecureapi.Prelude.{
  ℕ, ◌+◌, ◌-◌, ◌*◌, ◌%◌, Bool, ◌&&◌, not, Option, none, some, List, [], ◌∷◌, ltb, ◌==◌,
  if◌then◌else◌, checks, length, drop, Status, status_ok, null_parameter, invalid_parameter,
  internal_error, invalid_key_format, operation_not_supported,
}
use tasecureapi.Prelude.KeyType
use tasecureapi.Memory.{size_mod, add_overflow}
use tasecureapi.Pad.{aes_block_size, check_pkcs7}
use tasecureapi.Rights.{Rights}
use tasecureapi.KeySize.{ec_key_size_from_curve}
use tasecureapi.Svp.{is_ok}
use tasecureapi.Cenc.Verify.{is_some}
use tasecureapi.StoredKey.{Key, create}
use tasecureapi.CipherInit.Algorithms.{OaepParameters}

-- What the code does not decide: whether the allocations of the bytes, of the stored key and of its
-- bytes succeed; the decryption with an algorithm, a key and its parameters; the sizes that
-- `ec_validate_private` and `rsa_validate_private` find, 0 for a bad key; the 16 bytes that lie in front
-- of the allocated bytes; and the time.
pub record Environment : Type 0 where
  pub bytes_allocated : Bool
  pub key_allocated : Bool
  pub copy_allocated : Bool
  pub decrypt : ℕ → Key → List ℕ → Status × List ℕ
  pub decrypt_rsa : Bool → Key → List ℕ → Status × List ℕ
  pub decrypt_elgamal : Key → List ℕ → Status × List ℕ
  pub ec_validate_private : ℕ → List ℕ → ℕ → ℕ
  pub rsa_validate_private : List ℕ → ℕ → ℕ
  pub in_front : List ℕ
  pub now : ℕ

-- The arguments of `ta_sa_key_unwrap` that describe the key: its rights, its type, the curve if
-- parameters for it are given, and the encrypted bytes.
pub record Wrapped : Type 0 where
  pub rights : Rights
  pub key_type : ℕ
  pub curve : Option ℕ
  pub input : List ℕ
  pub in_length : ℕ

-- `sa_unwrap_parameters_ec_elgamal`
pub record ElgamalParameters : Type 0 where
  pub offset : ℕ
  pub key_length : ℕ

abbrev curve_or : Option ℕ → ℕ
curve_or none = 0
curve_or (some c) = c

module _ (env : Environment) where
  -- `import_key`
  unfoldable pub import_key : Rights → Rights → ℕ → Option ℕ → List ℕ → ℕ → Status × Option Key
  import_key rights wrapping_rights key_type curve bytes in_length =
      let size =
        if key_type == KeyType.ec
        then env.ec_validate_private (curve_or curve) bytes in_length
        else if key_type == KeyType.rsa
        then env.rsa_validate_private bytes in_length
        else in_length in
      let checked =
        checks
          ((
            not (key_type == KeyType.ec)
                && not (key_type == KeyType.symmetric)
                && not (key_type == KeyType.rsa),
            invalid_parameter,
          )
            ∷ (key_type == KeyType.ec && not (is_some curve), null_parameter)
            ∷ (not (key_type == KeyType.symmetric) && size == 0, internal_error)
            ∷ [])
          status_ok in
      let created =
        create env.key_allocated env.copy_allocated (some rights) (some wrapping_rights) key_type
          (record {
            curve = if key_type == KeyType.ec then curve_or curve else 0;
            dh_parameters = [];
          })
          size (some bytes) in_length in
      if is_ok checked then created else (checked, none)

  abbrev pub pad_of : Option ℕ → ℕ
  pad_of none = 0
  pad_of (some n) = n

  -- `unwrap_aes_ecb` and `unwrap_aes_cbc`; the Boolean says that the bytes are padded. For no bytes the
  -- padding is looked for in front of them.
  unfoldable pub unwrap_blocks : Wrapped → ℕ → Bool → Key → Status × Option Key
  unfolding import_key
  unwrap_blocks w algorithm padded wrapping =
      let (s, bytes) = env.decrypt algorithm wrapping w.input in
      let block =
        if ltb w.in_length aes_block_size
        then env.in_front
        else drop (w.in_length - aes_block_size) bytes in
      let (is_padded, pad) = check_pkcs7 Bool.true (some block) in
      let pad_value = if padded then pad_of pad else 0 in
      let imported =
        import_key w.rights wrapping.header.rights w.key_type w.curve bytes
          ((w.in_length + size_mod - pad_value) % size_mod) in
      if not env.bytes_allocated
      then (internal_error, none)
      else if not (is_ok s)
      then (s, none)
      else if padded && not is_padded
      then (invalid_key_format, none)
      else imported

  -- `unwrap_aes_ctr`, `unwrap_aes_gcm`, `unwrap_chacha20` and `unwrap_chacha20_poly1305`
  unfoldable pub unwrap_bytes : Wrapped → ℕ → Key → Status × Option Key
  unfolding import_key
  unwrap_bytes w algorithm wrapping =
      let (s, bytes) = env.decrypt algorithm wrapping w.input in
      let imported =
        import_key w.rights wrapping.header.rights w.key_type w.curve bytes w.in_length in
      if not env.bytes_allocated
      then (internal_error, none)
      else if not (is_ok s)
      then (s, none)
      else imported

  abbrev pub oaep_status : Option OaepParameters → Status
  oaep_status none = invalid_parameter
  oaep_status (some p) =
      if not (is_some p.label) && not (p.label_length == 0) then invalid_parameter else status_ok

  -- `unwrap_rsa`; the Boolean says that the algorithm is RSA-OAEP.
  unfoldable pub unwrap_rsa : Wrapped → Bool → Option OaepParameters → Key → Status × Option Key
  unfolding import_key
  unwrap_rsa w is_oaep p wrapping =
      let (s, bytes) = env.decrypt_rsa is_oaep wrapping w.input in
      let parameters = if is_oaep then oaep_status p else status_ok in
      let imported =
        import_key w.rights wrapping.header.rights KeyType.symmetric none bytes (length bytes) in
      if not env.bytes_allocated
      then (internal_error, none)
      else if not (is_ok parameters)
      then (parameters, none)
      else if not (is_ok s)
      then (s, none)
      else imported

  -- `unwrap_ec`
  unfoldable pub unwrap_ec : Wrapped → ElgamalParameters → Key → Status × Option Key
  unfolding import_key
  unwrap_ec w p wrapping =
      let size = ec_key_size_from_curve wrapping.header.type_parameters.curve in
      let (over, total_length) = add_overflow p.offset p.key_length in
      let (s, bytes) = env.decrypt_elgamal wrapping w.input in
      let imported =
        import_key w.rights wrapping.header.rights KeyType.symmetric none (drop p.offset bytes)
          p.key_length in
      let checked =
        checks
          ((size == 0, operation_not_supported)
            ∷ (ltb p.key_length 16, invalid_parameter)
            ∷ (over, invalid_parameter)
            ∷ (ltb size total_length, invalid_parameter)
            ∷ (not (w.in_length == size * 4), invalid_parameter)
            ∷ (not env.bytes_allocated, internal_error)
            ∷ (not (is_ok s), s)
            ∷ (not (length bytes == size), internal_error)
            ∷ [])
          status_ok in
      if is_ok checked then imported else (checked, none)
