-- ===== src/KeyUnwrap/Imported.antt =====
-- The stored keys that the functions of unwrap.c make.
use tasecureapi.Prelude.{
  ℕ, ◌+◌, ◌-◌, ◌%◌, ◌≡◌, refl, inl, inr, Bool, true, false, ◌&&◌, not, Option, none, some, List,
  length, drop, arith, ltb, if◌then◌else◌, Status, status_ok, internal_error, invalid_key_format,
  Bool-cases,
}
use tasecureapi.Prelude.KeyType
use tasecureapi.Memory.{size_mod}
use tasecureapi.Pad.{aes_block_size, check_pkcs7}
use tasecureapi.Rights.{Rights}
use tasecureapi.KeySize.{supports_any}
use tasecureapi.Svp.{is_ok}
use tasecureapi.StoredKey.{Key, TypeParameters, create, restrict_child_rights}
use tasecureapi.StoredKey.Created.{create-Made}
use tasecureapi.CipherInit.Algorithms.{OaepParameters}
use tasecureapi.KeyUnwrap.Unwrap.{
  Environment, Wrapped, ElgamalParameters, pad_of, oaep_status, import_key, unwrap_blocks,
  unwrap_bytes, unwrap_rsa, unwrap_ec,
}

-- A key with the rights that its parent leaves, and of a size that its type has.
pub record Restricted (rights parent : Rights) (key : Key) : Type 0 where
  pub rights_restricted : key.header.rights ≡ restrict_child_rights rights (some parent)
  pub size_supported :
      supports_any key.header.key_type key.header.type_parameters.curve key.header.size ≡ true

-- A good status comes with such a key.
abbrev pub Imported : Rights → Rights → Status × Option Key → Type 0
Imported rights parent r =
    r.0 ≡ status_ok → (key : Key) × (r.1 ≡ some key) × Restricted rights parent key

module _ (rights parent : Rights) where
  guard-Imported :
      (test : Bool) (s : Status) (r : Status × Option Key)
      → (test ≡ true → is_ok s ≡ false)
      → Imported rights parent r
      → Imported rights parent (if test then (s, none) else r)
  guard-Imported true s r error h good = absurd (let bad = error refl in ground (arith, good, bad))
  guard-Imported false s r error h good = h good

  status-Imported :
      (s : Status) (r : Status × Option Key)
      → Imported rights parent r
      → Imported rights parent (if not (is_ok s) then (s, none) else r)
  status-Imported s r h = guard-Imported (not (is_ok s)) s r (λ e. ground (arith, e)) h

  create-Imported :
      (allocated key_allocated : Bool) (key_type : ℕ) (p : TypeParameters) (size : ℕ)
      (bytes : List ℕ) (in_length : ℕ)
      → Imported rights parent (
          create allocated key_allocated
            (some rights)
            (some parent)
            key_type
            p
            size
            (some bytes)
            in_length)
  create-Imported allocated key_allocated key_type p size bytes in_length good =
      let made =
        create-Made allocated key_allocated rights (some parent) key_type p size bytes in_length
          good in
      (
        made.key,
        made.given,
        record {
          rights_restricted = made.rights_restricted;
          size_supported =
              rw (made.key_type_kept, made.curve_kept, made.size_kept) made.size_supported;
        },
      )

  checked-Imported :
      (checked : Status) (r : Status × Option Key)
      → Imported rights parent r
      → Imported rights parent (if is_ok checked then r else (checked, none))
  checked-Imported checked r h good = elim (Bool-cases (is_ok checked)) [
    | inl fine ↦ rw fine (h (ground (arith, good, fine)))
    | inr bad ↦ absurd (ground (arith, good, bad))
  ]

  import_key-Imported :
      (env : Environment) (key_type : ℕ) (curve : Option ℕ) (bytes : List ℕ) (in_length : ℕ)
      → Imported rights parent (import_key env rights parent key_type curve bytes in_length)
  unfolding import_key
  import_key-Imported env key_type curve bytes in_length =
      checked-Imported _ _
        (create-Imported env.key_allocated env.copy_allocated key_type _ _ bytes in_length)

module _ (env : Environment) (w : Wrapped) (wrapping : Key) where
  -- A decryption in front of the import.
  decrypted-Imported :
      (s : Status) (r : Status × Option Key)
      → Imported w.rights wrapping.header.rights r
      → Imported w.rights wrapping.header.rights (
          if not env.bytes_allocated
          then (internal_error, none)
          else if not (is_ok s)
          then (s, none)
          else r)
  decrypted-Imported s r h =
      let rights = w.rights in
      let parent = wrapping.header.rights in
      guard-Imported rights parent (not env.bytes_allocated) internal_error
        (if not (is_ok s) then (s, none) else r) (λ e. refl) (status-Imported rights parent s r h)

  pub unwrap_blocks-Imported :
      (algorithm : ℕ) (padded : Bool)
      → Imported w.rights wrapping.header.rights (unwrap_blocks env w algorithm padded wrapping)
  unfolding unwrap_blocks
  unwrap_blocks-Imported algorithm padded =
      let d = env.decrypt algorithm wrapping w.input in
      let block =
        if ltb w.in_length aes_block_size
        then env.in_front
        else drop (w.in_length - aes_block_size) d.1 in
      let checked = check_pkcs7 true (some block) in
      let pad_value = if padded then pad_of env checked.1 else 0 in
      let in_length = (w.in_length + size_mod - pad_value) % size_mod in
      let parent = wrapping.header.rights in
      let imported = import_key env w.rights parent w.key_type w.curve d.1 in_length in
      decrypted-Imported d.0
        (if padded && not checked.0 then (invalid_key_format, none) else imported)
        (guard-Imported w.rights parent (padded && not checked.0) invalid_key_format imported
          (λ e. refl) (import_key-Imported w.rights parent env w.key_type w.curve d.1 in_length))

  pub unwrap_bytes-Imported :
      (algorithm : ℕ)
      → Imported w.rights wrapping.header.rights (unwrap_bytes env w algorithm wrapping)
  unfolding unwrap_bytes
  unwrap_bytes-Imported algorithm =
      let d = env.decrypt algorithm wrapping w.input in
      let parent = wrapping.header.rights in
      decrypted-Imported d.0 (import_key env w.rights parent w.key_type w.curve d.1 w.in_length)
        (import_key-Imported w.rights parent env w.key_type w.curve d.1 w.in_length)

  pub unwrap_rsa-Imported :
      (is_oaep : Bool) (p : Option OaepParameters)
      → Imported w.rights wrapping.header.rights (unwrap_rsa env w is_oaep p wrapping)
  unfolding unwrap_rsa
  unwrap_rsa-Imported is_oaep p =
      let d = env.decrypt_rsa is_oaep wrapping w.input in
      let parameters = if is_oaep then oaep_status env p else status_ok in
      let parent = wrapping.header.rights in
      let imported = import_key env w.rights parent KeyType.symmetric none d.1 (length d.1) in
      decrypted-Imported parameters (if not (is_ok d.0) then (d.0, none) else imported) (
        status-Imported w.rights parent d.0 imported
          (import_key-Imported w.rights parent env KeyType.symmetric none d.1 (length d.1)))

  pub unwrap_ec-Imported :
      (p : ElgamalParameters)
      → Imported w.rights wrapping.header.rights (unwrap_ec env w p wrapping)
  unfolding unwrap_ec
  unwrap_ec-Imported p =
      let d = env.decrypt_elgamal wrapping w.input in
      let parent = wrapping.header.rights in
      checked-Imported w.rights parent _
        (import_key env w.rights parent KeyType.symmetric none (drop p.offset d.1) p.key_length)
        (import_key-Imported w.rights parent env KeyType.symmetric none (drop p.offset d.1)
          p.key_length)
