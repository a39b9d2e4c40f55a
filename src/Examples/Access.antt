-- ===== src/Examples/Access.antt =====
-- The rights of a key that decrypts and signs, with the secure video path optional, for one trusted
-- application.
use tasecureapi.Prelude.{
  ℕ, zero, suc, ◌<◌, ◌≡◌, refl, ◌↔◌, true, false, some, [], ◌∷◌, arith, length, get_or, replicate,
  Uuid, IsUuid, pos, All,
}
use tasecureapi.Prelude.KeyType
use tasecureapi.Prelude.Bits.{test_bit}
use tasecureapi.Rights.Flag
use tasecureapi.Rights.{
  Rights, VideoOutputState, no_match, allowed_decrypt, allowed_encrypt, allowed_uuid, hmac_subtype,
  key_usage_to_usage_flags, convert_uuid,
}
use tasecureapi.Rights.Usage.{flags_after, usage_flags_table}
use tasecureapi.Rights.Allowed.{Has, InPeriod, OutputsIfSymmetric, allowed_cipher_iff}
use tasecureapi.Rights.Caller.{Admits, allowed_uuid_iff}
use tasecureapi.Rights.Parse.{uuid_text, text, dashed, convert_uuid-text, convert_uuid_short}

abbrev caller : Uuid
caller = replicate 16 1

abbrev rights : Rights
rights = record {
  id = b'k' ∷ [];
  usage_flags = 4144;
  child_usage_flags = 0;
  not_before = 100;
  not_on_or_after = 200;
  allowed_tas = caller ∷ replicate 31 no_match;
}

abbrev outputs : VideoOutputState
outputs = record {
  analog_unprotected_count = pos 0;
  analog_cgmsa_count = pos 0;
  digital_unprotected_count = pos 0;
  digital_hdcp14_count = pos 0;
  digital_hdcp22_count = pos 0;
  svp_enabled = false;
}

allowed_cipher_iff_example :
    ((allowed_decrypt (some rights) 150 (some outputs) KeyType.symmetric ≡ true) ↔ (
      Has rights Flag.decrypt
      × InPeriod rights 150
      × OutputsIfSymmetric rights (some outputs) KeyType.symmetric))
    × ((allowed_encrypt (some rights) 150 (some outputs) KeyType.symmetric ≡ true) ↔ (
        Has rights Flag.encrypt
        × InPeriod rights 150
        × OutputsIfSymmetric rights (some outputs) KeyType.symmetric))
allowed_cipher_iff_example = allowed_cipher_iff rights 150 (some outputs) KeyType.symmetric

list-IsUuid : (n : ℕ) (u : Uuid) (j : ℕ) → IsUuid u → j < n → IsUuid (get_or (replicate n u) j [])
list-IsUuid zero u j h lt = absurd (omega arith)
list-IsUuid (suc n) u zero h lt = h
list-IsUuid (suc n) u (suc j) h lt = list-IsUuid n u j h (omega arith)

entries-IsUuid : (j : ℕ) → j < 32 → IsUuid (get_or rights.allowed_tas j [])
entries-IsUuid zero h = refl
entries-IsUuid (suc j) h = list-IsUuid 31 no_match j refl (omega arith)

allowed_uuid_iff_example :
    (allowed_uuid (some rights) (some caller) ≡ true)
    ↔ ((j : ℕ) × (j < 32) × Admits rights.allowed_tas caller j)
allowed_uuid_iff_example = allowed_uuid_iff rights caller entries-IsUuid refl

usage_flags_table_example :
    test_bit
      (flags_after 4095
        (key_usage_to_usage_flags (some 4095) (pos 1) KeyType.symmetric hmac_subtype))
      4
    ≡ 0
usage_flags_table_example =
    usage_flags_table 4095 (pos 1) KeyType.symmetric hmac_subtype 4 (omega arith)

ones-bytes : (n : ℕ) → All (λ b. b < 256) (replicate n 1)
ones-bytes zero = tt
ones-bytes (suc n) = (omega arith, ones-bytes n)

convert_uuid-text_example :
    (length (uuid_text true caller) ≡ 36)
    × (convert_uuid (uuid_text true caller) 36 ≡ (true, caller))
convert_uuid-text_example = convert_uuid-text true caller refl (ones-bytes 16)

convert_uuid_short_example :
    (length (text false (dashed (replicate 12 1))) ≡ 36)
    × (convert_uuid (text false (dashed (replicate 12 1))) 36 ≡ (true, replicate 12 1))
convert_uuid_short_example = convert_uuid_short false (replicate 12 1) refl (ones-bytes 12)
