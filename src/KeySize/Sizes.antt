-- ===== src/KeySize/Sizes.antt =====
-- The sizes that a key of each type may have.
use tasecureapi.Prelude.{ℕ, ◌≤◌, ◌<◌, ◌≡◌, ◌↔◌, ◌⊎◌, true, arith}
use tasecureapi.Prelude.KeyType
use tasecureapi.KeySize.{ec_key_size_from_curve, valid_ec_size, supports_any}

-- The sizes of the nine curves.
valid_ec_size_iff :
    (curve size : ℕ)
    → (valid_ec_size curve size ≡ true) ↔ ((curve < 9) × (size ≡ ec_key_size_from_curve curve))
unfolding valid_ec_size ec_key_size_from_curve
valid_ec_size_iff curve size = (λ h. ground arith, λ h. ground arith)

-- A size that some key of the type has: a symmetric key is one for AES, ChaCha20 or HMAC.
abbrev pub SomeKey : ℕ → ℕ → ℕ → Type 0
SomeKey key_type curve size =
    ((key_type ≡ KeyType.symmetric) × (16 ≤ size) × (size ≤ 512))
    ⊎ ((key_type ≡ KeyType.rsa) × ((size ≡ 128) ⊎ (size ≡ 256) ⊎ (size ≡ 384) ⊎ (size ≡ 512)))
    ⊎ ((key_type ≡ KeyType.ec) × (curve < 9) × (size ≡ ec_key_size_from_curve curve))
    ⊎ ((key_type ≡ KeyType.dh) × (0 < size) × (size ≤ 512))

-- A key is supported exactly when its type has a key of its size: 16 to 512 bytes for a symmetric
-- key, the size of one of the nine curves for an elliptic curve key, 128, 256, 384 or 512 bytes for
-- an RSA key, and 1 to 512 bytes for a Diffie-Hellman key.
pub supports_any_iff :
    (key_type curve size : ℕ)
    → (supports_any key_type curve size ≡ true) ↔ SomeKey key_type curve size
unfolding supports_any
supports_any_iff key_type curve size =
    let c = valid_ec_size_iff curve size in (λ h. ground (arith, c), λ h. ground (arith, c))
