-- ===== src/KeySize.antt =====
-- taimpl/src/internal/key_type.c: which sizes the keys of each type have, with the sizes of the
-- curves from taimpl/src/internal/ec.c. A curve is a number, since the program takes any byte for one.
pub mod Curve
pub mod Sizes
use tasecureapi.Prelude.{ℕ, Bool, true, false, ◌&&◌, ◌||◌, ltb, leb, ◌==◌, if◌then◌else◌}
use tasecureapi.Prelude.KeyType
use Curve

unfoldable pub valid_aes_size : ℕ → Bool
valid_aes_size size = size == 16 || size == 32

unfoldable pub valid_hmac_size : ℕ → Bool
valid_hmac_size size = leb 16 size && leb size 512

unfoldable pub valid_rsa_size : ℕ → Bool
valid_rsa_size size = size == 128 || size == 256 || size == 384 || size == 512

-- `ec_key_size_from_curve`
unfoldable pub ec_key_size_from_curve : ℕ → ℕ
ec_key_size_from_curve curve =
    if curve == Curve.nist_p192
    then 24
    else if curve == Curve.nist_p224
    then 28
    else if curve == Curve.nist_p256
    then 32
    else if curve == Curve.nist_p384
    then 48
    else if curve == Curve.nist_p521
    then 66
    else if curve == Curve.ed25519
    then 32
    else if curve == Curve.x25519
    then 32
    else if curve == Curve.ed448
    then 57
    else if curve == Curve.x448
    then 56
    else 0

unfoldable pub valid_ec_size : ℕ → ℕ → Bool
unfolding ec_key_size_from_curve
valid_ec_size curve size =
    (curve == Curve.nist_p192 && size == ec_key_size_from_curve Curve.nist_p192)
    || (curve == Curve.nist_p224 && size == ec_key_size_from_curve Curve.nist_p224)
    || (curve == Curve.nist_p256 && size == ec_key_size_from_curve Curve.nist_p256)
    || (curve == Curve.nist_p384 && size == ec_key_size_from_curve Curve.nist_p384)
    || (curve == Curve.nist_p521 && size == ec_key_size_from_curve Curve.nist_p521)
    || (curve == Curve.ed25519 && size == ec_key_size_from_curve Curve.ed25519)
    || (curve == Curve.x25519 && size == ec_key_size_from_curve Curve.x25519)
    || (curve == Curve.ed448 && size == ec_key_size_from_curve Curve.ed448)
    || (curve == Curve.x448 && size == ec_key_size_from_curve Curve.x448)

unfoldable pub valid_dh_size : ℕ → Bool
valid_dh_size size = leb size 512 && ltb 0 size

-- The functions `key_type_supports_*`
unfoldable pub supports_aes : ℕ → ℕ → Bool
unfolding valid_aes_size
supports_aes key_type size = key_type == KeyType.symmetric && valid_aes_size size

unfoldable pub supports_hmac : ℕ → ℕ → Bool
unfolding valid_hmac_size
supports_hmac key_type size = key_type == KeyType.symmetric && valid_hmac_size size

unfoldable pub supports_rsa : ℕ → ℕ → Bool
unfolding valid_rsa_size
supports_rsa key_type size = key_type == KeyType.rsa && valid_rsa_size size

unfoldable pub supports_ec : ℕ → ℕ → ℕ → Bool
unfolding valid_ec_size
supports_ec key_type curve size = key_type == KeyType.ec && valid_ec_size curve size

unfoldable pub supports_dh : ℕ → ℕ → Bool
unfolding valid_dh_size
supports_dh key_type size = key_type == KeyType.dh && valid_dh_size size

unfoldable pub supports_any : ℕ → ℕ → ℕ → Bool
unfolding supports_aes supports_hmac supports_rsa supports_ec supports_dh
supports_any key_type ec_curve size =
    supports_aes key_type size
    || supports_hmac key_type size
    || supports_rsa key_type size
    || supports_ec key_type ec_curve size
    || supports_dh key_type size

unfoldable pub supports_chacha20 : ℕ → ℕ → Bool
supports_chacha20 key_type size = key_type == KeyType.symmetric && size == 32
