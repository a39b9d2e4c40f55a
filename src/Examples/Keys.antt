-- ===== src/Examples/Keys.antt =====
-- Keys of several types and sizes.
use tasecureapi.Prelude.{◌≡◌, refl, true, false}
use tasecureapi.Prelude.KeyType
use tasecureapi.KeySize.{supports_chacha20}

chacha20-size :
    (supports_chacha20 KeyType.symmetric 32 ≡ true)
    × (supports_chacha20 KeyType.symmetric 16 ≡ false)
unfolding supports_chacha20
chacha20-size = (refl, refl)
