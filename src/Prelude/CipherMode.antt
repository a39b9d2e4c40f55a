-- ===== src/Prelude/CipherMode.antt =====
-- `sa_cipher_mode` of client/include/sa_types.h, as the number that it is.
use Prim.Native.Nat.{ℕ}

abbrev pub decrypt_mode : ℕ
decrypt_mode = 0

abbrev pub encrypt_mode : ℕ
encrypt_mode = 1
