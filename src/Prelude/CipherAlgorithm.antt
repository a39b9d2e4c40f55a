-- ===== src/Prelude/CipherAlgorithm.antt =====
-- `sa_cipher_algorithm` of client/include/sa_types.h, as the number that it is.
use Prim.Native.Nat.{ℕ}

abbrev pub aes_ecb : ℕ
aes_ecb = 0

abbrev pub aes_ecb_pkcs7 : ℕ
aes_ecb_pkcs7 = 1

abbrev pub aes_cbc : ℕ
aes_cbc = 2

abbrev pub aes_cbc_pkcs7 : ℕ
aes_cbc_pkcs7 = 3

abbrev pub aes_ctr : ℕ
aes_ctr = 4

abbrev pub aes_gcm : ℕ
aes_gcm = 5

abbrev pub rsa_pkcs1v15 : ℕ
rsa_pkcs1v15 = 6

abbrev pub rsa_oaep : ℕ
rsa_oaep = 7

abbrev pub ec_elgamal : ℕ
ec_elgamal = 8

abbrev pub chacha20 : ℕ
chacha20 = 9

abbrev pub chacha20_poly1305 : ℕ
chacha20_poly1305 = 10
