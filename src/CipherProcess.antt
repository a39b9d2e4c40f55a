-- ===== src/CipherProcess.antt =====
-- taimpl/src/ta_sa_crypto_cipher_process.c and taimpl/src/ta_sa_crypto_cipher_process_last.c: data goes
-- through a cipher of the store. What the stores hand out, the calls of EVP and the decryption with RSA
-- and ElGamal are arguments.
pub mod Types
pub mod Handlers
pub mod Last
pub mod Command
pub mod Guards
pub mod Releases
pub mod Allowed
pub mod Processed
pub mod Bounds
pub mod Within
