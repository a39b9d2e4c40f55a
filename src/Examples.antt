-- ===== src/Examples.antt =====
-- Concrete inputs on which the functions are run and the theorems are applied.
mod Blocks
mod Stores
mod Access
mod Texts
mod Buffers
mod Keys
mod Samples
mod Ciphers
mod Processing
mod StoredKeys
mod Signing
mod Exchanges
mod Partial
