-- ===== src/Prelude/KeyType.antt =====
-- `sa_key_type` of client/include/sa_types.h, as the number that it is.
use Prim.Native.Nat.{ℕ}

abbrev pub symmetric : ℕ
symmetric = 0

abbrev pub ec : ℕ
ec = 1

abbrev pub rsa : ℕ
rsa = 2

abbrev pub dh : ℕ
dh = 3
