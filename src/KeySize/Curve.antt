-- ===== src/KeySize/Curve.antt =====
-- `sa_elliptic_curve` of client/include/sa_types.h.
use tasecureapi.Prelude.{ℕ}

abbrev pub nist_p256 : ℕ
nist_p256 = 0

abbrev pub nist_p384 : ℕ
nist_p384 = 1

abbrev pub nist_p521 : ℕ
nist_p521 = 2

abbrev pub ed25519 : ℕ
ed25519 = 3

abbrev pub x25519 : ℕ
x25519 = 4

abbrev pub ed448 : ℕ
ed448 = 5

abbrev pub x448 : ℕ
x448 = 6

abbrev pub nist_p192 : ℕ
nist_p192 = 7

abbrev pub nist_p224 : ℕ
nist_p224 = 8
