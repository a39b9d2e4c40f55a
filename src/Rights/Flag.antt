-- ===== src/Rights/Flag.antt =====
-- `sa_usage_flag` of client/include/sa_types.h, the numbers of the bits.
use tasecureapi.Prelude.{ℕ}

abbrev pub key_exchange : ℕ
key_exchange = 0

abbrev pub derive : ℕ
derive = 1

abbrev pub unwrap : ℕ
unwrap = 2

abbrev pub encrypt : ℕ
encrypt = 3

abbrev pub decrypt : ℕ
decrypt = 4

abbrev pub sign : ℕ
sign = 5

abbrev pub analog_unprotected : ℕ
analog_unprotected = 6

abbrev pub analog_cgmsa : ℕ
analog_cgmsa = 7

abbrev pub digital_unprotected : ℕ
digital_unprotected = 8

abbrev pub digital_hdcp14 : ℕ
digital_hdcp14 = 9

abbrev pub digital_hdcp22 : ℕ
digital_hdcp22 = 10

abbrev pub svp_optional : ℕ
svp_optional = 12
