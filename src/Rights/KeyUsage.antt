-- ===== src/Rights/KeyUsage.antt =====
-- `key_usage` of taimpl/include/internal/rights.h.
use tasecureapi.Prelude.{ℕ}

abbrev pub typej_data_and_key : ℕ
typej_data_and_key = 0

abbrev pub data_only : ℕ
data_only = 1

abbrev pub key_only : ℕ
key_only = 2

abbrev pub soc_data_and_key : ℕ
soc_data_and_key = 3
