-- ===== src/Prelude/Types.antt =====
-- Data of client/include/sa_types.h.
use Prim.Native.Nat.{ℕ}
use mathlib.Core.Bool.{Bool, false}
use mathlib.Core.List.{List}
use mathlib.Core.Path.{◌≡◌}
use tasecureapi.Prelude.Tests.{ltb}
use tasecureapi.Prelude.Lists.{length}

-- `sa_status`
pub data Status : Type 0 where
  status_ok : Status
  no_available_resource_slot : Status
  invalid_key_format : Status
  invalid_key_type : Status
  null_parameter : Status
  invalid_parameter : Status
  operation_not_allowed : Status
  invalid_svp_buffer : Status
  operation_not_supported : Status
  self_test : Status
  verification_failed : Status
  internal_error : Status
  hw_error : Status

-- `sa_uuid`: 16 bytes.
abbrev pub Uuid : Type 0
Uuid = List ℕ

abbrev pub IsUuid : Uuid → Type 0
IsUuid u = length u ≡ 16

-- A signed integer: `negsuc n` is -(n + 1).
pub data ℤ : Type 0 where
  pos : ℕ → ℤ
  negsuc : ℕ → ℤ

abbrev pub is_positive : ℤ → Bool
is_positive (pos n) = ltb 0 n
is_positive (negsuc n) = false
