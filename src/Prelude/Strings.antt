-- ===== src/Prelude/Strings.antt =====
-- The string functions of the C library that the program calls. A string is the list of the bytes at
-- its address; behind them stands the byte 0 that ends it.
use Prim.Native.Nat.{ℕ, zero, suc}
use mathlib.Core.Bool.{Bool, true, false}
use mathlib.Core.List.{List, [], ◌∷◌}
use tasecureapi.Prelude.Tests.{◌==◌, if◌then◌else◌}

-- `strnlen`
unfoldable pub strnlen : List ℕ → ℕ → ℕ
strnlen s zero = 0
strnlen [] (suc n) = 0
strnlen (c ∷ s) (suc n) = let rest = strnlen s n in if c == 0 then 0 else suc rest

-- `strncmp(s, t, n) == 0`
unfoldable pub strncmp_same : List ℕ → List ℕ → ℕ → Bool
strncmp_same s t zero = true
strncmp_same [] [] (suc n) = true
strncmp_same [] (d ∷ t) (suc n) = d == 0
strncmp_same (c ∷ s) [] (suc n) = c == 0
strncmp_same (c ∷ s) (d ∷ t) (suc n) =
    let rest = strncmp_same s t n in if c == d then (if c == 0 then true else rest) else false
