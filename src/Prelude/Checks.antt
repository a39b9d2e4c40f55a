-- ===== src/Prelude/Checks.antt =====
-- The guards at the start of a function: the first that finds an error gives the status.
use mathlib.Core.Bool.{Bool}
use mathlib.Core.List.{List, [], ◌∷◌}
use tasecureapi.Prelude.Tests.{if◌then◌else◌}
use tasecureapi.Prelude.Types.{Status}

abbrev pub checks : List (Bool × Status) → Status → Status
checks [] s = s
checks ((found, error) ∷ rest) s = let later = checks rest s in if found then error else later
