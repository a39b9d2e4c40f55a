-- ===== src/CipherProcess/Guards.antt =====
-- What is known behind the guards of a function.
use tasecureapi.Prelude.{
  ◌≡◌, refl, ◌⊎◌, inl, inr, Bool, true, false, List, [], ◌∷◌, arith, All, if◌then◌else◌, checks,
  Status, status_ok, Bool-cases,
}
use tasecureapi.Svp.{is_ok}
use tasecureapi.Svp.Bounds.{is_ok_lem}
use tasecureapi.CipherProcess.Types.{Cipher, Call, Handled, returned}

-- None of the statuses of the guards is good.
abbrev pub all_errors : List (Bool × Status) → Bool
all_errors [] = true
all_errors ((found, e) ∷ guards) = if is_ok e then false else all_errors guards

-- Guards that all give errors, passed with a good status: none of them found an error.
pub checks_passed :
    (guards : List (Bool × Status)) (s : Status)
    → all_errors guards ≡ true
    → checks guards s ≡ status_ok
    → All (λ g. g.0 ≡ false) guards × (s ≡ status_ok)
checks_passed [] s errors h = (tt, h)
checks_passed ((found, e) ∷ guards) s errors h = elim (Bool-cases (is_ok e)) [
  | inl good ↦ absurd (ground (arith, good))
  | inr error ↦ elim (Bool-cases found) [
    | inl bad ↦ absurd (ground (arith, error, bad))
    | inr good ↦
        let rest = checks_passed guards s (ground (arith, error)) (ground (arith, good)) in
        ((good, rest.0), rest.1)
  ]
]

-- A function that returns a good status has passed its guards.
pub handled_checked :
    {C : Type 0} (cipher : Cipher C) (call : Call) (checked : Status) (handled : Handled C)
    → (if is_ok checked then handled else returned cipher call checked).status ≡ status_ok
    → checked ≡ status_ok
handled_checked cipher call checked handled h = elim (Bool-cases (is_ok checked)) [
  | inl good ↦ is_ok_lem checked good
  | inr bad ↦ absurd (ground (arith, bad))
]

-- A choice that returns a good status comes from one of the two.
pub chosen :
    {C : Type 0} (b : Bool) (x y : Handled C)
    → (if b then x else y).status ≡ status_ok
    → ((b ≡ true) × (x.status ≡ status_ok)) ⊎ ((b ≡ false) × (y.status ≡ status_ok))
chosen true x y h = inl (refl, h)
chosen false x y h = inr (refl, h)
