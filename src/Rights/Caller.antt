-- ===== src/Rights/Caller.antt =====
-- Which trusted applications may use a key.
use native.Mathlib.Decide.{dec_lt}
use tasecureapi.Prelude.{
  ℕ, zero, suc, ◌+◌, ◌≤◌, ◌<◌, ◌≡◌, refl, subst, ◌↔◌, ◌⊎◌, inl, inr, ◌≢◌, true, false, some, List,
  [], arith, Bool-cases, get_or, Uuid, IsUuid,
}
use tasecureapi.Memory.Compare.{memcmp_constant_iff}
use tasecureapi.Rights.{Rights, no_match, all_match, same, allowed_uuid_from, allowed_uuid}

pub same_iff : (a b : Uuid) → IsUuid a → IsUuid b → (same a b ≡ true) ↔ (a ≡ b)
same_iff a b ha hb =
    let e = memcmp_constant_iff a b 16 ha hb in
    (λ h. e.0 (ground arith), λ h. ground (arith, e.1 h))

-- Entry `i` lets the caller in: it is not the entry that matches nobody, and it is the one that
-- matches everybody or the caller's own.
abbrev pub Admits : List Uuid → Uuid → ℕ → Type 0
Admits tas caller i =
    (get_or tas i [] ≢ no_match) × ((get_or tas i [] ≡ all_match) ⊎ (get_or tas i [] ≡ caller))

Found : ℕ → ℕ → List Uuid → Uuid → Type 0
Found n i tas caller = (j : ℕ) × (i ≤ j) × (j < i + n) × Admits tas caller j

later :
    (n i : ℕ) (tas : List Uuid) (caller : Uuid)
    → Found n (suc i) tas caller
    → Found (suc n) i tas caller
unfolding Found
later n i tas caller (j, above, below, admits) = (j, omega arith, omega arith, admits)

module _ (tas : List Uuid) (caller : Uuid) (ids : (j : ℕ) → j < 32 → IsUuid (get_or tas j []))
    (hc : IsUuid caller) where
  scan-Found :
      (n i : ℕ) → i + n ≤ 32 → allowed_uuid_from n i tas caller ≡ true → Found n i tas caller
  unfolding allowed_uuid_from Found
  scan-Found zero i small h = cc
  scan-Found (suc n) i small h =
      let entry = get_or tas i [] in
      let he = ids i (omega arith) in
      let rest = λ (e : allowed_uuid_from n (suc i) tas caller ≡ true).
        later n i tas caller (scan-Found n (suc i) (omega arith) e) in
      let keeps : same entry no_match ≡ false → entry ≢ no_match =
        λ e f. cc ((same_iff entry no_match he refl).1 f) in
      elim (Bool-cases (same entry no_match)) [
        | inl skip ↦ rest (ground arith)
        | inr keep ↦ elim (Bool-cases (same entry all_match)) [
          | inl everybody ↦ (
            i,
            omega arith,
            omega arith,
            ((λ f. keeps keep f), inl ((same_iff entry all_match he refl).0 everybody)),
          )
          | inr some_only ↦ elim (Bool-cases (same entry caller)) [
            | inl mine ↦ (
              i,
              omega arith,
              omega arith,
              ((λ f. keeps keep f), inr ((same_iff entry caller he hc).0 mine)),
            )
            | inr other ↦ rest (ground arith)
          ]
        ]
      ]

  scan_complete :
      (n i j : ℕ)
      → i + n ≤ 32
      → i ≤ j
      → j < i + n
      → Admits tas caller j
      → allowed_uuid_from n i tas caller ≡ true
  unfolding allowed_uuid_from
  scan_complete zero i j small above below admits = absurd (omega arith)
  scan_complete (suc n) i j small above below admits = elim (dec_lt i j) [
    | yes lt ↦ ground (arith, scan_complete n (suc i) j (omega arith) lt (omega arith) admits)
    | no here ↦
        let e : j ≡ i = omega arith in
        let entry = get_or tas i [] in
        let he = ids i (omega arith) in
        let a : Admits tas caller i = subst (Admits tas caller) e admits in
        ground (
          arith,
          a.0,
          a.1,
          same_iff entry no_match he refl,
          same_iff entry all_match he refl,
          same_iff entry caller he hc,
        )
  ]

-- A caller may use a key exactly when one of the 32 entries admits it.
pub allowed_uuid_iff :
    (r : Rights) (caller : Uuid)
    → ((j : ℕ) → j < 32 → IsUuid (get_or r.allowed_tas j []))
    → IsUuid caller
    → (allowed_uuid (some r) (some caller) ≡ true)
      ↔ ((j : ℕ) × (j < 32) × Admits r.allowed_tas caller j)
unfolding allowed_uuid Found
allowed_uuid_iff r caller ids hc = (
  λ h. let f = scan-Found r.allowed_tas caller ids hc 32 0 (omega arith) h in (f.0, f.2, f.3),
  λ h. scan_complete r.allowed_tas caller ids hc 32 0 h.0 (omega arith) (omega arith) h.1 h.2,
)
