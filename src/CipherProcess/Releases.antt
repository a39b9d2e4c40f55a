-- ===== src/CipherProcess/Releases.antt =====
-- What a command still holds when it returns.
use tasecureapi.Prelude.{
  ℕ, ◌≡◌, refl, inl, inr, Bool, true, false, ◌&&◌, ◌||◌, not, Option, none, some, List, [], ◌∷◌,
  arith, ◌==◌, if◌then◌else◌, Status, Bool-cases, Option-cases,
}
use tasecureapi.Svp.{Memory, is_ok}
use tasecureapi.Buffer.{Buffer, convert_buffer}
use tasecureapi.Cenc.Verify.{is_known, is_some}
use tasecureapi.CipherProcess.Types.{Cipher, Environment}
use tasecureapi.CipherProcess.Command.{
  Resource, client_reference, cipher_lock, svp_lock, Event, acquired, released, Request, svp_of,
  acquired_svp, release_all, buffers_status, Variant, with_buffers, with_out, with_cipher,
  with_acquired, command,
}

abbrev same_resource : Resource → Resource → Bool
same_resource client_reference client_reference = true
same_resource cipher_lock cipher_lock = true
same_resource (svp_lock a) (svp_lock b) = a == b
same_resource _ _ = false

-- The resources that are held behind some events, the last that was acquired first. Only this one can
-- be released: none stands for a release of anything else.
unfoldable pub held_after : List Event → List Resource → Option (List Resource)
held_after [] held = some held
held_after (acquired r ∷ events) held = held_after events (r ∷ held)
held_after (released r ∷ events) [] = none
held_after (released r ∷ events) (h ∷ held) =
    let rest = held_after events held in if same_resource h r then rest else none

same_handle : (n : ℕ) → (n == n) ≡ true
same_handle n = ground arith

-- What the two conversions may have acquired is released.
brackets :
    (out_svp in_svp : Option ℕ)
    → held_after
        (acquired client_reference
          ∷ acquired cipher_lock
          ∷ acquired_svp out_svp (acquired_svp in_svp (release_all in_svp out_svp)))
        []
      ≡ some []
unfolding held_after
brackets none none = refl
brackets none (some i) = rw (same_handle i) refl
brackets (some o) none = rw (same_handle o) refl
brackets (some o) (some i) = rw (same_handle i, same_handle o) refl

-- The output is given, and one of the two buffers has a type that is not known.
abbrev pub unknown_type : Option Buffer → Option Buffer → Bool
unknown_type (some out) (some input) = not (is_known out) || not (is_known input)
unknown_type _ _ = false

-- The store has handed out a cipher with a good status.
abbrev pub hands_out : {C : Type 0} → Status × Option (Cipher C) → Bool
hands_out (s, none) = false
hands_out (s, some cipher) = is_ok s

no_type : (out : Option Buffer) → unknown_type out none ≡ false
no_type none = refl
no_type (some out) = refl

-- A command that gets to a buffer of an unknown type holds its cipher and its client.
abbrev pub left_held : Bool → List Resource
left_held leaks = if leaks then cipher_lock ∷ client_reference ∷ [] else []

none_left :
    {C : Type 0} (client : Bool) (found : Status × Option (Cipher C))
    → held_after [] [] ≡ some (left_held (client && hands_out found && false))
unfolding held_after
none_left false found = refl
none_left true (s, none) = refl
none_left true (s, some cipher) = elim (Bool-cases (is_ok s)) [
  | inl e ↦ rw e refl
  | inr e ↦ rw e refl
]

module _ {C : Type 0} (variant : Variant C) (env : Environment) where
  with_buffers-events :
      (cipher : Cipher C) (memory : Memory) (count : ℕ) (out input : Buffer)
      → held_after (with_buffers variant env cipher memory count out input).events [] ≡ some []
  unfolding with_buffers
  with_buffers-events cipher memory count out input =
      let out_status =
        (convert_buffer true true (some out) (variant.required cipher count false) true true
          env.acquire_svp).0 in
      let in_status = (convert_buffer true true (some input) count true true env.acquire_svp).0 in
      let both = brackets (svp_of env out) (svp_of env input) in
      elim (Bool-cases (is_ok out_status)) [
        | inr bad ↦ rw bad (brackets (svp_of env out) none)
        | inl good ↦ elim (Bool-cases (is_ok in_status)) [
          | inr bad ↦ rw (good, bad) both
          | inl fine ↦ rw (good, fine) both
        ]
      ]

  with_out-events :
      (cipher : Cipher C) (memory : Memory) (count : ℕ) (out input : Buffer)
      → held_after (with_out variant env cipher memory count out input).events []
        ≡ some (left_held (not (is_known out) || not (is_known input)))
  unfolding with_out held_after
  with_out-events cipher memory count out input =
      elim (Bool-cases (not (is_known out) || not (is_known input))) [
        | inl unknown ↦ rw unknown refl
        | inr known ↦ elim (Bool-cases (is_ok (buffers_status cipher out input))) [
          | inr bad ↦ rw (known, bad) refl
          | inl good ↦ rw (known, good) (with_buffers-events cipher memory count out input)
        ]
      ]

  with_cipher-events :
      (cipher : Cipher C) (memory : Memory) (count : ℕ) (out : Option Buffer) (input : Buffer)
      → held_after (with_cipher variant env cipher memory count out input).events []
        ≡ some (left_held (unknown_type out (some input)))
  unfolding with_cipher held_after
  with_cipher-events cipher memory count none input = refl
  with_cipher-events cipher memory count (some out) input =
      with_out-events cipher memory count out input

  with_acquired-events :
      (found : Status × Option (Cipher C)) (memory : Memory) (count : ℕ) (out : Option Buffer)
      (input : Buffer)
      → held_after (with_acquired variant env found memory count out input).events []
        ≡ some (left_held (hands_out found && unknown_type out (some input)))
  unfolding with_acquired held_after
  with_acquired-events (s, none) memory count out input = refl
  with_acquired-events (s, some cipher) memory count out input = elim (Bool-cases (is_ok s)) [
    | inl good ↦ rw good (with_cipher-events cipher memory count out input)
    | inr bad ↦ rw bad refl
  ]

  -- What a command acquires it releases, the last first and nothing else. Only if it gets its client
  -- and its cipher and one of its two buffers, both given, has an unknown type, it returns with the
  -- cipher locked and the client referenced.
  pub command-released :
      (caller_given : Bool) (request : Request) (client : Status)
      (found : Status × Option (Cipher C)) (memory : Memory)
      → held_after (command variant env caller_given request client found memory).events []
        ≡ some (
            left_held (
              caller_given
              && is_some request.count
              && is_ok client
              && hands_out found
              && unknown_type request.out request.input))
  unfolding command held_after
  command-released false request client found memory = refl
  command-released true request client found memory = elim (Option-cases request.count) [
    | inl missing ↦ rw missing refl
    | inr (count, given) ↦ elim (Option-cases request.input) [
      | inl missing ↦ rw (given, missing, no_type request.out) (none_left (is_ok client) found)
      | inr (input, present) ↦ elim (Bool-cases (is_ok client)) [
        | inr bad ↦ rw (given, present, bad) refl
        | inl good ↦
            rw (given, present, good) (with_acquired-events found memory count request.out input)
      ]
    ]
  ]
