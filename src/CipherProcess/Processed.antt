-- ===== src/CipherProcess/Processed.antt =====
-- What ta_sa_crypto_cipher_process and ta_sa_crypto_cipher_process_last have checked when they have
-- processed data.
use tasecureapi.Prelude.{
  ℕ, ◌≡◌, refl, sym, subst, ◌⊎◌, inl, inr, Bool, true, false, ◌||◌, not, Option, none, some, arith,
  ◌==◌, Status, status_ok, Bool-cases, Option-cases,
}
use tasecureapi.Rights.{Rights, allowed_clear}
use tasecureapi.Rights.Flag
use tasecureapi.Rights.Allowed.{Has}
use tasecureapi.Svp.{Memory, SvpBuffer, is_ok}
use tasecureapi.Svp.Bounds.{is_ok_lem}
use tasecureapi.Buffer.{Buffer, clear_buffer, svp_buffer, other_buffer, convert_buffer}
use tasecureapi.Cenc.Verify.{is_known, is_clear, bytes_of}
use tasecureapi.Cenc.Verify.Accepted.{clear_iff}
use tasecureapi.CipherProcess.Types.{Cipher, Calls, Environment, Call}
use tasecureapi.CipherProcess.Last.{EndParameters}
use tasecureapi.CipherProcess.Command.{
  Request, without_svp, buffers_status, Variant, call_of, with_buffers, with_out, with_cipher,
  with_acquired, command, process_variant, last_variant, process, process_last,
}
use tasecureapi.CipherProcess.Allowed.{
  Permitted, process_algorithm-Permitted, last_algorithm-Permitted,
}

-- The address that a conversion gives is not NULL.
converted_address :
    (b : Buffer) (n : ℕ) (acquire : ℕ → Status × Option SvpBuffer)
    → is_known b ≡ true
    → (let c = convert_buffer true true (some b) n true true acquire in
        is_ok c.0 ≡ true → (bytes_of c.1 == 0) ≡ false)
unfolding convert_buffer
converted_address (clear_buffer address count offset) n acquire known h = ground arith
converted_address (svp_buffer handle offset) n acquire known h = ground arith
converted_address other_buffer n acquire known h = absurd (ground arith)

-- The cipher that the store has handed out may process these two buffers in its mode: its key allows
-- the mode, clear output has a key that may leave the secure video path and clear input, and some
-- algorithms have two clear buffers.
pub record Processed {C : Type 0} (env : Environment) (found : Status × Option (Cipher C))
    (out input : Buffer) : Type 0 where
  pub cipher : Cipher C
  pub handed_out : found ≡ (status_ok, some cipher)
  pub rights : Rights
  pub permitted : Permitted env cipher rights
  pub known : (is_known out ≡ true) × (is_known input ≡ true)
  pub protected_out :
      (is_clear out ≡ false) ⊎ (Has rights Flag.svp_optional × (is_clear input ≡ true))
  pub clear_only :
      without_svp cipher.algorithm ≡ true → (is_clear out ≡ true) × (is_clear input ≡ true)

buffers_status_ok :
    {C : Type 0} (cipher : Cipher C) (rights : Rights) (out input : Buffer)
    → cipher.rights ≡ some rights
    → buffers_status cipher out input ≡ status_ok
    → ((is_clear out ≡ false) ⊎ (Has rights Flag.svp_optional × (is_clear input ≡ true)))
      × (without_svp cipher.algorithm ≡ true → (is_clear out ≡ true) × (is_clear input ≡ true))
buffers_status_ok cipher rights out input given h =
    let clear = clear_iff rights in
    let clear_checked : is_clear out ≡ true → allowed_clear (some rights) ≡ true =
      λ c. ground (arith, given, h, c) in
    (
      elim (Bool-cases (is_clear out)) [
        | inl c ↦ inr ((clear.0) (clear_checked c), ground (arith, h, c))
        | inr protected ↦ inl protected
      ],
      λ e. (ground (arith, h, e), ground (arith, h, e)),
    )

module _ {C : Type 0} (variant : Variant C) (env : Environment)
    (permits : (cipher : Cipher C) (call : Call)
      → (call.out == 0) ≡ false
      → (variant.handle cipher call).status ≡ status_ok
      → (rights : Rights) × Permitted env cipher rights)
    (refuses : (s : Status) → is_ok s ≡ false → is_ok (variant.refused s) ≡ false) where
  with_buffers-Permitted :
      (cipher : Cipher C) (memory : Memory) (count : ℕ) (out input : Buffer)
      → is_known out ≡ true
      → (with_buffers variant env cipher memory count out input).status ≡ status_ok
      → (rights : Rights) × Permitted env cipher rights
  unfolding with_buffers
  with_buffers-Permitted cipher memory count out input known h =
      let o =
        convert_buffer true true (some out) (variant.required cipher count false) true true
          env.acquire_svp in
      let i = convert_buffer true true (some input) count true true env.acquire_svp in
      elim (Bool-cases (is_ok o.0)) [
        | inr bad ↦ absurd (ground (arith, bad, h))
        | inl good ↦ elim (Bool-cases (is_ok i.0)) [
          | inr bad ↦ absurd (ground (arith, bad, good, h))
          | inl fine ↦
              permits cipher (call_of variant env cipher memory count o.1 i.1)
                (converted_address out (variant.required cipher count false) env.acquire_svp known
                  good)
                (ground (arith, good, fine, h))
        ]
      ]

  with_out-Processed :
      (cipher : Cipher C) (memory : Memory) (count : ℕ) (out input : Buffer)
      → (with_out variant env cipher memory count out input).status ≡ status_ok
      → Processed env (status_ok, some cipher) out input
  unfolding with_out
  with_out-Processed cipher memory count out input h =
      elim (Bool-cases (not (is_known out) || not (is_known input))) [
        | inl unknown ↦ absurd (ground (arith, unknown, h))
        | inr known ↦
            let status = buffers_status cipher out input in
            let passed : status ≡ status_ok = elim (Bool-cases (is_ok status)) [
              | inl good ↦ is_ok_lem status good
              | inr bad ↦ absurd (ground (arith, known, bad, h))
            ] in
            let p =
              with_buffers-Permitted cipher memory count out input (ground (arith, known))
                (ground (arith, known, passed, h)) in
            let buffers = buffers_status_ok cipher p.0 out input p.1.has_rights passed in
            record {
              cipher = cipher;
              handed_out = refl;
              rights = p.0;
              permitted = p.1;
              known = (ground (arith, known), ground (arith, known));
              protected_out = buffers.0;
              clear_only = buffers.1;
            }
      ]

  with_acquired-Processed :
      (found : Status × Option (Cipher C)) (memory : Memory) (count : ℕ) (out input : Buffer)
      → (with_acquired variant env found memory count (some out) input).status ≡ status_ok
      → Processed env found out input
  unfolding with_acquired with_cipher
  with_acquired-Processed (s, none) memory count out input h = absurd (elim (Bool-cases (is_ok s)) [
    | inl good ↦ ground (arith, h, good)
    | inr bad ↦ let r = refuses s bad in ground (arith, h, bad, r)
  ])
  with_acquired-Processed (s, some cipher) memory count out input h = elim (Bool-cases (is_ok s)) [
    | inl good ↦
        subst (λ s. Processed env (s, some cipher) out input) (sym (is_ok_lem s good))
          (with_out-Processed cipher memory count out input (ground (arith, good, h)))
    | inr bad ↦ let r = refuses s bad in absurd (ground (arith, h, bad, r))
  ]

  given-Processed :
      (caller_given : Bool) (request : Request) (client : Status)
      (found : Status × Option (Cipher C)) (memory : Memory) (out input : Buffer)
      → request.out ≡ some out
      → request.input ≡ some input
      → (command variant env caller_given request client found memory).status ≡ status_ok
      → Processed env found out input
  unfolding command
  given-Processed caller_given request client found memory out input to from h =
      elim (Option-cases request.count) [
        | inl missing ↦ absurd (ground (arith, missing, h))
        | inr (count, given) ↦
            with_acquired-Processed found memory count out input
              (ground (arith, given, to, from, h))
      ]

  -- A good status has an input.
  pub command-Processed :
      (caller_given : Bool) (request : Request) (client : Status)
      (found : Status × Option (Cipher C)) (memory : Memory) (out : Buffer)
      → request.out ≡ some out
      → (command variant env caller_given request client found memory).status ≡ status_ok
      → (input : Buffer) × (request.input ≡ some input) × Processed env found out input
  unfolding command
  command-Processed caller_given request client found memory out to h =
      elim (Option-cases request.input) [
        | inl missing ↦ elim (Option-cases request.count) [
          | inl no_count ↦ absurd (ground (arith, missing, no_count, h))
          | inr (count, given) ↦ absurd (ground (arith, missing, given, h))
        ]
        | inr (input, from) ↦ (
          input,
          from,
          given-Processed caller_given request client found memory out input to from h,
        )
      ]

module _ {C : Type 0} (calls : Calls C) (env : Environment) (caller_given : Bool)
    (request : Request) (client : Status) (found : Status × Option (Cipher C)) (memory : Memory)
    (out : Buffer) (to : request.out ≡ some out) where
  -- If `ta_sa_crypto_cipher_process` with an output returns a good status, the store has handed out a
  -- cipher whose key allows its mode now, and with the outputs in use for a symmetric cipher; both
  -- buffers have a known type; a clear output has a key that may leave the secure video path and a
  -- clear input; and with AES-GCM, ChaCha20-Poly1305, RSA and ElGamal both buffers are clear.
  pub process_allowed :
      (process calls env caller_given request client found memory).status ≡ status_ok
      → (input : Buffer) × (request.input ≡ some input) × Processed env found out input
  unfolding process
  process_allowed =
      command-Processed (process_variant calls env) env
        (λ cipher call given. process_algorithm-Permitted env cipher calls call) (λ s bad. refl)
        caller_given request client found memory out to

  -- If `ta_sa_crypto_cipher_process_last` with an output and any end parameters returns a good status,
  -- the store has handed out a cipher whose key allows its mode now, and with the outputs in use for a
  -- symmetric cipher; both buffers have a known type; a clear output has a key that may leave the secure
  -- video path and a clear input; and with AES-GCM and ChaCha20-Poly1305 both buffers are clear.
  pub process_last_allowed :
      (p : Option EndParameters)
      → (process_last calls env p caller_given request client found memory).status ≡ status_ok
      → (input : Buffer) × (request.input ≡ some input) × Processed env found out input
  unfolding process_last
  process_last_allowed p =
      command-Processed (last_variant calls env p) env
        (λ cipher call. last_algorithm-Permitted env cipher calls p call) (λ s bad. bad)
        caller_given request client found memory out to
