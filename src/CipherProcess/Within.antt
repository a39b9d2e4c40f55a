-- ===== src/CipherProcess/Within.antt =====
-- The whole of ta_sa_crypto_cipher_process writes only to its output.
use tasecureapi.Prelude.{
  ℕ, ◌+◌, ◌<◌, ◌≡◌, refl, inl, inr, Bool, true, false, ◌||◌, not, Option, none, some, arith, Status,
  Bool-cases,
}
use tasecureapi.Memory.{size_mod}
use tasecureapi.Svp.{Memory, is_ok}
use tasecureapi.Buffer.{Buffer, convert_buffer}
use tasecureapi.Cenc.Verify.{is_known}
use tasecureapi.CipherProcess.Types.{Cipher, Calls, Environment}
use tasecureapi.CipherProcess.Handlers.{process_algorithm}
use tasecureapi.CipherProcess.Command.{
  Variant, call_of, with_buffers, with_out, with_cipher, buffers_status, with_acquired, command,
  process_variant, process,
}
use tasecureapi.CipherProcess.Bounds.{
  ChangedWithin, start_of, size_of, converted_within, CallsFit, wider, overhang,
  process_algorithm_within,
}

module _ {C : Type 0} (calls : Calls C) (env : Environment) (cipher : Cipher C) (count : ℕ)
    (small : count < size_mod) (fit : CallsFit calls cipher count) (memory : Memory) where
  with_buffers_within :
      (out input : Buffer)
      → is_known out ≡ true
      → ChangedWithin
          (start_of env out)
          (size_of env out + overhang cipher)
          memory
          (with_buffers (process_variant calls env) env cipher memory count out input).memory
  unfolding with_buffers
  with_buffers_within out input known =
      let variant : Variant C = process_variant calls env in
      let required = variant.required cipher count false in
      let o = convert_buffer true true (some out) required true true env.acquire_svp in
      let i = convert_buffer true true (some input) count true true env.acquire_svp in
      let call = call_of variant env cipher memory count o.1 i.1 in
      elim (Bool-cases (is_ok o.0)) [
        | inr bad ↦ rw bad (λ a outside. refl)
        | inl good ↦ elim (Bool-cases (is_ok i.0)) [
          | inr bad ↦ rw (good, bad) (λ a outside. refl)
          | inl fine ↦
              let inside = converted_within env out required good known in
              rw (good, fine)
                (wider call.out (required + overhang cipher) (start_of env out)
                  (size_of env out + overhang cipher) memory
                  (process_algorithm calls env cipher call).memory inside.0
                  (ground (arith, inside.1))
                  (process_algorithm_within calls env cipher call fit small refl))
        ]
      ]

  with_out_within :
      (out input : Buffer)
      → ChangedWithin
          (start_of env out)
          (size_of env out + overhang cipher)
          memory
          (with_out (process_variant calls env) env cipher memory count out input).memory
  unfolding with_out
  with_out_within out input = elim (Bool-cases (not (is_known out) || not (is_known input))) [
    | inl unknown ↦ rw unknown (λ a outside. refl)
    | inr known ↦ elim (Bool-cases (is_ok (buffers_status cipher out input))) [
      | inr bad ↦ rw (known, bad) (λ a outside. refl)
      | inl good ↦ rw (known, good) (with_buffers_within out input (ground (arith, known)))
    ]
  ]

  -- Whatever status `ta_sa_crypto_cipher_process` returns for a cipher and an output that are given, it
  -- changes no byte outside of the buffer of the output, its clear memory or the memory of its SVP, except,
  -- when it takes PKCS7 padding off, the 16 bytes behind it, since the code asks only for the room of its
  -- input. The calls write what they document: an update in blocks writes whole blocks and less than
  -- one more than it is given, one that takes padding off at most one block more, one of a stream
  -- cipher at most what it is given; a decryption with RSA or ElGamal at most the room or the key.
  pub process_within :
      (caller_given : Bool) (input : Option Buffer) (out : Buffer) (client s : Status)
      → ChangedWithin
          (start_of env out)
          (size_of env out + overhang cipher)
          memory
          (process calls env caller_given
            (record { out = some out; input = input; count = some count })
            client
            (s, some cipher)
            memory).memory
  unfolding process command with_acquired with_cipher
  process_within false input out client s = λ a outside. refl
  process_within true none out client s = λ a outside. refl
  process_within true (some input) out client s = elim (Bool-cases (is_ok client)) [
    | inr bad ↦ rw bad (λ a outside. refl)
    | inl good ↦ elim (Bool-cases (is_ok s)) [
      | inr bad ↦ rw (good, bad) (λ a outside. refl)
      | inl fine ↦ rw (good, fine) (with_out_within out input)
    ]
  ]
