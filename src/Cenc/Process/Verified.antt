-- ===== src/Cenc/Process/Verified.antt =====
-- The samples that verify_sample accepts, processed.
use tasecureapi.Prelude.{
  ℕ, ◌+◌, ◌-◌, ◌^◌, ◌<◌, ◌≡◌, refl, ap, ◌∙◌, true, false, some, arith, All, ltb, ◌==◌, status_ok,
}
use tasecureapi.Prelude.CipherAlgorithm
use tasecureapi.Prelude.CipherMode
use tasecureapi.Svp.{Memory}
use tasecureapi.Symmetric.{EvpCalls, SymmetricContext}
use tasecureapi.Cenc.{Progress, required_length, cenc_overflow, process}
use tasecureapi.Cenc.Counter.{Evp, evp, counter_byte}
use tasecureapi.Cenc.Layout.{total, Aligned, layout, process-layout}
use tasecureapi.Cenc.Verify.{Request, Environment, verify_sample}
use tasecureapi.Cenc.Verify.Accepted.{Accepted, verify_sample-Accepted}
use tasecureapi.Cenc.Process.{
  Outcome, Protection, sample_of, moved, written_at, finish, finish_some, with_bytes, with_cipher,
  process_sample,
}

-- An accepted sample reaches the decryption.
pub process_sample-process :
    {C : Type 0} (calls : EvpCalls C) (env : Environment) (r : Request) (pattern : Protection)
    (fuel : ℕ) (memory : Memory) (context : SymmetricContext C)
    → (a : Accepted env r)
    → process_sample calls env pattern a.subsamples a.out a.input fuel memory r.context
        (some context)
      ≡ finish_some calls env pattern a.subsamples a.out a.input memory a.out_bytes (
          process calls
            (λ i. memory (a.input_bytes + i))
            (sample_of a.cipher pattern a.subsamples)
            fuel
            context
            (λ i. memory (a.out_bytes + i)))
unfolding process_sample with_cipher with_bytes
process_sample-process calls env r pattern fuel memory context a =
    let some_bytes : (required_length a.subsamples == cenc_overflow) ≡ false =
      ground (arith, a.whole_length) in
    rw (a.acquired, process_sample) (rw (some_bytes, a.converted.0, a.converted.1) refl)

written_at-behind :
    (address : ℕ) (written memory : Memory) (i : ℕ)
    → written_at address written memory (address + i) ≡ written i
written_at-behind address written memory i =
    let behind : ltb (address + i) address ≡ false = ground arith in
    let back : address + i - address ≡ i = omega arith in rw (behind, back) refl

-- A sample without a pattern that `verify_sample` accepts, for a cipher of AES-CTR whose context
-- decrypts, and with whole blocks of protected data, fewer than 2^31 bytes in each subsample:
-- `cenc_process_sample` succeeds, moves both offsets on by all the bytes of the sample, and leaves its
-- layout in the output, which is the clear bytes and one stream of counter mode with an 8 byte counter
-- over the protected bytes; it changes nothing in front of the output.
pub verified-layout :
    (block : ℕ → ℕ → ℕ) (env : Environment) (r : Request) (pattern : Protection) (fuel : ℕ)
    (memory : Memory) (context : SymmetricContext Evp)
    → (verified : (verify_sample env r).status ≡ status_ok) → pattern.crypt_byte_block ≡ 0
    → context.cipher_mode ≡ CipherMode.decrypt_mode
    → context.cipher_algorithm ≡ CipherAlgorithm.aes_ctr
    → pattern.iv_nonce < 2 ^ 64
    → pattern.iv_counter < 2 ^ 64
    → let a = verify_sample-Accepted env r verified in
      a.cipher.algorithm ≡ CipherAlgorithm.aes_ctr
      → All Aligned a.subsamples
      → (o : Outcome Evp) × (process_sample
            (evp block)
            env
            pattern
            a.subsamples
            a.out
            a.input
            fuel
            memory
            r.context
            (some context)
          ≡ some o)
        × (o.status ≡ status_ok)
        × (o.out ≡ moved (total a.subsamples) a.out)
        × (o.input ≡ moved (total a.subsamples) a.input)
        × ((i : ℕ)
            → o.memory (a.out_bytes + i)
              ≡ layout
                  (counter_byte block pattern.iv_nonce pattern.iv_counter)
                  (λ j. memory (a.input_bytes + j))
                  a.subsamples
                  0
                  0
                  (λ j. memory (a.out_bytes + j))
                  i)
        × ((i : ℕ) → i < a.out_bytes → o.memory i ≡ memory i)
verified-layout block env r pattern fuel memory context verified crypt mode algorithm nb cb ctr al =
    let a = verify_sample-Accepted env r verified in
    let sample = sample_of a.cipher pattern a.subsamples in
    let is_ctr : (a.cipher.algorithm == CipherAlgorithm.aes_ctr) ≡ true = ground (arith, ctr) in
    let not_cbc : (a.cipher.algorithm == CipherAlgorithm.aes_cbc) ≡ false = ground (arith, ctr) in
    let p =
      process-layout block (λ j. memory (a.input_bytes + j)) (λ j. memory (a.out_bytes + j)) sample
        fuel context mode algorithm crypt is_ctr not_cbc al a.whole_length.2 nb cb in
    let progress : Progress Evp = record {
      status = status_ok;
      offset = total a.subsamples;
      state = p.0;
    } in
    (
      finish (evp block) env pattern a.subsamples a.out a.input memory a.out_bytes progress,
      process_sample-process (evp block) env r pattern fuel memory context a
          ∙ ap (finish_some (evp block) env pattern a.subsamples a.out a.input memory a.out_bytes)
              p.1,
      refl,
      refl,
      refl,
      λ i. written_at-behind a.out_bytes p.0.out memory i ∙ p.2 i,
      λ i lt. ground arith,
    )
