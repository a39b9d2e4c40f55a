-- ===== src/Cenc/Truncated.antt =====
-- Protected data whose length is not an `int`: symmetric_context_decrypt converts it to one.
use tasecureapi.Prelude.{
  ℕ, ◌+◌, ◌-◌, ◌/◌, ◌%◌, ◌^◌, ◌≤◌, ◌<◌, bit_xor, ◌≡◌, refl, true, false, arith, ltb, leb, ◌==◌,
  status_ok,
}
use tasecureapi.Prelude.CipherAlgorithm
use tasecureapi.Prelude.CipherMode
use tasecureapi.Memory.{size_mod}
use tasecureapi.Svp.{Memory}
use tasecureapi.Symmetric.{SymmetricContext, context_decrypt}
use tasecureapi.Cenc.{State, word, plain, decrypt_blocks, decrypt}
use tasecureapi.Cenc.Counter.{Evp, evp, evp_byte, IsAt}
use tasecureapi.Cenc.Rollover.{decrypt_aligned}

module _ (block : ℕ → ℕ → ℕ) (input : Memory) where
  context_decrypt_truncated :
      (c : SymmetricContext Evp) (from : ℕ → ℕ) (count : ℕ)
      → c.cipher_mode ≡ CipherMode.decrypt_mode
      → c.cipher_algorithm ≡ CipherAlgorithm.aes_ctr
      → count % 2 ^ 32 < 2 ^ 31
      → context_decrypt (evp block) c from count ≡ record {
        status = status_ok;
        length = count % 2 ^ 32;
        context = record c {
          evp_cipher = record c.evp_cipher { used = c.evp_cipher.used + count % 2 ^ 32 };
        };
        bytes = λ i. bit_xor (from i) (evp_byte block c.evp_cipher.first (c.evp_cipher.used + i));
      }
  unfolding context_decrypt
  context_decrypt_truncated c from count mode algorithm small =
      let positive : ltb (count % 2 ^ 32) (2 ^ 31) ≡ true = ground arith in
      rw (mode, context_decrypt) (rw algorithm (rw positive refl))

  plain_truncated :
      (base count blocks : ℕ) (st : State Evp) (a : ℕ)
      → IsAt st
      → count % 2 ^ 32 < 2 ^ 31
      → base + count % 2 ^ 32 ≤ a
      → ((plain (evp block) input base count blocks st).0 ≡ status_ok)
        × ((plain (evp block) input base count blocks st).1.out a ≡ st.out a)
  unfolding plain
  plain_truncated base count blocks st a at small behind =
      rw
        (
          context_decrypt_truncated st.context (λ i. input (base + i)) count at.mode at.algorithm
              small,
          plain,
        )
        (refl, ground arith)

  -- At the first byte of a block of AES-CTR, and if the counter is not 0 and does not come back to 0: `decrypt`
  -- of `count` bytes succeeds when the low 32 bits of `count` are below 2^31, but it writes only as
  -- many bytes as these bits say, and leaves the output behind them as it was.
  pub decrypt_truncated :
      (base count : ℕ) (st : State Evp) (a : ℕ)
      → IsAt st
      → st.enc_byte_count % 16 ≡ 0
      → 0 < count
      → st.enc_byte_count + count < size_mod
      → 0 < st.counter
      → st.counter + count / 16 < 2 ^ 64
      → count % 2 ^ 32 < 2 ^ 31
      → base + count % 2 ^ 32 ≤ a
      → ((decrypt (evp block) input true base count st).0 ≡ status_ok)
        × ((decrypt (evp block) input true base count st).1.out a ≡ st.out a)
  unfolding decrypt_blocks
  decrypt_truncated base count st a at al some_bytes enc positive stay small behind =
      let busy : (count == 0) ≡ false = ground arith in
      let no_rollover : leb ((word - 1 - st.counter + 1) % size_mod) (count / 16) ≡ false =
        ground (arith, at.counter_bound) in
      rw (decrypt_aligned block input base count st al enc) (
        rw no_rollover (
          rw (busy, decrypt_blocks)
            (plain_truncated base count (count / 16 + 0) st a at small behind)))
