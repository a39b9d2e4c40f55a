-- ===== src/Examples/Partial.antt =====
-- Runs of `decrypt` of taimpl/src/internal/cenc.c behind a block that was begun before.
use tasecureapi.Prelude.{ℕ, ◌+◌, ◌-◌, ◌*◌, ◌^◌, ◌≡◌, refl, true}
use tasecureapi.Prelude.CipherAlgorithm
use tasecureapi.Prelude.CipherMode
use tasecureapi.Symmetric.{context_decrypt, context_set_iv}
use tasecureapi.Cenc.{State, advance, plain, decrypt_blocks, decrypt}
use tasecureapi.Cenc.Counter.{Evp, evp, counter_byte}

-- The bytes of a block are all its number, so that the output of an input of zeros shows the blocks.
abbrev number : ℕ → ℕ → ℕ
number block i = block

-- `used` bytes of the block of the counter are done, with a nonce of 5.
abbrev begun : ℕ → ℕ → State Evp
begun counter used = record {
  enc_byte_count = used;
  nonce = 5;
  counter = counter;
  context = record {
    cipher_algorithm = CipherAlgorithm.aes_ctr;
    cipher_mode = CipherMode.decrypt_mode;
    evp_cipher = record { first = 5 * 2 ^ 64 + counter; used = used };
  };
  out = λ a. 0;
}

-- The last 8 bytes of the last block but one, and two blocks: the last of them has the counter 0, but
-- comes out with a nonce of 6.
carries : (decrypt (evp number) (λ a. 0) true 0 40 (begun (2 ^ 64 - 2) 8)).1.out 24 ≡ 6 * 2 ^ 64
unfolding decrypt decrypt_blocks advance plain context_decrypt context_set_iv
carries = refl

wanted : counter_byte number 5 (2 ^ 64 - 2) (8 + 24) ≡ 5 * 2 ^ 64
wanted = refl

-- 4 bytes behind the first 4 of a block, near the end of the counter: the byte behind them is written.
overwrites :
    (decrypt (evp number) (λ a. 0) true 0 4 (begun (2 ^ 64 - 1) 4)).1.out 4 ≡ 6 * 2 ^ 64 - 1
unfolding decrypt decrypt_blocks advance plain context_decrypt context_set_iv
overwrites = refl

-- 4 bytes behind the first 4 of a block: the counter goes on by 2^60 blocks.
jumps : (decrypt (evp number) (λ a. 0) true 0 4 (begun 1 4)).1.counter ≡ 2 ^ 60 + 1
unfolding decrypt decrypt_blocks plain context_decrypt
jumps = refl
