-- ===== src/Cenc/Counter.antt =====
-- AES-CTR over a context of OpenSSL, which counts with all 16 bytes of the IV, against counter mode
-- with the 8 byte counter that common encryption asks for.
use tasecureapi.Prelude.{
  ℕ, ◌+◌, ◌-◌, ◌*◌, ◌/◌, ◌%◌, ◌^◌, ◌≤◌, ◌<◌, bit_xor, ◌≡◌, refl, inl, inr, Bool, true, false, ◌&&◌,
  arith, ltb, leb, ◌==◌, if◌then◌else◌, status_ok, Bool-cases,
}
use native.Mathlib.Decide.{dec_lt}
use tasecureapi.Memory.{size_mod}
use tasecureapi.Prelude.CipherAlgorithm
use tasecureapi.Prelude.CipherMode
use tasecureapi.Symmetric.{EvpUpdate, EvpCalls, SymmetricContext, context_decrypt, context_set_iv}
use tasecureapi.Svp.{Memory, memcpy}
use tasecureapi.Cenc.{State, word, advance, plain}

-- A context of EVP in counter mode: the block of the last IV, as a number of 16 bytes, and the bytes
-- that it has produced since.
pub record Evp : Type 0 where
  pub first : ℕ
  pub used : ℕ

-- Byte `i` of the key stream after an IV: `block` is the cipher, which gives the bytes of a block.
abbrev pub evp_byte : (ℕ → ℕ → ℕ) → ℕ → ℕ → ℕ
evp_byte block first i = block ((first + i / 16) % 2 ^ 128) (i % 16)

-- An update with a negative length fails.
abbrev xor_update : (ℕ → ℕ → ℕ) → Evp → (ℕ → ℕ) → ℕ → EvpUpdate Evp
xor_update block c from count = record {
  ok = ltb count (2 ^ 31);
  length = count;
  context = record c { used = c.used + count };
  bytes = λ i. bit_xor (from i) (evp_byte block c.first (c.used + i));
}

abbrev xor_init : Evp → ℕ → ℕ → Bool × Evp
xor_init c nonce counter = (true, record { first = nonce * 2 ^ 64 + counter; used = 0 })

-- The calls of EVP in counter mode.
abbrev pub evp : (ℕ → ℕ → ℕ) → EvpCalls Evp
evp block = record {
  decrypt_update = xor_update block;
  encrypt_update = xor_update block;
  decrypt_init = xor_init;
  encrypt_init = xor_init;
}

-- Byte `i` of the key stream of counter mode with an 8 byte counter that starts at `counter`.
abbrev pub counter_byte : (ℕ → ℕ → ℕ) → ℕ → ℕ → ℕ → ℕ
counter_byte block nonce counter i = block (nonce * 2 ^ 64 + (counter + i / 16) % 2 ^ 64) (i % 16)

-- What counter mode leaves at each place: `count` bytes at `base`, from byte `done` of the stream on.
abbrev pub counted : (ℕ → ℕ) → Memory → Memory → ℕ → ℕ → ℕ → Memory
counted stream input out base count done a =
    if leb base a && ltb a (base + count)
    then bit_xor (input a) (stream (done + (a - base)))
    else out a

-- The context stands at the block that the IV of the state names, at its first byte.
pub record IsAt (st : State Evp) : Type 0 where
  pub mode : st.context.cipher_mode ≡ CipherMode.decrypt_mode
  pub algorithm : st.context.cipher_algorithm ≡ CipherAlgorithm.aes_ctr
  pub aligned : st.context.evp_cipher.used % 16 ≡ 0
  pub stands :
      st.context.evp_cipher.first + st.context.evp_cipher.used / 16 ≡ st.nonce * 2 ^ 64 + st.counter
  pub nonce_bound : st.nonce < 2 ^ 64
  pub counter_bound : st.counter < 2 ^ 64

module _ (block : ℕ → ℕ → ℕ) (input : Memory) where
  context_decrypt_eq :
      (c : SymmetricContext Evp) (from : ℕ → ℕ) (count : ℕ)
      → c.cipher_mode ≡ CipherMode.decrypt_mode
      → c.cipher_algorithm ≡ CipherAlgorithm.aes_ctr
      → count < 2 ^ 31
      → context_decrypt (evp block) c from count ≡ record {
        status = status_ok;
        length = count;
        context = record c {
          evp_cipher = record c.evp_cipher { used = c.evp_cipher.used + count };
        };
        bytes = λ i. bit_xor (from i) (evp_byte block c.evp_cipher.first (c.evp_cipher.used + i));
      }
  unfolding context_decrypt
  context_decrypt_eq c from count mode algorithm small =
      let int : count % 2 ^ 32 ≡ count = omega arith in
      let positive : ltb count (2 ^ 31) ≡ true = ground arith in
      rw (mode, context_decrypt) (rw algorithm (rw int (rw positive refl)))

  pub context_set_iv_eq :
      (c : SymmetricContext Evp) (nonce counter : ℕ)
      → c.cipher_mode ≡ CipherMode.decrypt_mode
      → c.cipher_algorithm ≡ CipherAlgorithm.aes_ctr
      → context_set_iv (evp block) c nonce counter ≡ (
        status_ok,
        record c { evp_cipher = record { first = nonce * 2 ^ 64 + counter; used = 0 } },
      )
  unfolding context_set_iv
  context_set_iv_eq c nonce counter mode algorithm = rw (algorithm, context_set_iv) (rw mode refl)

  -- Up to the end of the counter, EVP produces the stream.
  no_rollover :
      (st : State Evp) (i : ℕ)
      → st.context.evp_cipher.used % 16 ≡ 0
      → st.context.evp_cipher.first + st.context.evp_cipher.used / 16
        ≡ st.nonce * 2 ^ 64 + st.counter
      → st.nonce < 2 ^ 64
      → st.counter + i / 16 < 2 ^ 64
      → evp_byte block st.context.evp_cipher.first (st.context.evp_cipher.used + i)
        ≡ counter_byte block st.nonce st.counter i
  no_rollover st i al at nb small =
      let p : (st.context.evp_cipher.first + (st.context.evp_cipher.used + i) / 16) % 2 ^ 128
          ≡ st.nonce * 2 ^ 64 + (st.counter + i / 16) % 2 ^ 64 =
        omega arith in
      let q : (st.context.evp_cipher.used + i) % 16 ≡ i % 16 = omega arith in rw (p, q) refl

  -- What one update writes, if the counter does not go past its end.
  update_output :
      (base count : ℕ) (st : State Evp) (a : ℕ)
      → IsAt st
      → st.counter * 16 + count ≤ 2 ^ 68
      → memcpy st.out base
          (λ i.
            bit_xor
              (input (base + i))
              (evp_byte block st.context.evp_cipher.first (st.context.evp_cipher.used + i)))
          count
          a
        ≡ counted (counter_byte block st.nonce st.counter) input st.out base count 0 a
  update_output base count st a at small = elim (Bool-cases (leb base a && ltb a (base + count))) [
    | inl inside ↦
        let here : base + (a - base) ≡ a = ground arith in
        let from : 0 + (a - base) ≡ a - base = omega arith in
        let fits : st.counter + (a - base) / 16 < 2 ^ 64 = ground arith in
        rw (inside, here, from, no_rollover st (a - base) at.aligned at.stands at.nonce_bound fits)
          refl
    | inr outside ↦ rw outside refl
  ]

  -- What a call of `decrypt` on whole blocks does to the state.
  pub record Decrypted (base count : ℕ) (st st' : State Evp) : Type 0 where
    pub place : IsAt st'
    pub same_nonce : st'.nonce ≡ st.nonce
    pub counter_after : st'.counter ≡ (st.counter + count / 16) % 2 ^ 64
    pub enc_after : st'.enc_byte_count ≡ st.enc_byte_count + count
    pub output :
        (a : ℕ)
        → st'.out a ≡ counted (counter_byte block st.nonce st.counter) input st.out base count 0 a

  pub plain-Decrypted :
      (base count : ℕ) (st : State Evp)
      → IsAt st
      → count % 16 ≡ 0
      → st.counter + count / 16 < 2 ^ 64
      → st.enc_byte_count + count < size_mod
      → count < 2 ^ 31
      → ((plain (evp block) input base count (count / 16) st).0 ≡ status_ok)
        × Decrypted base count st (plain (evp block) input base count (count / 16) st).1
  unfolding plain
  plain-Decrypted base count st at al small enc short =
      rw
        (
          context_decrypt_eq st.context (λ i. input (base + i)) count at.mode at.algorithm short,
          plain,
        )
        (
          refl,
          record {
            place = record {
              mode = at.mode;
              algorithm = at.algorithm;
              aligned = omega (arith, at.aligned);
              stands = omega (arith, at.aligned, at.stands);
              nonce_bound = at.nonce_bound;
              counter_bound = omega arith;
            };
            same_nonce = refl;
            counter_after = refl;
            enc_after = omega arith;
            output = λ a. update_output base count st a at (omega arith);
          },
        )

  pub advance-Decrypted :
      (base blocks : ℕ) (st : State Evp)
      → IsAt st
      → 0 < blocks
      → st.counter + blocks ≤ 2 ^ 64
      → st.enc_byte_count + blocks * 16 < size_mod
      → blocks * 16 < 2 ^ 31
      → ((advance (evp block) input base (blocks * 16) blocks st).0 ≡ status_ok)
        × ((advance (evp block) input base (blocks * 16) blocks st).1 ≡ blocks * 16)
        × Decrypted base (blocks * 16) st (advance (evp block) input base (blocks * 16) blocks st).2
  unfolding advance
  advance-Decrypted base blocks st at some_blocks small enc short =
      let busy : (blocks * 16 == 0) ≡ false = ground arith in
      let count = blocks * 16 in
      let c = st.context in
      let d = context_decrypt_eq c (λ i. input (base + i)) count at.mode at.algorithm short in
      let later : SymmetricContext Evp = record c {
        evp_cipher = record c.evp_cipher { used = c.evp_cipher.used + count };
      } in
      let e =
        context_set_iv_eq later st.nonce ((st.counter + blocks) % word) at.mode at.algorithm in
      rw (busy, advance)
        (rw d (
          rw e (
            refl,
            refl,
            record {
              place = record {
                mode = at.mode;
                algorithm = at.algorithm;
                aligned = refl;
                stands = omega arith;
                nonce_bound = at.nonce_bound;
                counter_bound = omega arith;
              };
              same_nonce = refl;
              counter_after = omega arith;
              enc_after = omega arith;
              output = λ a. update_output base (blocks * 16) st a at (omega arith);
            },
          )))

  -- Two stretches, one behind the other, are one.
  pub Decrypted-Decrypted :
      (base n m : ℕ) {st st' st'' : State Evp}
      → n % 16 ≡ 0
      → Decrypted base n st st'
      → Decrypted (base + n) m st' st''
      → Decrypted base (n + m) st st''
  Decrypted-Decrypted base n m {st} {st'} {st''} al d e = record {
    place = e.place;
    same_nonce = omega (arith, d.same_nonce, e.same_nonce);
    counter_after = omega (arith, d.counter_after, e.counter_after);
    enc_after = omega (arith, d.enc_after, e.enc_after);
    output = λ a. elim (dec_lt a (base + n)) [
      | yes front ↦ ground (arith, d.output a, e.output a)
      | no back ↦
          let stream = counter_byte block st.nonce st.counter (0 + (a - base)) in
          let same_stream : counter_byte block st'.nonce st'.counter (0 + (a - (base + n)))
              ≡ stream =
            let p : st'.nonce * 2 ^ 64 + (st'.counter + (0 + (a - (base + n))) / 16) % 2 ^ 64
                ≡ st.nonce * 2 ^ 64 + (st.counter + (0 + (a - base)) / 16) % 2 ^ 64 =
              omega (arith, d.same_nonce, d.counter_after) in
            let q : (0 + (a - (base + n))) % 16 ≡ (0 + (a - base)) % 16 = omega arith in
            rw (p, q) refl in
          ground (arith, d.output a, e.output a, same_stream)
    ];
  }
