-- ===== src/Cenc/Layout.antt =====
-- A sample of the CENC mode against its layout: clear bytes and protected bytes in turn, and one
-- stream of counter mode over all the protected bytes.
use tasecureapi.Prelude.{
  ℕ, ◌+◌, ◌-◌, ◌*◌, ◌/◌, ◌%◌, ◌^◌, ◌<◌, bit_xor, ◌≡◌, refl, ap, ◌∙◌, true, false, ◌&&◌, some, List,
  [], ◌∷◌, arith, All, ltb, leb, ◌==◌, if◌then◌else◌, status_ok,
}
use mathlib.Core.Path.{fun_ext}
use native.Mathlib.Decide.{ℕ_discrete}
use tasecureapi.Memory.{size_mod}
use tasecureapi.Svp.{Memory, memcpy}
use tasecureapi.Cenc.{Subsample, Sample, State, copy_clear, decrypt, whole, process_from, process}
use tasecureapi.Cenc.Counter.{Evp, evp, counter_byte, counted, IsAt, Decrypted, context_set_iv_eq}
use tasecureapi.Cenc.Rollover.{decrypt-Decrypted}
use tasecureapi.Symmetric.{SymmetricContext}
use tasecureapi.Prelude.CipherAlgorithm
use tasecureapi.Prelude.CipherMode

-- The bytes of all subsamples.
abbrev pub total : List Subsample → ℕ
total [] = 0
total (s ∷ ss) = s.clear_data + s.protected_data + total ss

-- The protected bytes are whole blocks, and their number is an `int`.
abbrev pub Aligned : Subsample → Type 0
Aligned s = (s.protected_data % 16 ≡ 0) × (s.protected_data < 2 ^ 31)

-- The output of a sample from `offset` on: `done` protected bytes came before, and `stream` is the
-- key stream of the sample.
abbrev pub layout : (ℕ → ℕ) → Memory → List Subsample → ℕ → ℕ → Memory → Memory
layout stream input [] offset done out a = out a
layout stream input (s ∷ ss) offset done out a =
    layout stream input ss (offset + s.clear_data + s.protected_data) (done + s.protected_data)
      (counted stream input (memcpy out offset (λ i. input (offset + i)) s.clear_data)
        (offset + s.clear_data) s.protected_data done)
      a

-- The layout reads the output only where it is asked.
layout-eq :
    (stream : ℕ → ℕ) (input : Memory) (ss : List Subsample) (offset done : ℕ) (out out' : Memory)
    (a : ℕ)
    → ((b : ℕ) → out b ≡ out' b)
    → layout stream input ss offset done out a ≡ layout stream input ss offset done out' a
layout-eq stream input ss offset done out out' a h =
    ap (λ m. layout stream input ss offset done m a) (fun_ext h)

module _ (block : ℕ → ℕ → ℕ) (input : Memory) (sample : Sample) (first nonce : ℕ) where
  -- The state is in the stream of the sample, behind all the protected bytes so far.
  pub record InStream (st : State Evp) : Type 0 where
    pub place : IsAt st
    pub same_nonce : st.nonce ≡ nonce
    pub counter : st.counter ≡ (first + st.enc_byte_count / 16) % 2 ^ 64
    pub aligned : st.enc_byte_count % 16 ≡ 0

  copy_clear-InStream :
      (offset count : ℕ) (st : State Evp)
      → InStream st
      → InStream (copy_clear (evp block) input offset count st)
  unfolding copy_clear
  copy_clear-InStream offset count st at = record {
    place = record {
      mode = at.place.mode;
      algorithm = at.place.algorithm;
      aligned = at.place.aligned;
      stands = at.place.stands;
      nonce_bound = at.place.nonce_bound;
      counter_bound = at.place.counter_bound;
    };
    same_nonce = at.same_nonce;
    counter = at.counter;
    aligned = at.aligned;
  }

  Decrypted-InStream :
      (base count : ℕ) {st st' : State Evp}
      → InStream st
      → count % 16 ≡ 0
      → Decrypted block input base count st st'
      → InStream st'
        × ((a : ℕ)
            → st'.out a
              ≡ counted
                  (counter_byte block nonce first)
                  input
                  st.out
                  base
                  count
                  st.enc_byte_count
                  a)
  Decrypted-InStream base count {st} {st'} at al d = (
    record {
      place = d.place;
      same_nonce = omega (arith, d.same_nonce, at.same_nonce);
      counter = omega (arith, d.counter_after, d.enc_after, at.counter, at.aligned);
      aligned = omega (arith, d.enc_after, at.aligned);
    },
    λ a.
        let p : st.nonce * 2 ^ 64 + (st.counter + (0 + (a - base)) / 16) % 2 ^ 64
            ≡ nonce * 2 ^ 64 + (first + (st.enc_byte_count + (a - base)) / 16) % 2 ^ 64 =
          omega (arith, at.same_nonce, at.counter, at.aligned) in
        let q : (0 + (a - base)) % 16 ≡ (st.enc_byte_count + (a - base)) % 16 =
          omega (arith, at.aligned) in
        d.output a
        ∙ ap
            (λ (y : ℕ).
              if leb base a && ltb a (base + count) then bit_xor (input a) y else st.out a)
            (rw (p, q) refl),
  )

  -- The protected bytes of a subsample, behind its clear bytes.
  whole_lem :
      (protected offset : ℕ) (st : State Evp)
      → sample.ctr ≡ true
      → sample.cbc ≡ false
      → protected % 16 ≡ 0
      → InStream st
      → st.enc_byte_count + protected < size_mod
      → protected < 2 ^ 31
      → whole (evp block) input sample protected offset st ≡ record {
        status = status_ok;
        offset = offset + protected;
        state = (decrypt (evp block) input true offset protected st).1;
      }
  unfolding whole
  whole_lem protected offset st ctr cbc al at small short =
      let d =
        decrypt-Decrypted block input offset protected st at.place at.aligned al small short in
      let p : protected - 0 ≡ protected = omega arith in
      let q : offset + protected + 0 ≡ offset + protected = omega arith in
      rw (cbc, whole) (rw (p, ctr, d.0, q) refl)

  subsample :
      (fuel : ℕ) (s : Subsample) (ss : List Subsample) (offset : ℕ) (st : State Evp)
      → sample.crypt_byte_block ≡ 0
      → sample.ctr ≡ true
      → sample.cbc ≡ false
      → Aligned s
      → InStream st
      → st.enc_byte_count + s.protected_data < size_mod
      → (st' : State Evp) × (process_from
            (evp block)
            input
            sample
            fuel
            (s ∷ ss)
            (record { status = status_ok; offset = offset; state = st })
          ≡ process_from (evp block) input sample fuel ss (record {
            status = status_ok;
            offset = offset + s.clear_data + s.protected_data;
            state = st';
          }))
        × InStream st'
        × (st'.enc_byte_count ≡ st.enc_byte_count + s.protected_data)
        × ((a : ℕ)
            → st'.out a
              ≡ counted
                  (counter_byte block nonce first)
                  input
                  (memcpy st.out offset (λ i. input (offset + i)) s.clear_data)
                  (offset + s.clear_data)
                  s.protected_data
                  st.enc_byte_count
                  a)
  unfolding process_from copy_clear
  subsample fuel s ss offset st crypt ctr cbc al at small =
      let base = offset + s.clear_data in
      let st0 = copy_clear (evp block) input offset s.clear_data st in
      let at0 = copy_clear-InStream offset s.clear_data st at in
      elim (ℕ_discrete s.protected_data 0) [
        | yes none_left ↦ (
          st0,
          let skip : (s.protected_data == 0) ≡ true = ground arith in
              let same : base + s.protected_data ≡ base = omega (arith, none_left) in
              rw (skip, process_from) (rw same refl),
          at0,
          omega (arith, none_left),
          λ a. ground (arith, none_left),
        )
        | no more ↦
            let d =
              decrypt-Decrypted block input base s.protected_data st0 at0.place at0.aligned al.0
                small al.1 in
            let w = whole_lem s.protected_data base st0 ctr cbc al.0 at0 small al.1 in
            let i = Decrypted-InStream base s.protected_data at0 al.0 d.1 in
            let go : (s.protected_data == 0) ≡ false = ground arith in
            let mode : (sample.crypt_byte_block == 0) ≡ true = ground arith in
            (
              (decrypt (evp block) input true base s.protected_data st0).1,
              rw (go, process_from) (rw (mode, w) refl),
              i.0,
              d.1.enc_after,
              i.1,
            )
      ]

  process_from-layout :
      (fuel : ℕ) (ss : List Subsample) (offset : ℕ) (st : State Evp)
      → sample.crypt_byte_block ≡ 0
      → sample.ctr ≡ true
      → sample.cbc ≡ false
      → All Aligned ss
      → InStream st
      → st.enc_byte_count + total ss < size_mod
      → (st' : State Evp) × (process_from
            (evp block)
            input
            sample
            fuel
            ss
            (record { status = status_ok; offset = offset; state = st })
          ≡ some (record { status = status_ok; offset = offset + total ss; state = st' }))
        × ((a : ℕ)
            → st'.out a
              ≡ layout (counter_byte block nonce first) input ss offset st.enc_byte_count st.out a)
  unfolding process_from
  process_from-layout fuel [] offset st crypt ctr cbc al at small =
      let e : offset + 0 ≡ offset = omega arith in (st, rw e refl, λ a. refl)
  process_from-layout fuel (s ∷ ss) offset st crypt ctr cbc al at small =
      let base = offset + s.clear_data in
      let st0 = copy_clear (evp block) input offset s.clear_data st in
      let step = subsample fuel s ss offset st crypt ctr cbc al.0 at (omega arith) in
      let st1 = step.0 in
      let next = offset + s.clear_data + s.protected_data in
      let ih =
        process_from-layout fuel ss next st1 crypt ctr cbc al.1 step.2 (omega (arith, step.3)) in
      let all : next + total ss ≡ offset + (s.clear_data + s.protected_data + total ss) =
        omega arith in
      (
        ih.0,
        step.1
            ∙ ih.1
            ∙ ap (λ n. some (record { status = status_ok; offset = n; state = ih.0 })) all,
        λ a.
            ih.2 a
            ∙ ap (λ n. layout (counter_byte block nonce first) input ss next n st1.out a) step.3
            ∙ layout-eq (counter_byte block nonce first) input ss next
                (st.enc_byte_count + s.protected_data) st1.out _ a step.4,
      )

-- A sample of the CENC mode with AES-CTR, whose protected data are whole blocks of fewer than 2^31
-- bytes in each subsample, is decrypted to its layout: the clear bytes are copied, and all the protected
-- bytes are one stream of counter mode with an 8 byte counter, which starts again at 0 when it is full;
-- nothing else is written, and the offset goes on by all the bytes.
pub process-layout :
    (block : ℕ → ℕ → ℕ) (input out : Memory) (sample : Sample) (fuel : ℕ)
    (context : SymmetricContext Evp)
    → context.cipher_mode ≡ CipherMode.decrypt_mode
    → context.cipher_algorithm ≡ CipherAlgorithm.aes_ctr
    → sample.crypt_byte_block ≡ 0
    → sample.ctr ≡ true
    → sample.cbc ≡ false
    → All Aligned sample.subsamples
    → total sample.subsamples < size_mod
    → sample.iv_nonce < 2 ^ 64
    → sample.iv_counter < 2 ^ 64
    → (st : State Evp) × (process (evp block) input sample fuel context out
        ≡ some (record { status = status_ok; offset = total sample.subsamples; state = st }))
      × ((a : ℕ)
          → st.out a
            ≡ layout
                (counter_byte block sample.iv_nonce sample.iv_counter)
                input
                sample.subsamples
                0
                0
                out
                a)
unfolding process
process-layout block input out sample fuel context mode algorithm crypt ctr cbc al small nb cb =
    let e =
      context_set_iv_eq block input context sample.iv_nonce sample.iv_counter mode algorithm in
    let st : State Evp = record {
      context = record context {
        evp_cipher = record { first = sample.iv_nonce * 2 ^ 64 + sample.iv_counter; used = 0 };
      };
      nonce = sample.iv_nonce;
      counter = sample.iv_counter;
      enc_byte_count = 0;
      out = out;
    } in
    let at : InStream block input sample sample.iv_counter sample.iv_nonce st = record {
      place = record {
        mode = mode;
        algorithm = algorithm;
        aligned = refl;
        stands = omega arith;
        nonce_bound = nb;
        counter_bound = cb;
      };
      same_nonce = refl;
      counter = omega arith;
      aligned = refl;
    } in
    let r =
      process_from-layout block input sample sample.iv_counter sample.iv_nonce fuel
        sample.subsamples 0 st crypt ctr cbc al at (omega arith) in
    let all : 0 + total sample.subsamples ≡ total sample.subsamples = omega arith in
    rw (e, process)
      (r.0, r.1 ∙ ap (λ n. some (record { status = status_ok; offset = n; state = r.0 })) all, r.2)
