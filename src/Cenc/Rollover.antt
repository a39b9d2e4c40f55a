-- ===== src/Cenc/Rollover.antt =====
-- `decrypt` of whole blocks, across the end of the counter.
use tasecureapi.Prelude.{
  ℕ, ◌+◌, ◌-◌, ◌*◌, ◌/◌, ◌%◌, ◌^◌, ◌≤◌, ◌<◌, min, ◌≡◌, refl, subst, inl, inr, Bool, true, false,
  ◌&&◌, arith, ltb, leb, ◌==◌, if◌then◌else◌, Status, status_ok, Bool-cases,
}
use native.Mathlib.Decide.{dec_lt, ℕ_discrete}
use tasecureapi.Memory.{size_mod}
use tasecureapi.Svp.{Memory}
use tasecureapi.Cenc.Counter.{
  Evp, evp, IsAt, Decrypted, plain-Decrypted, advance-Decrypted, Decrypted-Decrypted,
}
use tasecureapi.Cenc.{State, word, advance, plain, decrypt_blocks, decrypt}

module _ (block : ℕ → ℕ → ℕ) (input : Memory) where
  and_true : (b : Bool) → (b && true) ≡ b
  and_true true = refl
  and_true false = refl

  pub decrypt_aligned :
      (base count : ℕ) (st : State Evp)
      → st.enc_byte_count % 16 ≡ 0
      → st.enc_byte_count + count < size_mod
      → decrypt (evp block) input true base count st
        ≡ decrypt_blocks
            (evp block)
            input
            (leb ((word - 1 - st.counter + 1) % size_mod) (count / 16))
            0
            (count / 16)
            ((word - 1 - st.counter + 1) % size_mod)
            base
            count
            st
  unfolding decrypt
  decrypt_aligned base count st al enc =
      let full : (count + size_mod - 0) % size_mod / 16 ≡ count / 16 = omega arith in
      let same : count / 16 + 0 ≡ count / 16 = omega arith in
      let keep : (b : Bool) → (b && true) ≡ b = and_true in
      rw (al, decrypt)
        (rw (full, same, keep (leb ((word - 1 - st.counter + 1) % size_mod) (count / 16))) refl)

  -- The end of the branch of the rollover, after the blocks up to it.
  rest-Decrypted :
      (base n count : ℕ) (st st' : State Evp)
      → n ≤ count
      → n % 16 ≡ 0
      → count % 16 ≡ 0
      → st.enc_byte_count + count < size_mod
      → count < 2 ^ 31
      → st'.counter + (count - n) / 16 < 2 ^ 64
      → Decrypted block input base n st st'
      → ((plain (evp block) input (base + n) (count - n) (count / 16 - n / 16) st').0 ≡ status_ok)
        × Decrypted block input base count st
            (plain (evp block) input (base + n) (count - n) (count / 16 - n / 16) st').1
  rest-Decrypted base n count st st' le al_n al enc short small d =
      let blocks : count / 16 - n / 16 ≡ (count - n) / 16 = omega arith in
      let all : n + (count - n) ≡ count = omega arith in
      let p =
        plain-Decrypted block input (base + n) (count - n) st' d.place (omega arith) small
          (omega (arith, d.enc_after)) (omega arith) in
      rw blocks (
        p.0,
        subst
            (λ k.
              Decrypted block input base k st
                (plain (evp block) input (base + n) (count - n) ((count - n) / 16) st').1)
            all (Decrypted-Decrypted block input base n (count - n) al_n d p.1),
      )

  advance_none :
      (base blocks : ℕ) (st : State Evp)
      → advance (evp block) input base 0 blocks st ≡ (status_ok, 0, st)
  unfolding advance
  advance_none base blocks st = refl

  -- The branch of the rollover without a leading block.
  rollover_eq :
      (base count b before full : ℕ) (st st' : State Evp)
      → 0 < count
      → min before full ≡ b
      → advance (evp block) input base (b * 16) b st ≡ (status_ok, b * 16, st')
      → decrypt_blocks (evp block) input true 0 full before base count st ≡ (
          if ltb (b * 16) count
          then plain (evp block) input (base + b * 16) (count - b * 16) (full - b) st'
          else (status_ok, st'))
  unfolding decrypt_blocks
  rollover_eq base count b before full st st' some_bytes m e =
      let none_left : (count == 0) ≡ false = ground arith in
      let lead : advance (evp block) input base 0 1 st ≡ (status_ok, 0, st) =
        advance_none base 1 st in
      let start : base + 0 ≡ base = omega arith in
      let done : 0 + b * 16 ≡ b * 16 = omega arith in
      rw (none_left, decrypt_blocks) (rw (lead, m, start, e, done) refl)

  blocks-Decrypted :
      (base count b : ℕ) (st st' : State Evp)
      → 0 < count
      → b * 16 ≤ count
      → count % 16 ≡ 0
      → st.enc_byte_count + count < size_mod
      → count < 2 ^ 31
      → st'.counter + (count - b * 16) / 16 < 2 ^ 64
      → Decrypted block input base (b * 16) st st'
      → (r : Status × State Evp)
      → r ≡ (
          if ltb (b * 16) count
          then plain (evp block) input (base + b * 16) (count - b * 16) (count / 16 - b) st'
          else (status_ok, st'))
      → (r.0 ≡ status_ok) × Decrypted block input base count st r.1
  blocks-Decrypted base count b st st' some_bytes le al enc short small d r e =
      elim (dec_lt (b * 16) count) [
        | yes more ↦
            let whole_blocks : b * 16 / 16 ≡ b = omega arith in
            let test : ltb (b * 16) count ≡ true = ground arith in
            let p =
              rest-Decrypted base (b * 16) count st st' le (omega arith) al enc short small d in
            rw e (
              rw test (
                subst
                  (λ k.
                    ((plain (evp block) input (base + b * 16) (count - b * 16) (count / 16 - k)
                        st').0
                      ≡ status_ok)
                    × Decrypted block input base count st
                        (plain (evp block) input (base + b * 16) (count - b * 16) (count / 16 - k)
                          st').1)
                  whole_blocks p))
        | no all ↦
            let test : ltb (b * 16) count ≡ false = ground arith in
            let same : b * 16 ≡ count = omega arith in
            rw e (rw test (refl, subst (λ k. Decrypted block input base k st st') same d))
      ]

  none-Decrypted : (base : ℕ) (st : State Evp) → IsAt st → Decrypted block input base 0 st st
  none-Decrypted base st at = record {
    place = at;
    same_nonce = refl;
    counter_after = omega (arith, at.counter_bound);
    enc_after = omega arith;
    output = λ a. ground arith;
  }

  -- The blocks up to the rollover, when the counter is not 0: as many as `decrypt` says.
  abbrev blocks_before : State Evp → ℕ
  blocks_before st = (word - 1 - st.counter + 1) % size_mod

  triple_eq :
      (a : Status × ℕ × State Evp) {s : Status} {n : ℕ} → a.0 ≡ s → a.1 ≡ n → a ≡ (s, n, a.2)
  triple_eq (x, y, z) p q = rw (p, q) refl

  none-Decrypted_blocks :
      (rollover : Bool) (base : ℕ) (st : State Evp)
      → IsAt st
      → let r = decrypt_blocks (evp block) input rollover 0 (0 / 16) (blocks_before st) base 0 st in
        (r.0 ≡ status_ok) × Decrypted block input base 0 st r.1
  unfolding decrypt_blocks
  none-Decrypted_blocks rollover base st at = (refl, none-Decrypted base st at)

  stay-Decrypted :
      (base count : ℕ) (st : State Evp)
      → IsAt st
      → 0 < count
      → count % 16 ≡ 0
      → st.enc_byte_count + count < size_mod
      → count < 2 ^ 31
      → st.counter + count / 16 < 2 ^ 64
      → let r =
          decrypt_blocks (evp block) input false 0 (count / 16) (blocks_before st) base count st in
        (r.0 ≡ status_ok) × Decrypted block input base count st r.1
  unfolding decrypt_blocks
  stay-Decrypted base count st at some_bytes al enc short small =
      let busy : (count == 0) ≡ false = ground arith in
      let same : count / 16 + 0 ≡ count / 16 = omega arith in
      rw (busy, decrypt_blocks)
        (rw same (plain-Decrypted block input base count st at al small enc short))

  rollover-Decrypted :
      (base count : ℕ) (st : State Evp)
      → IsAt st
      → 0 < count
      → count % 16 ≡ 0
      → st.enc_byte_count + count < size_mod
      → count < 2 ^ 31
      → blocks_before st ≤ count / 16
      → let r =
          decrypt_blocks (evp block) input true 0 (count / 16) (blocks_before st) base count st in
        (r.0 ≡ status_ok) × Decrypted block input base count st r.1
  rollover-Decrypted base count st at some_bytes al enc short roll =
      elim (ℕ_discrete st.counter 0) [
        | yes zero_counter ↦
            let m : min (blocks_before st) (count / 16) ≡ 0 = omega (arith, zero_counter) in
            blocks-Decrypted base count 0 st st some_bytes (omega arith) al enc short (omega arith)
              (none-Decrypted base st at) _
              (rollover_eq base count 0 (blocks_before st) (count / 16) st st some_bytes m
                (advance_none base 0 st))
        | no positive ↦
            let b = blocks_before st in
            let m : min b (count / 16) ≡ b = omega arith in
            let a = advance (evp block) input base (b * 16) b st in
            let d =
              advance-Decrypted block input base b st at (omega (arith, at.counter_bound))
                (omega (arith, at.counter_bound)) (omega arith) (omega arith) in
            blocks-Decrypted base count b st a.2 some_bytes (omega arith) al enc short
              (omega (arith, d.2.counter_after, at.counter_bound)) d.2 _
              (rollover_eq base count b b (count / 16) st a.2 some_bytes m (triple_eq a d.0 d.1))
      ]

  -- From a state that stands at the first byte of the block of its IV, with a context that decrypts with
  -- AES-CTR: `decrypt` of whole blocks, fewer than 2^31 bytes, whose number keeps `enc_byte_count` below
  -- 2^64, is counter mode with the 8 byte counter, also where the counter starts again at 0; it keeps
  -- its place in the stream.
  pub decrypt-Decrypted :
      (base count : ℕ) (st : State Evp)
      → IsAt st
      → st.enc_byte_count % 16 ≡ 0
      → count % 16 ≡ 0
      → st.enc_byte_count + count < size_mod
      → count < 2 ^ 31
      → ((decrypt (evp block) input true base count st).0 ≡ status_ok)
        × Decrypted block input base count st (decrypt (evp block) input true base count st).1
  decrypt-Decrypted base count st at al_enc al enc short =
      rw (decrypt_aligned base count st al_enc enc) (elim (ℕ_discrete count 0) [
        | yes e ↦ rw e (none-Decrypted_blocks (leb (blocks_before st) (0 / 16)) base st at)
        | no ne ↦ elim (Bool-cases (leb (blocks_before st) (count / 16))) [
          | inl roll ↦
              rw roll
                (rollover-Decrypted base count st at (omega arith) al enc short (ground arith))
          | inr stay ↦ rw stay (
              stay-Decrypted base count st at (omega arith) al enc short
                (ground (arith, at.counter_bound)))
        ]
      ])
