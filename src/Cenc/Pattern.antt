-- ===== src/Cenc/Pattern.antt =====
-- The loop over the stripes of the CENS and CBCS modes: when it ends, and how far it goes.
use tasecureapi.Prelude.{
  ℕ, zero, suc, ◌+◌, ◌-◌, ◌*◌, ◌/◌, ◌%◌, ◌≤◌, ◌<◌, min, ◌≡◌, refl, ◌⊎◌, inl, inr, Bool, true, false,
  ◌&&◌, not, none, some, List, [], ◌∷◌, arith, All, ltb, ◌==◌, if◌then◌else◌, Status, Bool-cases,
}
use native.Mathlib.Decide.{ℕ_discrete}
use tasecureapi.Memory.{size_mod}
use tasecureapi.Symmetric.{EvpCalls, SymmetricContext, context_set_iv}
use tasecureapi.Svp.{Memory, is_ok}
use tasecureapi.Cenc.{
  Subsample, Sample, State, Progress, copy_clear, decrypt, whole, stripes, striped, process_from,
  process,
}
use tasecureapi.Cenc.Layout.{total}

-- The stripe that is decrypted is not empty, as a number of bytes of 64 bits; the code takes any
-- number of blocks.
abbrev pub HasStripe : Sample → Type 0
HasStripe sample = 0 < sample.crypt_byte_block * 16 % size_mod

module _ {C : Type 0} (calls : EvpCalls C) (input : Memory) (sample : Sample) where
  stripes_end :
      (fuel : ℕ) (so_far : Status) (offset left : ℕ) (st : State C)
      → HasStripe sample
      → left / 16 < fuel
      → (left' : ℕ) × (p : Progress C) × (stripes calls input sample fuel so_far offset left st
          ≡ some (left', p))
        × (p.offset + left' ≡ offset + left)
  unfolding stripes
  stripes_end zero so_far offset left st h lt = absurd (omega arith)
  stripes_end (suc fuel) so_far offset left st h lt =
      let block = min (sample.crypt_byte_block * 16 % size_mod) (left / 16 * 16) in
      let d = decrypt calls input sample.ctr offset block st in
      let left' = left - block in
      let skip = min (sample.skip_byte_block * 16 % size_mod) (left' / 16 * 16) in
      let so_far' = if block == 0 then so_far else d.0 in
      elim (Bool-cases (ltb left 16)) [
        | inl last ↦
            (left, record { status = so_far; offset = offset; state = st }, rw last refl, refl)
        | inr more ↦ elim (Bool-cases (not (block == 0) && not (is_ok d.0))) [
          | inl failed ↦ (
            left,
            record { status = d.0; offset = offset; state = d.1 },
            rw (more, failed) refl,
            refl,
          )
          | inr fine ↦
              let ih =
                stripes_end fuel so_far' (offset + block + skip) (left' - skip)
                  (copy_clear calls input (offset + block) skip d.1) h (ground arith) in
              (ih.0, ih.1, rw (more, fine) ih.2, ground (arith, ih.3))
        ]
      ]

  -- A pattern whose two stripes are both empty as numbers of bytes of 64 bits, as those of 2^60 and 0
  -- blocks are, never ends on a block of protected data: no number of rounds is enough.
  pub stripes_never_end :
      (fuel : ℕ) (so_far : Status) (offset left : ℕ) (st : State C)
      → sample.crypt_byte_block * 16 % size_mod ≡ 0
      → sample.skip_byte_block * 16 % size_mod ≡ 0
      → 16 ≤ left
      → stripes calls input sample fuel so_far offset left st ≡ none
  unfolding stripes
  stripes_never_end zero so_far offset left st crypt skip h = refl
  stripes_never_end (suc fuel) so_far offset left st crypt skip h =
      let block = min (sample.crypt_byte_block * 16 % size_mod) (left / 16 * 16) in
      let skipped = min (sample.skip_byte_block * 16 % size_mod) ((left - block) / 16 * 16) in
      let more : ltb left 16 ≡ false = ground arith in
      let no_block : block ≡ 0 = omega (arith, crypt) in
      let no_skip : skipped ≡ 0 = omega (arith, skip) in
      let empty_block : (block == 0) ≡ true = ground arith in
      let d = decrypt calls input sample.ctr offset block st in
      rw (more, empty_block)
        (stripes_never_end fuel so_far (offset + block + skipped) (left - block - skipped)
          (copy_clear calls input (offset + block) skipped d.1) crypt skip
          (omega (arith, no_block, no_skip)))

  -- What the two modes leave behind one subsample.
  striped_end :
      (fuel : ℕ) (so_far : Status) (protected offset : ℕ) (st : State C)
      → HasStripe sample
      → protected / 16 < fuel
      → (left : Bool) × (p : Progress C) × (striped calls input sample fuel so_far protected offset
            st
          ≡ some (left, p))
        × ((left ≡ true) → is_ok p.status ≡ false)
        × ((left ≡ false) → p.offset ≡ offset + protected)
  unfolding striped
  striped_end fuel so_far protected offset st h lt =
      let r = context_set_iv calls st.context sample.iv_nonce sample.iv_counter in
      let reset = record st {
        nonce = sample.iv_nonce;
        counter = sample.iv_counter;
        context = r.1;
      } in
      let st' = if sample.cbc then reset else st in
      let s' = if sample.cbc then r.0 else so_far in
      let e = stripes_end fuel s' offset protected st' h lt in
      elim (Bool-cases (sample.cbc && not (is_ok r.0))) [
        | inl failed ↦ (
          true,
          record { status = r.0; offset = offset; state = reset },
          rw failed refl,
          λ q. ground arith,
          λ q. cc,
        )
        | inr fine ↦ (
          false,
          record e.1 {
            offset = e.1.offset + e.0;
            state = copy_clear calls input e.1.offset e.0 e.1.state;
          },
          rw (fine, e.2) refl,
          λ q. cc,
          λ q. e.3,
        )
      ]

  whole_end :
      (protected offset : ℕ) (st : State C)
      → let w = whole calls input sample protected offset st in
        (is_ok w.status ≡ false) ⊎ (w.offset ≡ offset + protected)
  unfolding whole
  whole_end protected offset st = ground arith

  process_from_end :
      (fuel : ℕ) (ss : List Subsample) (p : Progress C)
      → (sample.crypt_byte_block ≡ 0) ⊎ HasStripe sample
      → All (λ s. s.protected_data / 16 < fuel) ss
      → (q : Progress C) × (process_from calls input sample fuel ss p ≡ some q)
        × ((is_ok q.status ≡ false) ⊎ (q.offset ≡ p.offset + total ss))
  unfolding process_from
  process_from_end fuel [] p h short = (p, refl, inr (omega arith))
  process_from_end fuel (s ∷ ss) p h short =
      let offset = p.offset + s.clear_data in
      let st = copy_clear calls input p.offset s.clear_data p.state in
      let w = whole calls input sample s.protected_data offset st in
      elim (ℕ_discrete s.protected_data 0) [
        | yes none_left ↦
            let ih =
              process_from_end fuel ss (record { status = p.status; offset = offset; state = st }) h
                short.1 in
            (ih.0, ground (arith, none_left, ih.1), ground (arith, none_left, ih.2))
        | no more ↦ elim (ℕ_discrete sample.crypt_byte_block 0) [
          | yes unpatterned ↦ elim (Bool-cases (is_ok w.status)) [
            | inl fine ↦
                let ih = process_from_end fuel ss w h short.1 in
                (
                  ih.0,
                  ground (arith, more, unpatterned, fine, ih.1),
                  ground (arith, fine, ih.2, whole_end s.protected_data offset st),
                )
            | inr failed ↦ (w, ground (arith, more, unpatterned, failed), inl failed)
          ]
          | no patterned ↦
              let stripe : HasStripe sample = elim h [ inl z ↦ absurd (patterned z) | inr k ↦ k ] in
              let r = striped_end fuel p.status s.protected_data offset st stripe short.0 in
              let busy : (s.protected_data == 0) ≡ false = ground arith in
              let mode : (sample.crypt_byte_block == 0) ≡ false = ground arith in
              elim (Bool-cases r.0) [
                | inl left ↦
                    (r.1, rw (busy, process_from) (rw (mode, r.2, left) refl), inl (r.3 left))
                | inr stays ↦
                    let ih = process_from_end fuel ss r.1 h short.1 in
                    (
                      ih.0,
                      rw (busy, process_from) (rw (mode, r.2, stays) ih.1),
                      ground (arith, ih.2, r.4 stays),
                    )
              ]
        ]
      ]

  -- A sample with a pattern whose first stripe is not empty, or with no pattern, is processed to the
  -- end, whatever the cipher returns, if the fuel is larger than the blocks of each subsample; if the
  -- status is good then, the offset has passed all bytes.
  pub process_ends :
      (fuel : ℕ) (context : SymmetricContext C) (out : Memory)
      → (sample.crypt_byte_block ≡ 0) ⊎ HasStripe sample
      → All (λ s. s.protected_data / 16 < fuel) sample.subsamples
      → (q : Progress C) × (process calls input sample fuel context out ≡ some q)
        × ((is_ok q.status ≡ false) ⊎ (q.offset ≡ total sample.subsamples))
  unfolding process
  process_ends fuel context out h short =
      let r = context_set_iv calls context sample.iv_nonce sample.iv_counter in
      let st : State C = record {
        context = r.1;
        nonce = sample.iv_nonce;
        counter = sample.iv_counter;
        enc_byte_count = 0;
        out = out;
      } in
      elim (Bool-cases (is_ok r.0)) [
        | inl fine ↦
            let e =
              process_from_end fuel sample.subsamples
                (record { status = r.0; offset = 0; state = st }) h short in
            (e.0, rw (fine, process) e.1, ground (arith, e.2))
        | inr failed ↦
            (record { status = r.0; offset = 0; state = st }, rw (failed, process) refl, inl failed)
      ]
