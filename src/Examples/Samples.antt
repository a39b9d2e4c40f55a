-- ===== src/Examples/Samples.antt =====
-- A sample of common encryption whose counter starts again at 0 after its first block.
use tasecureapi.Prelude.{
  ℕ, ◌+◌, ◌-◌, ◌*◌, ◌%◌, ◌^◌, ◌≤◌, ◌<◌, ◌≡◌, refl, sym, ap, subst, ◌↔◌, ◌⊎◌, inr, true, false,
  Option, none, some, List, [], ◌∷◌, ltb, if◌then◌else◌, arith, All, Status, status_ok,
  invalid_parameter, pos,
}
use tasecureapi.Prelude.CipherAlgorithm
use tasecureapi.Prelude.CipherMode
use tasecureapi.Memory.{size_mod, add_overflow, is_valid_clear}
use tasecureapi.Rights.{
  Rights, VideoOutputState, allowed_decrypt, allowed_clear, allowed_time,
  allowed_video_output_state, validate_video_output_state, bit_test,
}
use tasecureapi.Symmetric.{SymmetricContext}
use tasecureapi.Svp.{Memory, is_ok}
use tasecureapi.Buffer.{clear_buffer, convert_buffer}
use tasecureapi.Cenc.{
  Subsample, required_length, length_from, cenc_overflow, Sample, State, Progress, decrypt, stripes,
  process,
}
use tasecureapi.Cenc.Counter.{Evp, evp, counter_byte, Decrypted}
use tasecureapi.Cenc.Rollover.{decrypt-Decrypted}
use tasecureapi.Cenc.Layout.{total, Aligned, layout, process-layout}
use tasecureapi.Cenc.Length.{required_length-total}
use tasecureapi.Cenc.Pattern.{process_ends, stripes_never_end}
use tasecureapi.Cenc.Truncated.{decrypt_truncated}
use tasecureapi.Cenc.Verify.{
  Request, CipherView, Environment, with_buffers, use_acquired, verify_buffers, verify_cipher,
  verify_given, from_pointers, verify_sample, process_request,
}
use tasecureapi.Cenc.Process.{Outcome, Protection, moved, process_sample}
use tasecureapi.Cenc.Process.Verified.{verified-layout}
use tasecureapi.Cenc.Verify.Accepted.{Accepted, verify_sample-Accepted, process_request_verified}

-- A block that shows its number.
abbrev shows : ℕ → ℕ → ℕ
shows n i = (n + i) % 256

abbrev nines : Memory
nines a = 9

abbrev blank : Memory
blank a = 0

abbrev last_counter : State Evp
last_counter = record {
  context = record {
    cipher_algorithm = CipherAlgorithm.aes_ctr;
    cipher_mode = CipherMode.decrypt_mode;
    evp_cipher = record { first = 7 * 2 ^ 64 + (2 ^ 64 - 1); used = 0 };
  };
  nonce = 7;
  counter = 2 ^ 64 - 1;
  enc_byte_count = 0;
  out = blank;
}

decrypt-Decrypted_example :
    ((decrypt (evp shows) nines true 100 48 last_counter).0 ≡ status_ok)
    × Decrypted shows nines 100 48 last_counter
        (decrypt (evp shows) nines true 100 48 last_counter).1
decrypt-Decrypted_example =
    decrypt-Decrypted shows nines 100 48 last_counter
      (record {
        mode = refl;
        algorithm = refl;
        aligned = refl;
        stands = refl;
        nonce_bound = omega arith;
        counter_bound = omega arith;
      })
      refl refl (omega arith) (omega arith)

abbrev parts : List Subsample
parts =
    record { clear_data = 5; protected_data = 32 }
    ∷ record { clear_data = 0; protected_data = 16 }
    ∷ []

abbrev cenc_sample : Sample
cenc_sample = record {
  iv_nonce = 7;
  iv_counter = 2 ^ 64 - 1;
  crypt_byte_block = 0;
  skip_byte_block = 0;
  subsamples = parts;
  cbc = false;
  ctr = true;
}

abbrev fresh : SymmetricContext Evp
fresh = record last_counter.context { evp_cipher = record { first = 0; used = 0 } }

process-layout_example :
    (st : State Evp) × (process (evp shows) nines cenc_sample 1 fresh blank
      ≡ some (record { status = status_ok; offset = total parts; state = st }))
    × ((a : ℕ) → st.out a ≡ layout (counter_byte shows 7 (2 ^ 64 - 1)) nines parts 0 0 blank a)
process-layout_example =
    process-layout shows nines blank cenc_sample 1 fresh refl refl refl refl refl
      ((refl, omega arith), ((refl, omega arith), tt)) (omega arith) (omega arith) (omega arith)

required_length-total_example :
    (required_length parts ≡ (if ltb (total parts) size_mod then total parts else cenc_overflow))
    × ((required_length parts ≡ cenc_overflow) ↔ ((size_mod ≤ total parts) ⊎ (total parts ≡ 0)))
required_length-total_example = required_length-total parts

-- A pattern of one block to decrypt and nine to copy.
abbrev patterned : Sample
patterned = record cenc_sample { crypt_byte_block = 1; skip_byte_block = 9 }

process_ends_example :
    (q : Progress Evp) × (process (evp shows) nines patterned 3 fresh blank ≡ some q)
    × ((is_ok q.status ≡ false) ⊎ (q.offset ≡ total parts))
process_ends_example =
    process_ends (evp shows) nines patterned 3 fresh blank (inr (omega arith))
      (omega arith, (omega arith, tt))

abbrev endless : Sample
endless = record cenc_sample { crypt_byte_block = 2 ^ 60 }

stripes_never_end_example :
    stripes (evp shows) nines endless 1000 status_ok 5 32 last_counter ≡ none
stripes_never_end_example =
    stripes_never_end (evp shows) nines endless 1000 status_ok 5 32 last_counter refl refl
      (omega arith)

-- A key that decrypts, also for memory outside of the secure video path.
abbrev pub rights : Rights
rights = record {
  id = [];
  usage_flags = 4112;
  child_usage_flags = 0;
  not_before = 100;
  not_on_or_after = 200;
  allowed_tas = [];
}

abbrev pub outputs : VideoOutputState
outputs = record {
  analog_unprotected_count = pos 0;
  analog_cgmsa_count = pos 0;
  digital_unprotected_count = pos 0;
  digital_hdcp14_count = pos 0;
  digital_hdcp22_count = pos 0;
  svp_enabled = false;
}

abbrev decrypting : CipherView
decrypting = record {
  mode = CipherMode.decrypt_mode;
  rights = some rights;
  algorithm = CipherAlgorithm.aes_ctr;
}

abbrev env : Environment
env = record {
  acquire_cipher = λ context. (status_ok, some decrypting);
  acquire_svp = λ handle. (invalid_parameter, none);
  now = 150;
  outputs = some outputs;
}

abbrev request : Request
request = record {
  iv_length = some 16;
  crypt_byte_block = 0;
  skip_byte_block = 0;
  subsamples = some parts;
  context = 3;
  out = some (clear_buffer 1000 64 0);
  input = some (clear_buffer 2000 64 0);
}

is_verified : (verify_sample env request).status ≡ status_ok
unfolding verify_sample from_pointers verify_given with_buffers use_acquired verify_cipher
    verify_buffers required_length length_from add_overflow convert_buffer is_valid_clear
    allowed_decrypt allowed_clear allowed_time allowed_video_output_state
    validate_video_output_state bit_test
is_verified = refl

verify_sample-Accepted_example : Accepted env request
verify_sample-Accepted_example = verify_sample-Accepted env request is_verified

-- One sample whose output lies over its input, behind one that is fine.
abbrev overlapping : Request
overlapping = record request { out = some (clear_buffer 2010 64 0) }

abbrev counts : Request → ℕ → Status × ℕ
counts r n = (status_ok, n + 1)

process_request_verified_example :
    ((process_request
        (λ r. (verify_sample env r).status)
        counts
        true
        (some (request ∷ overlapping ∷ []))
        status_ok
        0).1
      ≡ 0)
    ⊎ All (λ r. (verify_sample env r).status ≡ status_ok) (request ∷ overlapping ∷ [])
process_request_verified_example =
    process_request_verified (λ r. (verify_sample env r).status) counts true
      (request ∷ overlapping ∷ []) status_ok 0

abbrev accepted : Accepted env request
accepted = verify_sample-Accepted env request is_verified

abbrev algorithm_of : Option CipherView → ℕ
algorithm_of none = 0
algorithm_of (some c) = c.algorithm

abbrev parts_of : Option (List Subsample) → List Subsample
parts_of none = []
parts_of (some ss) = ss

abbrev protection : Protection
protection = record {
  iv_nonce = 7;
  iv_counter = 2 ^ 64 - 1;
  crypt_byte_block = 0;
  skip_byte_block = 0;
}

verified-layout_example :
    (o : Outcome Evp) × (process_sample
        (evp shows)
        env
        protection
        accepted.subsamples
        accepted.out
        accepted.input
        1
        nines
        3
        (some fresh)
      ≡ some o)
    × (o.status ≡ status_ok)
    × (o.out ≡ moved (total accepted.subsamples) accepted.out)
    × (o.input ≡ moved (total accepted.subsamples) accepted.input)
    × ((i : ℕ)
        → o.memory (accepted.out_bytes + i)
          ≡ layout
              (counter_byte shows 7 (2 ^ 64 - 1))
              (λ j. nines (accepted.input_bytes + j))
              accepted.subsamples
              0
              0
              (λ j. nines (accepted.out_bytes + j))
              i)
    × ((i : ℕ) → i < accepted.out_bytes → o.memory i ≡ nines i)
verified-layout_example =
    verified-layout shows env request protection 1 nines fresh is_verified refl refl refl
      (omega arith) (omega arith)
      (sym (ap (λ (x : Status × Option CipherView). algorithm_of x.1) accepted.acquired))
      (subst (λ ss. All Aligned ss) (ap parts_of accepted.given.2)
        ((refl, omega arith), ((refl, omega arith), tt)))

abbrev low_counter : State Evp
low_counter = record last_counter {
  context = record last_counter.context {
    evp_cipher = record { first = 7 * 2 ^ 64 + 1; used = 0 };
  };
  counter = 1;
}

decrypt_truncated_example :
    ((decrypt (evp shows) nines true 0 (2 ^ 32 + 16) low_counter).0 ≡ status_ok)
    × ((decrypt (evp shows) nines true 0 (2 ^ 32 + 16) low_counter).1.out 16 ≡ 0)
decrypt_truncated_example =
    decrypt_truncated shows nines 0 (2 ^ 32 + 16) low_counter 16
      (record {
        mode = refl;
        algorithm = refl;
        aligned = refl;
        stands = refl;
        nonce_bound = omega arith;
        counter_bound = omega arith;
      })
      refl (omega arith) (omega arith) (omega arith) (omega arith) (omega arith) (omega arith)
