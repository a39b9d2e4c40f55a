-- ===== src/Cenc/Verify/Accepted.antt =====
-- What is known of a request whose samples were all accepted.
use tasecureapi.Prelude.{
  ℕ, ◌+◌, ◌%◌, ◌≤◌, ◌<◌, ◌≡◌, refl, ap, ◌∙◌, ◌⊎◌, inl, inr, ◌≢◌, ◌↔◌, Bool, true, false, Option,
  none, some, List, [], ◌∷◌, arith, Bool-cases, Option-cases, Status, status_ok, All,
}
use tasecureapi.Prelude.KeyType
use tasecureapi.Prelude.CipherAlgorithm
use tasecureapi.Prelude.CipherMode
use tasecureapi.Memory.{size_mod}
use tasecureapi.Rights.{Rights, allowed_decrypt, allowed_clear}
use tasecureapi.Rights.Flag
use tasecureapi.Rights.Usage.{bit_test_iff}
use tasecureapi.Rights.Allowed.{Has, InPeriod, OutputsIfSymmetric, allowed_cipher_iff}
use tasecureapi.Svp.{SvpBuffer, is_ok, get_svp_memory}
use tasecureapi.Svp.Bounds.{is_ok_lem}
use tasecureapi.Buffer.{Buffer, clear_buffer, svp_buffer, other_buffer, convert_buffer}
use tasecureapi.Cenc.{Subsample, required_length, cenc_overflow}
use tasecureapi.Cenc.Layout.{total}
use tasecureapi.Cenc.Length.{required_length-total}
use tasecureapi.Cenc.Verify.{
  Request, CipherView, Environment, is_clear, is_known, overlap, verify_buffers, verify_cipher,
  use_acquired, with_buffers, verify_given, from_pointers, verify_sample, verify_all,
  process_request,
}

-- Two ranges of `count` bytes that do not wrap around have no byte in common.
pub overlap-false :
    (out input count : ℕ)
    → overlap out input count ≡ false
    → (size_mod ≤ out + count)
      ⊎ (size_mod ≤ input + count)
      ⊎ (out + count < input)
      ⊎ (input + count < out)
overlap-false out input count h = ground arith

-- The cipher of a sample may decrypt for the outputs in use now, and in the clear only if its key
-- may leave the secure video path.
pub record CipherAllowed (env : Environment) (cipher : CipherView) (rights : Rights)
    (out input : Buffer) : Type 0 where
  pub has_rights : cipher.rights ≡ some rights
  pub mode : cipher.mode ≡ CipherMode.decrypt_mode
  pub algorithm :
      (cipher.algorithm ≡ CipherAlgorithm.aes_ctr) ⊎ (cipher.algorithm ≡ CipherAlgorithm.aes_cbc)
  pub usage : Has rights Flag.decrypt
  pub period : InPeriod rights env.now
  pub outputs : OutputsIfSymmetric rights env.outputs KeyType.symmetric
  pub protected_out :
      (is_clear out ≡ false) ⊎ (Has rights Flag.svp_optional × (is_clear input ≡ true))

pub clear_iff : (r : Rights) → (allowed_clear (some r) ≡ true) ↔ Has r Flag.svp_optional
unfolding allowed_clear
clear_iff r =
    let b = bit_test_iff r.usage_flags Flag.svp_optional in
    (λ h. ground (arith, b), λ h. ground (arith, b))

verify_cipher_ok :
    (env : Environment) (cipher : CipherView) (out input : Buffer)
    → verify_cipher env cipher out input ≡ status_ok
    → (rights : Rights) × CipherAllowed env cipher rights out input
unfolding verify_cipher
verify_cipher_ok env cipher out input h = elim (Option-cases cipher.rights) [
  | inl none_given ↦ absurd (ground (arith, none_given))
  | inr (rights, given) ↦
      let allowed : allowed_decrypt (some rights) env.now env.outputs KeyType.symmetric ≡ true =
        ground (arith, given) in
      let allows =
        ((allowed_cipher_iff rights env.now env.outputs KeyType.symmetric).0).0 allowed in
      let clear = clear_iff rights in
      (
        rights,
        record {
          has_rights = given;
          mode = ground (arith, given);
          algorithm = ground (arith, given);
          usage = allows.0;
          period = allows.1;
          outputs = allows.2;
          protected_out = ground (arith, given, clear);
        },
      )
]

-- What is accepted of a sample: its cipher, as above; a length that is the sum of all its parts and not
-- 0; and the two ranges of that length, which `convert_buffer` gave and which have no byte in common
-- unless one of them wraps around.
pub record Accepted (env : Environment) (r : Request) : Type 0 where
  pub cipher : CipherView
  pub rights : Rights
  pub out : Buffer
  pub input : Buffer
  pub subsamples : List Subsample
  pub out_bytes : ℕ
  pub input_bytes : ℕ
  pub given : (r.out ≡ some out) × (r.input ≡ some input) × (r.subsamples ≡ some subsamples)
  pub acquired : env.acquire_cipher r.context ≡ (status_ok, some cipher)
  pub cipher_allowed : CipherAllowed env cipher rights out input
  pub converted :
      (convert_buffer true true (some out) (required_length subsamples) true true env.acquire_svp
        ≡ (status_ok, some out_bytes))
      × (convert_buffer true true
            (some input)
            (required_length subsamples)
            true
            true
            env.acquire_svp
          ≡ (status_ok, some input_bytes))
  pub whole_length :
      (required_length subsamples ≡ total subsamples)
      × (0 < total subsamples)
      × (total subsamples < size_mod)
  pub apart :
      (size_mod ≤ out_bytes + required_length subsamples)
      ⊎ (size_mod ≤ input_bytes + required_length subsamples)
      ⊎ (out_bytes + required_length subsamples < input_bytes)
      ⊎ (input_bytes + required_length subsamples < out_bytes)

-- A call that succeeds on a buffer of a known type has set the address.
convert_buffer-some :
    (b : Buffer) (n : ℕ) (acquire : ℕ → Status × Option SvpBuffer)
    → is_known b ≡ true
    → is_ok (convert_buffer true true (some b) n true true acquire).0 ≡ true
    → (p : ℕ) × (convert_buffer true true (some b) n true true acquire ≡ (status_ok, some p))
unfolding convert_buffer
convert_buffer-some (clear_buffer address count offset) n acquire known h =
    ((address + offset) % size_mod, ground arith)
convert_buffer-some (svp_buffer handle offset) n acquire known h = (
  (get_svp_memory (acquire handle).1 + offset) % size_mod,
  ground (arith, is_ok_lem (acquire handle).0),
)
convert_buffer-some other_buffer n acquire known h = cc

verify_buffers_ok :
    (env : Environment) (ss : List Subsample) (out input : Buffer)
    → is_known out ≡ true
    → is_known input ≡ true
    → (verify_buffers env ss out input).status ≡ status_ok
    → (p q : ℕ) × (convert_buffer true true
          (some out)
          (required_length ss)
          true
          true
          env.acquire_svp
        ≡ (status_ok, some p))
      × (convert_buffer true true (some input) (required_length ss) true true env.acquire_svp
          ≡ (status_ok, some q))
      × (overlap p q (required_length ss) ≡ false)
      × (required_length ss ≢ cenc_overflow)
unfolding verify_buffers
verify_buffers_ok env ss out input out_known input_known h =
    let o = convert_buffer true true (some out) (required_length ss) true true env.acquire_svp in
    let i = convert_buffer true true (some input) (required_length ss) true true env.acquire_svp in
    let o_ok : is_ok o.0 ≡ true = ground arith in
    let i_ok : is_ok i.0 ≡ true = ground arith in
    let p = convert_buffer-some out (required_length ss) env.acquire_svp out_known o_ok in
    let q = convert_buffer-some input (required_length ss) env.acquire_svp input_known i_ok in
    (p.0, q.0, p.1, q.1, ground (arith, p.1, q.1), λ e. ground (arith, e))

known_buffers :
    (env : Environment) (cipher : CipherView) (out input : Buffer)
    → verify_cipher env cipher out input ≡ status_ok
    → (is_known out ≡ true) × (is_known input ≡ true)
unfolding verify_cipher
known_buffers env cipher out input h = ground arith

length_ok :
    (ss : List Subsample)
    → required_length ss ≢ cenc_overflow
    → (required_length ss ≡ total ss) × (0 < total ss) × (total ss < size_mod)
length_ok ss h =
    let l = required_length-total ss in
    (ground (arith, l.0, h), ground (arith, l.0, h), ground (arith, l.0, h))

use_acquired_ok :
    (env : Environment) (r : Request) (answer : Status × Option CipherView) (ss : List Subsample)
    (out input : Buffer)
    → (r.out ≡ some out) × (r.input ≡ some input) × (r.subsamples ≡ some ss)
    → env.acquire_cipher r.context ≡ answer
    → (use_acquired env answer ss out input).status ≡ status_ok
    → Accepted env r
unfolding use_acquired
use_acquired_ok env r (s, none) ss out input given e h = cc
use_acquired_ok env r (s, some cipher) ss out input given e h =
    let fine : is_ok s ≡ true = ground arith in
    let checked : verify_cipher env cipher out input ≡ status_ok =
      is_ok_lem (verify_cipher env cipher out input) (ground arith) in
    let known = known_buffers env cipher out input checked in
    let buffers = verify_buffers_ok env ss out input known.0 known.1 (ground arith) in
    let c = verify_cipher_ok env cipher out input checked in
    record {
      cipher = cipher;
      rights = c.0;
      out = out;
      input = input;
      subsamples = ss;
      out_bytes = buffers.0;
      input_bytes = buffers.1;
      given = given;
      acquired = e ∙ ap (λ x. (x, some cipher)) (is_ok_lem s fine);
      cipher_allowed = c.1;
      converted = (buffers.2, buffers.3);
      whole_length = length_ok ss buffers.5;
      apart = overlap-false buffers.0 buffers.1 (required_length ss) buffers.4;
    }

with_buffers_ok :
    (env : Environment) (r : Request) (ss : List Subsample) (out input : Option Buffer)
    → r.out ≡ out
    → r.input ≡ input
    → r.subsamples ≡ some ss
    → (with_buffers env r ss out input).status ≡ status_ok
    → Accepted env r
unfolding with_buffers
with_buffers_ok env r ss (some o) (some i) e f g h =
    use_acquired_ok env r (env.acquire_cipher r.context) ss o i (e, f, g) refl h
with_buffers_ok env r ss none i e f g h = cc
with_buffers_ok env r ss (some o) none e f g h = cc

from_pointers_ok :
    (env : Environment) (r : Request) (iv : Option ℕ) (ss : Option (List Subsample))
    → r.subsamples ≡ ss
    → (from_pointers env r iv ss).status ≡ status_ok
    → Accepted env r
unfolding from_pointers verify_given
from_pointers_ok env r none ss e h = cc
from_pointers_ok env r (some n) none e h = absurd (ground arith)
from_pointers_ok env r (some n) (some ss) e h =
    with_buffers_ok env r ss r.out r.input refl refl e (ground arith)

-- A sample that `verify_sample` accepts has a cipher whose key may decrypt now, for the outputs in
-- use, with AES-CTR or AES-CBC; its output is clear memory only if the key may leave the secure video
-- path and the input is clear too; and the two ranges of the required length lie in its buffers and
-- do not overlap, unless one of them wraps around.
pub verify_sample-Accepted :
    (env : Environment) (r : Request) → (verify_sample env r).status ≡ status_ok → Accepted env r
unfolding verify_sample
verify_sample-Accepted env r h = from_pointers_ok env r r.iv_length r.subsamples refl h

verify_all_ok :
    {A : Type 0} (verify : A → Status) (samples : List A)
    → is_ok (verify_all verify samples) ≡ true
    → All (λ x. verify x ≡ status_ok) samples
unfolding verify_all
verify_all_ok verify [] h = tt
verify_all_ok verify (x ∷ xs) h = elim (Bool-cases (is_ok (verify x))) [
  | inl fine ↦ (is_ok_lem (verify x) fine, verify_all_ok verify xs (ground (arith, fine)))
  | inr bad ↦ absurd (ground (arith, bad))
]

-- Unless every sample of a request is accepted, nothing is processed.
pub process_request_verified :
    {A S : Type 0} (verify : A → Status) (process : A → S → Status × S) (caller : Bool)
    (samples : List A) (acquired : Status) (st : S)
    → ((process_request verify process caller (some samples) acquired st).1 ≡ st)
      ⊎ All (λ x. verify x ≡ status_ok) samples
unfolding process_request
process_request_verified verify process caller samples acquired st =
    elim (Bool-cases (is_ok (verify_all verify samples))) [
      | inl fine ↦ inr (verify_all_ok verify samples fine)
      | inr bad ↦ inl (ground (arith, bad))
    ]
