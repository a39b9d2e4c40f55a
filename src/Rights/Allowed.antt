-- ===== src/Rights/Allowed.antt =====
-- What a key may be used for: each check of rights.c against the conditions that the rights state.
use native.Mathlib.Decide.{ℕ_discrete}
use tasecureapi.Prelude.{
  ℕ, ◌%◌, ◌≤◌, ◌<◌, ◌≡◌, refl, subst, ◌↔◌, ◌⊎◌, Bool, true, false, ◌&&◌, not, Option, none, some,
  arith, ◌==◌, if◌then◌else◌, is_positive,
}
use tasecureapi.Prelude.KeyType
use tasecureapi.Prelude.Bits.{test_bit}
use tasecureapi.Rights.Flag
use tasecureapi.Rights.{
  Rights, VideoOutputState, bit_test, allowed_time, allowed_video_output_state,
  validate_video_output_state, allowed_derive, allowed_exchange, allowed_unwrap, allowed_sign,
  allowed_decrypt, allowed_encrypt,
}
use tasecureapi.Rights.Usage.{bit_test_iff}

-- Bit `b` of the usage flags is set.
abbrev pub Has : Rights → ℕ → Type 0
Has r b = test_bit r.usage_flags b ≡ 1

abbrev pub InPeriod : Rights → ℕ → Type 0
InPeriod r now = (r.not_before ≤ now) × (now < r.not_on_or_after)

-- Every output that is in use is allowed, and the secure video path is on unless it is optional.
pub record OutputsAllowed (r : Rights) (v : VideoOutputState) : Type 0 where
  pub svp : Has r Flag.svp_optional ⊎ (v.svp_enabled ≡ true)
  pub analog : Has r Flag.analog_unprotected ⊎ (is_positive v.analog_unprotected_count ≡ false)
  pub cgmsa : Has r Flag.analog_cgmsa ⊎ (is_positive v.analog_cgmsa_count ≡ false)
  pub digital : Has r Flag.digital_unprotected ⊎ (is_positive v.digital_unprotected_count ≡ false)
  pub hdcp14 : Has r Flag.digital_hdcp14 ⊎ (is_positive v.digital_hdcp14_count ≡ false)
  pub hdcp22 : Has r Flag.digital_hdcp22 ⊎ (is_positive v.digital_hdcp22_count ≡ false)

-- One guard of a chain of guards.
guard_iff :
    (a p rest : Bool)
    → ((if not a && p then false else rest) ≡ true) ↔ (((a ≡ true) ⊎ (p ≡ false)) × (rest ≡ true))
guard_iff a p rest = (λ h. ground arith, λ h. ground arith)

flag_guard :
    (r : Rights) (b : ℕ) (p rest : Bool)
    → ((if not (bit_test r.usage_flags b) && p then false else rest) ≡ true)
      ↔ (((test_bit r.usage_flags (b % 64) ≡ 1) ⊎ (p ≡ false)) × (rest ≡ true))
flag_guard r b p rest =
    let g = guard_iff (bit_test r.usage_flags b) p rest in
    let t = bit_test_iff r.usage_flags b in (λ h. ground (arith, g, t), λ h. ground (arith, g, t))

-- The outputs are accepted exactly when each that is in use is allowed, and the secure video path is
-- on or optional.
pub video_output_iff :
    (r : Rights) (v : VideoOutputState)
    → (allowed_video_output_state (some r) (some v) ≡ true) ↔ OutputsAllowed r v
unfolding allowed_video_output_state
video_output_iff r v = (forwards, backwards)
  where
    forwards : allowed_video_output_state (some r) (some v) ≡ true → OutputsAllowed r v
    forwards h =
        let a = (flag_guard r Flag.svp_optional (not v.svp_enabled) _).0 h in
        let b =
          (flag_guard r Flag.analog_unprotected (is_positive v.analog_unprotected_count) _).0 a.1 in
        let c = (flag_guard r Flag.analog_cgmsa (is_positive v.analog_cgmsa_count) _).0 b.1 in
        let d =
          (flag_guard r Flag.digital_unprotected (is_positive v.digital_unprotected_count) _).0
            c.1 in
        let e = (flag_guard r Flag.digital_hdcp14 (is_positive v.digital_hdcp14_count) _).0 d.1 in
        let f =
          (flag_guard r Flag.digital_hdcp22 (is_positive v.digital_hdcp22_count) true).0 e.1 in
        record {
          svp = ground (arith, a.0);
          analog = b.0;
          cgmsa = c.0;
          digital = d.0;
          hdcp14 = e.0;
          hdcp22 = f.0;
        }

    backwards : OutputsAllowed r v → allowed_video_output_state (some r) (some v) ≡ true
    backwards o = (flag_guard r Flag.svp_optional (not v.svp_enabled) _).1 (
      ground (arith, o.svp),
      (flag_guard r Flag.analog_unprotected _ _).1 (
        o.analog,
        (flag_guard r Flag.analog_cgmsa _ _).1 (
          o.cgmsa,
          (flag_guard r Flag.digital_unprotected _ _).1 (
            o.digital,
            (flag_guard r Flag.digital_hdcp14 _ _).1
                (o.hdcp14, (flag_guard r Flag.digital_hdcp22 _ true).1 (o.hdcp22, refl)),
          ),
        ),
      ),
    )

time_iff : (r : Rights) (now : ℕ) → (allowed_time (some r) now ≡ true) ↔ InPeriod r now
unfolding allowed_time
time_iff r now = (λ h. ground arith, λ h. ground arith)

-- Derivation, exchange, unwrapping and signing are each allowed exactly when the bit of the use is
-- set and the current time is in the period of the key, its start included and its end not.
pub allowed_use_iff :
    (r : Rights) (now : ℕ)
    → ((allowed_derive (some r) now ≡ true) ↔ (Has r Flag.derive × InPeriod r now))
      × ((allowed_exchange (some r) now ≡ true) ↔ (Has r Flag.key_exchange × InPeriod r now))
      × ((allowed_unwrap (some r) now ≡ true) ↔ (Has r Flag.unwrap × InPeriod r now))
      × ((allowed_sign (some r) now ≡ true) ↔ (Has r Flag.sign × InPeriod r now))
unfolding allowed_derive allowed_exchange allowed_unwrap allowed_sign
allowed_use_iff r now =
    let t = time_iff r now in
    let b = bit_test_iff r.usage_flags in
    (
      (λ h. ground (arith, t, b Flag.derive), λ h. ground (arith, t, b Flag.derive)),
      (λ h. ground (arith, t, b Flag.key_exchange), λ h. ground (arith, t, b Flag.key_exchange)),
      (λ h. ground (arith, t, b Flag.unwrap), λ h. ground (arith, t, b Flag.unwrap)),
      (λ h. ground (arith, t, b Flag.sign), λ h. ground (arith, t, b Flag.sign)),
    )

-- What a cipher needs beside its bit and the period: for a symmetric key the outputs, which must
-- be known.
abbrev pub OutputsIfSymmetric : Rights → Option VideoOutputState → ℕ → Type 0
OutputsIfSymmetric r poll key_type =
    key_type ≡ KeyType.symmetric → (v : VideoOutputState) × (poll ≡ some v) × OutputsAllowed r v

same_state : (v w : VideoOutputState) → some v ≡ some w → w ≡ v
same_state v w e = cc

validate_iff :
    (r : Rights) (poll : Option VideoOutputState)
    → (validate_video_output_state (some r) poll ≡ true)
      ↔ ((v : VideoOutputState) × (poll ≡ some v) × OutputsAllowed r v)
unfolding validate_video_output_state
validate_iff r none = (λ h. cc, λ h. cc)
validate_iff r (some v) =
    let i = video_output_iff r v in
    (
      λ h. (v, refl, i.0 (ground arith)),
      λ h. ground (arith, i.1 (subst (OutputsAllowed r) (same_state v h.0 h.1) h.2)),
    )

cipher_iff :
    (r : Rights) (now : ℕ) (poll : Option VideoOutputState) (key_type bit : ℕ)
    → ((if not (bit_test r.usage_flags bit)
          then false
          else if not (allowed_time (some r) now)
          then false
          else if key_type == KeyType.symmetric && not (validate_video_output_state (some r) poll)
          then false
          else true)
        ≡ true)
      ↔ ((test_bit r.usage_flags (bit % 64) ≡ 1)
          × InPeriod r now
          × OutputsIfSymmetric r poll key_type)
cipher_iff r now poll key_type bit =
    let t = time_iff r now in
    let b = bit_test_iff r.usage_flags bit in
    let o = validate_iff r poll in
    (
      λ h. (ground (arith, b), ground (arith, t), λ e. o.0 (ground arith)),
      λ h. elim (ℕ_discrete key_type KeyType.symmetric) [
        | yes e ↦ ground (arith, b, t, o.1 (h.2 e))
        | no ne ↦ ground (arith, b, t)
      ],
    )

-- Decryption and encryption are each allowed exactly when their bit is set, the time is in the
-- period, and, for a symmetric key, the state of the video outputs is known and allowed.
pub allowed_cipher_iff :
    (r : Rights) (now : ℕ) (poll : Option VideoOutputState) (key_type : ℕ)
    → ((allowed_decrypt (some r) now poll key_type ≡ true)
        ↔ (Has r Flag.decrypt × InPeriod r now × OutputsIfSymmetric r poll key_type))
      × ((allowed_encrypt (some r) now poll key_type ≡ true)
          ↔ (Has r Flag.encrypt × InPeriod r now × OutputsIfSymmetric r poll key_type))
unfolding allowed_decrypt allowed_encrypt
allowed_cipher_iff r now poll key_type =
    (cipher_iff r now poll key_type Flag.decrypt, cipher_iff r now poll key_type Flag.encrypt)
