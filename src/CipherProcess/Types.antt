-- ===== src/CipherProcess/Types.antt =====
-- The data of ta_sa_crypto_cipher_process and ta_sa_crypto_cipher_process_last.
use tasecureapi.Prelude.{ℕ, ◌+◌, Option, Status, if◌then◌else◌, ltb, ◌^◌}
use tasecureapi.Rights.{Rights, VideoOutputState}
use tasecureapi.Svp.{Memory, SvpBuffer, memcpy, is_ok}
use tasecureapi.Symmetric.{EvpCalls, SymmetricContext, Updated}
use tasecureapi.Symmetric.Last.{EvpFinals, LastUpdated}
use tasecureapi.CipherInit.Algorithms.{OaepParameters}

-- What is read of a `cipher_t`: `cipher_get_algorithm`, `cipher_get_mode`, `cipher_get_key_rights`,
-- `cipher_get_key_size`, `cipher_get_symmetric_context`, `cipher_get_stored_key`, where 0 is NULL, and
-- `cipher_get_oaep_parameters`.
pub record Cipher (C : Type 0) : Type 0 where
  pub algorithm : ℕ
  pub mode : ℕ
  pub rights : Option Rights
  pub key_size : ℕ
  pub context : Option (SymmetricContext C)
  pub stored_key : ℕ
  pub oaep : OaepParameters

-- What a decryption with an asymmetric key gives: its status, the length that it stores, and how many
-- bytes it writes, with the bytes.
pub record Decrypted : Type 0 where
  pub status : Status
  pub length : ℕ
  pub written : ℕ
  pub bytes : ℕ → ℕ

-- `rsa_decrypt_pkcs1v15`, `rsa_decrypt_oaep` and `ec_decrypt_elgamal`, of the length of the output, the
-- stored key and the bytes of the input with their number.
pub record AsymmetricCalls : Type 0 where
  pub rsa_decrypt_pkcs1v15 : ℕ → ℕ → (ℕ → ℕ) → ℕ → Decrypted
  pub rsa_decrypt_oaep : ℕ → ℕ → OaepParameters → (ℕ → ℕ) → ℕ → Decrypted
  pub ec_decrypt_elgamal : ℕ → ℕ → (ℕ → ℕ) → ℕ → Decrypted

pub record Calls (C : Type 0) : Type 0 where
  pub evp : EvpCalls C
  pub finals : EvpFinals C
  pub asymmetric : AsymmetricCalls

pub record Environment : Type 0 where
  pub acquire_svp : ℕ → Status × Option SvpBuffer
  pub now : ℕ
  pub outputs : Option VideoOutputState

-- What the command passes on: the address and the length of the output, the address of the input, and
-- `*bytes_to_process`, with the memory.
pub record Call : Type 0 where
  pub out : ℕ
  pub out_length : ℕ
  pub input : ℕ
  pub count : ℕ
  pub memory : Memory

-- What comes back: the status, `*bytes_to_process`, the memory and the cipher.
pub record Handled (C : Type 0) : Type 0 where
  pub status : Status
  pub count : ℕ
  pub memory : Memory
  pub cipher : Cipher C

abbrev pub input_of : Call → ℕ → ℕ
input_of call i = call.memory (call.input + i)

module _ {C : Type 0} where
  -- A return in front of any call.
  abbrev pub returned : Cipher C → Call → Status → Handled C
  returned cipher call s = record {
    status = s;
    count = call.count;
    memory = call.memory;
    cipher = cipher;
  }

  -- `*bytes_to_process` changes only if the update succeeds.
  abbrev pub after_update : Cipher C → Call → Updated C → Handled C
  after_update cipher call u = record {
    status = u.status;
    count = if is_ok u.status then u.length else call.count;
    memory = memcpy call.memory call.out u.bytes (if ltb u.length (2 ^ 31) then u.length else 0);
    cipher = record cipher { context = Option.some u.context };
  }

  abbrev pub after_decrypted : Cipher C → Call → (Status → Status) → Decrypted → Handled C
  after_decrypted cipher call told d = record {
    status = told d.status;
    count = if is_ok d.status then d.length else call.count;
    memory = memcpy call.memory call.out d.bytes d.written;
    cipher = cipher;
  }

abbrev pub length_or : Option ℕ → ℕ → ℕ
length_or Option.none n = n
length_or (Option.some stored) n = stored

module _ {C : Type 0} where
  abbrev pub after_last : Cipher C → Call → ℕ → LastUpdated C → Handled C
  after_last cipher call count u = record {
    status = u.status;
    count = count;
    memory = memcpy call.memory call.out u.bytes u.written;
    cipher = record cipher { context = Option.some u.context };
  }
