-- ===== src/Examples/Processing.antt =====
-- 16 bytes that go through a cipher of AES-CTR, from one clear buffer to another.
use tasecureapi.Prelude.{
  ℕ, ◌≡◌, refl, true, Option, none, some, [], ◌∷◌, arith, status_ok, invalid_parameter,
}
use tasecureapi.Prelude.CipherAlgorithm
use tasecureapi.Prelude.CipherMode
use tasecureapi.Memory.{add_overflow, is_valid_clear}
use tasecureapi.Rights.{
  allowed_decrypt, allowed_clear, allowed_time, allowed_video_output_state,
  validate_video_output_state, bit_test,
}
use tasecureapi.Svp.{Memory}
use tasecureapi.Buffer.{Buffer, clear_buffer, other_buffer, convert_buffer, convert_clear}
use tasecureapi.Symmetric.{EvpUpdate, context_decrypt}
use tasecureapi.Symmetric.Last.{context_decrypt_last}
use tasecureapi.CipherProcess.Types.{Cipher, Calls, Decrypted, Environment}
use tasecureapi.CipherProcess.Handlers.{required_length, process_symmetric, process_algorithm}
use tasecureapi.CipherProcess.Last
use tasecureapi.CipherProcess.Last.{last_stream, last_algorithm}
use tasecureapi.CipherProcess.Command.{
  Request, command, with_acquired, with_cipher, with_out, with_buffers, client_reference,
  cipher_lock, process_variant, process, process_last,
}
use tasecureapi.CipherProcess.Releases.{held_after, command-released}
use tasecureapi.CipherProcess.Processed.{Processed, process_allowed, process_last_allowed}
use tasecureapi.CipherProcess.Bounds.{ChangedWithin, CallsFit}
use tasecureapi.CipherProcess.Within.{process_within}
use tasecureapi.Examples.Samples.{rights, outputs}

-- A cipher of OpenSSL that leaves the bytes as they are, and counts them.
abbrev same_bytes : ℕ → (ℕ → ℕ) → ℕ → EvpUpdate ℕ
same_bytes c from n = record { ok = true; length = n; context = c; bytes = from }

abbrev no_bytes : ℕ → EvpUpdate ℕ
no_bytes c = record { ok = true; length = 0; context = c; bytes = λ i. 0 }

abbrev nothing : Decrypted
nothing = record { status = invalid_parameter; length = 0; written = 0; bytes = λ i. 0 }

abbrev calls : Calls ℕ
calls = record {
  evp = record {
    decrypt_update = same_bytes;
    encrypt_update = same_bytes;
    decrypt_init = λ c nonce counter. (true, c);
    encrypt_init = λ c nonce counter. (true, c);
  };
  finals = record {
    decrypt_final = no_bytes;
    encrypt_final = no_bytes;
    get_tag = λ c. (true, λ i. 0);
    set_tag = λ c tag n. (true, c);
  };
  asymmetric = record {
    rsa_decrypt_pkcs1v15 = λ room key from n. nothing;
    rsa_decrypt_oaep = λ room key p from n. nothing;
    ec_decrypt_elgamal = λ room key from n. nothing;
  };
}

abbrev env : Environment
env = record {
  acquire_svp = λ handle. (invalid_parameter, none);
  now = 150;
  outputs = some outputs;
}

abbrev cipher : Cipher ℕ
cipher = record {
  algorithm = CipherAlgorithm.aes_ctr;
  mode = CipherMode.decrypt_mode;
  rights = some rights;
  key_size = 16;
  context = some (record {
    cipher_algorithm = CipherAlgorithm.aes_ctr;
    cipher_mode = CipherMode.decrypt_mode;
    evp_cipher = 0;
  });
  stored_key = 3;
  oaep = record { digest_algorithm = 0; mgf1_digest_algorithm = 0; label = none; label_length = 0 };
}

abbrev out : Buffer
out = clear_buffer 100 64 16

abbrev input : Buffer
input = clear_buffer 200 64 0

abbrev request : Buffer → Request
request b = record { out = some b; input = some input; count = some 16 }

abbrev memory : Memory
memory a = a

process_succeeds :
    (process calls env true (request out) status_ok (status_ok, some cipher) memory).status
    ≡ status_ok
unfolding process command with_acquired with_cipher with_out with_buffers process_algorithm
    process_symmetric required_length context_decrypt convert_buffer convert_clear add_overflow
    is_valid_clear allowed_clear allowed_decrypt allowed_time allowed_video_output_state
    validate_video_output_state bit_test
process_succeeds = refl

last_succeeds :
    (process_last calls env none true
      (request out)
      status_ok
      (status_ok, some cipher)
      memory).status
    ≡ status_ok
unfolding process_last command with_acquired with_cipher with_out with_buffers last_algorithm
    last_stream Last.required_length context_decrypt_last convert_buffer convert_clear add_overflow
    is_valid_clear allowed_clear allowed_decrypt allowed_time allowed_video_output_state
    validate_video_output_state bit_test
last_succeeds = refl

process_allowed_example :
    (b : Buffer) × (◌≡◌ {A = Option Buffer} (some input) (some b))
    × Processed env (status_ok, some cipher) out b
process_allowed_example =
    process_allowed calls env true (request out) status_ok (status_ok, some cipher) memory out refl
      process_succeeds

process_last_allowed_example :
    (b : Buffer) × (◌≡◌ {A = Option Buffer} (some input) (some b))
    × Processed env (status_ok, some cipher) out b
process_last_allowed_example =
    process_last_allowed calls env true (request out) status_ok (status_ok, some cipher) memory out
      refl none last_succeeds

-- The buffer of an unknown type.
command-released_example :
    held_after
      (command
        (process_variant calls env)
        env
        true
        (request other_buffer)
        status_ok
        (status_ok, some cipher)
        memory).events
      []
    ≡ some (cipher_lock ∷ client_reference ∷ [])
command-released_example =
    command-released (process_variant calls env) env true (request other_buffer) status_ok
      (status_ok, some cipher) memory

-- A cipher that takes PKCS7 padding off.
abbrev padded_cipher : Cipher ℕ
padded_cipher = record cipher {
  algorithm = CipherAlgorithm.aes_cbc_pkcs7;
  context = some (record {
    cipher_algorithm = CipherAlgorithm.aes_cbc_pkcs7;
    cipher_mode = CipherMode.decrypt_mode;
    evp_cipher = 0;
  });
}

fits : CallsFit calls padded_cipher 16
fits = record {
  encrypt = λ context from e. ((λ blocks. (refl, omega arith)), λ stream. cc);
  decrypt = λ context from e bare. cc;
  decrypt_padded = λ context from e padded. omega arith;
  pkcs1v15 = λ room key from. omega arith;
  oaep = λ room key from. omega arith;
  elgamal = λ from. omega arith;
}

process_within_example :
    ChangedWithin 100 80 memory
      (process calls env true (request out) status_ok (status_ok, some padded_cipher) memory).memory
process_within_example =
    process_within calls env padded_cipher 16 (omega arith) fits memory true (some input) out
      status_ok status_ok
