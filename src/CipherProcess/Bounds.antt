-- ===== src/CipherProcess/Bounds.antt =====
-- Where the functions for each kind of cipher write, and where the buffers of a request lie.
use tasecureapi.Prelude.{
  ℕ, ◌+◌, ◌^◌, ◌%◌, ◌≤◌, ◌<◌, ◌≡◌, refl, subst, ◌⊎◌, inl, inr, Bool, true, false, ◌&&◌, not, Option,
  none, some, arith, checks, ltb, ◌==◌, if◌then◌else◌, Status, Bool-cases,
}
use tasecureapi.Prelude.CipherAlgorithm
use tasecureapi.Prelude.CipherMode
use tasecureapi.Memory.{size_mod}
use tasecureapi.Svp.{Memory, is_ok, memcpy, get_svp_memory, get_size}
use tasecureapi.Buffer.{Buffer, clear_buffer, svp_buffer, other_buffer, convert_buffer}
use tasecureapi.Cenc.Verify.{bytes_of, is_known}
use tasecureapi.CipherStore.{is_symmetric}
use tasecureapi.Symmetric.{SymmetricContext, int_of_size, context_encrypt, context_decrypt}
use tasecureapi.Symmetric.Last.{count_of_int}
use tasecureapi.CipherProcess.Types.{
  Cipher, Calls, Environment, Call, Handled, Decrypted, returned, input_of, after_update,
  after_decrypted,
}
use tasecureapi.CipherProcess.Handlers
use tasecureapi.CipherProcess.Guards.{checks_passed}
use tasecureapi.Pad.{aes_block_size}
use tasecureapi.Svp.Bounds.{is_ok_lem}
use tasecureapi.CipherProcess.Handlers.{
  in_blocks, is_padded, symmetric_guards, mode_status, update, verified, process_symmetric,
  process_rsa_pkcs1v15, process_rsa_oaep, process_ec_elgamal, process_algorithm,
}

-- Memory that differs only in `count` bytes from an address on.
abbrev pub ChangedWithin : ℕ → ℕ → Memory → Memory → Type 0
ChangedWithin start count before after =
    (a : ℕ) → (a < start) ⊎ (start + count ≤ a) → after a ≡ before a

memcpy_within :
    (memory : Memory) (to n room : ℕ) (bytes : ℕ → ℕ)
    → n ≤ room
    → ChangedWithin to room memory (memcpy memory to bytes n)
memcpy_within memory to n room bytes le a outside = ground arith

-- The address and the size of a buffer of a request.
abbrev pub start_of : Environment → Buffer → ℕ
start_of env (clear_buffer address count offset) = address
start_of env (svp_buffer handle offset) = get_svp_memory (env.acquire_svp handle).1
start_of env other_buffer = 0

abbrev pub size_of : Environment → Buffer → ℕ
size_of env (clear_buffer address count offset) = count
size_of env (svp_buffer handle offset) = get_size (env.acquire_svp handle).1
size_of env other_buffer = 0

-- The bytes that a conversion accepts lie in the buffer.
pub converted_within :
    (env : Environment) (b : Buffer) (n : ℕ)
    → (let c = convert_buffer true true (some b) n true true env.acquire_svp in
        is_ok c.0 ≡ true
        → is_known b ≡ true
        → (start_of env b ≤ bytes_of c.1) × (bytes_of c.1 + n ≤ start_of env b + size_of env b))
unfolding convert_buffer
converted_within env (clear_buffer address count offset) n h k = (ground arith, ground arith)
converted_within env (svp_buffer handle offset) n h k = (ground arith, ground arith)
converted_within env other_buffer n h k = absurd (ground (arith, k))

-- Memory that differs only within a range differs only within a wider one.
pub wider :
    (start count start' count' : ℕ) (before after : Memory)
    → start' ≤ start
    → start + count ≤ start' + count'
    → ChangedWithin start count before after
    → ChangedWithin start' count' before after
wider start count start' count' before after lower upper within a outside =
    within a (ground (arith, outside, lower, upper))

-- What an update of `n` bytes writes by the documentation of OpenSSL: a cipher in blocks writes whole
-- blocks, and less than one more than it is given; with another cipher a block is one byte.
abbrev pub UpdateFits : ℕ → ℕ → ℕ → Type 0
UpdateFits algorithm n length =
    (in_blocks algorithm ≡ true
      → (count_of_int length % aes_block_size ≡ 0) × (count_of_int length < n + aes_block_size))
    × (in_blocks algorithm ≡ false → count_of_int length ≤ n)

-- What the calls document: the updates as above, but a decryption whose padding is on may use one block
-- more than it is given; a decryption with RSA writes at most `*out_length` bytes, and one with ElGamal at
-- most as many as the key has.
pub record CallsFit {C : Type 0} (calls : Calls C) (cipher : Cipher C) (count : ℕ) : Type 0 where
  pub encrypt :
      (context : SymmetricContext C) (from : ℕ → ℕ)
      → cipher.context ≡ some context
      → UpdateFits cipher.algorithm
          (int_of_size count)
          (calls.evp.encrypt_update context.evp_cipher from (int_of_size count)).length
  pub decrypt :
      (context : SymmetricContext C) (from : ℕ → ℕ)
      → cipher.context ≡ some context
      → is_padded cipher.algorithm ≡ false
      → UpdateFits cipher.algorithm
          (int_of_size count)
          (calls.evp.decrypt_update context.evp_cipher from (int_of_size count)).length
  pub decrypt_padded :
      (context : SymmetricContext C) (from : ℕ → ℕ)
      → cipher.context ≡ some context
      → is_padded cipher.algorithm ≡ true
      → count_of_int (calls.evp.decrypt_update context.evp_cipher from (int_of_size count)).length
        ≤ int_of_size count + aes_block_size
  pub pkcs1v15 :
      (room key : ℕ) (from : ℕ → ℕ)
      → (calls.asymmetric.rsa_decrypt_pkcs1v15 room key from count).written ≤ room
  pub oaep :
      (room key : ℕ) (from : ℕ → ℕ)
      → (calls.asymmetric.rsa_decrypt_oaep room key cipher.oaep from count).written ≤ room
  pub elgamal :
      (from : ℕ → ℕ)
      → (calls.asymmetric.ec_decrypt_elgamal count cipher.stored_key from count).written
        ≤ cipher.key_size

-- How many bytes behind the room that is asked for a cipher may use: a block, when it takes PKCS7 padding
-- off.
abbrev pub overhang : {C : Type 0} → Cipher C → ℕ
overhang cipher =
    if is_padded cipher.algorithm && not (cipher.mode == CipherMode.encrypt_mode)
    then aes_block_size
    else 0

blocks_fit :
    (count length : ℕ)
    → count % aes_block_size ≡ 0
    → length % aes_block_size ≡ 0
    → length < int_of_size count + aes_block_size
    → length ≤ count
blocks_fit count length even whole less = omega (arith, even, whole, less)

-- An update in blocks that is given whole blocks, or one of another cipher, writes at most what it is
-- given.
update_fits :
    (algorithm count length : ℕ)
    → (in_blocks algorithm && not (count % aes_block_size == 0)) ≡ false
    → UpdateFits algorithm (int_of_size count) length
    → count_of_int length ≤ count
update_fits algorithm count length whole fits = elim (Bool-cases (in_blocks algorithm)) [
  | inr stream ↦ let le = fits.1 stream in omega (arith, le)
  | inl blocks ↦
      let x = fits.0 blocks in
      let even : count % aes_block_size ≡ 0 = ground (arith, whole, blocks) in
      blocks_fit count (count_of_int length) even x.0 x.1
]

module _ {C : Type 0} where
  choice_within :
      (b : Bool) (x y : Handled C) (start room : ℕ) (memory : Memory)
      → (b ≡ true → ChangedWithin start room memory x.memory)
      → (b ≡ false → ChangedWithin start room memory y.memory)
      → ChangedWithin start room memory (if b then x else y).memory
  choice_within true x y start room memory hx hy = hx refl
  choice_within false x y start room memory hx hy = hy refl

module _ {C : Type 0} (calls : Calls C) (env : Environment) (cipher : Cipher C) (call : Call)
    (fit : CallsFit calls cipher call.count) where
  encrypted_within :
      (context : SymmetricContext C)
      → cipher.context ≡ some context
      → (in_blocks cipher.algorithm && not (call.count % aes_block_size == 0)) ≡ false
      → ChangedWithin call.out call.count call.memory
          (after_update cipher call
            (context_encrypt calls.evp context (input_of call) call.count)).memory
  unfolding context_encrypt
  encrypted_within context e whole =
      let u = context_encrypt calls.evp context (input_of call) call.count in
      let room =
        update_fits cipher.algorithm call.count
          (calls.evp.encrypt_update context.evp_cipher (input_of call)
            (int_of_size call.count)).length
          whole (fit.encrypt context (input_of call) e) in
      memcpy_within call.memory call.out (if ltb u.length (2 ^ 31) then u.length else 0) call.count
        u.bytes (ground (arith, room))

  decrypt_room :
      (context : SymmetricContext C)
      → cipher.context ≡ some context
      → (in_blocks cipher.algorithm && not (call.count % aes_block_size == 0)) ≡ false
      → count_of_int
          (calls.evp.decrypt_update context.evp_cipher
            (input_of call)
            (int_of_size call.count)).length
        ≤ call.count + (if is_padded cipher.algorithm then aes_block_size else 0)
  decrypt_room context e whole = elim (Bool-cases (is_padded cipher.algorithm)) [
    | inl padded ↦
        let room = fit.decrypt_padded context (input_of call) e padded in
        rw padded (omega (arith, room))
    | inr bare ↦
        let room =
          update_fits cipher.algorithm call.count
            (calls.evp.decrypt_update context.evp_cipher (input_of call)
              (int_of_size call.count)).length
            whole (fit.decrypt context (input_of call) e bare) in
        rw bare (omega (arith, room))
  ]

  decrypted_within :
      (context : SymmetricContext C)
      → cipher.context ≡ some context
      → (in_blocks cipher.algorithm && not (call.count % aes_block_size == 0)) ≡ false
      → ChangedWithin call.out
          (call.count + (if is_padded cipher.algorithm then aes_block_size else 0))
          call.memory
          (after_update cipher call
            (context_decrypt calls.evp context (input_of call) call.count)).memory
  unfolding context_decrypt
  decrypted_within context e whole =
      let u = context_decrypt calls.evp context (input_of call) call.count in
      let room = decrypt_room context e whole in
      memcpy_within call.memory call.out (if ltb u.length (2 ^ 31) then u.length else 0)
        (call.count + (if is_padded cipher.algorithm then aes_block_size else 0)) u.bytes
        (ground (arith, room))

  update_within :
      (context : Option (SymmetricContext C))
      → cipher.context ≡ context
      → (in_blocks cipher.algorithm && not (call.count % aes_block_size == 0)) ≡ false
      → ChangedWithin call.out
          (call.count + overhang cipher)
          call.memory
          (update calls env cipher call context).memory
  update_within none e whole = λ a outside. refl
  update_within (some context) e whole =
      choice_within (cipher.mode == CipherMode.encrypt_mode) _ _ call.out
        (call.count + overhang cipher) call.memory
        (λ b.
          wider call.out call.count call.out (call.count + overhang cipher) call.memory _
            (omega arith) (omega arith) (encrypted_within context e whole))
        (λ b.
          wider call.out (call.count + (if is_padded cipher.algorithm then aes_block_size else 0))
            call.out (call.count + overhang cipher) call.memory _ (omega arith) (ground (arith, b))
            (decrypted_within context e whole))

  process_symmetric_within :
      ChangedWithin call.out
        (call.count + overhang cipher)
        call.memory
        (process_symmetric calls env cipher call).memory
  unfolding process_symmetric
  process_symmetric_within =
      let guards = symmetric_guards env cipher call in
      let mode = mode_status env cipher in
      choice_within (is_ok (checks guards mode)) _ _ call.out (call.count + overhang cipher)
        call.memory
        (λ b.
          update_within cipher.context refl
            (checks_passed guards mode refl (is_ok_lem (checks guards mode) b)).0.0)
        (λ b a outside. refl)

  -- A decryption behind guards.
  decryption_within :
      (checked : Status) (told : Status → Status) (d : Decrypted) (room : ℕ)
      → d.written ≤ room
      → ChangedWithin call.out room call.memory
          (if is_ok checked
            then after_decrypted cipher call told d
            else returned cipher call checked).memory
  decryption_within checked told d room le =
      choice_within (is_ok checked) (after_decrypted cipher call told d)
        (returned cipher call checked) call.out room call.memory
        (λ ok. memcpy_within call.memory call.out d.written room d.bytes le) (λ bad a outside. refl)

  pkcs1v15_within :
      ChangedWithin call.out call.out_length call.memory
        (process_rsa_pkcs1v15 calls env cipher call).memory
  unfolding process_rsa_pkcs1v15
  pkcs1v15_within =
      decryption_within _ (λ s. s)
        (calls.asymmetric.rsa_decrypt_pkcs1v15 call.out_length cipher.stored_key (input_of call)
          call.count)
        call.out_length (fit.pkcs1v15 call.out_length cipher.stored_key (input_of call))

  oaep_within :
      ChangedWithin call.out call.out_length call.memory
        (process_rsa_oaep calls env cipher call).memory
  unfolding process_rsa_oaep
  oaep_within =
      decryption_within _ (λ s. s)
        (calls.asymmetric.rsa_decrypt_oaep call.out_length cipher.stored_key cipher.oaep
          (input_of call) call.count)
        call.out_length (fit.oaep call.out_length cipher.stored_key (input_of call))

  elgamal_within :
      ChangedWithin call.out cipher.key_size call.memory
        (process_ec_elgamal calls env cipher call).memory
  unfolding process_ec_elgamal
  elgamal_within =
      decryption_within _ (verified calls env cipher)
        (calls.asymmetric.ec_decrypt_elgamal call.count cipher.stored_key (input_of call)
          call.count)
        cipher.key_size (fit.elgamal (input_of call))

  -- The functions for asymmetric keys use no more than the room that is asked for.
  pub asymmetric_within :
      call.count < size_mod
      → is_symmetric cipher.algorithm ≡ false
      → call.out_length ≡ Handlers.required_length cipher.algorithm cipher.key_size call.count false
      → ChangedWithin call.out call.out_length call.memory
          (process_algorithm calls env cipher call).memory
  unfolding process_algorithm process_rsa_pkcs1v15 process_rsa_oaep process_ec_elgamal
      Handlers.required_length
  asymmetric_within small n room =
      let a = cipher.algorithm in
      elim (Bool-cases (a == CipherAlgorithm.rsa_pkcs1v15)) [
        | inl e ↦ rw (n, e) pkcs1v15_within
        | inr n1 ↦ elim (Bool-cases (a == CipherAlgorithm.rsa_oaep)) [
          | inl e ↦ rw (n, n1, e) oaep_within
          | inr n2 ↦ elim (Bool-cases (a == CipherAlgorithm.ec_elgamal)) [
            | inl e ↦
                let key : cipher.key_size ≡ call.out_length = ground (arith, n, e, room) in
                let within =
                  subst
                    (λ n.
                      ChangedWithin call.out n call.memory
                        (process_ec_elgamal calls env cipher call).memory)
                    key elgamal_within in
                rw (n, n1, n2, e) within
            | inr n3 ↦ rw (n, n1, n2, n3) (λ a outside. refl)
          ]
        ]
      ]

  -- With the room that `get_required_length` asks for, and the overhang.
  pub process_algorithm_within :
      call.count < size_mod
      → call.out_length ≡ Handlers.required_length cipher.algorithm cipher.key_size call.count false
      → ChangedWithin call.out
          (call.out_length + overhang cipher)
          call.memory
          (process_algorithm calls env cipher call).memory
  unfolding process_algorithm Handlers.required_length
  process_algorithm_within small room = elim (Bool-cases (is_symmetric cipher.algorithm)) [
    | inl e ↦
        let same : call.count ≡ call.out_length = ground (arith, e, room, small) in
        rw e (
          subst
            (λ n.
              ChangedWithin call.out (n + overhang cipher) call.memory
                (process_symmetric calls env cipher call).memory)
            same process_symmetric_within)
    | inr n ↦
        wider call.out call.out_length call.out (call.out_length + overhang cipher) call.memory _
          (omega arith) (omega arith) (asymmetric_within small n room)
  ]
