-- ===== src/Lib.antt =====
-- A model of the trusted application of the reference implementation, reference/src/taimpl.
--
-- Parts, and the files that model them:
--   * Memory: src/porting/memory.c and overflow.c, the comparison in constant time
--     (`memory_memcmp_constant`), the checks of ranges, and `add_overflow`.
--   * Slots: src/internal/slots.c, a bit field of allocated slots (`slots_init`, `slots_allocate`,
--     `slots_free`). Slots/Blocks has the laws of one block, Slots/Laws those of the bit field.
--   * ObjectStore: src/internal/object_store.c, a table of reference-counted objects with owners. It
--     takes its slots from Slots and compares owners with Memory. A function `object_store_f` is `f`;
--     what it does under its mutex is `f_locked`. ObjectStore/Valid has the invariant, Access the
--     outcomes of acquire, release and add, Remove those of remove and shutdown, and Threads the
--     interleavings of all of them.
--   * Rights: src/internal/rights.c, what the rights of a key allow. A function `rights_f` is `f`.
--     Flag and KeyUsage have the constants; Usage, Allowed, Caller and Parse the laws.
--   * Json: src/internal/json.c, the values that the callbacks of the parser build (Callbacks) and
--     the functions that read them (Access, Find). Documents has abstract documents, and Roundtrip and
--     Parse show what becomes of them.
--   * Pad: src/internal/pad.c, the padding of a block.
--   * Svp: src/porting/svp.c, the buffers of the secure video path.
--   * Buffer: src/internal/buffer.c, `convert_buffer`; it takes its checks from Memory and Svp.
--   * Symmetric: src/internal/symmetric.c, the updates of a context and the setting of its IV;
--     Symmetric/Last has the last updates and the tags.
--   * Cenc: src/internal/cenc.c, the decryption of a sample of common encryption: `decrypt`, the two
--     modes and the loops, from the setting of the IV on. Cenc/Process has `cenc_process_sample` as a
--     whole, and Cenc/Verify the checks of src/ta_sa_process_common_encryption.c. Counter has the calls
--     of EVP in counter mode and Rollover what `decrypt` makes of them; Layout, Length, Pattern and
--     Truncated, Verify/Accepted and Process/Verified have the laws. Symmetric gives the contexts, Buffer
--     the addresses, and Rights what a key allows.
--   * CipherStore: src/internal/cipher_store.c, the ciphers in an object store, and which keys and
--     contexts are freed. CipherStore/Owned says who owns them after an add.
--   * CipherInit: src/ta_sa_crypto_cipher_init.c, which makes a cipher for a key: it asks Rights and
--     KeySize, and puts the cipher into CipherStore. Algorithms has its functions for the algorithms;
--     Fits, Allowed, Outcome, Ownership and Oaep have the laws.
--   * CipherProcess: src/ta_sa_crypto_cipher_process.c and src/ta_sa_crypto_cipher_process_last.c, which
--     pass data through a cipher. Types has their data, Handlers and Last the functions for each kind of
--     cipher, over Symmetric and Symmetric/Last, and Command the two commands: what they share is
--     `command`, and where they differ is a `Variant`. Guards, Allowed, Processed, Releases, Bounds and
--     Within have the laws.
--   * StoredKey: src/internal/stored_key.c, the creation of a key and the rights of a child;
--     ChildRights and Created have the laws.
--   * KeyUnwrap: src/ta_sa_key_unwrap.c, which asks Rights and KeySize about the wrapping key, and in
--     Unwrap src/internal/unwrap.c, which takes the padding off with Pad and makes the key with
--     StoredKey. Imported and Allowed have the laws.
--   * Sign: src/ta_sa_crypto_sign.c, a signature with a key of the key store, which asks Rights and
--     KeySize. Algorithms and Allowed have the laws.
--   * KeyExchange: src/ta_sa_key_exchange.c, which asks Rights and KeySize about the keys; Kept says
--     which keys it leaves in the key store.
--   * KeySize: src/internal/key_type.c, the sizes of keys.
--   * Prelude: lists, tests, bits and the types of client/include/sa_types.h. Examples: runs on
--     concrete inputs; those of Partial are of `decrypt` behind a block that was begun before, which
--     the laws of Cenc leave out: they ask for protected data in whole blocks.
--
-- Numbers are natural numbers, and a sum that the program computes in a machine type has its
-- wrap-around written out, with 64 bits for `size_t` and 32 bits for `int`. A pointer is its address
-- or an identity, and 0 is NULL; where only NULL matters it is an option. Logging is left out.
--
-- What is not decided by the source is an argument: whether an allocation, an initialisation or
-- `mtx_lock` succeeds; the time; what `video_output_poll` answers; the callbacks that yajl makes
-- for a text and whether it accepts the text; the digest of a range; the SVP buffer and the cipher
-- that the stores hand out to the code of Cenc and of CipherProcess; the calls of EVP on a context
-- of OpenSSL, and whether it makes one; the decryptions and the signatures of rsa.c and ec.c; the
-- shared secrets of dh.c and ec.c and the derivations of netflix.c; what the key store unwraps and
-- takes; the decryptions with a wrapping key and the sizes that the checks of private keys find.
-- The functions that wait for other threads take a list of turns, one for each pass of their loop,
-- with what the other threads do before it; their result is `none` if they still wait when the list
-- ends. Loops over arrays recurse on the rounds that are left, which the code fixes before it
-- enters them. The loop over the stripes of a pattern has fuel: more rounds than the blocks of each
-- subsample are enough if the stripe to decrypt is not empty.
--
-- Not modelled: the other typed stores over the object store, the key containers, the other
-- cryptographic primitives (they call OpenSSL), the other commands of the trusted application, and
-- the client library.
pub mod Prelude
pub mod Memory
pub mod Rights
pub mod Json
pub mod Slots
pub mod Pad
pub mod Svp
pub mod Buffer
pub mod KeySize
pub mod Symmetric
pub mod StoredKey
pub mod CipherStore
pub mod CipherInit
pub mod CipherProcess
pub mod KeyUnwrap
pub mod Sign
pub mod KeyExchange
pub mod Cenc
pub mod ObjectStore
mod Examples
