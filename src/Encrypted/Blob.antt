-- ===== src/Encrypted/Blob.antt =====
-- Sealing and opening of pkg/store/encrypted/encrypted.go, and the checks on keys, envelopes and
-- headers. Random bytes are an argument: `none` where `rand.Read` fails.
pub mod Laws
use hmacsecret.Base.{
  ℕ, ◌+◌, ◌-◌, ◌*◌, Bool, not, ◌&&◌, ◌||◌, Bytes, [], ◌++◌, length, ltb, ◌==◌, bytes_eq, codes,
  Option, none, some, Result, ok, err, fail_if, if◌then◌else◌,
}
use hmacsecret.Base.Fallible.{◌>>=◌, ◌>>◌}
use hmacsecret.Store.{
  Error, KekReference, EncryptedBlob, EncryptionHeader, invalid_record, unsupported_format, bad_key,
  entropy, allocation, integrity, panic, foreign, validate_kek_reference,
}
use hmacsecret.Encrypted.Wire.{format_version}
use hmacsecret.Encrypted.Crypto.{Crypto}

abbrev pub algorithm_xchacha20poly1305 : Bytes
algorithm_xchacha20poly1305 = codes "xchacha20poly1305-v1"

abbrev pub store_id_size : ℕ
store_id_size = 16

abbrev pub max_ciphertext : ℕ
max_ciphertext = 4 * 1048576

-- chacha20poly1305.KeySize, NonceSizeX and Overhead
abbrev pub key_size : ℕ
key_size = 32

abbrev pub nonce_size_x : ℕ
nonce_size_x = 24

abbrev pub overhead : ℕ
overhead = 16

unfoldable pub validate_blob : EncryptedBlob → Result Error (Unit {0})
validate_blob blob = do
  fail_if
      (not (blob.version == format_version)
        || not (bytes_eq blob.algorithm algorithm_xchacha20poly1305))
      unsupported_format
  fail_if (not (length blob.nonce == nonce_size_x)) invalid_record
  fail_if (ltb (length blob.ciphertext) overhead) invalid_record
  fail_if (ltb max_ciphertext (length blob.ciphertext)) invalid_record

unfoldable pub validate_header : EncryptionHeader → Result Error (Unit {0})
validate_header header = do
  fail_if (not (header.version == format_version)) unsupported_format
  fail_if (header.revision == 0) invalid_record
  fail_if (not (length header.store_id == store_id_size)) invalid_record
  validate_kek_reference header.kek
  validate_blob header.wrapped_dek

-- The copies share no memory with what they copy; as values they are equal.
unfoldable pub clone_kek_reference : KekReference → KekReference
clone_kek_reference ref = record {
  credential_id = [] ++ ref.credential_id;
  salt = [] ++ ref.salt;
  rp_id = ref.rp_id;
}

unfoldable pub clone_blob : EncryptedBlob → EncryptedBlob
clone_blob blob = record {
  version = blob.version;
  algorithm = blob.algorithm;
  nonce = [] ++ blob.nonce;
  ciphertext = [] ++ blob.ciphertext;
}

unfoldable pub clone_header : EncryptionHeader → EncryptionHeader
unfolding clone_kek_reference clone_blob
clone_header header = record {
  version = header.version;
  revision = header.revision;
  store_id = [] ++ header.store_id;
  kek = clone_kek_reference header.kek;
  wrapped_dek = clone_blob header.wrapped_dek;
}

abbrev pub or_fail {ℓ} : {A : Type ℓ} → Option A → Error → Result Error A
or_fail none e = err e
or_fail (some a) e = ok a

-- A `*memguard.Enclave` may be nil: `none`.
module _ (c : Crypto) where
  unfoldable pub validate_key_enclave : Option c.Enclave → Result Error (Unit {0})
  validate_key_enclave none = err bad_key
  validate_key_enclave (some e) = fail_if (not (c.size e == key_size)) bad_key

  -- The key as `fn` sees it: `fn` works with the AEAD of these bytes.
  unfoldable pub with_aead {ℓ} :
      {A : Type ℓ} → Option c.Enclave → (Bytes → Result Error A) → Result Error A
  with_aead none fn = err panic
  with_aead (some e) fn = do
    buf ← or_fail (c.open_enclave e) (foreign 0)
    fail_if (not (c.new_x buf)) (foreign 1)
    fn buf

  unfoldable pub seal : Option c.Enclave → Bytes → Bytes → Option Bytes → Result Error EncryptedBlob
  seal key plaintext aad random = do
    validate_key_enclave key
    nonce ← or_fail random entropy
    ciphertext ← with_aead key (λ k. ok (c.aead_seal k nonce plaintext aad))
    ok (record {
      version = format_version;
      algorithm = algorithm_xchacha20poly1305;
      nonce = nonce;
      ciphertext = ciphertext;
    })

  unfoldable pub open_locked : Option c.Enclave → EncryptedBlob → Bytes → Result Error Bytes
  open_locked key blob aad = do
    validate_key_enclave key
    validate_blob blob
    let size = length blob.ciphertext - overhead
    fail_if (not (c.new_buffer size == size)) allocation
    with_aead key (λ k. do
      opened ← or_fail (c.aead_open k blob.nonce blob.ciphertext aad) integrity
      fail_if (not (length opened == size) || ltb 0 size && not (c.opens_in_place size)) integrity
      ok opened)

  unfoldable pub random_enclave : ℕ → Option Bytes → Result Error (Option c.Enclave)
  random_enclave size random = do
    fail_if (not (c.new_buffer size == size)) allocation
    plaintext ← or_fail random entropy
    ok (c.seal_buffer plaintext)

  unfoldable pub wrap_enclave :
      Option c.Enclave → Option c.Enclave → Bytes → Option Bytes → Result Error EncryptedBlob
  wrap_enclave kek none aad random = err bad_key
  wrap_enclave kek (some e) aad random = do
    validate_key_enclave (some e)
    buf ← or_fail (c.open_enclave e) (foreign 0)
    seal kek buf aad random

  unfoldable pub unwrap_enclave :
      Option c.Enclave → EncryptedBlob → Bytes → Result Error (Option c.Enclave)
  unwrap_enclave kek blob aad = do
    plaintext ← open_locked kek blob aad
    fail_if (not (length plaintext == key_size)) integrity
    ok (c.seal_buffer plaintext)
