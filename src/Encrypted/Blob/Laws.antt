-- ===== src/Encrypted/Blob/Laws.antt =====
-- Lemmas on `seal`, `openLocked`, `wrapEnclave` and `unwrapEnclave` of pkg/store/encrypted/encrypted.go.
use hmacsecret.Base.{
  ◌+◌, ◌-◌, ◌≤◌, ◌≡◌, Bytes, length, bytes_eq_iff, Option, none, some, ok, arith, refl, ◌∙◌,
  Option-cases, inl, inr,
}
use hmacsecret.Base.Fallible.{Result-cases}
use hmacsecret.Store.{EncryptedBlob, EncryptionHeader, validate_kek_reference}
use hmacsecret.Encrypted.Crypto.{Crypto, IsCrypto}
use hmacsecret.Encrypted.Blob.{
  validate_blob, validate_header, validate_key_enclave, with_aead, seal, open_locked, wrap_enclave,
  unwrap_enclave, key_size, nonce_size_x, max_ciphertext, algorithm_xchacha20poly1305, overhead,
}
use hmacsecret.Encrypted.Wire.{format_version}

-- A key that opens to these bytes.
pub record IsKey (c : Crypto) (key : Option c.Enclave) (k : Bytes) : Type 0 where
  pub enclave : c.Enclave
  pub present : key ≡ some enclave
  pub sized : c.size enclave ≡ key_size
  pub opens : c.open_enclave enclave ≡ some k

-- The envelope that `seal` makes.
abbrev pub sealed : (c : Crypto) → Bytes → Bytes → Bytes → Bytes → EncryptedBlob
sealed c k nonce plaintext aad = record {
  version = format_version;
  algorithm = algorithm_xchacha20poly1305;
  nonce = nonce;
  ciphertext = c.aead_seal k nonce plaintext aad;
}

module _ {c : Crypto} (law : IsCrypto c) where
  -- A sealing that succeeded had a key and a nonce, and made that envelope.
  pub seal_inv :
      (key : Option c.Enclave) (plaintext aad : Bytes) (random : Option Bytes)
      (blob : EncryptedBlob)
      → seal c key plaintext aad random ≡ ok blob
      → (k : Bytes) × (n : Bytes) × IsKey c key k
        × (random ≡ some n)
        × (blob ≡ sealed c k n plaintext aad)
  unfolding seal validate_key_enclave with_aead
  seal_inv none plaintext aad random blob e = absurd (cc)
  seal_inv (some key) plaintext aad none blob e = absurd (ground arith)
  seal_inv (some key) plaintext aad (some n) blob e = elim (Option-cases (c.open_enclave key)) [
    | inl closed ↦ absurd (ground arith)
    | inr (k, opened) ↦ (
      k,
      n,
      record { enclave = key; present = refl; sized = ground arith; opens = opened },
      refl,
      ground arith,
    )
  ]

  pub open_locked-sealed :
      (key : Option c.Enclave) (k n plaintext aad : Bytes)
      → IsKey c key k
      → length n ≡ nonce_size_x
      → length plaintext + overhead ≤ max_ciphertext
      → open_locked c key (sealed c k n plaintext aad) aad ≡ ok plaintext
  unfolding open_locked validate_key_enclave validate_blob with_aead
  open_locked-sealed key k n plaintext aad h hn small =
      let ct : Bytes = c.aead_seal k n plaintext aad in
      rw (h.present, validate_key_enclave)
        (ground (
          arith,
          law.length_seal k n plaintext aad,
          law.allocates (length ct - overhead),
          law.opened_size h.enclave k h.opens,
          law.takes_key k,
          law.opens k n plaintext aad,
          law.in_place (length ct - overhead),
        ))

  -- What opens was sealed by the key that opened it, with the same authenticated data.
  pub open_locked_authentic :
      (key : Option c.Enclave) (k : Bytes) (blob : EncryptedBlob) (aad plaintext : Bytes)
      → IsKey c key k
      → open_locked c key blob aad ≡ ok plaintext
      → blob ≡ sealed c k blob.nonce plaintext aad
  unfolding open_locked validate_key_enclave validate_blob with_aead
  open_locked_authentic key k blob aad plaintext h e =
      elim (Option-cases (c.aead_open k blob.nonce blob.ciphertext aad)) [
        | inl closed ↦ absurd (ground (arith, rw h.present at e))
        | inr (p, opened) ↦ ground (
          arith,
          rw h.present at e,
          bytes_eq_iff blob.algorithm algorithm_xchacha20poly1305,
          law.authentic k blob.nonce blob.ciphertext aad p opened,
        )
      ]

  pub validate_blob-sealed :
      (k n plaintext aad : Bytes)
      → length n ≡ nonce_size_x
      → length plaintext + overhead ≤ max_ciphertext
      → validate_blob (sealed c k n plaintext aad) ≡ ok tt
  unfolding validate_blob
  validate_blob-sealed k n plaintext aad hn small =
      ground (arith, law.length_seal k n plaintext aad)

  -- A store key that was wrapped is unwrapped by the same KEK.
  pub unwrap_enclave-sealed :
      (kek : Option c.Enclave) (k n d aad : Bytes)
      → IsKey c kek k
      → length n ≡ nonce_size_x
      → length d ≡ key_size
      → (dek : Option c.Enclave) × IsKey c dek d
        × (unwrap_enclave c kek (sealed c k n d aad) aad ≡ ok dek)
  unfolding unwrap_enclave
  unwrap_enclave-sealed kek k n d aad h hn hd =
      let (e, made, sized, opens) = law.seals d (omega arith) in
      let opened = open_locked-sealed kek k n d aad h hn (omega arith) in
      (
        some e,
        record { enclave = e; present = refl; sized = sized ∙ hd; opens = opens },
        ground (arith, opened, made),
      )

  pub wrap_enclave_inv :
      (kek dek : Option c.Enclave) (d aad : Bytes) (random : Option Bytes) (blob : EncryptedBlob)
      → IsKey c dek d
      → wrap_enclave c kek dek aad random ≡ ok blob
      → (k : Bytes) × (n : Bytes) × IsKey c kek k × (random ≡ some n) × (blob ≡ sealed c k n d aad)
  unfolding wrap_enclave validate_key_enclave
  wrap_enclave_inv kek none d aad random blob h e = absurd (cc)
  wrap_enclave_inv kek (some dek) d aad random blob h e =
      seal_inv kek d aad random blob (ground (arith, h.present, h.opens))

pub validate_header-nonce :
    (h : EncryptionHeader) → validate_header h ≡ ok tt → length h.wrapped_dek.nonce ≡ nonce_size_x
unfolding validate_header validate_blob
validate_header-nonce h e = elim (Result-cases (validate_kek_reference h.kek)) [
  | inl (u, p) ↦ ground arith
  | inr (x, p) ↦ absurd (ground arith)
]
