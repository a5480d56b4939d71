-- ===== src/Encrypted/Store/Tamper.antt =====
-- A theorem on `Get` of pkg/store/encrypted/encrypted.go where the backend's envelopes were moved.
use hmacsecret.Base.{
  ◌^◌, ◌<◌, ◌≡◌, ◌≢◌, false, Bytes, length, trim, Option, none, some, ok, err, arith, sym, ◌+◌, ◌-◌,
  ◌≤◌, ◌⊎◌, inl, inr,
}
use hmacsecret.Store.{EncryptionHeader, Context, integrity, validate_alias}
use hmacsecret.Store.Backend.{EnvelopeBackend, IsBackend, View, IsAlias, later}
use hmacsecret.Encrypted.Wire.{record_aad}
use hmacsecret.Encrypted.Wire.Aad.{record_aad_injective}
use hmacsecret.Encrypted.Crypto.{Crypto, IsCrypto}
use hmacsecret.Encrypted.Blob.{
  clone_header, open_locked, validate_key_enclave, with_aead, nonce_size_x, overhead,
  max_ciphertext,
}
use hmacsecret.Encrypted.Blob.Laws.{IsKey, sealed, validate_blob-sealed}
use hmacsecret.Encrypted.Store.{Store, call, snapshot, get}

module _ {c : Crypto} (law : IsCrypto c) where
  open_locked_refused :
      (key : Option c.Enclave) (k n plaintext aad other : Bytes)
      → IsKey c key k
      → length n ≡ nonce_size_x
      → length plaintext + overhead ≤ max_ciphertext
      → c.aead_open k n (c.aead_seal k n plaintext aad) other ≡ none
      → open_locked c key (sealed c k n plaintext aad) other ≡ err integrity
  unfolding open_locked validate_key_enclave with_aead
  open_locked_refused key k n plaintext aad other h hn small closed =
      let ct : Bytes = c.aead_seal k n plaintext aad in
      rw (h.present, validate_key_enclave)
        (ground (
          arith,
          validate_blob-sealed law k n plaintext aad hn small,
          law.allocates (length ct - overhead),
          law.opened_size h.enclave k h.opens,
          law.takes_key k,
          closed,
        ))

module _ {c : Crypto} {S : Type 0} (b : EnvelopeBackend S) where
  -- A backend that keeps its contract holds, under one alias, what the store's key sealed for another
  -- alias or for another store, of sizes that the formats allow. If the AEAD refuses this ciphertext
  -- under every other authenticated data, then `get` under a live context returns `integrity` and
  -- changes nothing.
  pub get_moved :
      (law : IsCrypto c) {v : View S} (ib : IsBackend b v) (ctx : Context)
      (raw k n plaintext origin : Bytes) (from : EncryptionHeader) (s : Store c S) (t : S)
      → ctx 0 ≡ false
      → v.Live (later 1 ctx)
      → IsAlias (trim raw)
      → IsKey c s.dek k
      → s.backend ≡ some t
      → length n ≡ nonce_size_x
      → length plaintext + overhead ≤ max_ciphertext
      → length from.store_id < 2 ^ 32
      → length s.header.store_id < 2 ^ 32
      → length origin < 2 ^ 32
      → length (trim raw) < 2 ^ 32
      → ((from.store_id ≢ s.header.store_id) ⊎ (origin ≢ trim raw))
      → ((x : Bytes)
          → x ≢ record_aad from origin
          → c.aead_open k n (c.aead_seal k n plaintext (record_aad from origin)) x ≡ none)
      → v.envelope t (trim raw) ≡ ok (sealed c k n plaintext (record_aad from origin))
      → get b ctx raw s ≡ (err integrity, s)
  unfolding get call snapshot clone_header validate_alias
  get_moved law ib ctx raw k n plaintext origin from s t c0 c1 ha key hb hn small f0 s0 o0 r0 moved
        binds held =
      let aad = record_aad from origin in
      let mine = record_aad s.header (trim raw) in
      let other : mine ≢ aad = λ e.
        let (ids, names) =
          record_aad_injective from s.header origin (trim raw) f0 s0 o0 r0 (sym e) in
        elim moved [ inl ne ↦ ne ids | inr ne ↦ ne names ] in
      let refused =
        open_locked_refused law s.dek k n plaintext aad mine key hn small (binds mine other) in
      ground (arith, ib.get (later 1 ctx) (trim raw) t c1 ha, refused, ha.filled, key.present, held)
