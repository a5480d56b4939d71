-- ===== src/Encrypted/Store/Records.antt =====
-- Theorems on `Put` and `Get` of pkg/store/encrypted/encrypted.go: records through the encrypted store.
use hmacsecret.Base.{
  ◌+◌, ◌≤◌, ◌≡◌, ◌≢◌, false, Bytes, length, trim, trim_idem, Option, some, ok, arith, refl, ap, ◌∙◌,
  Option-cases, Bool-cases, inl, inr,
}
use hmacsecret.Base.Fallible.{Result-cases}
use hmacsecret.Store.{
  Record, EncryptedBlob, EncryptionHeader, Context, validate_record, validate_alias, empty,
}
use hmacsecret.Store.Backend.{EnvelopeBackend, IsBackend, View, IsAlias, later}
use hmacsecret.Encrypted.Wire.{record_aad, encode_record, decode_record}
use hmacsecret.Encrypted.Wire.Payload.{decode_record-encode_record, length-encode_record}
use hmacsecret.Encrypted.Crypto.{Crypto, IsCrypto}
use hmacsecret.Encrypted.Blob.{
  clone_header, seal, open_locked, nonce_size_x, overhead, max_ciphertext,
  algorithm_xchacha20poly1305,
}
use hmacsecret.Encrypted.Blob.Laws.{
  IsKey, sealed, seal_inv, open_locked-sealed, open_locked_authentic,
}
use hmacsecret.Encrypted.Store.{Store, trim_record, call, snapshot, put, get}

pub valid-IsAlias :
    (rec : Record) → validate_record (trim_record rec) ≡ ok tt → IsAlias (trim rec.alias)
unfolding validate_record
valid-IsAlias rec h = record { trimmed = trim_idem rec.alias; filled = ground arith }

pub valid-salt : (rec : Record) → validate_record rec ≡ ok tt → length rec.salt ≡ 32
unfolding validate_record
valid-salt rec h = ground arith

pub record_aad_store :
    (h k : EncryptionHeader) (alias : Bytes)
    → h.store_id ≡ k.store_id
    → record_aad h alias ≡ record_aad k alias
unfolding record_aad
record_aad_store h k alias same = rw same

module _ {c : Crypto} {S : Type 0} (b : EnvelopeBackend S) where
  -- What `put` has done when it returns no error.
  pub record IsPut (ctx : Context) (rec : Record) (random : Option Bytes) (s s' : Store c S)
      : Type 0 where
    pub state : S
    pub key : Bytes
    pub nonce : Bytes
    pub plaintext : Bytes
    pub opened : s.backend ≡ some state
    pub unlocked : IsKey c s.dek key
    pub read : random ≡ some nonce
    pub valid : validate_record (trim_record rec) ≡ ok tt
    pub encoded : encode_record (trim_record rec) ≡ ok plaintext
    pub stored : s' ≡ record s {
      backend =
          some
            (b.put_envelope
              (later 1 ctx)
              (trim rec.alias)
              (sealed c key nonce plaintext (record_aad s.header (trim rec.alias)))
              state).1;
    }
    pub accepted :
        (b.put_envelope
          (later 1 ctx)
          (trim rec.alias)
          (sealed c key nonce plaintext (record_aad s.header (trim rec.alias)))
          state).0
        ≡ ok tt

  pub put_inv :
      IsCrypto c
      → (ctx : Context) (rec : Record) (random : Option Bytes) (s s' : Store c S)
      → put b ctx rec random s ≡ (ok tt, s')
      → IsPut ctx rec random s s'
  unfolding put call snapshot clone_header
  put_inv law ctx rec random s s' e = elim (Option-cases s.dek) [
    | inl h ↦ absurd (ground arith)
    | inr (d, hd) ↦ elim (Option-cases s.backend) [
      | inl h ↦ absurd (ground arith)
      | inr (t, ht) ↦ elim (Result-cases (encode_record (trim_record rec))) [
        | inr (x, h) ↦ absurd (ground arith)
        | inl (p, hp) ↦
            elim (Result-cases (seal c s.dek p (record_aad s.header (trim rec.alias)) random)) [
              | inr (x, h) ↦ absurd (ground arith)
              | inl (blob, hb) ↦
                  let (k, n, key, hr, same) =
                    seal_inv law s.dek p (record_aad s.header (trim rec.alias)) random blob hb in
                  record {
                    state = t;
                    key = k;
                    nonce = n;
                    plaintext = p;
                    opened = ht;
                    unlocked = key;
                    read = hr;
                    valid = ground arith;
                    encoded = hp;
                    stored = ground arith;
                    accepted = ground arith;
                  }
            ]
      ]
    ]
  ]

  -- A read of an envelope that this store sealed under the alias.
  pub get_sealed :
      (law : IsCrypto c) {v : View S} (ib : IsBackend b v) (ctx : Context)
      (raw alias k n plaintext : Bytes) (rec : Record) (s : Store c S) (t : S)
      → ctx 0 ≡ false
      → v.Live (later 1 ctx)
      → trim raw ≡ alias
      → IsAlias alias
      → IsKey c s.dek k
      → s.backend ≡ some t
      → length n ≡ nonce_size_x
      → length plaintext + overhead ≤ max_ciphertext
      → v.envelope t alias ≡ ok (sealed c k n plaintext (record_aad s.header alias))
      → decode_record alias plaintext ≡ ok rec
      → validate_record rec ≡ ok tt
      → get b ctx raw s ≡ (ok rec, s)
  unfolding get call snapshot clone_header validate_alias
  get_sealed law ib ctx raw alias k n plaintext rec s t c0 c1 ea ha key hb hn small held dec valid =
      let opened =
        open_locked-sealed law s.dek k n plaintext (record_aad s.header alias) key hn small in
      ground (arith, ib.get (later 1 ctx) alias t c1 ha, opened, ha.filled, key.present)

  -- Over a backend that keeps its contract and the store's envelopes: after a `put` that returned no
  -- error and drew a nonce of full length, `get` of the alias under a live context returns the record
  -- that was put, trimmed as `put` trims it, and changes nothing.
  pub get-put :
      (law : IsCrypto c) {v : View S} (ib : IsBackend b v) (ctx ctx' : Context) (rec : Record)
      (raw n : Bytes) (s s' : Store c S)
      → ((e : EncryptedBlob) → e.algorithm ≡ algorithm_xchacha20poly1305 → v.KeepsBlob e)
      → length n ≡ nonce_size_x
      → ctx' 0 ≡ false
      → v.Live (later 1 ctx')
      → trim raw ≡ trim rec.alias
      → put b ctx rec (some n) s ≡ (ok tt, s')
      → get b ctx' raw s' ≡ (ok (trim_record rec), s')
  get-put law ib ctx ctx' rec raw n s s' keeps hn c0 c1 ea e =
      let p = put_inv law ctx rec (some n) s s' e in
      let alias = trim rec.alias in
      let ha = valid-IsAlias rec p.valid in
      let hs = valid-salt (trim_record rec) p.valid in
      let blob = sealed c p.key p.nonce p.plaintext (record_aad s.header alias) in
      let t' : S = (b.put_envelope (later 1 ctx) alias blob p.state).1 in
      rw p.stored (
        get_sealed law ib ctx' raw alias p.key p.nonce p.plaintext (trim_record rec)
          (record s { backend = some t' }) t' c0 c1 ea ha
          (record {
            enclave = p.unlocked.enclave;
            present = p.unlocked.present;
            sized = p.unlocked.sized;
            opens = p.unlocked.opens;
          })
          refl (ground (arith, p.read))
          (omega (arith, length-encode_record (trim_record rec) p.plaintext p.encoded))
          (ib.put_envelope (later 1 ctx) alias blob p.state ha (keeps blob refl) p.accepted)
          (decode_record-encode_record (trim_record rec) p.plaintext (omega arith) p.encoded)
          p.valid)

  -- A `get` sees of the backend what it keeps under the alias, and nothing else.
  pub get_view :
      {v : View S} (ib : IsBackend b v) (ctx : Context) (raw : Bytes) (s : Store c S) (t t' : S)
      → ctx 0 ≡ false
      → v.Live (later 1 ctx)
      → s.backend ≡ some t
      → v.envelope t' (trim raw) ≡ v.envelope t (trim raw)
      → (get b ctx raw (record s { backend = some t' })).0 ≡ (get b ctx raw s).0
  unfolding get call snapshot validate_alias
  get_view ib ctx raw s t t' c0 c1 hb same = elim (Bool-cases (empty (trim raw))) [
    | inl blank ↦ ground arith
    | inr filled ↦
        let ha : IsAlias (trim raw) = record { trimmed = trim_idem raw; filled = filled } in
        ground
          (arith, ib.get (later 1 ctx) (trim raw) t c1 ha, ib.get (later 1 ctx) (trim raw) t' c1 ha)
  ]

  -- Over a backend that keeps its contract, a `put` that returned no error does not change what `get`
  -- answers, under a live context, for any other alias.
  pub get-put_ne :
      (law : IsCrypto c) {v : View S} (ib : IsBackend b v) (ctx ctx' : Context) (rec : Record)
      (raw : Bytes) (random : Option Bytes) (s s' : Store c S)
      → ctx' 0 ≡ false
      → v.Live (later 1 ctx')
      → trim rec.alias ≢ trim raw
      → put b ctx rec random s ≡ (ok tt, s')
      → (get b ctx' raw s').0 ≡ (get b ctx' raw s).0
  get-put_ne law ib ctx ctx' rec raw random s s' c0 c1 ne e =
      let p = put_inv law ctx rec random s s' e in
      let alias = trim rec.alias in
      let blob = sealed c p.key p.nonce p.plaintext (record_aad s.header alias) in
      rw p.stored (
        get_view ib ctx' raw s p.state (b.put_envelope (later 1 ctx) alias blob p.state).1 c0 c1
          p.opened
          (ib.put_other (later 1 ctx) alias (trim raw) blob p.state (valid-IsAlias rec p.valid) ne
            p.accepted))

  -- Over a backend that keeps its contract and an AEAD that opens nothing but its own sealings: what an
  -- unlocked store's `get` returns under a live context was sealed by the store's key for this store and
  -- this alias. The backend's envelope is the sealing of the record's payload with that authenticated
  -- data, the record is valid, and nothing has changed.
  pub get_authentic :
      (law : IsCrypto c) {v : View S} (ib : IsBackend b v) (ctx : Context) (raw k : Bytes)
      (rec : Record) (s s' : Store c S) (t : S)
      → v.Live (later 1 ctx)
      → IsKey c s.dek k
      → s.backend ≡ some t
      → get b ctx raw s ≡ (ok rec, s')
      → (n : Bytes) × (plaintext : Bytes) × (v.envelope t (trim raw)
          ≡ ok (sealed c k n plaintext (record_aad s.header (trim raw))))
        × (decode_record (trim raw) plaintext ≡ ok rec)
        × (validate_record rec ≡ ok tt)
        × (s' ≡ s)
  unfolding get call snapshot validate_alias clone_header
  get_authentic law {v = v} ib ctx raw k rec s s' t c1 key hb e =
      elim (Bool-cases (empty (trim raw))) [
        | inl blank ↦ absurd (ground arith)
        | inr filled ↦
            let ha : IsAlias (trim raw) = record { trimmed = trim_idem raw; filled = filled } in
            let load = ib.get (later 1 ctx) (trim raw) t c1 ha in
            elim (Result-cases (v.envelope t (trim raw))) [
              | inr (x, h) ↦ absurd (ground (arith, load, key.present))
              | inl (blob, h) ↦
                  elim (Result-cases (open_locked c s.dek blob (record_aad s.header (trim raw)))) [
                    | inr (x, ho) ↦ absurd (ground (arith, load, key.present))
                    | inl (p, ho) ↦
                        let same =
                          open_locked_authentic law s.dek k blob (record_aad s.header (trim raw)) p
                            key ho in
                        (
                          blob.nonce,
                          p,
                          h ∙ ap ok same,
                          ground (arith, load, key.present),
                          ground (arith, load, key.present),
                          ground (arith, load, key.present),
                        )
                  ]
            ]
      ]

  -- Of the header a `get` uses the store's id alone.
  pub get_header :
      (ctx : Context) (raw : Bytes) (s : Store c S) (h : EncryptionHeader)
      → h.store_id ≡ s.header.store_id
      → (get b ctx raw (record s { header = h })).0 ≡ (get b ctx raw s).0
  unfolding get call snapshot clone_header
  get_header ctx raw s h same =
      let aad = record_aad_store h s.header (trim raw) same in
      elim (Option-cases s.dek) [
        | inl e ↦ ground arith
        | inr (d, e) ↦ elim (Option-cases s.backend) [
          | inl gone ↦ ground arith
          | inr (t, held) ↦ ground arith
        ]
      ]
