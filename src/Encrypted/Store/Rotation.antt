-- ===== src/Encrypted/Store/Rotation.antt =====
-- Theorems on `RotateKEK` of pkg/store/encrypted/encrypted.go: the store key under the next KEK.
use hmacsecret.Base.{
  ◌+◌, ◌^◌, ◌<◌, ◌≡◌, false, Bytes, length, trim, Option, some, ok, arith, refl, ap, ◌∙◌, inl, inr,
}
use hmacsecret.Base.Fallible.{Result-cases}
use hmacsecret.Store.{KekReference, EncryptionHeader, Context, validate_kek_reference}
use hmacsecret.Store.Backend.{EnvelopeBackend, IsBackend, View, later}
use hmacsecret.Encrypted.Wire.{header_aad}
use hmacsecret.Encrypted.Crypto.{Crypto, IsCrypto}
use hmacsecret.Encrypted.Blob.{
  validate_header, clone_header, clone_kek_reference, wrap_enclave, key_size, nonce_size_x,
}
use hmacsecret.Encrypted.Blob.Laws.{IsKey, validate_blob-sealed, wrap_enclave_inv}
use hmacsecret.Encrypted.Store.{Store, call, unlock, rotate_kek, get}
use hmacsecret.Encrypted.Store.Keys.{trim_reference, next_header, wrap_header, unlock_wrapped}
use hmacsecret.Encrypted.Store.Records.{get_view, get_header}

pub next_header-valid :
    {c : Crypto} (law : IsCrypto c) (h : EncryptionHeader) (next : KekReference) (k n d : Bytes)
    → validate_header h ≡ ok tt
    → validate_kek_reference (trim_reference next) ≡ ok tt
    → h.revision + 1 < 2 ^ 64
    → length n ≡ nonce_size_x
    → length d ≡ key_size
    → validate_header (wrap_header c (next_header h next) k n d) ≡ ok tt
unfolding validate_header
next_header-valid law h next k n d hv hr small hn hd =
    ground
      (arith, validate_blob-sealed law k n d (header_aad (next_header h next)) hn (omega arith))

module _ {c : Crypto} {S : Type 0} (b : EnvelopeBackend S) where
  -- What `rotate_kek` has done when it returns no error.
  pub record IsRotated (ctx : Context) (next : KekReference) (next_kek : Option c.Enclave)
      (d n : Bytes) (current : EncryptionHeader) (t : S) (s s' : Store c S) : Type 0 where
    pub key : Bytes
    pub sealer : IsKey c next_kek key
    pub valid : validate_kek_reference (trim_reference next) ≡ ok tt
    pub was_valid : validate_header current ≡ ok tt
    pub same_revision : current.revision ≡ s.header.revision
    pub accepted :
        (b.compare_and_swap_header
          (later 2 ctx)
          current.revision
          (wrap_header c (next_header current next) key n d)
          t).0
        ≡ ok tt
    pub stored : s' ≡ record s {
      backend =
          some
            (b.compare_and_swap_header
              (later 2 ctx)
              current.revision
              (wrap_header c (next_header current next) key n d)
              t).1;
      header = wrap_header c (next_header current next) key n d;
    }

  pub rotate_kek_inv :
      (law : IsCrypto c) {v : View S} (ib : IsBackend b v) (ctx : Context) (next : KekReference)
      (next_kek : Option c.Enclave) (d n : Bytes) (current : EncryptionHeader) (t : S)
      (s s' : Store c S)
      → v.Live (later 1 ctx)
      → s.backend ≡ some t
      → v.header t ≡ ok current
      → IsKey c s.dek d
      → rotate_kek b ctx next next_kek (some n) s ≡ (ok tt, s')
      → IsRotated ctx next next_kek d n current t s s'
  unfolding rotate_kek call clone_header clone_kek_reference
  rotate_kek_inv law ib ctx next next_kek d n current t s s' c1 hb hc holds e =
      let load = ib.load (later 1 ctx) t c1 in
      let aad = header_aad (next_header current next) in
      elim (Result-cases (wrap_enclave c next_kek s.dek aad (some n))) [
        | inr (x, hw) ↦ absurd (ground (arith, load, holds.present))
        | inl (blob, hw) ↦
            let (k, n', key, hn, same) =
              wrap_enclave_inv law next_kek s.dek d aad (some n) blob holds hw in
            record {
              key = k;
              sealer = key;
              valid = ground (arith, load, holds.present);
              was_valid = ground (arith, load, holds.present);
              same_revision = ground (arith, load, holds.present);
              accepted = ground (arith, load, holds.present);
              stored = ground (arith, load, holds.present);
            }
      ]

  -- Over a backend that keeps its contract and the rotated headers: after a rotation of an unlocked
  -- store that returned no error and drew a nonce of full length, any handle on the backend is unlocked
  -- by the next KEK, under a live context, and holds the same store key, and the header's revision is
  -- the next one. A revision that would leave the 64 bits is excluded.
  pub unlock-rotate_kek :
      (law : IsCrypto c) {v : View S} (ib : IsBackend b v) (ctx ctx' : Context)
      (next : KekReference) (next_kek : Option c.Enclave) (d n : Bytes) (current : EncryptionHeader)
      (t : S) (s s' u : Store c S)
      → ((h : EncryptionHeader) → h.kek ≡ trim_reference next → v.Keeps h)
      → length d ≡ key_size
      → length n ≡ nonce_size_x
      → current.revision + 1 < 2 ^ 64
      → v.Live (later 1 ctx)
      → ctx' 0 ≡ false
      → v.Live (later 1 ctx')
      → s.backend ≡ some t
      → v.header t ≡ ok current
      → IsKey c s.dek d
      → rotate_kek b ctx next next_kek (some n) s ≡ (ok tt, s')
      → u.backend ≡ s'.backend
      → (s'.header.revision ≡ current.revision + 1)
        × ((dek : Option c.Enclave) × IsKey c dek d
            × (unlock b ctx' next_kek u ≡ (ok tt, record u { header = s'.header; dek = dek })))
  unlock-rotate_kek law ib ctx ctx' next next_kek d n current t s s' u keeps hd hn small c1 d0 d1 hb
        hc holds e same =
      let r = rotate_kek_inv law ib ctx next next_kek d n current t s s' c1 hb hc holds e in
      let h = wrap_header c (next_header current next) r.key n d in
      let t' : S = (b.compare_and_swap_header (later 2 ctx) current.revision h t).1 in
      rw r.stored (
        omega arith,
        unlock_wrapped b law ib ctx' next_kek r.key n d (next_header current next) u t' d0 d1
            (same ∙ ap (λ (w : Store c S). w.backend) r.stored)
            (ib.swap_header (later 2 ctx) current.revision h t (keeps h refl) r.accepted) r.sealer
            (next_header-valid law current next r.key n d r.was_valid r.valid small hn hd) hd,
      )

  -- Over a backend that keeps its contract: a rotation that returned no error, on an unlocked handle
  -- that knows the header of its backend, changes what no `get` under a live context answers.
  pub get-rotate_kek :
      (law : IsCrypto c) {v : View S} (ib : IsBackend b v) (ctx ctx' : Context)
      (next : KekReference) (next_kek : Option c.Enclave) (d n raw : Bytes) (t : S)
      (s s' : Store c S)
      → v.Live (later 1 ctx)
      → ctx' 0 ≡ false
      → v.Live (later 1 ctx')
      → s.backend ≡ some t
      → v.header t ≡ ok s.header
      → IsKey c s.dek d
      → rotate_kek b ctx next next_kek (some n) s ≡ (ok tt, s')
      → (get b ctx' raw s').0 ≡ (get b ctx' raw s).0
  get-rotate_kek law ib ctx ctx' next next_kek d n raw t s s' c1 d0 d1 hb hc holds e =
      let r = rotate_kek_inv law ib ctx next next_kek d n s.header t s s' c1 hb hc holds e in
      let h = wrap_header c (next_header s.header next) r.key n d in
      let t' : S = (b.compare_and_swap_header (later 2 ctx) s.header.revision h t).1 in
      rw r.stored (
        get_header b ctx' raw (record s { backend = some t' }) h refl
        ∙ get_view b ib ctx' raw s t t' d0 d1 hb
            (ib.swap_envelope (later 2 ctx) s.header.revision h t (trim raw) r.accepted))
