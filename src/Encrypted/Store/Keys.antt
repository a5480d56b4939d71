-- ===== src/Encrypted/Store/Keys.antt =====
-- Theorems on `Initialize` and `Unlock` of pkg/store/encrypted/encrypted.go: the store key under a KEK.
use hmacsecret.Base.{
  ◌≡◌, false, Bytes, length, trim, Option, some, ok, arith, refl, ap, ◌∙◌, Option-cases, inl, inr,
}
use hmacsecret.Base.Fallible.{Result-cases}
use hmacsecret.Store.{KekReference, EncryptionHeader, Context, validate_kek_reference}
use hmacsecret.Store.Backend.{EnvelopeBackend, IsBackend, View, later}
use hmacsecret.Encrypted.Wire.{format_version, header_aad}
use hmacsecret.Encrypted.Crypto.{Crypto, IsCrypto}
use hmacsecret.Encrypted.Blob.{
  validate_header, validate_key_enclave, clone_header, clone_kek_reference, random_enclave,
  wrap_enclave, key_size, nonce_size_x, store_id_size,
}
use hmacsecret.Encrypted.Blob.Laws.{
  IsKey, sealed, validate_blob-sealed, unwrap_enclave-sealed, wrap_enclave_inv,
  validate_header-nonce,
}
use hmacsecret.Encrypted.Store.{Store, zero_header, call, initialize, unlock, next_revision}

abbrev pub trim_reference : KekReference → KekReference
trim_reference ref = record ref { rp_id = trim ref.rp_id }

-- The header that `initialize` writes, before the wrapped key is added.
abbrev pub bare_header : KekReference → Bytes → EncryptionHeader
bare_header ref id = record zero_header {
  version = format_version;
  revision = 1;
  store_id = id;
  kek = trim_reference ref;
}

-- The header that `rotate_kek` writes, before the wrapped key is added.
abbrev pub next_header : EncryptionHeader → KekReference → EncryptionHeader
next_header h next = record h { revision = next_revision h.revision; kek = trim_reference next }

abbrev pub wrap_header : Crypto → EncryptionHeader → Bytes → Bytes → Bytes → EncryptionHeader
wrap_header c h k n d = record h { wrapped_dek = sealed c k n d (header_aad h) }

-- The authenticated data does not hold the wrapped key.
header_aad-wrap_header :
    (c : Crypto) (h : EncryptionHeader) (k n d : Bytes)
    → header_aad (wrap_header c h k n d) ≡ header_aad h
unfolding header_aad
header_aad-wrap_header c h k n d = refl

pub bare_header-valid :
    {c : Crypto} (law : IsCrypto c) (ref : KekReference) (k id n d : Bytes)
    → validate_kek_reference (trim_reference ref) ≡ ok tt
    → length id ≡ store_id_size
    → length n ≡ nonce_size_x
    → length d ≡ key_size
    → validate_header (wrap_header c (bare_header ref id) k n d) ≡ ok tt
unfolding validate_header
bare_header-valid law ref k id n d hr hi hn hd =
    ground
      (arith, validate_blob-sealed law k n d (header_aad (bare_header ref id)) hn (omega arith))

module _ {c : Crypto} {S : Type 0} (b : EnvelopeBackend S) where
  -- Unlocking opens the wrapped key.
  pub unlock_wrapped :
      (law : IsCrypto c) {v : View S} (ib : IsBackend b v) (ctx : Context) (kek : Option c.Enclave)
      (k n d : Bytes) (h : EncryptionHeader) (s : Store c S) (t : S)
      → ctx 0 ≡ false
      → v.Live (later 1 ctx)
      → s.backend ≡ some t
      → v.header t ≡ ok (wrap_header c h k n d)
      → IsKey c kek k
      → validate_header (wrap_header c h k n d) ≡ ok tt
      → length d ≡ key_size
      → (dek : Option c.Enclave) × IsKey c dek d
        × (unlock b ctx kek s ≡ (ok tt, record s { header = wrap_header c h k n d; dek = dek }))
  unfolding unlock call clone_header validate_key_enclave
  unlock_wrapped law ib ctx kek k n d h s t c0 c1 hb hh key valid hd =
      let (dek, holds, unwrapped) =
        unwrap_enclave-sealed law kek k n d (header_aad h) key
          (validate_header-nonce (wrap_header c h k n d) valid) hd in
      (
        dek,
        holds,
        ground (
          arith,
          ib.load (later 1 ctx) t c1,
          unwrapped,
          key.present,
          key.sized,
          header_aad-wrap_header c h k n d,
        ),
      )

  -- What `initialize` has done when it returns no error.
  pub record IsInitialized (ctx : Context) (ref : KekReference) (kek : Option c.Enclave)
      (id d n : Bytes) (s' : Store c S) : Type 0 where
    pub state : S
    pub key : Bytes
    pub dek : Option c.Enclave
    pub sealer : IsKey c kek key
    pub holds : IsKey c dek d
    pub valid : validate_kek_reference (trim_reference ref) ≡ ok tt
    pub accepted :
        (b.create_header (later 3 ctx) (wrap_header c (bare_header ref id) key n d) state).0 ≡ ok tt
    pub stored : s' ≡ record {
      backend =
          some (b.create_header (later 3 ctx) (wrap_header c (bare_header ref id) key n d) state).1;
      header = wrap_header c (bare_header ref id) key n d;
      dek = dek;
    }

  pub initialize_inv :
      (law : IsCrypto c) (ctx : Context) (ref : KekReference) (kek : Option c.Enclave)
      (id d n : Bytes) (s s' : Store c S)
      → length d ≡ key_size
      → initialize b ctx ref kek (some id) (some d) (some n) s ≡ (ok tt, s')
      → IsInitialized ctx ref kek id d n s'
  unfolding initialize call clone_header clone_kek_reference random_enclave
  initialize_inv law ctx ref kek id d n s s' hd e = elim (Option-cases s.backend) [
    | inl h ↦ absurd (ground arith)
    | inr (t0, h0) ↦
        let t1 : S = (b.load_header (later 1 ctx) t0).1 in
        let t2 : S = (b.list_envelopes (later 2 ctx) t1).1 in
        let (made, hm, sized, opens) = law.seals d (omega arith) in
        let holds : IsKey c (some made) d = record {
          enclave = made;
          present = refl;
          sized = sized ∙ hd;
          opens = opens;
        } in
        elim (Result-cases (b.list_envelopes (later 2 ctx) t1).0) [
          | inr (x, h) ↦ absurd (ground arith)
          | inl (aliases, h) ↦
              elim (Result-cases
                (wrap_enclave c kek (some made) (header_aad (bare_header ref id)) (some n))) [
                  | inr (x, hw) ↦ absurd (ground (arith, law.allocates 32))
                  | inl (blob, hw) ↦
                      let (k, n', key, hn, same) =
                        wrap_enclave_inv law kek (some made) d (header_aad (bare_header ref id))
                          (some n) blob holds hw in
                      record {
                        state = t2;
                        key = k;
                        dek = some made;
                        sealer = key;
                        holds = holds;
                        valid = ground arith;
                        accepted = ground (arith, law.allocates 32);
                        stored = ground (arith, law.allocates 32);
                      }
                ]
        ]
  ]

  -- Over a backend that keeps its contract and the new headers: after an `initialize` that returned no
  -- error and drew an id, a key and a nonce of full length, any handle on that backend is unlocked by
  -- the same KEK, under a live context, and holds the store key that was drawn; so does the handle that
  -- was initialized.
  pub unlock-initialize :
      (law : IsCrypto c) {v : View S} (ib : IsBackend b v) (ctx ctx' : Context) (ref : KekReference)
      (kek : Option c.Enclave) (id d n : Bytes) (s s' u : Store c S)
      → ((h : EncryptionHeader) → h.kek ≡ trim_reference ref → v.Keeps h)
      → length id ≡ store_id_size
      → length d ≡ key_size
      → length n ≡ nonce_size_x
      → ctx' 0 ≡ false
      → v.Live (later 1 ctx')
      → initialize b ctx ref kek (some id) (some d) (some n) s ≡ (ok tt, s')
      → u.backend ≡ s'.backend
      → IsKey c s'.dek d
        × ((dek : Option c.Enclave) × IsKey c dek d
            × (unlock b ctx' kek u ≡ (ok tt, record u { header = s'.header; dek = dek })))
  unlock-initialize law ib ctx ctx' ref kek id d n s s' u keeps hi hd hn c0 c1 e same =
      let i = initialize_inv law ctx ref kek id d n s s' hd e in
      let bare = bare_header ref id in
      let h = wrap_header c bare i.key n d in
      let t : S = (b.create_header (later 3 ctx) h i.state).1 in
      rw i.stored (
        record {
          enclave = i.holds.enclave;
          present = i.holds.present;
          sized = i.holds.sized;
          opens = i.holds.opens;
        },
        unlock_wrapped law ib ctx' kek i.key n d bare u t c0 c1
            (same ∙ ap (λ (r : Store c S). r.backend) i.stored)
            (ib.create_header (later 3 ctx) h i.state (keeps h refl) i.accepted) i.sealer
            (bare_header-valid law ref i.key id n d i.valid hi hn hd) hd,
      )
