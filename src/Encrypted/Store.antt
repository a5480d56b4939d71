-- ===== src/Encrypted/Store.antt =====
-- The operations of `Store` of pkg/store/encrypted/encrypted.go, over any envelope backend. An
-- operation is an action on the store's state; the mutex makes each change of `header` and `dek` one
-- step. Random bytes are arguments.
pub mod Records
pub mod Keys
pub mod Rotation
pub mod Locked
pub mod Tamper
use hmacsecret.Base.{
  ℕ, ◌+◌, ◌%◌, ◌^◌, Bool, not, Bytes, List, [], length, trim, ◌==◌, Option, none, some, Result, ok,
  err, fail_if, Exec, pure, lift,
}
use hmacsecret.Base.Stateful.{◌>>=◌, ◌>>◌}
use hmacsecret.Store.{
  Error, Record, KekReference, EncryptedBlob, EncryptionHeader, Context, check, exists, conflict,
  locked, panic, foreign, entropy, not_initialized, validate_alias, validate_record,
  validate_kek_reference,
}
use hmacsecret.Store.Backend.{EnvelopeBackend, later}
use hmacsecret.Encrypted.Wire.{format_version, header_aad, record_aad, encode_record, decode_record}
use hmacsecret.Encrypted.Crypto.{Crypto}
use hmacsecret.Encrypted.Blob.{
  key_size, or_fail, clone_kek_reference, clone_header, validate_header, validate_key_enclave, seal,
  open_locked, random_enclave, wrap_enclave, unwrap_enclave,
}

-- `backend` is nil after `Close`; `dek` is nil while the store is locked.
pub record Store (c : Crypto) (S : Type 0) : Type 0 where
  pub backend : Option S
  pub header : EncryptionHeader
  pub dek : Option c.Enclave

-- `store.EncryptionHeader{}`
abbrev pub zero_header : EncryptionHeader
zero_header = record {
  version = 0;
  revision = 0;
  store_id = [];
  kek = record { credential_id = []; salt = []; rp_id = [] };
  wrapped_dek = record { version = 0; algorithm = []; nonce = []; ciphertext = [] };
}

-- The test on the error of `LoadHeader` in `Initialize`: only `ErrNotInitialized` lets it go on.
abbrev pub require_absent : Result Error EncryptionHeader → Result Error (Unit {0})
require_absent (ok h) = err exists
require_absent (err not_initialized) = ok tt
require_absent (err e) = err e

-- `rotated.Revision++` on a uint64
abbrev pub next_revision : ℕ → ℕ
next_revision r = (r + 1) % 2 ^ 64

-- `rec.Alias` and `rec.RPID` are trimmed on the caller's copy.
abbrev pub trim_record : Record → Record
trim_record rec = record rec { alias = trim rec.alias; rp_id = trim rec.rp_id }

module _ {c : Crypto} {S : Type 0} where
  -- `New`: locked, and the owner of the backend. A nil backend is refused.
  unfoldable pub new : Option S → Result Error (Store c S)
  new none = err (foreign 2)
  new (some b) = ok (record { backend = some b; header = zero_header; dek = none })

  -- A method call on `s.backend`; on a nil interface it panics.
  unfoldable pub call {ℓ} : {A : Type ℓ} → Exec S Error A → Exec (Store c S) Error A
  call m s = elim s.backend [
    | none ↦ (err panic, s)
    | some t ↦ let (r, t') = m t in (r, record s { backend = some t' })
  ]

  -- A call whose error is looked at instead of returned.
  abbrev pub attempt {ℓ} :
      {A : Type ℓ} → Exec (Store c S) Error A → Exec (Store c S) Error (Result Error A)
  attempt m s = let (r, t) = m s in (ok r, t)

  unfoldable pub snapshot : Exec (Store c S) Error (EncryptionHeader × Option c.Enclave)
  snapshot s = elim s.dek [
    | none ↦ (err locked, s)
    | some e ↦ (ok (clone_header s.header, s.dek), s)
  ]

  abbrev pub set_key : EncryptionHeader → Option c.Enclave → Exec (Store c S) Error (Unit {0})
  set_key header dek s = (ok tt, record s { header = clone_header header; dek = dek })

  unfoldable pub lock : Exec (Store c S) Error (Unit {0})
  lock s = (ok tt, record s { header = zero_header; dek = none })

module _ {c : Crypto} {S : Type 0} (b : EnvelopeBackend S) where
  unfoldable pub header : Context → Exec (Store c S) Error EncryptionHeader
  header ctx = do
    header ← call (b.load_header ctx)
    lift (validate_header header)
    pure (clone_header header)

  unfoldable pub initialize :
      Context
      → KekReference
      → Option c.Enclave
      → Option Bytes
      → Option Bytes
      → Option Bytes
      → Exec (Store c S) Error (Unit {0})
  initialize ctx ref kek random_id random_dek random_nonce = do
    lift (check ctx)
    let ref' = record (clone_kek_reference ref) { rp_id = trim ref.rp_id }
    lift (validate_kek_reference ref')
    lift (validate_key_enclave c kek)
    loaded ← attempt (call (b.load_header (later 1 ctx)))
    lift (require_absent loaded)
    aliases ← call (b.list_envelopes (later 2 ctx))
    lift (fail_if (not (length aliases == 0)) conflict)
    store_id ← lift (or_fail random_id entropy)
    dek ← lift (random_enclave c key_size random_dek)
    let bare = record zero_header {
      version = format_version;
      revision = 1;
      store_id = store_id;
      kek = ref';
    }
    wrapped ← lift (wrap_enclave c kek dek (header_aad bare) random_nonce)
    let header = record bare { wrapped_dek = wrapped }
    call (b.create_header (later 3 ctx) header)
    set_key header dek

  unfoldable pub unlock : Context → Option c.Enclave → Exec (Store c S) Error (Unit {0})
  unlock ctx kek = do
    lift (check ctx)
    lift (validate_key_enclave c kek)
    header ← call (b.load_header (later 1 ctx))
    lift (validate_header header)
    dek ← lift (unwrap_enclave c kek header.wrapped_dek (header_aad header))
    set_key header dek

  -- `s.dek` as `RotateKEK` reads it under the lock.
  abbrev pub require_unlocked : Exec (Store c S) Error (EncryptionHeader × Option c.Enclave)
  require_unlocked s = elim s.dek [ none ↦ (err locked, s) | some e ↦ (ok (s.header, s.dek), s) ]

  -- `s.header = cloneHeader(rotated)`
  abbrev pub set_header : EncryptionHeader → Exec (Store c S) Error (Unit {0})
  set_header header s = (ok tt, record s { header = clone_header header })

  unfoldable pub rotate_kek :
      Context → KekReference → Option c.Enclave → Option Bytes → Exec (Store c S) Error (Unit {0})
  rotate_kek ctx next next_kek random_nonce = do
    lift (check ctx)
    let next' = record (clone_kek_reference next) { rp_id = trim next.rp_id }
    lift (validate_kek_reference next')
    lift (validate_key_enclave c next_kek)
    (own, dek) ← require_unlocked
    current ← call (b.load_header (later 1 ctx))
    lift (validate_header current)
    lift (fail_if (not (current.revision == own.revision)) conflict)
    let bare = record (clone_header current) {
      revision = next_revision current.revision;
      kek = next';
    }
    wrapped ← lift (wrap_enclave c next_kek dek (header_aad bare) random_nonce)
    let rotated = record bare { wrapped_dek = wrapped }
    call (b.compare_and_swap_header (later 2 ctx) current.revision rotated)
    set_header rotated

  unfoldable pub put : Context → Record → Option Bytes → Exec (Store c S) Error (Unit {0})
  put ctx rec random_nonce = do
    lift (check ctx)
    let rec' = trim_record rec
    lift (validate_record rec')
    (header, dek) ← snapshot
    plaintext ← lift (encode_record rec')
    blob ← lift (seal c dek plaintext (record_aad header rec'.alias) random_nonce)
    call (b.put_envelope (later 1 ctx) rec'.alias blob)

  unfoldable pub get : Context → Bytes → Exec (Store c S) Error Record
  get ctx alias = do
    lift (check ctx)
    let alias' = trim alias
    lift (validate_alias alias')
    (header, dek) ← snapshot
    blob ← call (b.get_envelope (later 1 ctx) alias')
    plaintext ← lift (open_locked c dek blob (record_aad header alias'))
    rec ← lift (decode_record alias' plaintext)
    lift (validate_record rec)
    pure rec

  unfoldable pub delete : Context → Bytes → Exec (Store c S) Error (Unit {0})
  delete ctx alias = do
    lift (check ctx)
    let alias' = trim alias
    lift (validate_alias alias')
    (_, _) ← snapshot
    call (b.delete_envelope (later 1 ctx) alias')

  unfoldable pub has : Context → Bytes → Exec (Store c S) Error Bool
  has ctx alias = do
    lift (check ctx)
    let alias' = trim alias
    lift (validate_alias alias')
    call (b.has_envelope (later 1 ctx) alias')

  unfoldable pub list : Context → Exec (Store c S) Error (List Bytes)
  list ctx = do lift (check ctx); call (b.list_envelopes (later 1 ctx))

  -- The store is locked first; a second `Close` finds no backend.
  unfoldable pub close : Exec (Store c S) Error (Unit {0})
  close s = elim s.backend [
    | none ↦ (ok tt, record s { header = zero_header; dek = none })
    | some t ↦
        let (r, _) = b.close t in (r, record { backend = none; header = zero_header; dek = none })
  ]
