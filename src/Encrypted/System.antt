-- ===== src/Encrypted/System.antt =====
-- Several handles of pkg/store/encrypted over one backend, as processes that opened the same database
-- have them. A step is one call of one handle; the calls of different handles come in any order.
pub mod Invariant
pub mod Entries
pub mod Keys
pub mod Steps
pub mod Reach
use hmacsecret.Base.{
  ℕ, ◌==◌, ◌+◌, ◌^◌, ◌<◌, ◌≡◌, false, Bytes, List, bytes_eq, length, trim, Option, none, some, ok,
  if◌then◌else◌,
}
use hmacsecret.Store.{Record, KekReference, EncryptedBlob, EncryptionHeader, Context}
use hmacsecret.Store.Backend.{EnvelopeBackend, View, later}
use hmacsecret.Encrypted.Crypto.{Crypto}
use hmacsecret.Encrypted.Blob.{nonce_size_x}
use hmacsecret.Encrypted.Blob.Laws.{IsKey}
use hmacsecret.Encrypted.Store.{
  Store, zero_header, trim_record, initialize, unlock, lock, rotate_kek, put, get, delete,
}
use hmacsecret.Encrypted.Store.Keys.{trim_reference}

-- What a handle keeps of its own.
pub record Handle (c : Crypto) : Type 0 where
  pub header : EncryptionHeader
  pub dek : Option c.Enclave

pub record System (c : Crypto) (S : Type 0) : Type 0 where
  pub state : S
  pub handles : ℕ → Handle c

abbrev pub store_at : {c : Crypto} {S : Type 0} → S → Handle c → Store c S
store_at t h = record { backend = some t; header = h.header; dek = h.dek }

abbrev pub handle_at : {c : Crypto} {S : Type 0} → System c S → ℕ → Store c S
handle_at s i = store_at s.state (s.handles i)

-- The state after a call of handle `i`.
abbrev pub called : {c : Crypto} {S : Type 0} → System c S → ℕ → S → Handle c → System c S
called s i t h = record { state = t; handles = λ j. if i == j then h else s.handles j }

-- What the store is for: records by their aliases, and the key that opens it.
pub record Ledger : Type 0 where
  pub records : Bytes → Option Record
  pub kek : Bytes

abbrev pub write : Bytes → Option Record → Ledger → Ledger
write alias rec m = record m { records = λ j. if bytes_eq alias j then rec else m.records j }

-- One call that returned no error, and what it does to the ledger. `unlocks` is given the KEK that the
-- store is under; `rotates` one whose reference the backend's encoding carries, before the revision
-- leaves its 64 bits.
pub data Step {c : Crypto} {S : Type 0} (b : EnvelopeBackend S) (v : View S) (s : System c S)
    (m : Ledger) : System c S → Ledger → Type 0 where
  puts :
      (i : ℕ) (ctx : Context) (rec : Record) (n : Bytes) (t : S) (h : Handle c)
      → length n ≡ nonce_size_x
      → put b ctx rec (some n) (handle_at s i) ≡ (ok tt, store_at t h)
      → Step b v s m (called s i t h) (write (trim rec.alias) (some (trim_record rec)) m)
  deletes :
      (i : ℕ) (ctx : Context) (raw : Bytes) (t : S) (h : Handle c)
      → delete b ctx raw (handle_at s i) ≡ (ok tt, store_at t h)
      → Step b v s m (called s i t h) (write (trim raw) none m)
  locks :
      (i : ℕ) (t : S) (h : Handle c)
      → lock (handle_at s i) ≡ (ok tt, store_at t h)
      → Step b v s m (called s i t h) m
  unlocks :
      (i : ℕ) (ctx : Context) (kek : Option c.Enclave) (t : S) (h : Handle c)
      → ctx 0 ≡ false
      → v.Live (later 1 ctx)
      → IsKey c kek m.kek
      → unlock b ctx kek (handle_at s i) ≡ (ok tt, store_at t h)
      → Step b v s m (called s i t h) m
  rotates :
      (i : ℕ) (ctx : Context) (next : KekReference) (kek : Option c.Enclave) (k n : Bytes) (t : S)
      (h : Handle c)
      → length n ≡ nonce_size_x
      → v.Live (later 1 ctx)
      → ((head : EncryptionHeader) → head.kek ≡ trim_reference next → v.Keeps head)
      → IsKey c kek k
      → (s.handles i).header.revision + 1 < 2 ^ 64
      → rotate_kek b ctx next kek (some n) (handle_at s i) ≡ (ok tt, store_at t h)
      → Step b v s m (called s i t h) (record m { kek = k })
