-- ===== src/Encrypted/System/Invariant.antt =====
-- What ties a system of handles to its ledger (pkg/store/encrypted/encrypted.go).
use hmacsecret.Base.{
  ℕ, ◌==◌, ◌+◌, ◌≤◌, ◌≡◌, ◌≢◌, ◌⊎◌, inl, inr, Bytes, bytes_eq, bytes_eq_iff, length, Option, none,
  some, Result, ok, err, arith, sym, ap, subst, ◌∙◌, Bool-cases,
}
use hmacsecret.Store.{Error, Record, EncryptedBlob, EncryptionHeader, not_found, validate_record}
use hmacsecret.Store.Backend.{View, IsAlias}
use hmacsecret.Encrypted.Wire.{record_aad, decode_record}
use hmacsecret.Encrypted.Crypto.{Crypto}
use hmacsecret.Encrypted.Blob.{key_size, nonce_size_x, max_ciphertext, overhead, validate_header}
use hmacsecret.Encrypted.Blob.Laws.{IsKey, sealed}
use hmacsecret.Encrypted.Store.{Store}
use hmacsecret.Encrypted.Store.Records.{record_aad_store}
use hmacsecret.Encrypted.Store.Keys.{wrap_header}
use hmacsecret.Encrypted.System.{Handle, System, Ledger, called, write, store_at}

-- An envelope, as a read answers it, that carries what the ledger has under its alias.
abbrev pub Carries :
    Crypto → Bytes → EncryptionHeader → Bytes → Option Record → Result Error EncryptedBlob → Type 0
Carries c d head alias none r = r ≡ err not_found
Carries c d head alias (some rec) r =
    (n : Bytes) × (plaintext : Bytes) × (r ≡ ok (sealed c d n plaintext (record_aad head alias)))
    × (length n ≡ nonce_size_x)
    × (length plaintext + overhead ≤ max_ciphertext)
    × (decode_record alias plaintext ≡ ok rec)
    × (validate_record rec ≡ ok tt)

-- A handle that is locked, or holds the store key and the store's id.
abbrev pub Holds : {c : Crypto} → Bytes → EncryptionHeader → Handle c → Type 0
Holds {c} d head h = (h.dek ≡ none) ⊎ (IsKey c h.dek d × (h.header.store_id ≡ head.store_id))

pub record Serves {c : Crypto} {S : Type 0} (v : View S) (s : System c S) (m : Ledger)
    : Type 0 where
  pub store_key : Bytes
  pub nonce : Bytes
  pub bare : EncryptionHeader
  pub sized : length store_key ≡ key_size
  pub header : v.header s.state ≡ ok (wrap_header c bare m.kek nonce store_key)
  pub valid : validate_header (wrap_header c bare m.kek nonce store_key) ≡ ok tt
  pub handles : (i : ℕ) → Holds store_key bare (s.handles i)
  pub entries :
      (alias : Bytes)
      → IsAlias alias
      → Carries c store_key bare alias (m.records alias) (v.envelope s.state alias)

module _ {c : Crypto} where
  -- A key opens to one store key.
  pub IsKey-unique : {key : Option c.Enclave} {d e : Bytes} → IsKey c key d → IsKey c key e → d ≡ e
  IsKey-unique p q = ground (arith, p.present, q.present, p.opens, q.opens)

  pub Holds-key :
      {d e : Bytes} (head : EncryptionHeader) (h : Handle c)
      → Holds d head h
      → IsKey c h.dek e
      → (e ≡ d) × (h.header.store_id ≡ head.store_id)
  Holds-key head h (inl locked) key = absurd (ground (arith, key.present))
  Holds-key head h (inr (held, same)) key = (IsKey-unique key held, same)

  pub called-Holds :
      {S : Type 0} {d : Bytes} (head : EncryptionHeader) (s : System c S) (i : ℕ) (t : S)
      (h : Handle c)
      → ((j : ℕ) → Holds d head (s.handles j))
      → Holds d head h
      → (j : ℕ) → Holds d head ((called s i t h).handles j)
  called-Holds head s i t h all one j = elim (Bool-cases (i == j)) [
    | inl same ↦ rw same one
    | inr other ↦ rw other (all j)
  ]

-- Carried envelopes stay so under a header of the same store.
pub Carries-header :
    (c : Crypto) (d : Bytes) (head next : EncryptionHeader) (alias : Bytes) (rec : Option Record)
    (r : Result Error EncryptedBlob)
    → next.store_id ≡ head.store_id
    → Carries c d head alias rec r
    → Carries c d next alias rec r
Carries-header c d head next alias none r same h = h
Carries-header c d head next alias (some rec) r same (n, p, e, hn, small, dec, valid) = (
  n,
  p,
  e ∙ ap (λ a. ok (sealed c d n p a)) (record_aad_store head next alias (sym same)),
  hn,
  small,
  dec,
  valid,
)

-- One envelope was written, and the others are as before.
pub Carries-write :
    (c : Crypto) (d : Bytes) (head : EncryptionHeader) (alias : Bytes) (rec : Option Record)
    (m : Ledger) (before after : Bytes → Result Error EncryptedBlob)
    → ((j : Bytes) → IsAlias j → Carries c d head j (m.records j) (before j))
    → Carries c d head alias rec (after alias)
    → ((j : Bytes) → alias ≢ j → after j ≡ before j)
    → (j : Bytes) → IsAlias j
    → Carries c d head j ((write alias rec m).records j) (after j)
Carries-write c d head alias rec m before after old one others j ij =
    elim (Bool-cases (bytes_eq alias j)) [
      | inl same ↦
          rw same
            (subst (λ k. Carries c d head k rec (after k)) ((bytes_eq_iff alias j).0 same) one)
      | inr other ↦
          let apart : alias ≢ j = λ e. ground (arith, bytes_eq_iff alias j) in
          rw other
            (subst (λ r. Carries c d head j (m.records j) r) (sym (others j apart)) (old j ij))
    ]

module _ {c : Crypto} {S : Type 0} where
  pub store_at_inv :
      (t t0 x : S) (h h0 : Handle c)
      → store_at t h ≡ record (store_at t0 h0) { backend = some x }
      → (t ≡ x) × (h ≡ h0)
  store_at_inv t t0 x h h0 e =
      let some_same : ◌≡◌ {A = Option S} (some t) (some x) = ap (λ (r : Store c S). r.backend) e in
      (cc, ap (λ (r : Store c S). record { header = r.header; dek = r.dek }) e)
