-- ===== src/Pebble/Writes.antt =====
-- What the methods of the Pebble store write, and what reads answer (pkg/store/pebble/pebble.go).
use hmacsecret.Base.{
  ℕ, ◌≡◌, false, Bytes, Option, none, some, Result, ok, err, arith, refl, Option-cases, inl, inr,
}
use hmacsecret.Base.Fallible.{Result-cases}
use hmacsecret.Store.{
  Error, EncryptionHeader, EncryptedBlob, Context, panic, not_found, not_initialized,
  validate_alias,
}
use hmacsecret.Store.Backend.{IsAlias}
use hmacsecret.Pebble.Engine.{Db, Codecs}
use hmacsecret.Pebble.Keys.{encryption_header_key, envelope_key}
use hmacsecret.Pebble.{
  decoded, load_header, get_envelope, create_header, compare_and_swap_header, put_envelope,
  delete_envelope,
}

module _ {D : Type 0} (db : Db D) (json : Codecs) where
  -- What a read of the header, and of an envelope, answers.
  unfoldable pub read_header : Option D → Result Error EncryptionHeader
  read_header none = err panic
  read_header (some d) = elim (db.get encryption_header_key d) [
    | err e ↦ err e
    | ok none ↦ err not_initialized
    | ok (some body) ↦ decoded json.header_codec body
  ]

  unfoldable pub read_envelope : Option D → Bytes → Result Error EncryptedBlob
  read_envelope none a = err panic
  read_envelope (some d) a = elim (db.get (envelope_key a) d) [
    | err e ↦ err e
    | ok none ↦ err not_found
    | ok (some body) ↦ decoded json.blob_codec body
  ]

  pub load_lem :
      (ctx : Context) (s : Option D)
      → ctx 0 ≡ false
      → load_header db json ctx s ≡ (read_header s, s)
  unfolding load_header read_header
  load_lem ctx none c0 = ground arith
  load_lem ctx (some d) c0 = ground arith

  pub get_lem :
      (ctx : Context) (a : Bytes) (s : Option D)
      → ctx 0 ≡ false
      → IsAlias a
      → get_envelope db json ctx a s ≡ (read_envelope s a, s)
  unfolding get_envelope read_envelope validate_alias
  get_lem ctx a none c0 h = ground (arith, h.trimmed, h.filled)
  get_lem ctx a (some d) c0 h = ground (arith, h.trimmed, h.filled)

  -- One write, or one removal, that returned no error.
  pub record IsWritten (s s' : Option D) (key body : Bytes) : Type 0 where
    pub db_before : D
    pub opened : s ≡ some db_before
    pub done : (db.set key body db_before).0 ≡ ok tt
    pub after : s' ≡ some (db.set key body db_before).1

  pub record IsRemoved (s s' : Option D) (key : Bytes) : Type 0 where
    pub db_before : D
    pub opened : s ≡ some db_before
    pub done : (db.delete key db_before).0 ≡ ok tt
    pub after : s' ≡ some (db.delete key db_before).1

  pub create_inv :
      (ctx : Context) (h : EncryptionHeader) (s : Option D)
      → (create_header db json ctx h s).0 ≡ ok tt
      → (body : Bytes) × (json.header_codec.marshal h ≡ some body)
        × (read_header s ≡ err not_initialized)
        × IsWritten s (create_header db json ctx h s).1 encryption_header_key body
  unfolding create_header read_header
  create_inv ctx h none e = absurd (ground arith)
  create_inv ctx h (some d) e = elim (Option-cases (json.header_codec.marshal h)) [
    | inl m ↦ absurd (ground arith)
    | inr (body, m) ↦ elim (Result-cases (db.get encryption_header_key d)) [
      | inl (none, g) ↦ (
        body,
        m,
        ground arith,
        record { db_before = d; opened = refl; done = ground arith; after = ground arith },
      )
      | inl (some v, g) ↦ absurd (ground arith)
      | inr (x, g) ↦ absurd (ground arith)
    ]
  ]

  pub swap_inv :
      (ctx : Context) (r : ℕ) (h : EncryptionHeader) (s : Option D)
      → (compare_and_swap_header db json ctx r h s).0 ≡ ok tt
      → (body : Bytes) × (current : EncryptionHeader) × (json.header_codec.marshal h ≡ some body)
        × (read_header s ≡ ok current)
        × (current.revision ≡ r)
        × IsWritten s (compare_and_swap_header db json ctx r h s).1 encryption_header_key body
  unfolding compare_and_swap_header read_header
  swap_inv ctx r h none e = absurd (ground arith)
  swap_inv ctx r h (some d) e = elim (Option-cases (json.header_codec.marshal h)) [
    | inl m ↦ absurd (ground arith)
    | inr (body, m) ↦ elim (Result-cases (db.get encryption_header_key d)) [
      | inl (none, g) ↦ absurd (ground arith)
      | inr (x, g) ↦ absurd (ground arith)
      | inl (some v, g) ↦ elim (Option-cases (json.header_codec.unmarshal v)) [
        | inl u ↦ absurd (ground arith)
        | inr (current, u) ↦ (
          body,
          current,
          m,
          ground arith,
          ground arith,
          record { db_before = d; opened = refl; done = ground arith; after = ground arith },
        )
      ]
    ]
  ]

  pub put_inv :
      (ctx : Context) (a : Bytes) (blob : EncryptedBlob) (s : Option D)
      → IsAlias a
      → (put_envelope db json ctx a blob s).0 ≡ ok tt
      → (body : Bytes) × (json.blob_codec.marshal blob ≡ some body)
        × (read_envelope s a ≡ err not_found)
        × IsWritten s (put_envelope db json ctx a blob s).1 (envelope_key a) body
  unfolding put_envelope read_envelope validate_alias
  put_inv ctx a blob none h e = absurd (ground (arith, h.filled, h.trimmed))
  put_inv ctx a blob (some d) h e = elim (Option-cases (json.blob_codec.marshal blob)) [
    | inl m ↦ absurd (ground (arith, h.filled, h.trimmed))
    | inr (body, m) ↦ elim (Result-cases (db.get (envelope_key a) d)) [
      | inl (none, g) ↦ (
        body,
        m,
        ground arith,
        record {
          db_before = d;
          opened = refl;
          done = ground (arith, h.filled, h.trimmed);
          after = ground (arith, h.filled, h.trimmed);
        },
      )
      | inl (some v, g) ↦ absurd (ground (arith, h.filled, h.trimmed))
      | inr (x, g) ↦ absurd (ground (arith, h.filled, h.trimmed))
    ]
  ]

  pub delete_inv :
      (ctx : Context) (a : Bytes) (s : Option D)
      → IsAlias a
      → (delete_envelope db json ctx a s).0 ≡ ok tt
      → IsRemoved s (delete_envelope db json ctx a s).1 (envelope_key a)
  unfolding delete_envelope validate_alias
  delete_inv ctx a none h e = absurd (ground (arith, h.filled, h.trimmed))
  delete_inv ctx a (some d) h e = elim (Result-cases (db.get (envelope_key a) d)) [
    | inl (none, g) ↦ absurd (ground (arith, h.filled, h.trimmed))
    | inr (x, g) ↦ absurd (ground (arith, h.filled, h.trimmed))
    | inl (some v, g) ↦ record {
      db_before = d;
      opened = refl;
      done = ground (arith, h.filled, h.trimmed);
      after = ground (arith, h.filled, h.trimmed);
    }
  ]
