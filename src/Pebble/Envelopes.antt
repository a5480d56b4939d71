-- ===== src/Pebble/Envelopes.antt =====
-- The methods of pkg/store/pebble/pebble.go that the encrypted store calls, against its contract.
use hmacsecret.Base.{◌≡◌, ◌≢◌, false, Bytes, bytes_eq_iff, Option, some, ok, err, arith}
use hmacsecret.Store.{EncryptionHeader, EncryptedBlob, not_found}
use hmacsecret.Store.Backend.{IsBackend, View}
use hmacsecret.Pebble.Engine.{Db, IsDb, Codecs, RoundTrips}
use hmacsecret.Pebble.{backend}
use hmacsecret.Pebble.Keys.{encryption_header_key, envelope_key}
use hmacsecret.Pebble.Writes.{
  read_header, read_envelope, IsWritten, IsRemoved, load_lem, get_lem, create_inv, swap_inv,
  put_inv, delete_inv,
}

-- What reads of the Pebble store answer. JSON carries what its decoding returns.
abbrev pub view : {D : Type 0} → Db D → Codecs → View (Option D)
view db json = record {
  Live = λ ctx. ctx 0 ≡ false;
  header = read_header db json;
  envelope = read_envelope db json;
  Keeps = RoundTrips json.header_codec;
  KeepsBlob = RoundTrips json.blob_codec;
}

module _ {D : Type 0} (db : Db D) (json : Codecs) (law : IsDb db) where
  pub read_header-set :
      {s s' : Option D} (h : EncryptionHeader) (body : Bytes)
      → RoundTrips json.header_codec h
      → json.header_codec.marshal h ≡ some body
      → IsWritten db json s s' encryption_header_key body
      → read_header db json s' ≡ ok h
  unfolding read_header
  read_header-set h body keeps m w = rw w.after (
      ground (
        arith,
        keeps.returns body m,
        law.get-set encryption_header_key encryption_header_key body w.db_before w.done,
      ))

  pub read_header-set_ne :
      {s s' : Option D} (a body : Bytes)
      → IsWritten db json s s' (envelope_key a) body
      → read_header db json s' ≡ read_header db json s
  unfolding read_header
  read_header-set_ne a body w =
      rw (w.after, w.opened)
        (ground (arith, law.get-set (envelope_key a) encryption_header_key body w.db_before w.done))

  pub read_envelope-set_header :
      {s s' : Option D} (j body : Bytes)
      → IsWritten db json s s' encryption_header_key body
      → read_envelope db json s' j ≡ read_envelope db json s j
  unfolding read_envelope
  read_envelope-set_header j body w =
      rw (w.after, w.opened)
        (ground (arith, law.get-set encryption_header_key (envelope_key j) body w.db_before w.done))

  pub read_envelope-set :
      {s s' : Option D} (a : Bytes) (blob : EncryptedBlob) (body : Bytes)
      → RoundTrips json.blob_codec blob
      → json.blob_codec.marshal blob ≡ some body
      → IsWritten db json s s' (envelope_key a) body
      → read_envelope db json s' a ≡ ok blob
  unfolding read_envelope
  read_envelope-set a blob body keeps m w = rw w.after (
      ground (
        arith,
        keeps.returns body m,
        bytes_eq_iff a a,
        law.get-set (envelope_key a) (envelope_key a) body w.db_before w.done,
      ))

  pub read_envelope-set_ne :
      {s s' : Option D} (a j body : Bytes)
      → a ≢ j
      → IsWritten db json s s' (envelope_key a) body
      → read_envelope db json s' j ≡ read_envelope db json s j
  unfolding read_envelope
  read_envelope-set_ne a j body ne w =
      rw (w.after, w.opened)
        (ground (
          arith,
          bytes_eq_iff a j,
          law.get-set (envelope_key a) (envelope_key j) body w.db_before w.done,
        ))

  read_header-remove :
      {s s' : Option D} (a : Bytes)
      → IsRemoved db json s s' (envelope_key a)
      → read_header db json s' ≡ read_header db json s
  unfolding read_header
  read_header-remove a w =
      rw (w.after, w.opened)
        (ground (arith, law.get-delete (envelope_key a) encryption_header_key w.db_before w.done))

  pub read_envelope-remove :
      {s s' : Option D} (a : Bytes)
      → IsRemoved db json s s' (envelope_key a)
      → read_envelope db json s' a ≡ err not_found
  unfolding read_envelope
  read_envelope-remove a w = rw w.after (
      ground (
        arith,
        bytes_eq_iff a a,
        law.get-delete (envelope_key a) (envelope_key a) w.db_before w.done,
      ))

  pub read_envelope-remove_ne :
      {s s' : Option D} (a j : Bytes)
      → a ≢ j
      → IsRemoved db json s s' (envelope_key a)
      → read_envelope db json s' j ≡ read_envelope db json s j
  unfolding read_envelope
  read_envelope-remove_ne a j ne w =
      rw (w.after, w.opened)
        (ground (
          arith,
          bytes_eq_iff a j,
          law.get-delete (envelope_key a) (envelope_key j) w.db_before w.done,
        ))

  -- The Pebble store keeps the contract of an envelope backend: for headers and envelopes that JSON
  -- carries, a write that returns no error is what reads answer from then on, other names are
  -- untouched, and a header is created once and swapped only at its revision.
  pub backend-IsBackend : IsBackend (backend db json) (view db json)
  backend-IsBackend = record {
    load = load_lem db json;
    get = λ ctx a s c0 h. get_lem db json ctx a s c0 h;
    create_once = λ ctx h s e. (create_inv db json ctx h s e).2;
    create_header = λ ctx h s keeps e.
        let (body, m, _, w) = create_inv db json ctx h s e in read_header-set h body keeps m w;
    create_envelope = λ ctx h s j e.
        let (body, _, _, w) = create_inv db json ctx h s e in read_envelope-set_header j body w;
    swap_matches = λ ctx r h k s e held.
        let (_, current, _, now, same, _) = swap_inv db json ctx r h s e in ground (arith, now);
    swap_header = λ ctx r h s keeps e.
        let (body, _, m, _, _, w) = swap_inv db json ctx r h s e in
        read_header-set h body keeps m w;
    swap_envelope = λ ctx r h s j e.
        let (body, _, _, _, _, w) = swap_inv db json ctx r h s e in
        read_envelope-set_header j body w;
    put_once = λ ctx a blob s h e. (put_inv db json ctx a blob s h e).2;
    put_envelope = λ ctx a blob s h keeps e.
        let (body, m, _, w) = put_inv db json ctx a blob s h e in
        read_envelope-set a blob body keeps m w;
    put_other = λ ctx a j blob s h ne e.
        let (body, _, _, w) = put_inv db json ctx a blob s h e in
        read_envelope-set_ne a j body ne w;
    put_header = λ ctx a blob s h e.
        let (body, _, _, w) = put_inv db json ctx a blob s h e in read_header-set_ne a body w;
    delete_envelope = λ ctx a s h e. read_envelope-remove a (delete_inv db json ctx a s h e);
    delete_other =
        λ ctx a j s h ne e. read_envelope-remove_ne a j ne (delete_inv db json ctx a s h e);
    delete_header = λ ctx a s h e. read_header-remove a (delete_inv db json ctx a s h e);
  }
