-- ===== src/Sqlite/Writes.antt =====
-- What the methods of the SQLite store have written when they return no error, and what reads answer
-- (pkg/store/sqlite/sqlite.go).
use hmacsecret.Base.{
  ℕ, zero, suc, ◌==◌, Bool-cases, ◌≡◌, ◌≢◌, Bytes, Option, none, some, Result, ok, err, arith, refl,
  Option-cases, inl, inr,
}
use hmacsecret.Base.Fallible.{Result-cases}
use hmacsecret.Store.{
  Error, EncryptionHeader, EncryptedBlob, Context, panic, not_found, validate_alias,
}
use hmacsecret.Store.Backend.{IsAlias, View}
use hmacsecret.Pebble.Engine.{Codecs, RoundTrips}
use hmacsecret.Sqlite.Engine.{Sql, IsSql, IsLive, Failure, background}
use hmacsecret.Sqlite.{
  require_row, load_header, get_envelope, create_header, compare_and_swap_header, put_envelope,
  delete_envelope, swap_refused,
}

-- What a read of an envelope answers.
unfoldable pub read_envelope : {D : Type 0} → Sql D → Option D → Bytes → Result Error EncryptedBlob
read_envelope sql none a = err panic
read_envelope sql (some d) a = elim (sql.envelopes.select background a d) [
  | err f ↦ err f.cause
  | ok found ↦ require_row found not_found
]

-- What reads of the SQLite store answer. A context that is never canceled is live; JSON carries what
-- its decoding returns; every envelope fits its columns once its insertion returned no error.
abbrev pub sqlite_view : {D : Type 0} → Sql D → Codecs → View (Option D)
sqlite_view sql json = record {
  Live = IsLive;
  header = λ s. (load_header sql json background s).0;
  envelope = read_envelope sql;
  Keeps = RoundTrips json.header_codec;
  KeepsBlob = λ e. Unit;
}

module _ {D : Type 0} (sql : Sql D) (json : Codecs) (law : IsSql sql) where
  pub load_live :
      (ctx : Context) (s : Option D)
      → IsLive ctx
      → load_header sql json ctx s ≡ ((load_header sql json background s).0, s)
  unfolding load_header
  load_live ctx none h = ground arith
  load_live ctx (some d) h = elim (Result-cases (sql.select_header background d)) [
    | inr (f, e) ↦ ground (arith, law.live ctx d h)
    | inl (none, e) ↦ ground (arith, law.live ctx d h)
    | inl (some (r, body), e) ↦ elim (Option-cases (json.header_codec.unmarshal body)) [
      | inl u ↦ ground (arith, law.live ctx d h)
      | inr (k, u) ↦ ground (arith, law.live ctx d h)
    ]
  ]

  pub get_live :
      (ctx : Context) (a : Bytes) (s : Option D)
      → IsLive ctx
      → IsAlias a
      → get_envelope sql json ctx a s ≡ (read_envelope sql s a, s)
  unfolding get_envelope read_envelope validate_alias
  get_live ctx a none h i = ground (arith, i.trimmed, i.filled)
  get_live ctx a (some d) h i = elim (Result-cases (sql.envelopes.select background a d)) [
    | inr (f, e) ↦ ground (arith, i.trimmed, i.filled, law.envelopes.live ctx a d h)
    | inl (none, e) ↦ ground (arith, i.trimmed, i.filled, law.envelopes.live ctx a d h)
    | inl (some r, e) ↦ ground (arith, i.trimmed, i.filled, law.envelopes.live ctx a d h)
  ]

  -- The statement that a call ran on the database when it returned no error.
  -- A header that is read has the revision of its row.
  pub held_revision :
      (k : EncryptionHeader) (s : Option D) (r : ℕ) (was : Bytes) (d : D)
      → s ≡ some d
      → sql.select_header background d ≡ ok (some (r, was))
      → (load_header sql json background s).0 ≡ ok k
      → k.revision ≡ r
  unfolding load_header
  held_revision k s r was d opened row held =
      elim (Option-cases (json.header_codec.unmarshal was)) [
        | inl u ↦ absurd (ground arith)
        | inr (h, u) ↦ elim (Bool-cases (h.revision == r)) [
          | inl same ↦ ground arith
          | inr other ↦ absurd (ground arith)
        ]
      ]

  pub record IsCreated (ctx : Context) (h : EncryptionHeader) (s s' : Option D) : Type 0 where
    pub body : Bytes
    pub db_before : D
    pub opened : s ≡ some db_before
    pub marshalled : json.header_codec.marshal h ≡ some body
    pub done : (sql.insert_header ctx h.revision body db_before).0 ≡ ok tt
    pub after : s' ≡ some (sql.insert_header ctx h.revision body db_before).1

  pub create_inv :
      (ctx : Context) (h : EncryptionHeader) (s : Option D)
      → (create_header sql json ctx h s).0 ≡ ok tt
      → IsCreated ctx h s (create_header sql json ctx h s).1
  unfolding create_header
  create_inv ctx h none e = elim (Option-cases (json.header_codec.marshal h)) [
    | inl m ↦ absurd (ground arith)
    | inr (body, m) ↦ absurd (ground arith)
  ]
  create_inv ctx h (some d) e = elim (Option-cases (json.header_codec.marshal h)) [
    | inl m ↦ absurd (ground arith)
    | inr (body, m) ↦ elim (Result-cases (sql.insert_header ctx h.revision body d).0) [
      | inr (f, x) ↦ absurd (ground arith)
      | inl (done, x) ↦ record {
        body = body;
        db_before = d;
        opened = refl;
        marshalled = m;
        done = x;
        after = ground arith;
      }
    ]
  ]

  pub record IsSwapped (ctx : Context) (r : ℕ) (h : EncryptionHeader) (s s' : Option D)
      : Type 0 where
    pub body : Bytes
    pub db_before : D
    pub rows : ℕ
    pub opened : s ≡ some db_before
    pub marshalled : json.header_codec.marshal h ≡ some body
    pub done : (sql.update_header ctx h.revision body r db_before).0 ≡ ok (ok rows)
    pub updated : rows ≢ 0
    pub after : s' ≡ some (sql.update_header ctx h.revision body r db_before).1

  swap_refused_lem : (ctx : Context) (s : Option D) → (swap_refused sql json ctx s).0 ≢ ok tt
  swap_refused_lem ctx none e = absurd (ground arith)
  swap_refused_lem ctx (some d) e = elim (Result-cases (sql.count_header ctx d)) [
    | inr (f, x) ↦ ground arith
    | inl (n, x) ↦ ground arith
  ]

  pub swap_inv :
      (ctx : Context) (r : ℕ) (h : EncryptionHeader) (s : Option D)
      → (compare_and_swap_header sql json ctx r h s).0 ≡ ok tt
      → IsSwapped ctx r h s (compare_and_swap_header sql json ctx r h s).1
  unfolding compare_and_swap_header
  swap_inv ctx r h none e = elim (Option-cases (json.header_codec.marshal h)) [
    | inl m ↦ absurd (ground arith)
    | inr (body, m) ↦ absurd (ground arith)
  ]
  swap_inv ctx r h (some d) e = elim (Option-cases (json.header_codec.marshal h)) [
    | inl m ↦ absurd (ground arith)
    | inr (body, m) ↦ elim (Result-cases (sql.update_header ctx h.revision body r d).0) [
      | inr (f, x) ↦ absurd (ground arith)
      | inl (err f, x) ↦ absurd (ground arith)
      | inl (ok zero, x) ↦ absurd (
          ground (arith, swap_refused_lem ctx (some (sql.update_header ctx h.revision body r d).1)))
      | inl (ok (suc n), x) ↦ record {
        body = body;
        db_before = d;
        rows = suc n;
        opened = refl;
        marshalled = m;
        done = x;
        updated = λ q. omega arith;
        after = ground arith;
      }
    ]
  ]

  pub record IsInserted (ctx : Context) (a : Bytes) (e : EncryptedBlob) (s s' : Option D)
      : Type 0 where
    pub db_before : D
    pub opened : s ≡ some db_before
    pub done : (sql.envelopes.insert ctx a e db_before).0 ≡ ok tt
    pub after : s' ≡ some (sql.envelopes.insert ctx a e db_before).1

  pub insert_inv :
      (ctx : Context) (a : Bytes) (blob : EncryptedBlob) (s : Option D)
      → IsAlias a
      → (put_envelope sql json ctx a blob s).0 ≡ ok tt
      → IsInserted ctx a blob s (put_envelope sql json ctx a blob s).1
  unfolding put_envelope validate_alias
  insert_inv ctx a blob none i e = absurd (ground (arith, i.trimmed, i.filled))
  insert_inv ctx a blob (some d) i e = elim (Result-cases (sql.envelopes.insert ctx a blob d).0) [
    | inr (f, x) ↦ absurd (ground (arith, i.trimmed, i.filled))
    | inl (done, x) ↦ record {
      db_before = d;
      opened = refl;
      done = x;
      after = ground (arith, i.trimmed, i.filled);
    }
  ]

  pub record IsDeleted (ctx : Context) (a : Bytes) (s s' : Option D) : Type 0 where
    pub db_before : D
    pub rows : Result Failure ℕ
    pub opened : s ≡ some db_before
    pub done : (sql.envelopes.delete ctx a db_before).0 ≡ ok rows
    pub after : s' ≡ some (sql.envelopes.delete ctx a db_before).1

  pub delete_inv :
      (ctx : Context) (a : Bytes) (s : Option D)
      → IsAlias a
      → (delete_envelope sql json ctx a s).0 ≡ ok tt
      → IsDeleted ctx a s (delete_envelope sql json ctx a s).1
  unfolding delete_envelope validate_alias
  delete_inv ctx a none i e = absurd (ground (arith, i.trimmed, i.filled))
  delete_inv ctx a (some d) i e = elim (Result-cases (sql.envelopes.delete ctx a d).0) [
    | inr (f, x) ↦ absurd (ground (arith, i.trimmed, i.filled))
    | inl (err f, x) ↦ absurd (ground (arith, i.trimmed, i.filled))
    | inl (ok n, x) ↦ record {
      db_before = d;
      rows = ok n;
      opened = refl;
      done = x;
      after = ground (arith, i.trimmed, i.filled);
    }
  ]
