-- ===== src/Sqlite.antt =====
-- pkg/store/sqlite/sqlite.go: the SQLite-backed store. `s.db` is nil after `Close`, and a call on it
-- then panics.
pub mod Engine
pub mod Unique
pub mod Writes
pub mod Envelopes
pub mod Credentials
use hmacsecret.Base.{
  ℕ, zero, suc, ◌+◌, Bool, true, false, not, ◌||◌, ◌&&◌, Bytes, List, [], ◌∷◌, ◌++◌, leb, drop,
  trim, ◌==◌, codes, Option, none, some, Result, ok, err, fail_if, map_err, Exec, pure, lift,
  if◌then◌else◌,
}
use hmacsecret.Base.Stateful.{◌>>=◌, ◌>>◌}
use hmacsecret.Store.{
  Error, Record, EncryptedBlob, EncryptionHeader, Context, exists, not_found, not_initialized,
  conflict, panic, foreign, invalid_record, validate_alias, validate_record, empty,
}
use hmacsecret.Store.Backend.{EnvelopeBackend}
use hmacsecret.Pebble.{decoded, encoded}
use hmacsecret.Pebble.Keys.{has_prefix}
use hmacsecret.Pebble.Engine.{Codecs}
use hmacsecret.Sqlite.Engine.{Sql, Table, Failure, CredentialRow, background}

-- `strings.ToLower`, as far as a search for ASCII text can tell: beside A to Z, the runes U+0130 and
-- U+212A are the ones whose lower case is ASCII.
unfoldable pub to_lower : Bytes → Bytes
unfolding has_prefix
to_lower [] = []
to_lower (c ∷ s) =
    let rest = to_lower s in
    if leb 0x41 c && leb c 0x5a
    then (c + 32) ∷ rest
    else if has_prefix (0xc4 ∷ 0xb0 ∷ []) (c ∷ s)
    then 0x69 ∷ drop 1 rest
    else if has_prefix (0xe2 ∷ 0x84 ∷ 0xaa ∷ []) (c ∷ s)
    then 0x6b ∷ drop 2 rest
    else c ∷ rest

-- `strings.Contains(s, part)`
unfoldable pub contains : Bytes → Bytes → Bool
unfolding has_prefix
contains [] part = has_prefix part []
contains (c ∷ s) part = has_prefix part (c ∷ s) || contains s part

-- The test of `Put`, and `isSQLiteUniqueError`.
unfoldable pub says_unique : Bytes → Bool
unfolding to_lower contains
says_unique message = contains (to_lower message) (codes "unique")

unfoldable pub is_sqlite_unique_error : Bytes → Bool
unfolding to_lower contains
is_sqlite_unique_error message =
    let message = to_lower message in
    contains message (codes "unique") || contains message (codes "primary key")

-- `fmt.Errorf("...: %w", err)`
abbrev pub cause_of : Failure → Error
cause_of f = f.cause

abbrev pub or_exists : (Bytes → Bool) → Failure → Error
or_exists unique f = if unique f.message then exists else f.cause

-- `if err == sql.ErrNoRows { return e }`
abbrev pub require_row : {R : Type 0} → Option R → Error → Result Error R
require_row none e = err e
require_row (some r) e = ok r

-- The loop over `rows.Next()`, then `rows.Err()`.
unfoldable pub scan_rows :
    List (Result Failure Bytes) → Result Failure (Unit {0}) → Result Error (List Bytes)
scan_rows [] last = elim last [ ok done ↦ ok [] | err f ↦ err f.cause ]
scan_rows (err f ∷ rows) last = err f.cause
scan_rows (ok alias ∷ rows) last = elim (scan_rows rows last) [
  | ok aliases ↦ ok (alias ∷ aliases)
  | err e ↦ err e
]

module _ {D : Type 0} where
  -- A statement that may write, and one that only reads, on `s.db`.
  abbrev pub exec {ℓ} :
      {A : Type ℓ} → (Failure → Error) → Exec D Failure A → Exec (Option D) Error A
  exec f m none = (err panic, none)
  exec f m (some d) = let (r, d') = m d in (map_err f r, some d')

  abbrev pub query {ℓ} : {A : Type ℓ} → (D → Result Failure A) → Exec (Option D) Error A
  query m none = (err panic, none)
  query m (some d) = (map_err cause_of (m d), some d)

module _ {D : Type 0} (sql : Sql D) (json : Codecs) where
  -- `Open` on what `sql.Open` returned for the path, and what `db.Close()` answered, whose error is
  -- dropped, where `migrate` failed.
  unfoldable pub open_store :
      (Bytes → Result Failure D)
      → Bytes
      → Result Error (Option D) × Option (Result Error (Unit {0}))
  unfolding trim
  open_store open_driver path =
      if empty (trim path) then (err (foreign 5), none) else elim (open_driver path) [
        | err f ↦ (err f.cause, none)
        | ok d ↦
            let (r, d') = sql.migrate background d in
            elim r [
              | ok done ↦ (ok (some d'), none)
              | err f ↦ (err f.cause, some (map_err cause_of (sql.close d')))
            ]
      ]

  unfoldable pub put : Context → Record → Exec (Option D) Error (Unit {0})
  put ctx rec = do
    let rec' = record rec { alias = trim rec.alias; rp_id = trim rec.rp_id }
    lift (validate_record rec')
    exec (or_exists says_unique) (
        sql.credentials.insert ctx rec'.alias
          (record { credential_id = rec'.credential_id; salt = rec'.salt; rp_id = rec'.rp_id }))

  unfoldable pub get : Context → Bytes → Exec (Option D) Error Record
  get ctx alias = do
    let alias' = trim alias
    lift (validate_alias alias')
    found ← query (sql.credentials.select ctx alias')
    row ← lift (require_row found not_found)
    let rec : Record = record {
      alias = alias';
      credential_id = row.credential_id;
      salt = row.salt;
      rp_id = row.rp_id;
    }
    lift (validate_record rec)
    pure rec

  unfoldable pub delete : Context → Bytes → Exec (Option D) Error (Unit {0})
  delete ctx alias = do
    let alias' = trim alias
    lift (validate_alias alias')
    res ← exec cause_of (sql.credentials.delete ctx alias')
    n ← lift (map_err cause_of res)
    lift (fail_if (n == 0) not_found)

  unfoldable pub has : Context → Bytes → Exec (Option D) Error Bool
  has ctx alias = do
    let alias' = trim alias
    lift (validate_alias alias')
    n ← query (sql.credentials.count ctx alias')
    pure (not (n == 0))

  unfoldable pub list : Context → Exec (Option D) Error (List Bytes)
  list ctx = do (rows, last) ← query (sql.credentials.list ctx); lift (scan_rows rows last)

  unfoldable pub create_header : Context → EncryptionHeader → Exec (Option D) Error (Unit {0})
  create_header ctx header = do
    body ← lift (encoded json.header_codec header)
    exec (or_exists is_sqlite_unique_error) (sql.insert_header ctx header.revision body)

  unfoldable pub load_header : Context → Exec (Option D) Error EncryptionHeader
  load_header ctx = do
    found ← query (sql.select_header ctx)
    (revision, body) ← lift (require_row found not_initialized)
    header ← lift (decoded json.header_codec body)
    lift (fail_if (not (header.revision == revision)) invalid_record)
    pure header

  -- No row was updated: there is none, or its revision is another.
  abbrev pub swap_refused : Context → Exec (Option D) Error (Unit {0})
  swap_refused ctx = do
    found ← query (sql.count_header ctx)
    lift (fail_if (found == 0) not_initialized)
    lift (err conflict)

  unfoldable pub compare_and_swap_header :
      Context → ℕ → EncryptionHeader → Exec (Option D) Error (Unit {0})
  compare_and_swap_header ctx expected_revision next = do
    body ← lift (encoded json.header_codec next)
    res ← exec cause_of (sql.update_header ctx next.revision body expected_revision)
    n ← lift (map_err cause_of res)
    if n == 0 then swap_refused ctx else pure tt

  unfoldable pub put_envelope : Context → Bytes → EncryptedBlob → Exec (Option D) Error (Unit {0})
  put_envelope ctx alias blob = do
    let alias' = trim alias
    lift (validate_alias alias')
    exec (or_exists is_sqlite_unique_error) (sql.envelopes.insert ctx alias' blob)

  unfoldable pub get_envelope : Context → Bytes → Exec (Option D) Error EncryptedBlob
  get_envelope ctx alias = do
    let alias' = trim alias
    lift (validate_alias alias')
    found ← query (sql.envelopes.select ctx alias')
    lift (require_row found not_found)

  unfoldable pub delete_envelope : Context → Bytes → Exec (Option D) Error (Unit {0})
  delete_envelope ctx alias = do
    let alias' = trim alias
    lift (validate_alias alias')
    res ← exec cause_of (sql.envelopes.delete ctx alias')
    n ← lift (map_err cause_of res)
    lift (fail_if (n == 0) not_found)

  unfoldable pub has_envelope : Context → Bytes → Exec (Option D) Error Bool
  has_envelope ctx alias = do
    let alias' = trim alias
    lift (validate_alias alias')
    n ← query (sql.envelopes.count ctx alias')
    pure (not (n == 0))

  unfoldable pub list_envelopes : Context → Exec (Option D) Error (List Bytes)
  list_envelopes ctx = do (rows, last) ← query (sql.envelopes.list ctx); lift (scan_rows rows last)

  -- A second `Close` does nothing.
  unfoldable pub close : Exec (Option D) Error (Unit {0})
  close none = (ok tt, none)
  close (some d) = (map_err cause_of (sql.close d), none)

  abbrev pub sqlite_backend : EnvelopeBackend (Option D)
  sqlite_backend = record {
    create_header = create_header;
    load_header = load_header;
    compare_and_swap_header = compare_and_swap_header;
    put_envelope = put_envelope;
    get_envelope = get_envelope;
    delete_envelope = delete_envelope;
    has_envelope = has_envelope;
    list_envelopes = list_envelopes;
    close = close;
  }
