-- ===== src/Pebble.antt =====
-- pkg/store/pebble/pebble.go: the Pebble-backed store. The database and `encoding/json` are parameters.
-- The mutex makes each method's check and write one step; `s.db` is nil after `Close`.
pub mod Engine
pub mod Keys
pub mod Prefix
pub mod Listing
pub mod Writes
pub mod Envelopes
pub mod Credentials
use hmacsecret.Base.{
  ℕ, zero, suc, ◌+◌, Bool, true, false, not, Bytes, List, [], ◌∷◌, ◌++◌, length, take, drop, trim,
  ◌==◌, codes, Option, none, some, Result, ok, err, fail_if, Exec, pure, lift, if◌then◌else◌,
}
use hmacsecret.Base.Stateful.{◌>>=◌, ◌>>◌}
use hmacsecret.Store.{
  Error, Record, EncryptedBlob, EncryptionHeader, Context, check, exists, not_found,
  not_initialized, conflict, panic, foreign, validate_alias, validate_record, empty,
}
use hmacsecret.Store.Backend.{EnvelopeBackend}
use hmacsecret.Pebble.Engine.{Db, Codec, Codecs, StoredRecord}
use hmacsecret.Pebble.Keys.{
  encryption_header_key, envelope_prefix, envelope_key, prefix_upper_bound, collect,
}

-- `if err == nil { return store.ErrExists }`
abbrev pub require_missing : Option Bytes → Result Error (Unit {0})
require_missing none = ok tt
require_missing (some v) = err exists

-- `if err == pebble.ErrNotFound { return e }`
abbrev pub require_found : Option Bytes → Error → Result Error Bytes
require_found none e = err e
require_found (some v) e = ok v

-- An `Unmarshal` error wraps no sentinel.
abbrev pub decoded : {A : Type 0} → Codec A → Bytes → Result Error A
decoded codec body = elim (codec.unmarshal body) [ none ↦ err (foreign 4) | some a ↦ ok a ]

abbrev pub encoded : {A : Type 0} → Codec A → A → Result Error Bytes
encoded codec a = elim (codec.marshal a) [ none ↦ err (foreign 4) | some body ↦ ok body ]

abbrev pub is_found : Option Bytes → Bool
is_found none = false
is_found (some v) = true

-- `Open` on what `pebble.Open` returned for the path.
unfoldable pub open_store :
    {D : Type 0} → (Bytes → Result Error D) → Bytes → Result Error (Option D)
unfolding trim
open_store open_db path =
    if empty (trim path)
    then err (foreign 5)
    else elim (open_db path) [ err e ↦ err e | ok d ↦ ok (some d) ]

module _ {D : Type 0} (db : Db D) (json : Codecs) where
  -- Calls on `s.db`, which panic on nil.
  abbrev pub find : Bytes → Exec (Option D) Error (Option Bytes)
  find key none = (err panic, none)
  find key (some d) = (db.get key d, some d)

  abbrev pub set : Bytes → Bytes → Exec (Option D) Error (Unit {0})
  set key value none = (err panic, none)
  set key value (some d) = let (r, d') = db.set key value d in (r, some d')

  abbrev pub remove : Bytes → Exec (Option D) Error (Unit {0})
  remove key none = (err panic, none)
  remove key (some d) = let (r, d') = db.delete key d in (r, some d')

  abbrev pub scan : Option Bytes → Option Bytes → Exec (Option D) Error (List Bytes)
  scan lower upper none = (err panic, none)
  scan lower upper (some d) = (db.scan lower upper d, some d)

  unfoldable pub put : Context → Record → Exec (Option D) Error (Unit {0})
  put ctx rec = do
    lift (check ctx)
    let rec' = record rec { alias = trim rec.alias; rp_id = trim rec.rp_id }
    lift (validate_record rec')
    let key = rec'.alias
    old ← find key
    lift (require_missing old)
    body ← lift (
        encoded json.record_codec
          (record { credential_id = rec'.credential_id; salt = rec'.salt; rp_id = rec'.rp_id }))
    set key body

  unfoldable pub get : Context → Bytes → Exec (Option D) Error Record
  get ctx alias = do
    lift (check ctx)
    let alias' = trim alias
    lift (validate_alias alias')
    old ← find alias'
    val ← lift (require_found old not_found)
    body ← lift (decoded json.record_codec val)
    let rec : Record = record {
      alias = alias';
      credential_id = [] ++ body.credential_id;
      salt = [] ++ body.salt;
      rp_id = body.rp_id;
    }
    lift (validate_record rec)
    pure rec

  unfoldable pub delete : Context → Bytes → Exec (Option D) Error (Unit {0})
  delete ctx alias = do
    lift (check ctx)
    let alias' = trim alias
    lift (validate_alias alias')
    old ← find alias'
    _ ← lift (require_found old not_found)
    remove alias'

  unfoldable pub has : Context → Bytes → Exec (Option D) Error Bool
  has ctx alias = do
    lift (check ctx)
    let alias' = trim alias
    lift (validate_alias alias')
    old ← find alias'
    pure (is_found old)

  unfoldable pub list : Context → Exec (Option D) Error (List Bytes)
  list ctx = do lift (check ctx); scan none none

  unfoldable pub create_header : Context → EncryptionHeader → Exec (Option D) Error (Unit {0})
  create_header ctx header = do
    lift (check ctx)
    body ← lift (encoded json.header_codec header)
    old ← find encryption_header_key
    lift (require_missing old)
    set encryption_header_key body

  unfoldable pub load_header : Context → Exec (Option D) Error EncryptionHeader
  load_header ctx = do
    lift (check ctx)
    old ← find encryption_header_key
    body ← lift (require_found old not_initialized)
    lift (decoded json.header_codec body)

  unfoldable pub compare_and_swap_header :
      Context → ℕ → EncryptionHeader → Exec (Option D) Error (Unit {0})
  compare_and_swap_header ctx expected_revision next = do
    lift (check ctx)
    body ← lift (encoded json.header_codec next)
    old ← find encryption_header_key
    current_body ← lift (require_found old not_initialized)
    current ← lift (decoded json.header_codec current_body)
    lift (fail_if (not (current.revision == expected_revision)) conflict)
    set encryption_header_key body

  unfoldable pub put_envelope : Context → Bytes → EncryptedBlob → Exec (Option D) Error (Unit {0})
  put_envelope ctx alias blob = do
    lift (check ctx)
    let alias' = trim alias
    lift (validate_alias alias')
    body ← lift (encoded json.blob_codec blob)
    let key = envelope_key alias'
    old ← find key
    lift (require_missing old)
    set key body

  unfoldable pub get_envelope : Context → Bytes → Exec (Option D) Error EncryptedBlob
  get_envelope ctx alias = do
    lift (check ctx)
    let alias' = trim alias
    lift (validate_alias alias')
    old ← find (envelope_key alias')
    body ← lift (require_found old not_found)
    lift (decoded json.blob_codec body)

  unfoldable pub delete_envelope : Context → Bytes → Exec (Option D) Error (Unit {0})
  delete_envelope ctx alias = do
    lift (check ctx)
    let alias' = trim alias
    lift (validate_alias alias')
    let key = envelope_key alias'
    old ← find key
    _ ← lift (require_found old not_found)
    remove key

  unfoldable pub has_envelope : Context → Bytes → Exec (Option D) Error Bool
  has_envelope ctx alias = do
    lift (check ctx)
    let alias' = trim alias
    lift (validate_alias alias')
    old ← find (envelope_key alias')
    pure (is_found old)

  unfoldable pub list_envelopes : Context → Exec (Option D) Error (List Bytes)
  unfolding prefix_upper_bound
  list_envelopes ctx = do
    lift (check ctx)
    keys ← scan (some envelope_prefix) (prefix_upper_bound envelope_prefix)
    pure (collect keys)

  -- A second `Close` does nothing.
  unfoldable pub close : Exec (Option D) Error (Unit {0})
  close none = (ok tt, none)
  close (some d) = (db.close d, none)

  abbrev pub backend : EnvelopeBackend (Option D)
  backend = record {
    create_header = create_header;
    load_header = load_header;
    compare_and_swap_header = compare_and_swap_header;
    put_envelope = put_envelope;
    get_envelope = get_envelope;
    delete_envelope = delete_envelope;
    has_envelope = has_envelope;
    list_envelopes = list_envelopes;
    close = close;
  }
