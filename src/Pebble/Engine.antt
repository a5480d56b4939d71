-- ===== src/Pebble/Engine.antt =====
-- What pkg/store/pebble calls: the Pebble database and `encoding/json`, as parameters with their
-- documented behaviour. A value in the database is read by nothing but `json.Unmarshal`.
use hmacsecret.Base.{◌≡◌, Bytes, List, bytes_eq, Option, none, some, Result, ok, if◌then◌else◌}
use hmacsecret.Store.{Error, EncryptedBlob, EncryptionHeader}

-- `get` answers `ok none` for `pebble.ErrNotFound`. `scan` runs an iterator between the bounds and
-- returns its keys, or the error of `NewIter` or of `iter.Error()`.
pub record Db (D : Type 0) : Type 0 where
  pub get : Bytes → D → Result Error (Option Bytes)
  pub set : Bytes → Bytes → D → Result Error (Unit {0}) × D
  pub delete : Bytes → D → Result Error (Unit {0}) × D
  pub scan : Option Bytes → Option Bytes → D → Result Error (List Bytes)
  pub close : D → Result Error (Unit {0})

-- A write that returned no error is what later reads of its key see; other keys are as before.
pub record IsDb {D : Type 0} (db : Db D) : Type 0 where
  pub get-set :
      (k j v : Bytes) (d : D)
      → (db.set k v d).0 ≡ ok tt
      → db.get j (db.set k v d).1 ≡ (if bytes_eq k j then ok (some v) else db.get j d)
  pub get-delete :
      (k j : Bytes) (d : D)
      → (db.delete k d).0 ≡ ok tt
      → db.get j (db.delete k d).1 ≡ (if bytes_eq k j then ok none else db.get j d)

pub record Codec (A : Type 0) : Type 0 where
  pub marshal : A → Option Bytes
  pub unmarshal : Bytes → Option A

-- The value comes back from its encoding. JSON keeps byte slices, numbers and valid UTF-8.
pub record RoundTrips {A : Type 0} (codec : Codec A) (a : A) : Type 0 where
  pub returns : (body : Bytes) → codec.marshal a ≡ some body → codec.unmarshal body ≡ some a

pub record StoredRecord : Type 0 where
  pub credential_id : Bytes
  pub salt : Bytes
  pub rp_id : Bytes

pub record Codecs : Type 0 where
  pub record_codec : Codec StoredRecord
  pub header_codec : Codec EncryptionHeader
  pub blob_codec : Codec EncryptedBlob
