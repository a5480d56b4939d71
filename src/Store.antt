-- ===== src/Store.antt =====
-- lib/store: the records that stores keep, their errors, and the checks on them
-- (lib/store/store.go, lib/store/encrypted.go).
pub mod Backend
pub mod Credentials
use hmacsecret.Base.{ℕ, Bool, Bytes, [], length, ◌==◌, bytes_eq, not, trim, Result, fail_if}
use hmacsecret.Base.Fallible.{◌>>=◌, ◌>>◌}

-- An error is known by the sentinel that it wraps, as `errors.Is` sees it; the text of its message is
-- dropped. `canceled` is `ctx.Err()`; `foreign` stands for an error that wraps no sentinel, of the
-- package named; `panic` for a call on a nil interface.
pub data Error : Type 0 where
  not_found exists invalid_alias invalid_record : Error
  not_initialized locked integrity conflict unsupported_format : Error
  canceled bad_key entropy allocation panic : Error
  foreign : ℕ → Error

abbrev pub salt_size : ℕ
salt_size = 32

pub record Record : Type 0 where
  pub alias : Bytes
  pub credential_id : Bytes
  pub salt : Bytes
  pub rp_id : Bytes

pub record KekReference : Type 0 where
  pub credential_id : Bytes
  pub salt : Bytes
  pub rp_id : Bytes

pub record EncryptedBlob : Type 0 where
  pub version : ℕ
  pub algorithm : Bytes
  pub nonce : Bytes
  pub ciphertext : Bytes

pub record EncryptionHeader : Type 0 where
  pub version : ℕ
  pub revision : ℕ
  pub store_id : Bytes
  pub kek : KekReference
  pub wrapped_dek : EncryptedBlob

-- What `ctx.Err()` answers at the checks of one call, in order: `ctx 0` at the first.
abbrev pub Context : Type 0
Context = ℕ → Bool

-- `if err := ctx.Err(); err != nil { return err }`
abbrev pub check : Context → Result Error (Unit {0})
check ctx = fail_if (ctx 0) canceled

abbrev pub empty : Bytes → Bool
empty s = bytes_eq s []

unfoldable pub validate_alias : Bytes → Result Error (Unit {0})
validate_alias alias = fail_if (empty alias) invalid_alias

unfoldable pub validate_record : Record → Result Error (Unit {0})
unfolding validate_alias
validate_record rec = do
  validate_alias rec.alias
  fail_if (length rec.credential_id == 0) invalid_record
  fail_if (not (length rec.salt == salt_size)) invalid_record
  fail_if (empty rec.rp_id) invalid_record

unfoldable pub validate_kek_reference : KekReference → Result Error (Unit {0})
unfolding trim
validate_kek_reference ref = do
  fail_if (length ref.credential_id == 0) invalid_record
  fail_if (not (length ref.salt == salt_size)) invalid_record
  fail_if (empty (trim ref.rp_id)) invalid_record
