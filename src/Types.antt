-- ===== src/Types.antt =====
-- lib/hmacsecret/types.go: the options and results of the authenticator's calls, and their errors.
use hmacsecret.Base.{ℕ, Bool, Bytes, Option}

-- The sentinels, as `errors.Is` sees them. `foreign` wraps an error of a called library, and `unnamed`
-- is an error that wraps neither.
pub data DeviceError : Type 0 where
  invalid_argument no_device no_selectable_device device_search open_failed : DeviceError
  not_fido2 empty_hmac_secret unsupported_build : DeviceError
  foreign : ℕ → DeviceError
  unnamed : DeviceError

pub record DeviceInfo : Type 0 where
  pub index : ℕ
  pub path : Bytes
  pub product : Bytes
  pub manufacturer : Bytes
  pub product_id : ℕ
  pub vendor_id : ℕ
  pub windows_hello : Bool

pub record CreateOptions : Type 0 where
  pub rp_id : Bytes
  pub rp_name : Bytes
  pub user_name : Bytes
  pub user_display_name : Bytes
  pub user_id : Bytes
  pub pin : Bytes
  pub client_data_json : Bytes

pub record DeriveOptions : Type 0 where
  pub rp_id : Bytes
  pub credential_id : Bytes
  pub salt : Bytes
  pub pin : Bytes
  pub user_presence : Bool
  pub user_presence_set : Bool
  pub client_data_json : Bytes

pub record Credential : Type 0 where
  pub id : Bytes
  pub rp_id : Bytes
  pub pub_key : Bytes

-- `hmac_secret` is a `*memguard.Enclave`.
pub record Secret (E : Type 0) : Type 0 where
  pub credential_id : Bytes
  pub salt : Bytes
  pub hmac_secret : Option E
