-- ===== src/Windows.antt =====
-- lib/hmacsecret/hmacsecret_windows.go and device_windows.go: the broker of Windows as a device, over the
-- requests of internal/webauthn. Random bytes are arguments, `none` where the source fails.
pub mod Broker
pub mod Freed
use hmacsecret.Base.{
  ℕ, Bool, true, false, not, ◌&&◌, Bytes, List, [], ◌∷◌, ◌++◌, length, leb, ltb, ◌==◌, codes, trim,
  Option, none, some, Result, ok, err, fail_if, Exec, pure, lift, if◌then◌else◌, map_err,
}
use hmacsecret.Base.Stateful.{◌>>=◌, ◌>>◌}
use hmacsecret.Store.{empty}
use hmacsecret.Types.{
  DeviceInfo, DeviceError, invalid_argument, no_selectable_device, device_search, open_failed,
  not_fido2, empty_hmac_secret, CreateOptions, DeriveOptions, Credential, Secret,
}
use hmacsecret.Encrypted.Crypto.{Crypto}
use hmacsecret.Base.Decimal.{ℤ, pos}
use hmacsecret.Devices.{windows, Device, is_windows_hello, device_at}
use hmacsecret.Authenticator.{or_else, given_or, device_of}
use hmacsecret.Authenticator.Inputs.{ClientData, or_unnamed, validate_salt, make_client_data_json}
use hmacsecret.Webauthn.Native.{
  Dll, WebauthnError, invalid_input, unsupported, prf_disabled, cause, unwrap,
}
use hmacsecret.Webauthn.Calls.{Api, State, load, version}
use hmacsecret.Webauthn.MakeCredential.{make_credential}
use hmacsecret.Webauthn.GetAssertion.{get_assertion}

-- An error of this package, or one of internal/webauthn that is wrapped as it is.
pub data WindowsError : Type 0 where
  device_error : DeviceError → WindowsError
  webauthn_error : WebauthnError → WindowsError

unfoldable pub map_windows_error : WebauthnError → WindowsError
unfolding unwrap
map_windows_error e = elim (cause e) [
  | WebauthnError.invalid_input ↦ device_error invalid_argument
  | WebauthnError.unsupported ↦ device_error not_fido2
  | WebauthnError.prf_disabled ↦ device_error not_fido2
  | _ ↦ webauthn_error e
]

-- A call that returns errors of this package.
abbrev pub own {ℓ} : {A : Type ℓ} → Result DeviceError A → Result WindowsError A
own r = map_err device_error r

-- A call of internal/webauthn, with what its error becomes.
abbrev pub on_api :
    {S A : Type 0} → (WebauthnError → WindowsError) → Exec S WebauthnError A → Exec S WindowsError A
on_api f m s = let (r, t) = m s in (map_err f r, t)

abbrev pub windows_hello_path : Bytes
windows_hello_path = codes "windows://hello"

module _ {W : Type 0} (dll : Dll W) (text : ℕ → Bytes) (marshal : ClientData → Option Bytes) where
  unfoldable pub create_credential :
      Option (Device (Option Api))
      → CreateOptions
      → Option Bytes
      → Option Bytes
      → Exec (State W dll.Ptr) WindowsError Credential
  unfolding map_windows_error
  create_credential d opts random_user random_challenge = do
    a ← lift (own (device_of d))
    let rp_id = trim opts.rp_id
    lift (fail_if (empty rp_id) (device_error invalid_argument))
    let user_name = or_else (trim opts.user_name) (codes "hmac-secret")
    let display_name = or_else (trim opts.user_display_name) user_name
    let rp_name = or_else (trim opts.rp_name) (codes "hmacsecret")
    user_id ← lift (own (given_or opts.user_id (or_unnamed random_user)))
    challenge ← lift (own (or_unnamed random_challenge))
    client_data_json ← lift (
        own (
          given_or opts.client_data_json
            (make_client_data_json marshal (codes "webauthn.create") challenge rp_id)))
    result ← on_api map_windows_error (
        make_credential dll text (some a) (record {
          rp_id = rp_id;
          rp_name = rp_name;
          user_id = user_id;
          user_name = user_name;
          user_display_name = display_name;
          client_data_json = client_data_json;
          timeout = pos 0;
        }))
    pure (record { id = [] ++ result.credential_id; rp_id = rp_id; pub_key = [] })

  abbrev pub sealed_secret : (c : Crypto) → Option c.Enclave → Result DeviceError c.Enclave
  sealed_secret c none = err empty_hmac_secret
  sealed_secret c (some e) = if c.size e == 0 then err empty_hmac_secret else ok e

  unfoldable pub derive :
      (c : Crypto)
      → Option (Device (Option Api))
      → DeriveOptions
      → Option Bytes
      → Exec (State W dll.Ptr) WindowsError (Secret c.Enclave)
  unfolding map_windows_error validate_salt
  derive c d opts random_challenge = do
    a ← lift (own (device_of d))
    let rp_id = trim opts.rp_id
    lift (fail_if (empty rp_id) (device_error invalid_argument))
    lift (fail_if (empty opts.credential_id) (device_error invalid_argument))
    lift (map_err (λ e. device_error invalid_argument) (validate_salt opts.salt))
    lift
        (fail_if (opts.user_presence_set && not opts.user_presence) (device_error invalid_argument))
    challenge ← lift (own (or_unnamed random_challenge))
    client_data_json ← lift (
        own (
          given_or opts.client_data_json
            (make_client_data_json marshal (codes "webauthn.get") challenge rp_id)))
    result ← on_api map_windows_error (
        get_assertion dll text c (some a) (record {
          rp_id = rp_id;
          credential_id = opts.credential_id;
          salt = opts.salt;
          client_data_json = client_data_json;
          timeout = pos 0;
        }))
    e ← lift (own (sealed_secret c result.hmac_secret))
    pure (record {
      credential_id = [] ++ opts.credential_id;
      salt = [] ++ opts.salt;
      hmac_secret = some e;
    })

  unfoldable pub create_and_derive :
      (c : Crypto)
      → Option (Device (Option Api))
      → CreateOptions
      → Bytes
      → Bytes
      → Option Bytes
      → Option Bytes
      → Option Bytes
      → Option Bytes
      → Exec (State W dll.Ptr) WindowsError (Secret c.Enclave)
  create_and_derive c d create salt pin random_user random_challenge random_salt random_get = do
    cred ← create_credential d (record create { pin = pin }) random_user random_challenge
    salt' ← lift (own (given_or salt (or_unnamed random_salt)))
    derive c d
        (record {
          rp_id = create.rp_id;
          credential_id = cred.id;
          salt = salt';
          pin = pin;
          user_presence = false;
          user_presence_set = false;
          client_data_json = [];
        })
        random_get

  -- `names` is the order in which `Load` looks for the procedures.
  unfoldable pub list_devices :
      List Bytes → Bool → Exec (State W dll.Ptr) WindowsError (List DeviceInfo)
  list_devices names exclude = do
    _ ← on_api (λ e. device_error device_search) (load dll text names)
    lift (fail_if exclude (device_error no_selectable_device))
    pure (
        record {
          index = 0;
          path = windows_hello_path;
          product = codes "Windows Hello";
          manufacturer = codes "Microsoft Corporation";
          product_id = 1;
          vendor_id = 0x045e;
          windows_hello = true;
        }
        ∷ [])

  unfoldable pub open_device :
      List Bytes → Bytes → Exec (State W dll.Ptr) WindowsError (Device (Option Api))
  open_device names path = do
    lift (fail_if (not (is_windows_hello windows path)) (device_error open_failed))
    a ← on_api (λ e. device_error open_failed) (load dll text names)
    pure (record { path = windows_hello_path; device = some a })

  unfoldable pub open_index :
      List Bytes → ℤ → Bool → Exec (State W dll.Ptr) WindowsError (Device (Option Api))
  unfolding list_devices open_device
  open_index names index exclude = do
    devices ← list_devices names exclude
    d ← lift (own (device_at devices index))
    open_device names d.path

  unfoldable pub is_fido2 : Option (Device (Option Api)) → Exec (State W dll.Ptr) WindowsError Bool
  is_fido2 d = do
    a ← lift (own (device_of d))
    v ← on_api webauthn_error (version dll text (some a))
    pure (leb 6 v)
