-- ===== src/Authenticator.antt =====
-- lib/hmacsecret/hmacsecret.go and IsFIDO2 of device.go: the calls of an open authenticator. The methods of
-- go-libfido2's `Device` are a parameter that acts on a world of its own; its errors are numbers. Random bytes are arguments, `none` where the source fails.
pub mod Inputs
pub mod Salts
pub mod ClientJson
pub mod Derive
pub mod Register
pub mod Reproduce
use hmacsecret.Base.{
  ℕ, zero, suc, ◌+◌, ◌-◌, ◌*◌, ◌/◌, ◌%◌, Bool, true, false, not, ◌&&◌, ◌||◌, Bytes, List, [], ◌∷◌,
  ◌++◌, length, leb, ltb, ◌==◌, codes, trim, Option, none, some, Result, ok, err, fail_if, Exec,
  pure, lift, if◌then◌else◌, map_err,
}
use hmacsecret.Base.Stateful.{◌>>=◌, ◌>>◌}
use hmacsecret.Store.{empty, salt_size}
use hmacsecret.Types.{
  DeviceError, invalid_argument, not_fido2, empty_hmac_secret, foreign, unnamed, CreateOptions,
  DeriveOptions, Credential, Secret,
}
use hmacsecret.Authenticator.Inputs.{
  from_hex, decode_hex, letter, encode_base64, or_unnamed, validate_salt, parse_salt,
  needs_terminal_pin, make_client_data_json, ClientData,
}
use hmacsecret.Devices.{Platform, Device, is_windows_hello}

-- The arguments of `MakeCredential` and `Assertion`.
pub record RelyingParty : Type 0 where
  pub id : Bytes
  pub name : Bytes

pub record User : Type 0 where
  pub id : Bytes
  pub name : Bytes
  pub display_name : Bytes

pub record MakeCredentialOpts (X V : Type 0) : Type 0 where
  pub extensions : List X
  pub rk : V
  pub client_data_json : Bytes

pub record AssertionOpts (X V : Type 0) : Type 0 where
  pub extensions : List X
  pub up : V
  pub hmac_salt : Bytes
  pub client_data_json : Bytes

pub record Attestation : Type 0 where
  pub credential_id : Bytes
  pub pub_key : Bytes

-- The methods of `*libfido2.Device` over handles `H`, with the constants they take and memguard's
-- enclaves. `assertion` answers with the assertion's `HMACSecret`, which may be nil.
pub record Methods (W H : Type 0) : Type 1 where
  pub Enclave : Type 0
  pub size : Enclave → ℕ
  pub Algorithm : Type 0
  pub es256 : Algorithm
  pub Extension : Type 0
  pub hmac_secret_extension : Extension
  pub OptionValue : Type 0
  pub option_true : OptionValue
  pub option_false : OptionValue
  pub is_fido2 : H → Exec W ℕ Bool
  pub make_credential :
      H
      → Bytes
      → RelyingParty
      → User
      → Algorithm
      → Bytes
      → MakeCredentialOpts Extension OptionValue
      → Exec W ℕ Attestation
  pub assertion :
      H
      → Bytes
      → Bytes
      → List Bytes
      → Bytes
      → AssertionOpts Extension OptionValue
      → Exec W ℕ (Option Enclave)

-- A value, or what stands for it where it is empty.
abbrev pub or_else : Bytes → Bytes → Bytes
or_else value fallback = if empty value then fallback else value

-- What a caller gave, or what is made in its place where nothing was given.
abbrev pub given_or : Bytes → Result DeviceError Bytes → Result DeviceError Bytes
given_or value made = if empty value then made else ok value

-- `d == nil || d.device == nil`
abbrev pub device_of : {H : Type 0} → Option (Device (Option H)) → Result DeviceError H
device_of none = err invalid_argument
device_of (some d) = elim d.device [ none ↦ err invalid_argument | some h ↦ ok h ]

module _ {W H : Type 0} (lib : Methods W H) (marshal : ClientData → Option Bytes) where
  -- A method's error, wrapped.
  abbrev pub call : {A : Type 0} → Exec W ℕ A → Exec W DeviceError A
  call m w = let (r, w') = m w in (map_err foreign r, w')

  unfoldable pub is_fido2 : Option (Device (Option H)) → Exec W DeviceError Bool
  is_fido2 d = do h ← lift (device_of d); call (lib.is_fido2 h)

  abbrev pub sealed_secret : Option lib.Enclave → Result DeviceError lib.Enclave
  sealed_secret none = err empty_hmac_secret
  sealed_secret (some e) = if lib.size e == 0 then err empty_hmac_secret else ok e

  -- `up` of the source: false only where the caller set it so.
  abbrev pub user_presence_option : DeriveOptions → lib.OptionValue
  user_presence_option opts =
      if opts.user_presence_set && not opts.user_presence
      then lib.option_false
      else if opts.user_presence_set && opts.user_presence
      then lib.option_true
      else lib.option_true

  unfoldable pub create_credential :
      Option (Device (Option H))
      → CreateOptions
      → Option Bytes
      → Option Bytes
      → Exec W DeviceError Credential
  unfolding is_fido2 make_client_data_json
  create_credential d opts random_user random_challenge = do
    h ← lift (device_of d)
    let rp_id = trim opts.rp_id
    lift (fail_if (empty rp_id) invalid_argument)
    let user_name = or_else (trim opts.user_name) (codes "hmac-secret")
    let display_name = or_else (trim opts.user_display_name) user_name
    let rp_name = or_else (trim opts.rp_name) (codes "hmacsecret")
    supported ← is_fido2 d
    lift (fail_if (not supported) not_fido2)
    user_id ← lift (given_or opts.user_id (or_unnamed random_user))
    challenge ← lift (or_unnamed random_challenge)
    client_data_json ← lift (
        given_or opts.client_data_json
          (make_client_data_json marshal (codes "webauthn.create") challenge rp_id))
    attestation ← call (
        lib.make_credential h challenge (record { id = rp_id; name = rp_name })
          (record { id = user_id; name = user_name; display_name = display_name }) lib.es256
          opts.pin
          (record {
            extensions = lib.hmac_secret_extension ∷ [];
            rk = lib.option_false;
            client_data_json = client_data_json;
          }))
    lift (fail_if (empty attestation.credential_id) unnamed)
    pure (record {
      id = [] ++ attestation.credential_id;
      rp_id = rp_id;
      pub_key = [] ++ attestation.pub_key;
    })

  unfoldable pub derive :
      Option (Device (Option H))
      → DeriveOptions
      → Option Bytes
      → Exec W DeviceError (Secret lib.Enclave)
  unfolding is_fido2 make_client_data_json validate_salt
  derive d opts random_challenge = do
    h ← lift (device_of d)
    let rp_id = trim opts.rp_id
    lift (fail_if (empty rp_id) invalid_argument)
    lift (fail_if (empty opts.credential_id) invalid_argument)
    lift (map_err (λ e. invalid_argument) (validate_salt opts.salt))
    supported ← is_fido2 d
    lift (fail_if (not supported) not_fido2)
    challenge ← lift (or_unnamed random_challenge)
    client_data_json ← lift (
        given_or opts.client_data_json
          (make_client_data_json marshal (codes "webauthn.get") challenge rp_id))
    hmac_secret ← call (
        lib.assertion h rp_id challenge (opts.credential_id ∷ []) opts.pin (record {
          extensions = lib.hmac_secret_extension ∷ [];
          up = user_presence_option opts;
          hmac_salt = opts.salt;
          client_data_json = client_data_json;
        }))
    e ← lift (sealed_secret hmac_secret)
    pure (record {
      credential_id = [] ++ opts.credential_id;
      salt = [] ++ opts.salt;
      hmac_secret = some e;
    })

  -- The request that `CreateAndDerive` makes of `Derive`.
  abbrev pub derive_request : CreateOptions → Credential → Bytes → Bytes → DeriveOptions
  derive_request create cred salt pin = record {
    rp_id = create.rp_id;
    credential_id = cred.id;
    salt = salt;
    pin = pin;
    user_presence = false;
    user_presence_set = false;
    client_data_json = [];
  }

  unfoldable pub create_and_derive :
      Option (Device (Option H))
      → CreateOptions
      → Bytes
      → Bytes
      → Option Bytes
      → Option Bytes
      → Option Bytes
      → Option Bytes
      → Exec W DeviceError (Secret lib.Enclave)
  create_and_derive d create salt pin random_user random_challenge random_salt random_get = do
    cred ← create_credential d (record create { pin = pin }) random_user random_challenge
    salt' ← lift (given_or salt (or_unnamed random_salt))
    derive d (derive_request create cred salt' pin) random_get
