-- ===== src/Cli/HmacSecret.antt =====
-- cmd/hmac-secret/main.go, in the build over libfido2. What `flag.Parse` makes of the arguments is the argument
-- of `run`.
pub mod Report
pub mod Shown
pub mod Again
use hmacsecret.Base.{
  ℕ, Bool, true, false, not, Bytes, List, [], ◌∷◌, ◌++◌, leb, codes, trim, length, ◌==◌, Option,
  none, some, Result, ok, err, fail_if, Exec, if◌then◌else◌,
}
use hmacsecret.Base.Stateful.{◌>>=◌, ◌>>◌, pure, lift}
use hmacsecret.Base.Decimal.{ℤ, pos, negsuc, format_decimal}
use hmacsecret.Store.{empty}
use hmacsecret.Types.{
  DeviceInfo, DeviceError, unnamed, CreateOptions, DeriveOptions, Credential, Secret,
}
use hmacsecret.Devices.{Platform, Libfido2, Device, list_devices, open_device, get_elem?}
use hmacsecret.Authenticator.{Methods, create_credential, derive}
use hmacsecret.Authenticator.Inputs.{
  ClientData, decode_hex, encode_hex, parse_salt, needs_terminal_pin,
}
use hmacsecret.Cli.Machine.{Machine, newline, on_world, draw, print, print_err, write_enclave_hex}
use hmacsecret.Cli.Terminal.{describe_all, read_terminal_pin}

pub record Flags : Type 0 where
  pub device : ℤ
  pub rp_id : Bytes
  pub user : Bytes
  pub salt : Bytes
  pub credential_id : Bytes
  pub list : Bool
  pub no_windows_webauthn : Bool

-- The index of `-device`, which must not be negative.
abbrev pub index_of : ℤ → Result DeviceError ℕ
index_of (pos n) = ok n
index_of (negsuc n) = err unnamed

abbrev pub or_unnamed {ℓ} : {A : Type ℓ} → Option A → Result DeviceError A
or_unnamed none = err unnamed
or_unnamed (some a) = ok a

abbrev pub create_options : Flags → Bytes → CreateOptions
create_options flags pin = record {
  rp_id = flags.rp_id;
  rp_name = codes "hmacsecret";
  user_name = flags.user;
  user_display_name = [];
  user_id = [];
  pin = pin;
  client_data_json = [];
}

abbrev pub derive_options : Flags → Bytes → Bytes → Bytes → DeriveOptions
derive_options flags credential_id salt pin = record {
  rp_id = flags.rp_id;
  credential_id = credential_id;
  salt = salt;
  pin = pin;
  user_presence = false;
  user_presence_set = false;
  client_data_json = [];
}

module _ {W : Type 0} (platform : Platform) (bus : Libfido2 W) (lib : Methods W bus.Handle)
    (marshal : ClientData → Option Bytes) (open_enclave : lib.Enclave → Option Bytes)
    (read_password : Exec W ℕ Bytes) where
  -- `hmacsecret.Open`, as the handle that the methods take.
  abbrev pub open_path : Bytes → Exec (Machine W) DeviceError (Option (Device (Option bus.Handle)))
  open_path path = do
    d ← on_world (open_device platform bus path)
    pure (some (record { path = d.path; device = some d.device }))

  abbrev pub ask_pin : ℕ → DeviceInfo → Exec (Machine W) DeviceError Bytes
  ask_pin index info = elim (needs_terminal_pin platform info.path) [
    | true ↦ read_terminal_pin read_password
    | false ↦
        print_err (
          codes "using device ["
          ++ (format_decimal index
              ++ codes "]. PIN/touch via Windows Security UI (external key selectable there).\n"))
        >> pure []
  ]

  -- The credential of `-credential-id`, which wants a salt.
  abbrev pub reuse : Flags → Exec (Machine W) DeviceError Bytes
  reuse flags = do
    lift (fail_if (empty (trim flags.salt)) unnamed)
    id ← lift (or_unnamed (decode_hex (trim flags.credential_id)))
    lift (fail_if (length id == 0) unnamed)
    print_err (codes "reusing stored non-discoverable credential\n")
    pure id

  abbrev pub register :
      Option (Device (Option bus.Handle)) → Flags → Bytes → Exec (Machine W) DeviceError Bytes
  register dev flags pin = do
    print_err (codes "creating credential; approve in Windows Security UI / touch key...\n")
    random_user ← draw
    random_challenge ← draw
    cred ←
        on_world (
          create_credential lib marshal dev (create_options flags pin) random_user random_challenge)
    pure cred.id

  unfoldable pub find_credential :
      Option (Device (Option bus.Handle)) → Flags → Bytes → Exec (Machine W) DeviceError Bytes
  unfolding decode_hex
  find_credential dev flags pin =
      if empty (trim flags.credential_id) then register dev flags pin else reuse flags

  -- The rest of `run`, on the open device: the credential, the salt and the secret.
  unfoldable pub derive_and_print :
      Option (Device (Option bus.Handle)) → Flags → Bytes → Exec (Machine W) DeviceError (Unit {0})
  unfolding find_credential parse_salt write_enclave_hex
  derive_and_print dev flags pin = do
    credential_id ← find_credential dev flags pin
    random_salt ← draw
    (salt, generated) ← lift (parse_salt (trim flags.salt) random_salt)
    print_err (codes "requesting hmac-secret; approve in Windows Security UI / touch key...\n")
    random_challenge ← draw
    secret ←
        on_world
          (derive lib marshal dev (derive_options flags credential_id salt pin) random_challenge)
    print (codes "credential_id=" ++ (encode_hex secret.credential_id ++ newline))
    print (codes "salt=" ++ (encode_hex secret.salt ++ newline))
    write_enclave_hex open_enclave (codes "hmac_secret=") secret.hmac_secret
    (if generated
        then print_err (codes "generated random salt; store credential_id+salt to reproduce\n")
        else pure tt)

  unfoldable pub run : Flags → Exec (Machine W) DeviceError (Unit {0})
  unfolding derive_and_print read_terminal_pin needs_terminal_pin describe_all format_decimal
  run flags = do
    index ← lift (index_of flags.device)
    lift (fail_if (empty (trim flags.rp_id)) unnamed)
    lift (fail_if (empty (trim flags.user)) unnamed)
    devices ← on_world (list_devices platform bus flags.no_windows_webauthn)
    print_err (describe_all devices)
    if flags.list then pure tt else do
      info ← lift (or_unnamed (get_elem? devices index))
      pin ← ask_pin index info
      dev ← open_path info.path
      derive_and_print dev flags pin
