-- ===== src/Cli/Secrets.antt =====
-- cmd/secrets/main.go, in the build over libfido2. What `flag.Parse` makes of the arguments is an argument
-- of `run`, and so are the opening of a database at a path and the making of a path's directory.
mod Choices
pub mod Again
pub mod Served
pub mod OnPebble
pub mod OnSqlite
pub mod Offline
mod Kept
pub mod Closed
pub use Choices.{
  Flags, CliError, refused, not_opened, service, output, Opened, no_store, on_pebble, on_sqlite,
  Outcome, in_data, Backend, pebble, sqlite, unknown, options, alias_of, db_path, no_outcome,
}
unfoldable pub use Choices.{default_path, backend_of}
use hmacsecret.Base.{
  ℕ, Bool, true, false, Bytes, List, [], ◌∷◌, ◌++◌, ◌||◌, bytes_eq, codes, trim, Option, none, some,
  Result, ok, err, fail_if, map_err, Exec, if◌then◌else◌,
}
use hmacsecret.Base.Stateful.{◌>>=◌, ◌>>◌, pure, lift}
use hmacsecret.Store.{Error, Context, empty}
use hmacsecret.Store.Credentials.{CredentialStore}
use hmacsecret.Types.{DeviceInfo, DeviceError, CreateOptions, DeriveOptions}
use hmacsecret.Devices.{Platform, windows, other, Libfido2, Device, list_devices, open_device}
use hmacsecret.Authenticator.{Methods}
use hmacsecret.Authenticator
use hmacsecret.Authenticator.Inputs.{ClientData}
use hmacsecret.Pebble
use hmacsecret.Pebble.Engine.{Db, Codecs}
use hmacsecret.Sqlite.{to_lower}
use hmacsecret.Sqlite
use hmacsecret.Sqlite.Engine.{Sql, Failure, background}
use hmacsecret.Service.{ServiceError, Options, Devices, Config, State}
use hmacsecret.Service
use hmacsecret.Service.OnPebble.{pebble_store}
use hmacsecret.Service.OnSqlite.{sqlite_store}
use hmacsecret.Cli.Machine.{Machine, newline, on_world, draw, print, write_enclave_hex}
use hmacsecret.Cli.Terminal.{select, provide, provide_windows}

-- `fmt.Println` of a bool.
abbrev pub bool_text : Bool → Bytes
bool_text true = codes "true"
bool_text false = codes "false"

module _ {W : Type 0} where
  -- The loop over the aliases.
  unfoldable pub print_all : List Bytes → Exec (Machine W) DeviceError (Unit {0})
  print_all [] = pure tt
  print_all (a ∷ aliases) = print (a ++ newline) >> print_all aliases

  abbrev pub default_pin_provider :
      Platform → Exec W ℕ Bytes → DeviceInfo → Exec (Machine W) DeviceError Bytes
  default_pin_provider windows read_password = provide_windows
  default_pin_provider other read_password = provide other read_password

module _ {W : Type 0} (platform : Platform) (bus : Libfido2 W) (lib : Methods W bus.Handle)
    (marshal : ClientData → Option Bytes) (open_enclave : lib.Enclave → Option Bytes)
    (read_password : Exec W ℕ Bytes) where
  -- What `secrets.New` is given, its defaults included.
  abbrev pub devices : Bool → Devices (Machine W)
  devices exclude = record {
    Auth = Option (Device (Option bus.Handle));
    Secret = Option lib.Enclave;
    devices = on_world (list_devices platform bus exclude);
    select = λ ctx. select true;
    provide = λ ctx op. default_pin_provider platform read_password;
    open_path = λ path. do
      d ← on_world (open_device platform bus path)
      pure (some (record { path = d.path; device = some d.device }));
    create = λ auth opts. do
      random_user ← draw
      random_challenge ← draw
      cred ←
          on_world
            (Authenticator.create_credential lib marshal auth opts random_user random_challenge)
      pure cred.id;
    derive = λ auth opts. do
      random_challenge ← draw
      secret ← on_world (Authenticator.derive lib marshal auth opts random_challenge)
      pure secret.hmac_secret;
  }

  module _ {S : Type 0} (store : CredentialStore S) (exclude : Bool) (config : Config) where
    abbrev pub on_service {ℓ} :
        {A : Type ℓ}
        → Exec (State S (Machine W)) ServiceError A
        → Exec (State S (Machine W)) CliError A
    on_service m s = let (r, t) = m s in (map_err service r, t)

    abbrev pub on_machine {ℓ} :
        {A : Type ℓ} → Exec (Machine W) DeviceError A → Exec (State S (Machine W)) CliError A
    on_machine m s = let (r, t) = m s.world in (map_err output r, record s { world = t })

    abbrev pub show_secret :
        Bytes → Option lib.Enclave → Exec (State S (Machine W)) CliError (Unit {0})
    show_secret alias secret = do
      on_machine (print (codes "alias=" ++ (alias ++ newline)))
      on_machine (write_enclave_hex open_enclave (codes "hmac_secret=") secret)

    -- The salt's bytes are drawn before `Create` checks the alias.
    unfoldable pub create : Bytes → Exec (State S (Machine W)) CliError (Unit {0})
    unfolding write_enclave_hex
    create alias = do
      lift (fail_if (empty alias) refused)
      random ← on_machine draw
      secret ← on_service (Service.create store (devices exclude) config background alias random)
      show_secret alias secret

    unfoldable pub derive : Bytes → Exec (State S (Machine W)) CliError (Unit {0})
    unfolding write_enclave_hex
    derive alias = do
      lift (fail_if (empty alias) refused)
      secret ← on_service (Service.derive store (devices exclude) config background alias)
      show_secret alias secret

    unfoldable pub delete : Bytes → Exec (State S (Machine W)) CliError (Unit {0})
    delete alias = do
      lift (fail_if (empty alias) refused)
      on_service (Service.delete store (devices exclude) config background alias)

    unfoldable pub has : Bytes → Exec (State S (Machine W)) CliError (Unit {0})
    has alias = do
      lift (fail_if (empty alias) refused)
      found ← on_service (Service.has store (devices exclude) config background alias)
      on_machine (print (bool_text found ++ newline))

    unfoldable pub list : Exec (State S (Machine W)) CliError (Unit {0})
    unfolding print_all
    list = do
      aliases ← on_service (Service.list store (devices exclude) config background)
      on_machine (print_all aliases)

    -- The switch over the command.
    unfoldable pub command : Bytes → Bytes → Exec (State S (Machine W)) CliError (Unit {0})
    unfolding create derive delete has list
    command cmd alias =
        if bytes_eq cmd (codes "create")
        then create alias
        else if bytes_eq cmd (codes "derive") || bytes_eq cmd (codes "get")
        then derive alias
        else if bytes_eq cmd (codes "delete") || bytes_eq cmd (codes "rm")
        then delete alias
        else if bytes_eq cmd (codes "has")
        then has alias
        else if bytes_eq cmd (codes "list")
        then list
        else lift (err refused)

  -- The files are databases that `pebble.Open` and `sql.Open` make out of a path and the world.
  module _ {P Q : Type 0} (db : Db P) (sql : Sql Q) (json : Codecs)
      (open_pebble : W → Bytes → Result Error P) (open_sqlite : W → Bytes → Result Failure Q)
      (make_parent : Bytes → W → W) where
    -- From the deferred `Close` on, whose error is dropped.
    abbrev pub serve :
        {S : Type 0}
        → CredentialStore S
        → (S → Opened P Q)
        → Flags
        → Bytes
        → Bytes
        → State S (Machine W)
        → Outcome P Q W
    serve {S = S} store as_opened flags cmd alias s =
        let (r, s') : Result CliError (Unit {0}) × State S (Machine W) =
          elim (Service.new (options flags)) [
            | err e ↦ (err (service e), s)
            | ok config ↦ command store flags.no_windows_webauthn config cmd alias s
          ] in
        record {
          result = r;
          machine = s'.world;
          used = as_opened s'.store;
          closed = as_opened (store.close s'.store).1;
          answer = some (store.close s'.store).0;
        }

    unfoldable pub on_backend : Backend → Bytes → Flags → Bytes → Bytes → Machine W → Outcome P Q W
    unfolding command
    on_backend unknown path flags cmd alias m = no_outcome refused m
    on_backend pebble path flags cmd alias m = elim (Pebble.open_store (open_pebble m.world) path) [
      | err e ↦ no_outcome (not_opened e) m
      | ok s ↦
          serve (pebble_store db json) on_pebble flags cmd alias (record { store = s; world = m })
    ]
    on_backend sqlite path flags cmd alias m =
        let (r, given_up) = Sqlite.open_store sql json (open_sqlite m.world) path in
        elim r [
          | err e ↦ record (no_outcome (not_opened e) m) { answer = given_up }
          | ok s ↦
              serve (sqlite_store sql json) on_sqlite flags cmd alias
                (record { store = s; world = m })
        ]

    unfoldable pub run : Flags → List Bytes → Machine W → Outcome P Q W
    unfolding on_backend default_path backend_of
    run flags [] m = no_outcome refused m
    run flags (cmd ∷ rest) m =
        on_backend (backend_of flags.backend) (db_path platform flags) flags cmd (alias_of rest)
          (record m { world = make_parent (db_path platform flags) m.world })
