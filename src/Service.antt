-- ===== src/Service.antt =====
-- pkg/secrets/secrets.go: the alias API over a store and an authenticator. What `Options` injects
-- (device listing, selection, PIN entry, opening, the authenticator's two calls) is a parameter that
-- acts on a world of its own; an error of none of these packages is a number.
pub mod Asked
pub mod Held
pub mod Quiet
pub mod Reproduce
pub mod OnPebble
pub mod OnSqlite
use hmacsecret.Base.{
  ℕ, ◌+◌, Bool, true, false, not, ◌||◌, Bytes, List, [], ◌++◌, length, trim, ◌==◌, codes, Option,
  none, some, Result, ok, err, fail_if, map_err, Exec, pure, lift, if◌then◌else◌,
}
use hmacsecret.Base.Stateful.{◌>>=◌, ◌>>◌}
use hmacsecret.Types.{DeviceInfo, DeviceError, CreateOptions, DeriveOptions}
use hmacsecret.Store.{Error, Context, Record, canceled, entropy, validate_alias, empty}
use hmacsecret.Store.Backend.{later}
use hmacsecret.Store.Credentials.{CredentialStore}

-- `wrapped` and `external` wrap an error with `%w`; `no_device` keeps no cause (`%v`).
pub data ServiceError : Type 0 where
  invalid_alias exists not_found no_device : ServiceError
  wrapped : Error → ServiceError
  pin_failed create_failed derive_failed : DeviceError → ServiceError
  missing_option : ServiceError

pub data Operation : Type 0 where
  op_create op_derive : Operation

-- What `Options` injects, over its world `W`: `Auth` is an opened authenticator, `Secret` the sealed
-- secret that it derives. `create` returns the credential's id.
pub record Devices (W : Type 0) : Type 1 where
  pub Auth : Type 0
  pub Secret : Type 0
  pub devices : Exec W DeviceError (List DeviceInfo)
  pub select : Context → List DeviceInfo → Exec W DeviceError DeviceInfo
  pub provide : Context → Operation → DeviceInfo → Exec W DeviceError Bytes
  pub open_path : Bytes → Exec W DeviceError Auth
  pub create : Auth → CreateOptions → Exec W DeviceError Bytes
  pub derive : Auth → DeriveOptions → Exec W DeviceError Secret

pub record Options : Type 0 where
  pub has_store : Bool
  pub has_select : Bool
  pub has_pin : Bool
  pub rp_id : Bytes
  pub rp_name : Bytes
  pub user_name : Bytes

pub record Config : Type 0 where
  pub rp_id : Bytes
  pub rp_name : Bytes
  pub user_name : Bytes

abbrev pub or_default : Bytes → Bytes → Bytes
or_default value fallback = if empty value then fallback else value

unfoldable pub new : Options → Result ServiceError Config
unfolding trim
new opts =
    if not opts.has_store || not opts.has_select || not opts.has_pin
    then err missing_option
    else ok (record {
      rp_id = or_default (trim opts.rp_id) (codes "hmac-secret.example");
      rp_name = or_default (trim opts.rp_name) (codes "hmacsecret");
      user_name = or_default (trim opts.user_name) (codes "hmac-secret");
    })

-- The store and the world that the injected calls act on.
pub record State (S W : Type 0) : Type 0 where
  pub store : S
  pub world : W

abbrev pub or_not_found : Error → ServiceError
or_not_found Error.not_found = not_found
or_not_found e = wrapped e

abbrev pub or_exists : Error → ServiceError
or_exists Error.exists = exists
or_exists e = wrapped e

module _ {S W : Type 0} where
  -- A call on the store, and a call on what was injected, with what the service makes of an error.
  abbrev pub on_store {ℓ} :
      {A : Type ℓ} → (Error → ServiceError) → Exec S Error A → Exec (State S W) ServiceError A
  on_store f m s = let (r, t) = m s.store in (map_err f r, record s { store = t })

  abbrev pub on_world {ℓ} :
      {A : Type ℓ}
      → (DeviceError → ServiceError)
      → Exec W DeviceError A
      → Exec (State S W) ServiceError A
  on_world f m s = let (r, t) = m s.world in (map_err f r, record s { world = t })

-- `return ErrInvalidAlias` whatever `ValidateAlias` says
abbrev pub check_alias : Bytes → Result ServiceError (Unit {0})
check_alias alias = map_err (λ e. invalid_alias) (validate_alias alias)

abbrev pub or_entropy : Option Bytes → Result ServiceError Bytes
or_entropy none = err (wrapped entropy)
or_entropy (some b) = ok b

-- The options of the authenticator's calls; fields that are not set have their zero values.
abbrev pub create_options : Config → Bytes → CreateOptions
create_options config pin = record {
  rp_id = config.rp_id;
  rp_name = config.rp_name;
  user_name = config.user_name;
  user_display_name = [];
  user_id = [];
  pin = pin;
  client_data_json = [];
}

abbrev pub derive_options : Record → Bytes → DeriveOptions
derive_options rec pin = record {
  rp_id = rec.rp_id;
  credential_id = rec.credential_id;
  salt = rec.salt;
  pin = pin;
  user_presence = false;
  user_presence_set = false;
  client_data_json = [];
}

module _ {S W : Type 0} (store : CredentialStore S) (dev : Devices W) (config : Config) where
  unfoldable pub open_selected :
      Context → Operation → Exec (State S W) ServiceError (dev.Auth × Bytes)
  open_selected ctx op = do
    lift (fail_if (ctx 0) (wrapped canceled))
    devices ← on_world (λ e. no_device) dev.devices
    lift (fail_if (length devices == 0) no_device)
    info ← on_world (λ e. no_device) (dev.select (later 1 ctx) devices)
    lift (fail_if (empty (trim info.path)) no_device)
    pin ← on_world pin_failed (dev.provide (later 2 ctx) op info)
    auth ← on_world (λ e. no_device) (dev.open_path info.path)
    pure (auth, pin)

  -- The salt's random bytes are an argument. The contexts' checks: two for `Has`, three for opening.
  unfoldable pub create : Context → Bytes → Option Bytes → Exec (State S W) ServiceError dev.Secret
  create ctx alias0 random = do
    let alias = trim alias0
    lift (check_alias alias)
    found ← on_store wrapped (store.has ctx alias)
    lift (fail_if found exists)
    salt ← lift (or_entropy random)
    (auth, pin) ← open_selected (later 2 ctx) op_create
    id ← on_world create_failed (dev.create auth (create_options config pin))
    let rec : Record = record {
      alias = alias;
      credential_id = [] ++ id;
      salt = [] ++ salt;
      rp_id = config.rp_id;
    }
    on_store or_exists (store.put (later 5 ctx) rec)
    on_world derive_failed (dev.derive auth (derive_options rec pin))

  unfoldable pub derive : Context → Bytes → Exec (State S W) ServiceError dev.Secret
  derive ctx alias0 = do
    let alias = trim alias0
    lift (check_alias alias)
    rec ← on_store or_not_found (store.get ctx alias)
    (auth, pin) ← open_selected (later 2 ctx) op_derive
    on_world derive_failed (dev.derive auth (derive_options rec pin))

  unfoldable pub delete : Context → Bytes → Exec (State S W) ServiceError (Unit {0})
  delete ctx alias0 = do
    let alias = trim alias0
    lift (check_alias alias)
    on_store or_not_found (store.delete ctx alias)

  unfoldable pub has : Context → Bytes → Exec (State S W) ServiceError Bool
  has ctx alias0 = do
    let alias = trim alias0
    lift (check_alias alias)
    on_store wrapped (store.has ctx alias)

  unfoldable pub list : Context → Exec (State S W) ServiceError (List Bytes)
  list ctx = on_store wrapped (store.list ctx)
