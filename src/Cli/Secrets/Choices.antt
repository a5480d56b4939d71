-- ===== src/Cli/Secrets/Choices.antt =====
-- What a run of cmd/secrets/main.go makes of its flags: the backend, the path, the options of the service;
-- and how it ends.
use hmacsecret.Base.{
  Bool, true, Bytes, List, [], ◌∷◌, ◌++◌, ◌||◌, bytes_eq, codes, trim, Option, none, Result, err,
  if◌then◌else◌,
}
use hmacsecret.Store.{Error, empty}
use hmacsecret.Types.{DeviceError}
use hmacsecret.Devices.{Platform, windows, other}
use hmacsecret.Sqlite.{to_lower}
use hmacsecret.Service.{ServiceError, Options}
use hmacsecret.Cli.Machine.{Machine}

pub record Flags : Type 0 where
  pub backend : Bytes
  pub db : Bytes
  pub rp_id : Bytes
  pub user : Bytes
  pub no_windows_webauthn : Bool

-- `refused` is an error of the command line itself.
pub data CliError : Type 0 where
  refused : CliError
  not_opened : Error → CliError
  service : ServiceError → CliError
  output : DeviceError → CliError

-- The store that `openStore` returned.
pub data Opened (P Q : Type 0) : Type 0 where
  no_store : Opened P Q
  on_pebble : Option P → Opened P Q
  on_sqlite : Option Q → Opened P Q

-- How a run ended: the store when the deferred `Close` is called, and as it leaves it; and what the
-- `Close` of the store answered, or that of the database that `Open` gave up, where there was one. A run
-- drops this answer.
pub record Outcome (P Q W : Type 0) : Type 0 where
  pub result : Result CliError (Unit {0})
  pub machine : Machine W
  pub used : Opened P Q
  pub closed : Opened P Q
  pub answer : Option (Result Error (Unit {0}))

-- `filepath.Join("data", name)`
abbrev pub in_data : Platform → Bytes → Bytes
in_data windows name = codes "data\\" ++ name
in_data other name = codes "data/" ++ name

unfoldable pub default_path : Platform → Bytes → Bytes
unfolding to_lower
default_path platform backend =
    if bytes_eq (to_lower backend) (codes "sqlite")
    then in_data platform (codes "secrets.sqlite")
    else in_data platform (codes "secrets.pebble")

pub data Backend : Type 0 where
  pebble sqlite unknown : Backend

-- The switch of `openStore`.
unfoldable pub backend_of : Bytes → Backend
unfolding to_lower trim
backend_of name =
    let name = to_lower (trim name) in
    if bytes_eq name (codes "pebble") || empty name
    then pebble
    else if bytes_eq name (codes "sqlite")
    then sqlite
    else unknown

abbrev pub options : Flags → Options
options flags = record {
  has_store = true;
  has_select = true;
  has_pin = true;
  rp_id = flags.rp_id;
  rp_name = [];
  user_name = flags.user;
}

abbrev pub alias_of : List Bytes → Bytes
alias_of [] = []
alias_of (alias ∷ rest) = alias

abbrev pub db_path : Platform → Flags → Bytes
db_path platform flags = if empty flags.db then default_path platform flags.backend else flags.db

abbrev pub no_outcome : {P Q W : Type 0} → CliError → Machine W → Outcome P Q W
no_outcome e m = record {
  result = err e;
  machine = m;
  used = no_store;
  closed = no_store;
  answer = none;
}
