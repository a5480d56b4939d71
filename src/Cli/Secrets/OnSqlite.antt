-- ===== src/Cli/Secrets/OnSqlite.antt =====
-- cmd/secrets over the store of pkg/store/sqlite.
use hmacsecret.Base.{
  ℕ, ◌≡◌, Bool, Bytes, List, [], ◌∷◌, codes, trim, Option, some, Result, ok, Exec, arith, refl, sym,
  ap, ◌∙◌,
}
use hmacsecret.Store.{Error, empty}
use hmacsecret.Types.{DeviceInfo}
use hmacsecret.Devices.{Platform, Libfido2}
use hmacsecret.Authenticator.{Methods, AssertionOpts}
use hmacsecret.Authenticator.Inputs.{ClientData}
use hmacsecret.Pebble.Engine.{Db, Codecs}
use hmacsecret.Sqlite
use hmacsecret.Sqlite.Engine.{Sql, IsSql, Failure}
use hmacsecret.Service.{Config, new}
use hmacsecret.Service.OnPebble.{new-rp_id}
use hmacsecret.Service.OnSqlite.{sqlite_store, sqlite_store-IsCredentialStore}
use hmacsecret.Cli.Machine.{Machine}
use hmacsecret.Cli.Secrets.{
  Flags, sqlite, Outcome, on_sqlite, default_pin_provider, backend_of, options, db_path, on_backend,
  run,
}
use hmacsecret.Cli.Secrets.Again.{report}
use hmacsecret.Cli.Secrets.Served.{IsOver, served_again}

module _ {W : Type 0} (platform : Platform) (bus : Libfido2 W) (lib : Methods W bus.Handle)
    (marshal : ClientData → Option Bytes) (open_enclave : lib.Enclave → Option Bytes)
    (read_password : Exec W ℕ Bytes) {P Q : Type 0} (db : Db P) (sql : Sql Q) (json : Codecs)
    (open_pebble : W → Bytes → Result Error P) (open_sqlite : W → Bytes → Result Failure Q)
    (make_parent : Bytes → W → W) where
  abbrev go : Flags → List Bytes → Machine W → Outcome P Q W
  go =
      run platform bus lib marshal open_enclave read_password db sql json open_pebble open_sqlite
        make_parent

  sqlite_run-IsOver :
      IsOver platform bus lib marshal open_enclave read_password
        (sqlite_store sql json)
        on_sqlite
        sqlite
        (λ w path. (Sqlite.open_store sql json (open_sqlite w) path).0)
        make_parent
        go
  unfolding run on_backend
  sqlite_run-IsOver = record {
    runs = λ flags cmd rest m s config same opened made. rw (same, on_backend, opened, made) refl;
    fails = λ flags cmd rest m e same opened. rw (same, on_backend, opened) refl;
    apart = λ s t h. ground arith;
  }

  -- The command line over SQLite, whose primary keys are unique and whose rows are read back,
  -- with an authenticator whose secret depends on relying party, credential, salt and on whether
  -- a PIN was given, and a PIN that is empty always or never. When `create` of an alias ends
  -- well, `derive` of it under the same flags, on the database as `create` left it, prints the
  -- same secret whenever it ends well, each run onto an empty standard output.
  pub sqlite_derive-create_printed :
      (law : IsSql sql) (prf : Bytes → List Bytes → Bytes → Bool → Bytes) (no_pin : Bool)
      (flags : Flags) (config : Config) (alias alias' : Bytes) (m u : Machine W) (d : Q)
      → backend_of flags.backend ≡ sqlite
      → new (options flags) ≡ ok config
      → ((h : bus.Handle) (rp_id challenge : Bytes) (ids : List Bytes) (pin : Bytes)
            (o : AssertionOpts lib.Extension lib.OptionValue) (w : W) (e : lib.Enclave)
          → (lib.assertion h rp_id challenge ids pin o w).0 ≡ ok (some e)
          → open_enclave e ≡ some (prf rp_id ids o.hmac_salt (empty pin)))
      → ((dev : DeviceInfo) (m : Machine W) (pin : Bytes)
          → (default_pin_provider platform read_password dev m).0 ≡ ok pin
          → empty pin ≡ no_pin)
      → m.stdout ≡ []
      → u.stdout ≡ []
      → (go flags (codes "create" ∷ alias ∷ []) m).result ≡ ok tt
      → (go flags (codes "create" ∷ alias ∷ []) m).used ≡ on_sqlite (some d)
      → (Sqlite.open_store sql json
          (open_sqlite (make_parent (db_path platform flags) u.world))
          (db_path platform flags)).0
        ≡ ok (some d)
      → trim alias' ≡ trim alias
      → (go flags (codes "derive" ∷ alias' ∷ []) u).result ≡ ok tt
      → (secret : Bytes) × ((go flags (codes "create" ∷ alias ∷ []) m).machine.stdout
          ≡ report alias secret)
        × ((go flags (codes "derive" ∷ alias' ∷ []) u).machine.stdout ≡ report alias' secret)
  sqlite_derive-create_printed law prf no_pin flags config alias alias' m u d is_sqlite made det
        pins fresh fresh' done left kept =
      served_again platform bus lib marshal open_enclave read_password (sqlite_store sql json)
        on_sqlite sqlite (λ w path. (Sqlite.open_store sql json (open_sqlite w) path).0) make_parent
        go (sqlite_store-IsCredentialStore sql json law) sqlite_run-IsOver prf no_pin flags config
        alias alias' m u (some d) is_sqlite made
        (λ rec bound. ap trim bound ∙ (new-rp_id (options flags) config made ∙ sym bound))
        (λ i. refl) det pins fresh fresh' done left (λ s h. ground (arith, h, kept))
