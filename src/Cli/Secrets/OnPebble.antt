-- ===== src/Cli/Secrets/OnPebble.antt =====
-- cmd/secrets over the store of pkg/store/pebble.
use hmacsecret.Base.{
  ℕ, ◌≡◌, Bool, Bytes, List, [], ◌∷◌, codes, trim, Option, some, Result, ok, Exec, arith, refl,
}
use hmacsecret.Store.{Error, empty}
use hmacsecret.Types.{DeviceInfo}
use hmacsecret.Devices.{Platform, Libfido2}
use hmacsecret.Authenticator.{Methods, AssertionOpts}
use hmacsecret.Authenticator.Inputs.{ClientData}
use hmacsecret.Pebble
use hmacsecret.Pebble.Engine.{Db, IsDb, Codecs, StoredRecord, RoundTrips}
use hmacsecret.Sqlite.Engine.{Sql, Failure}
use hmacsecret.Service.{Config, new}
use hmacsecret.Service.OnPebble.{pebble_store, pebble_store-IsCredentialStore, bound-IsKept}
use hmacsecret.Cli.Machine.{Machine}
use hmacsecret.Cli.Secrets.{
  Flags, pebble, Outcome, on_pebble, default_pin_provider, backend_of, options, db_path, on_backend,
  run,
}
use hmacsecret.Cli.Secrets.Again.{report}
use hmacsecret.Cli.Secrets.Served.{IsOver, served_again}

module _ {W : Type 0} (platform : Platform) (bus : Libfido2 W) (lib : Methods W bus.Handle)
    (marshal : ClientData → Option Bytes) (open_enclave : lib.Enclave → Option Bytes)
    (read_password : Exec W ℕ Bytes) {P Q : Type 0} (db : Db P) (sql : Sql Q) (json : Codecs)
    (open_pebble : W → Bytes → Result Error P) (open_sqlite : W → Bytes → Result Failure Q)
    (make_parent : Bytes → W → W) where
  abbrev go : Flags → List Bytes → Machine W → Outcome P Q W
  go =
      run platform bus lib marshal open_enclave read_password db sql json open_pebble open_sqlite
        make_parent

  run-IsOver :
      IsOver platform bus lib marshal open_enclave read_password
        (pebble_store db json)
        on_pebble
        pebble
        (λ w. Pebble.open_store (open_pebble w))
        make_parent
        go
  unfolding run on_backend
  run-IsOver = record {
    runs = λ flags cmd rest m s config same opened made. rw (same, on_backend, opened, made) refl;
    fails = λ flags cmd rest m e same opened. rw (same, on_backend, opened) refl;
    apart = λ s t h. ground arith;
  }

  open_store_opens :
      (open_db : Bytes → Result Error P) (path : Bytes) (d : P) (s : Option P)
      → open_db path ≡ ok d
      → Pebble.open_store open_db path ≡ ok s
      → s ≡ some d
  unfolding Pebble.open_store
  open_store_opens open_db path d s k h = ground arith

  -- The command line over Pebble, on a database that reads back its writes, with JSON that
  -- carries the records of the configured relying party, an authenticator whose secret depends on
  -- relying party, credential, salt and on whether a PIN was given, and a PIN that is empty
  -- always or never. When `create` of an alias ends well, `derive` of it under the same flags, on
  -- the database as `create` left it, prints the same secret whenever it ends well, each run onto
  -- an empty standard output.
  pub derive-create_printed :
      (law : IsDb db) (prf : Bytes → List Bytes → Bytes → Bool → Bytes) (no_pin : Bool)
      (flags : Flags) (config : Config) (alias alias' : Bytes) (m u : Machine W) (d : P)
      → backend_of flags.backend ≡ pebble
      → new (options flags) ≡ ok config
      → ((r : StoredRecord) → r.rp_id ≡ config.rp_id → RoundTrips json.record_codec r)
      → ((h : bus.Handle) (rp_id challenge : Bytes) (ids : List Bytes) (pin : Bytes)
            (o : AssertionOpts lib.Extension lib.OptionValue) (w : W) (e : lib.Enclave)
          → (lib.assertion h rp_id challenge ids pin o w).0 ≡ ok (some e)
          → open_enclave e ≡ some (prf rp_id ids o.hmac_salt (empty pin)))
      → ((dev : DeviceInfo) (m : Machine W) (pin : Bytes)
          → (default_pin_provider platform read_password dev m).0 ≡ ok pin
          → empty pin ≡ no_pin)
      → m.stdout ≡ []
      → u.stdout ≡ []
      → (go flags (codes "create" ∷ alias ∷ []) m).result ≡ ok tt
      → (go flags (codes "create" ∷ alias ∷ []) m).used ≡ on_pebble (some d)
      → open_pebble (make_parent (db_path platform flags) u.world) (db_path platform flags) ≡ ok d
      → trim alias' ≡ trim alias
      → (go flags (codes "derive" ∷ alias' ∷ []) u).result ≡ ok tt
      → (secret : Bytes) × ((go flags (codes "create" ∷ alias ∷ []) m).machine.stdout
          ≡ report alias secret)
        × ((go flags (codes "derive" ∷ alias' ∷ []) u).machine.stdout ≡ report alias' secret)
  derive-create_printed law prf no_pin flags config alias alias' m u d is_pebble made carries det
        pins fresh fresh' done left kept =
      let world : W = make_parent (db_path platform flags) u.world in
      served_again platform bus lib marshal open_enclave read_password (pebble_store db json)
        on_pebble pebble (λ w. Pebble.open_store (open_pebble w)) make_parent go
        (pebble_store-IsCredentialStore db json law) run-IsOver prf no_pin flags config alias alias'
        m u (some d) is_pebble made
        (λ rec. bound-IsKept db json (options flags) config rec made carries) (refl, refl) det pins
        fresh fresh' done left
        (λ s. open_store_opens (open_pebble world) (db_path platform flags) d s kept)
