-- ===== src/Tests/Secrets.antt =====
-- cmd/secrets at a terminal with one key, over a Pebble database in memory.
use hmacsecret.Base.{
  ℕ, ◌≡◌, false, Bytes, List, [], ◌∷◌, codes, trim, none, some, ok, err, Exec, arith, refl, ap,
}
use hmacsecret.Store.{empty, validate_alias, validate_record}
use hmacsecret.Devices.{
  other, list_devices, open_device, is_windows_hello, selectable, platform_location_allowed,
  reindex, prefer_hello,
}
use hmacsecret.Authenticator.{create_credential}
use hmacsecret.Authenticator
use hmacsecret.Authenticator.Inputs.{
  make_client_data_json, encode_base64, letter, validate_salt, needs_terminal_pin,
}
use hmacsecret.Pebble
use hmacsecret.Service.{new, open_selected}
use hmacsecret.Service
use hmacsecret.Sqlite.{to_lower}
use hmacsecret.Sqlite
use hmacsecret.Types.{DeviceInfo}
use hmacsecret.Base.Decimal.{format_decimal}
use hmacsecret.Cli.Machine.{Machine, write_enclave_hex}
use hmacsecret.Cli.Terminal.{read_terminal_pin, describe_all, select, provide}
use hmacsecret.Cli.Secrets.{
  Flags, Backend, default_pin_provider, Opened, on_pebble, on_sqlite, no_store, db_path, Outcome,
  options, default_path, backend_of, create, derive, command, on_backend, run,
}
use hmacsecret.Cli.Secrets.Again.{report}
use hmacsecret.Cli.Secrets.OnPebble.{derive-create_printed}
use hmacsecret.Cli.Secrets.OnSqlite.{sqlite_derive-create_printed}
use hmacsecret.Cli.Secrets.Offline.{apart, run_offline}
use hmacsecret.Cli.Secrets.Closed.{run_closes}
use hmacsecret.Tests.Devices.{bus_of}
use hmacsecret.Tests.Authenticator.{bytes32, joined, key_of, plain, prf_of}
use hmacsecret.Tests.Pebble.{Table, table, table-IsDb}
use hmacsecret.Tests.Sqlite.{tables, Tables, duplicate, tables-IsSql}
use hmacsecret.Tests.OnPebble.{both, config, carries}

abbrev types_pin : {W : Type 0} → Exec W ℕ Bytes
types_pin w = (ok (codes "1234"), w)

abbrev machine : {W : Type 0} → W → ℕ → Machine W
machine t n = record {
  world = t;
  stdin = codes "0\n";
  stdout = [];
  stderr = [];
  broken = false;
  random = λ i. some (bytes32 n);
  drawn = 0;
}

abbrev flags : Flags
flags = record {
  backend = codes "Pebble";
  db = [];
  rp_id = codes "rp";
  user = [];
  no_windows_webauthn = false;
}

-- The world is the one database on disk.
abbrev go : List Bytes → Machine Table → Outcome Table Tables Table
go =
    run other (bus_of Table) (key_of Table) plain (λ e. some e) types_pin table tables both
      (λ w path. ok w) (λ w path. err duplicate) (λ path w. w) flags

abbrev opened_table : Opened Table Tables → Table
opened_table (on_pebble (some d)) = d
opened_table s = λ k. none

abbrev created : Outcome Table Tables Table
created = go (codes "create" ∷ codes "login" ∷ []) (machine (λ k. none) 7)

abbrev derived : Outcome Table Tables Table
derived = go (codes "derive" ∷ codes "login " ∷ []) (machine (opened_table created.used) 8)

-- What the commands compute with.
runs : ℕ
unfolding run on_backend command create derive default_path backend_of to_lower write_enclave_hex
    read_terminal_pin describe_all select provide format_decimal needs_terminal_pin
    create_credential Authenticator.derive make_client_data_json encode_base64 letter validate_salt
    list_devices open_device is_windows_hello trim selectable platform_location_allowed reindex
    prefer_hello new open_selected Service.create Service.derive validate_alias validate_record
    Sqlite.put Sqlite.get Sqlite.has Sqlite.open_store Pebble.put Pebble.get Pebble.has
    Pebble.open_store
runs = 0

created_ok : created.result ≡ ok tt
unfolding runs
created_ok = refl

derived_ok : derived.result ≡ ok tt
unfolding runs
derived_ok = refl

left : created.used ≡ on_pebble (some (opened_table created.used))
unfolding runs
left = refl

by_pebble : backend_of flags.backend ≡ Backend.pebble
unfolding runs
by_pebble = refl

configured : new (options flags) ≡ ok config
unfolding runs
configured = refl

asked_pin :
    {W : Type 0} (dev : DeviceInfo) (m : Machine W) (pin : Bytes)
    → (default_pin_provider other types_pin dev m).0 ≡ ok pin
    → empty pin ≡ false
unfolding runs
asked_pin dev m pin h = ground (arith, h)

trimmed : trim (codes "login ") ≡ trim (codes "login")
unfolding trim
trimmed = refl

derive-create_printed_example :
    (secret : Bytes) × (created.machine.stdout ≡ report (codes "login") secret)
    × (derived.machine.stdout ≡ report (codes "login ") secret)
derive-create_printed_example =
    derive-create_printed other (bus_of Table) (key_of Table) plain (λ e. some e) types_pin table
      tables both (λ w path. ok w) (λ w path. err duplicate) (λ path w. w) table-IsDb joined false
      flags config (codes "login") (codes "login ") (machine (λ k. none) 7)
      (machine (opened_table created.used) 8) (opened_table created.used) by_pebble configured
      carries
      (λ h rp_id challenge ids pin o w e asked.
        ap (λ x. some x) (prf_of h rp_id challenge ids pin o w e asked))
      asked_pin refl refl created_ok left refl trimmed derived_ok

-- The same over SQLite: the world is the tables.
abbrev sqlite_flags : Flags
sqlite_flags = record flags { backend = codes " sqlite" }

abbrev go_sqlite : List Bytes → Machine Tables → Outcome Table Tables Tables
go_sqlite =
    run other (bus_of Tables) (key_of Tables) plain (λ e. some e) types_pin table tables both
      (λ w path. ok (λ k. none)) (λ w path. ok w) (λ path w. w) sqlite_flags

abbrev opened_tables : Opened Table Tables → Tables
opened_tables (on_sqlite (some d)) = d
opened_tables s = record { header = none; credentials = λ k. none; envelopes = λ k. none }

abbrev sqlite_created : Outcome Table Tables Tables
sqlite_created =
    go_sqlite (codes "create" ∷ codes "login" ∷ []) (machine (opened_tables no_store) 7)

abbrev sqlite_derived : Outcome Table Tables Tables
sqlite_derived =
    go_sqlite (codes "derive" ∷ codes "login " ∷ []) (machine (opened_tables sqlite_created.used) 8)

sqlite_created_ok : sqlite_created.result ≡ ok tt
unfolding runs
sqlite_created_ok = refl

sqlite_derived_ok : sqlite_derived.result ≡ ok tt
unfolding runs
sqlite_derived_ok = refl

sqlite_left : sqlite_created.used ≡ on_sqlite (some (opened_tables sqlite_created.used))
unfolding runs
sqlite_left = refl

by_sqlite : backend_of sqlite_flags.backend ≡ Backend.sqlite
unfolding runs
by_sqlite = refl

reopened :
    (Sqlite.open_store tables both
      (λ path. ok (opened_tables sqlite_created.used))
      (db_path other sqlite_flags)).0
    ≡ ok (some (opened_tables sqlite_created.used))
unfolding runs
reopened = refl

sqlite_derive-create_printed_example :
    (secret : Bytes) × (sqlite_created.machine.stdout ≡ report (codes "login") secret)
    × (sqlite_derived.machine.stdout ≡ report (codes "login ") secret)
sqlite_derive-create_printed_example =
    sqlite_derive-create_printed other (bus_of Tables) (key_of Tables) plain (λ e. some e) types_pin
      table tables both (λ w path. ok (λ k. none)) (λ w path. ok w) (λ path w. w) tables-IsSql
      joined false sqlite_flags config (codes "login") (codes "login ")
      (machine (opened_tables no_store) 7) (machine (opened_tables sqlite_created.used) 8)
      (opened_tables sqlite_created.used) by_sqlite configured
      (λ h rp_id challenge ids pin o w e asked.
        ap (λ x. some x) (prf_of h rp_id challenge ids pin o w e asked))
      asked_pin refl refl sqlite_created_ok sqlite_left reopened trimmed sqlite_derived_ok

run_closes_example :
    (d : Table) × (created.used ≡ on_pebble (some d))
    × (created.closed ≡ on_pebble none)
    × (created.answer ≡ some (table.close d))
unfolding default_path backend_of to_lower trim
run_closes_example =
    run_closes other (bus_of Table) (key_of Table) plain (λ e. some e) types_pin table tables both
      (λ w path. ok w) (λ w path. err duplicate) (λ path w. w) flags
      (codes "create" ∷ codes "login" ∷ []) (machine (λ k. none) 7)

run_offline_example :
    apart (go (codes "has" ∷ codes "login" ∷ []) (machine (λ k. none) 7)).machine
    ≡ apart (machine (λ k. none) 7)
run_offline_example =
    run_offline other (bus_of Table) (key_of Table) plain (λ e. some e) types_pin table tables both
      (λ w path. ok w) (λ w path. err duplicate) (λ path w. w) flags (codes "has")
      (codes "login" ∷ []) (machine (λ k. none) 7) refl
