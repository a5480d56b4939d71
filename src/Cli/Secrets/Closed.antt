-- ===== src/Cli/Secrets/Closed.antt =====
-- That cmd/secrets closes the database that it opened.
use hmacsecret.Base.{
  ℕ, ◌≡◌, true, Bytes, List, [], ◌∷◌, Option, none, some, Result, ok, err, map_err, Exec, trim,
  if◌then◌else◌, arith, refl, ap, ◌∙◌, inl, inr, ◌⊎◌, Bool-cases,
}
use hmacsecret.Base.Fallible.{Result-cases}
use hmacsecret.Store.{Error, empty}
use hmacsecret.Devices.{Platform, Libfido2}
use hmacsecret.Authenticator.{Methods}
use hmacsecret.Authenticator.Inputs.{ClientData}
use hmacsecret.Pebble
use hmacsecret.Pebble.Engine.{Db, Codecs}
use hmacsecret.Sqlite
use hmacsecret.Sqlite.{cause_of}
use hmacsecret.Sqlite.Engine.{Sql, Failure, background}
use hmacsecret.Store.Credentials.{CredentialStore}
use hmacsecret.Service.{State, new}
use hmacsecret.Service.Held.{is_held, IsHeld}
use hmacsecret.Service.OnPebble.{pebble_store, pebble_store-IsHeld}
use hmacsecret.Service.OnSqlite.{sqlite_store, sqlite_store-IsHeld}
use hmacsecret.Cli.Machine.{Machine}
use hmacsecret.Cli.Secrets.{
  Flags, Backend, unknown, pebble, sqlite, CliError, refused, not_opened, options, serve, Outcome,
  Opened, no_store, on_pebble, on_sqlite, db_path, alias_of, backend_of, on_backend, run,
}
use hmacsecret.Cli.Secrets.Kept.{command_kept}

-- The run failed, had no store and left standard output as it was before.
abbrev pub IsFruitless : {P Q W : Type 0} → Bytes → Outcome P Q W → Type 0
IsFruitless before o =
    (e : CliError) × (o.result ≡ err e) × (o.machine.stdout ≡ before) × (o.used ≡ no_store)

held_some : {D : Type 0} (s : Option D) → is_held s ≡ true → (d : D) × (s ≡ some d)
held_some none h = ground arith
held_some (some d) h = (d, refl)

-- The database that `pebble.Open` or `sql.Open` made, if any.
abbrev pub made_by : {E D : Type 0} → (Bytes → Result E D) → Bytes → Option D
made_by open_db path =
    if empty (trim path) then none else elim (open_db path) [ err e ↦ none | ok d ↦ some d ]

-- `Open` of the Pebble store.
pebble_opened :
    {P : Type 0} (open_db : Bytes → Result Error P) (path : Bytes)
    → ((d : P) × (made_by open_db path ≡ some d) × (Pebble.open_store open_db path ≡ ok (some d)))
      ⊎ ((e : Error) × (made_by open_db path ≡ none) × (Pebble.open_store open_db path ≡ err e))
unfolding Pebble.open_store
pebble_opened open_db path = elim (Bool-cases (empty (trim path))) [
  | inl nowhere ↦ rw nowhere (inr (_, refl, refl))
  | inr given ↦ elim (Result-cases (open_db path)) [
    | inr (e, h) ↦ rw (given, h) (inr (e, refl, refl))
    | inl (d, h) ↦ rw (given, h) (inl (d, refl, refl))
  ]
]

-- `Open` of the SQLite store.
sqlite_opened :
    {Q : Type 0} (sql : Sql Q) (json : Codecs) (open_db : Bytes → Result Failure Q) (path : Bytes)
    → ((d : Q) × (made_by open_db path ≡ some d)
        × ((sql.migrate background d).0 ≡ ok tt)
        × (Sqlite.open_store sql json open_db path
            ≡ (ok (some (sql.migrate background d).1), none)))
      ⊎ (((d : Q) × (made_by open_db path ≡ some d)
            × (f : Failure) × ((sql.migrate background d).0 ≡ err f)
            × (Sqlite.open_store sql json open_db path
                ≡ (err f.cause, some (map_err cause_of (sql.close (sql.migrate background d).1)))))
          ⊎ ((e : Error) × (made_by open_db path ≡ none)
              × (Sqlite.open_store sql json open_db path ≡ (err e, none))))
unfolding Sqlite.open_store
sqlite_opened sql json open_db path = elim (Bool-cases (empty (trim path))) [
  | inl nowhere ↦ rw nowhere (inr (inr (_, refl, refl)))
  | inr given ↦ elim (Result-cases (open_db path)) [
    | inr (f, h) ↦ rw (given, h) (inr (inr (f.cause, refl, refl)))
    | inl (d, h) ↦ elim (Result-cases (sql.migrate background d).0) [
      | inr (f, hm) ↦ rw (given, h) (inr (inl (d, refl, f, hm, ground arith)))
      | inl (u, hm) ↦ rw (given, h) (inl (d, refl, hm, ground arith))
    ]
  ]
]

module _ {P Q W : Type 0} (db : Db P) (sql : Sql Q) (open_pebble : W → Bytes → Result Error P)
    (open_sqlite : W → Bytes → Result Failure Q) where
  abbrev pub driver_opens : Backend → Bytes → W → Option (P ⊎ Q)
  driver_opens unknown path w = none
  driver_opens pebble path w = elim (made_by (open_pebble w) path) [
    | none ↦ none
    | some d ↦ some (inl d)
  ]
  driver_opens sqlite path w = elim (made_by (open_sqlite w) path) [
    | none ↦ none
    | some d ↦ some (inr d)
  ]

  -- What became of the database that the driver opened.
  abbrev pub IsClosed : Option (P ⊎ Q) → Bytes → Outcome P Q W → Type 0
  IsClosed none before o = IsFruitless before o × (o.answer ≡ none)
  IsClosed (some (inl opened)) before o =
      (d : P) × (o.used ≡ on_pebble (some d))
      × (o.closed ≡ on_pebble none)
      × (o.answer ≡ some (db.close d))
  IsClosed (some (inr opened)) before o = elim (sql.migrate background opened).0 [
    | ok done ↦
        (d : Q) × (o.used ≡ on_sqlite (some d))
        × (o.closed ≡ on_sqlite none)
        × (o.answer ≡ some (map_err cause_of (sql.close d)))
    | err f ↦
        IsFruitless before o
        × (o.answer ≡ some (map_err cause_of (sql.close (sql.migrate background opened).1)))
  ]

module _ {W : Type 0} (platform : Platform) (bus : Libfido2 W) (lib : Methods W bus.Handle)
    (marshal : ClientData → Option Bytes) (open_enclave : lib.Enclave → Option Bytes)
    (read_password : Exec W ℕ Bytes) {P Q : Type 0} (db : Db P) (sql : Sql Q) (json : Codecs)
    (open_pebble : W → Bytes → Result Error P) (open_sqlite : W → Bytes → Result Failure Q)
    (make_parent : Bytes → W → W) where
  -- The store that a served command leaves is what `Close` is called on, and still has its database.
  serve_held :
      {D : Type 0} (store : CredentialStore (Option D)) (as_opened : Option D → Opened P Q)
      (flags : Flags) (cmd alias : Bytes) (s : State (Option D) (Machine W))
      → IsHeld store is_held
      → is_held s.store ≡ true
      → let o =
          serve platform bus lib marshal open_enclave read_password db sql json open_pebble
            open_sqlite make_parent store as_opened flags cmd alias s in
        (d : D) × (o.used ≡ as_opened (some d))
        × (o.closed ≡ as_opened (store.close (some d)).1)
        × (o.answer ≡ some (store.close (some d)).0)
  serve_held store as_opened flags cmd alias s held here =
      elim (Result-cases (new (options flags))) [
        | inr (e, h) ↦
            let (d, at) = held_some s.store here in rw (serve, h, at) (d, refl, refl, refl)
        | inl (config, h) ↦
            let (d, at) = held_some _ (
              command_kept platform bus lib marshal open_enclave read_password store
                flags.no_windows_webauthn config is_held held cmd alias s
              ∙ here) in
            rw (serve, h, at) (d, refl, refl, refl)
      ]

  on_backend_closes :
      (backend : Backend) (path : Bytes) (flags : Flags) (cmd alias : Bytes) (m : Machine W)
      → IsClosed db sql open_pebble open_sqlite
          (driver_opens db sql open_pebble open_sqlite backend path m.world)
          m.stdout
          (on_backend platform bus lib marshal open_enclave read_password db sql json open_pebble
            open_sqlite make_parent backend path flags cmd alias m)
  unfolding on_backend Pebble.close Sqlite.close
  on_backend_closes unknown path flags cmd alias m = ((refused, refl, refl, refl), refl)
  on_backend_closes pebble path flags cmd alias m =
      elim (pebble_opened (open_pebble m.world) path) [
        | inr (e, h, failed) ↦
            rw (IsClosed, on_backend, h, failed) ((not_opened e, refl, refl, refl), refl)
        | inl (d, h, opened) ↦
            rw (IsClosed, on_backend, h, opened)
              (serve_held (pebble_store db json) on_pebble flags cmd alias
                (record { store = some d; world = m }) (pebble_store-IsHeld db json) refl)
      ]
  on_backend_closes sqlite path flags cmd alias m =
      elim (sqlite_opened sql json (open_sqlite m.world) path) [
        | inl (d, h, migrated, opened) ↦
            rw (IsClosed, on_backend, h, migrated, opened)
              (serve_held (sqlite_store sql json) on_sqlite flags cmd alias
                (record { store = some (sql.migrate background d).1; world = m })
                (sqlite_store-IsHeld sql json) refl)
        | inr (inl (d, h, f, failed, given_up)) ↦
            rw (IsClosed, on_backend, h, failed, given_up)
              ((not_opened f.cause, refl, refl, refl), ap (λ r. r.1) given_up)
        | inr (inr (e, h, failed)) ↦
            rw (IsClosed, on_backend, h, failed)
              ((not_opened e, refl, refl, refl), ap (λ r. r.1) failed)
      ]

  -- No database is asked for without a command.
  abbrev pub opened_for : Flags → List Bytes → Machine W → Option (P ⊎ Q)
  opened_for flags [] m = none
  opened_for flags (cmd ∷ rest) m =
      driver_opens db sql open_pebble open_sqlite (backend_of flags.backend)
        (db_path platform flags) (make_parent (db_path platform flags) m.world)

  -- However a run ends: where `pebble.Open` made a database, or `sql.Open` one that `migrate` then
  -- accepted, the store holds a database when its `Close` is called, the answer is that of closing
  -- this database, and the store is left without it. Where `migrate` fails, the database is closed as
  -- `migrate` left it, and where the driver makes none nothing is closed; in both cases the run fails,
  -- has no store and prints nothing to standard output.
  pub run_closes :
      (flags : Flags) (args : List Bytes) (m : Machine W)
      → IsClosed db sql open_pebble open_sqlite (opened_for flags args m) m.stdout (
          run platform bus lib marshal open_enclave read_password db sql json open_pebble
            open_sqlite make_parent flags args m)
  unfolding run
  run_closes flags [] m = ((refused, refl, refl, refl), refl)
  run_closes flags (cmd ∷ rest) m =
      on_backend_closes (backend_of flags.backend) (db_path platform flags) flags cmd
        (alias_of rest) (record m { world = make_parent (db_path platform flags) m.world })
