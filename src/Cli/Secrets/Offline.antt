-- ===== src/Cli/Secrets/Offline.antt =====
-- The commands of cmd/secrets that need no authenticator.
use hmacsecret.Base.{
  ℕ, ◌≡◌, Bool, false, ◌||◌, Bytes, List, [], ◌∷◌, ◌++◌, bytes_eq, codes, Option, Result, Exec,
  arith, refl, ◌∙◌, Bool-cases, inl, inr,
}
use hmacsecret.Base.Fallible.{Result-cases}
use hmacsecret.Store.{Error}
use hmacsecret.Store.Credentials.{CredentialStore}
use hmacsecret.Devices.{Platform, Libfido2}
use hmacsecret.Authenticator.{Methods}
use hmacsecret.Authenticator.Inputs.{ClientData}
use hmacsecret.Pebble
use hmacsecret.Pebble.Engine.{Db, Codecs}
use hmacsecret.Sqlite
use hmacsecret.Sqlite.Engine.{Sql, Failure}
use hmacsecret.Service.{Config, State, new}
use hmacsecret.Service
use hmacsecret.Service.OnPebble.{pebble_store}
use hmacsecret.Service.OnSqlite.{sqlite_store}
use hmacsecret.Cli.Machine.{Machine, newline, print}
use hmacsecret.Cli.Secrets.{
  Flags, Backend, unknown, pebble, sqlite, Opened, on_pebble, on_sqlite, print_all, delete, has,
  list, command, options, db_path, alias_of, backend_of, serve, on_backend, run,
}

-- The commands that ask an authenticator.
abbrev pub asks_authenticator : Bytes → Bool
asks_authenticator cmd =
    bytes_eq cmd (codes "create") || bytes_eq cmd (codes "derive") || bytes_eq cmd (codes "get")

-- All of a machine but what is on standard output.
abbrev pub apart : {W : Type 0} → Machine W → Machine W
apart m = record m { stdout = [] }

apart-print : {W : Type 0} (text : Bytes) (m : Machine W) → apart (print text m).1 ≡ apart m
apart-print text m = elim (Bool-cases m.broken) [
  | inl broken ↦ ground arith
  | inr whole ↦ ground arith
]

apart-print_all :
    {W : Type 0} (aliases : List Bytes) (m : Machine W) → apart (print_all aliases m).1 ≡ apart m
unfolding print_all
apart-print_all [] m = refl
apart-print_all (a ∷ aliases) m =
    apart-print_all aliases (print (a ++ newline) m).1 ∙ apart-print (a ++ newline) m

module _ {W : Type 0} (platform : Platform) (bus : Libfido2 W) (lib : Methods W bus.Handle)
    (marshal : ClientData → Option Bytes) (open_enclave : lib.Enclave → Option Bytes)
    (read_password : Exec W ℕ Bytes) where
  module _ {S : Type 0} (store : CredentialStore S) (exclude : Bool) (config : Config) where
    apart-delete :
        (alias : Bytes) (s : State S (Machine W))
        → apart
            (delete platform bus lib marshal open_enclave read_password store exclude config alias
              s).1.world
          ≡ apart s.world
    unfolding delete Service.delete
    apart-delete alias s = ground arith

    apart-has :
        (alias : Bytes) (s : State S (Machine W))
        → apart
            (has platform bus lib marshal open_enclave read_password store exclude config alias
              s).1.world
          ≡ apart s.world
    unfolding has Service.has
    apart-has alias s = ground arith

    apart-list :
        (s : State S (Machine W))
        → apart
            (list platform bus lib marshal open_enclave read_password store exclude config
              s).1.world
          ≡ apart s.world
    unfolding list Service.list
    apart-list s = elim (Result-cases (store.list (λ i. false) s.store).0) [
      | inr (e, h) ↦ ground arith
      | inl (aliases, h) ↦ ground (arith, apart-print_all aliases s.world)
    ]

    apart-command :
        (cmd alias : Bytes) (s : State S (Machine W))
        → asks_authenticator cmd ≡ false
        → apart
            (command platform bus lib marshal open_enclave read_password store exclude config cmd
              alias s).1.world
          ≡ apart s.world
    unfolding command
    apart-command cmd alias s offline =
        let create_no : bytes_eq cmd (codes "create") ≡ false = ground arith in
        let derive_no : (bytes_eq cmd (codes "derive") || bytes_eq cmd (codes "get")) ≡ false =
          ground arith in
        rw (create_no, derive_no)
          (elim (Bool-cases (bytes_eq cmd (codes "delete") || bytes_eq cmd (codes "rm"))) [
            | inl deletes ↦ rw deletes (apart-delete alias s)
            | inr delete_no ↦ rw delete_no (elim (Bool-cases (bytes_eq cmd (codes "has"))) [
              | inl asks ↦ rw asks (apart-has alias s)
              | inr has_no ↦ rw has_no (elim (Bool-cases (bytes_eq cmd (codes "list"))) [
                | inl lists ↦ rw lists (apart-list s)
                | inr list_no ↦ rw list_no refl
              ])
            ])
          ])

  module _ {P Q : Type 0} (db : Db P) (sql : Sql Q) (json : Codecs)
      (open_pebble : W → Bytes → Result Error P) (open_sqlite : W → Bytes → Result Failure Q)
      (make_parent : Bytes → W → W) where
    apart-serve :
        {S : Type 0} (store : CredentialStore S) (as_opened : S → Opened P Q) (flags : Flags)
        (cmd alias : Bytes) (s : State S (Machine W))
        → asks_authenticator cmd ≡ false
        → apart
            (serve platform bus lib marshal open_enclave read_password db sql json open_pebble
              open_sqlite make_parent store as_opened flags cmd alias s).machine
          ≡ apart s.world
    apart-serve store as_opened flags cmd alias s offline =
        elim (Result-cases (new (options flags))) [
          | inr (e, h) ↦ rw (serve, h) refl
          | inl (config, h) ↦
              rw (serve, h)
                (apart-command store flags.no_windows_webauthn config cmd alias s offline)
        ]

    apart-on_backend :
        (backend : Backend) (path : Bytes) (flags : Flags) (cmd alias : Bytes) (m : Machine W)
        → asks_authenticator cmd ≡ false
        → apart
            (on_backend platform bus lib marshal open_enclave read_password db sql json open_pebble
              open_sqlite make_parent backend path flags cmd alias m).machine
          ≡ apart m
    unfolding on_backend
    apart-on_backend unknown path flags cmd alias m offline = refl
    apart-on_backend pebble path flags cmd alias m offline =
        elim (Result-cases (Pebble.open_store (open_pebble m.world) path)) [
          | inr (e, h) ↦ rw (on_backend, h) refl
          | inl (s, h) ↦
              rw (on_backend, h)
                (apart-serve (pebble_store db json) on_pebble flags cmd alias
                  (record { store = s; world = m }) offline)
        ]
    apart-on_backend sqlite path flags cmd alias m offline =
        elim (Result-cases (Sqlite.open_store sql json (open_sqlite m.world) path).0) [
          | inr (e, h) ↦ rw (on_backend, h) refl
          | inl (s, h) ↦
              rw (on_backend, h)
                (apart-serve (sqlite_store sql json) on_sqlite flags cmd alias
                  (record { store = s; world = m }) offline)
        ]

    -- A command other than `create`, `derive` and `get` makes the directory of the database and
    -- writes to standard output at most: it leaves the authenticators, the other streams and the
    -- source of randomness as they were, on every path.
    pub run_offline :
        (flags : Flags) (cmd : Bytes) (rest : List Bytes) (m : Machine W)
        → asks_authenticator cmd ≡ false
        → apart
            (run platform bus lib marshal open_enclave read_password db sql json open_pebble
              open_sqlite make_parent flags
              (cmd ∷ rest)
              m).machine
          ≡ apart (record m { world = make_parent (db_path platform flags) m.world })
    unfolding run
    run_offline flags cmd rest m offline =
        apart-on_backend (backend_of flags.backend) (db_path platform flags) flags cmd
          (alias_of rest) (record m { world = make_parent (db_path platform flags) m.world })
          offline
