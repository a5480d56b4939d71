-- ===== src/Lib.antt =====
-- hmacsecret derives secrets with a FIDO2 authenticator and keeps what is needed to derive them again.
-- The service (pkg/secrets) creates a credential for an alias, stores its id, salt and relying party in a
-- credential store, and derives the alias's secret from them. Stores are in Pebble (pkg/store/pebble) and
-- in SQLite (pkg/store/sqlite); the encrypted store (pkg/store/encrypted) seals each record under a store
-- key and keeps the envelopes in either of them. The store key is itself sealed under a key-encryption
-- key (KEK), in the header.
--
-- The files:
--   Base: names of the libraries, bytes (Base/Binary), lists over native numbers (Base/Lists),
--     strings.TrimSpace (Base/Text), %d and strconv.Atoi (Base/Decimal), errors as values (Base/Fallible),
--     calls on a state (Base/Stateful).
--   Types: lib/hmacsecret/types.go: errors, options and results of the authenticator's calls.
--   Store: lib/store/store.go and lib/store/encrypted.go: the record types, the errors and the checks.
--     Store/Backend is the interface EnvelopeBackend with the contract IsBackend; Store/Credentials is
--     the interface Store with what the service relies on.
--   Encrypted: pkg/store/encrypted/encrypted.go. Encrypted/Wire has the byte formats (encodeRecord,
--     decodeRecord, headerAAD, recordAAD), Encrypted/Crypto the called packages, Encrypted/Blob sealing
--     and opening, Encrypted/Store the methods of Store. The files below each of them hold its proofs.
--     Encrypted/System has several handles on one backend, the calls that they make as a step relation
--     and the ledger of the records last put, which is the store's abstract state.
--   Pebble: pkg/store/pebble/pebble.go, over the database and JSON of Pebble/Engine. Pebble/Prefix and
--     Pebble/Listing are about the scan of ListEnvelopes.
--   Sqlite: pkg/store/sqlite/sqlite.go, over the SQL statements of Sqlite/Engine. Sqlite/Unique is about the
--     messages that the store takes for a violated constraint.
--   Service: pkg/secrets/secrets.go. Service/OnPebble and Service/OnSqlite put it over the two
--     stores; Service/Held is about what its operations leave alone in a store.
--   Devices: lib/hmacsecret/device.go and the two platform files: ListDevices, Open, OpenIndex.
--   Authenticator: lib/hmacsecret/hmacsecret.go: CreateCredential, Derive and CreateAndDerive;
--     Authenticator/Inputs has ParseSalt and MakeClientDataJSON (salt.go, clientdata.go).
--   Webauthn: internal/webauthn: Load, MakeCredential and GetAssertion. Webauthn/Types has the structures,
--     Webauthn/Native the parameter for webauthn.dll, the errors and the copies out of its memory,
--     Webauthn/Calls the log of calls.
--   Windows: lib/hmacsecret/hmacsecret_windows.go and device_windows.go: the broker of Windows as a device,
--     over Webauthn.
--   Cli: the command lines. Cli/Machine is what they run on: a world, the standard streams, numbered draws
--     of random bytes. Cli/Terminal has the prompts (pkg/device/cli, pkg/pin/cli, pkg/pin/windows,
--     ReadTerminalPIN of lib/hmacsecret/pin.go), Cli/HmacSecret run of cmd/hmac-secret/main.go and
--     Cli/Secrets run of cmd/secrets/main.go, which fills the parameters of Service by Devices,
--     Authenticator and Cli/Terminal and its store by Pebble or Sqlite. The Outcome of a run keeps the
--     answer of the last close of its database, which the program drops.
--   Tests: instances of the parameters, and the theorems at concrete inputs.
--
-- How the code is read: a method is a function of the context, its arguments and the state, and
-- returns its result or an error with the state it leaves. A context is the sequence of answers of
-- `ctx.Err()` at the checks of one call. An error is the sentinel that it wraps; messages are dropped.
-- A string and a `[]byte` are lists of bytes; a uint64 that is counted up wraps at 2^64. A method that
-- holds its mutex is one step; two calls that overlap are two steps in one order or the other
-- (Encrypted/System). Random bytes are arguments, `none` where the source of randomness fails. Zeroing
-- of memory is not modelled. Every loop of the source is structural recursion. Only two library routines
-- run on fuel: the digits of n have n + 1 rounds, of which each takes a digit off, and the trimming of
-- a text has as many rounds as the text has bytes. Text printed to standard error is kept; a failing
-- standard output fails at every write.
--
-- Parameters, with what is assumed of them where a theorem names it: memguard's enclaves and
-- XChaCha20-Poly1305 (Encrypted/Crypto: what is sealed is opened again, and only a sealing is opened),
-- the Pebble database (Pebble/Engine: a write is read back and leaves other keys alone), the
-- statements that go through database/sql (Sqlite/Engine: rows are read back, and an insertion
-- over a row of its key fails, with an error of which only one theorem assumes that its message is ASCII), encoding/json (for each value, that decoding returns what was encoded), go-libfido2's
-- discovery and opening (Devices.Libfido2, of which nothing is assumed) and the methods of its open
-- device (Authenticator.Methods: for the theorems on deriving again, that the secret is a function of
-- relying party, credential, salt and PIN presence), webauthn.dll (Webauthn.Native.Dll: for the bounds, that its
-- memory holds as many bytes as its answer says), the device calls that are injected into the service
-- (Service.Devices), and for the command lines memguard's opening of an enclave, term.ReadPassword,
-- the parsed flags, and the opening of a database at a path.
--
-- Not modelled: main of the two commands (signals, the exit code, memguard.Purge), the commands in the
-- builds for Windows and without a device library (hmacsecret_nocgo.go, whose functions all return
-- ErrUnsupportedBuild), a Selector or Provider whose streams are replaced, and third_party, a copy of
-- another project.
pub mod Base
pub mod Types
pub mod Store
pub mod Encrypted
pub mod Pebble
pub mod Sqlite
pub mod Service
pub mod Devices
pub mod Authenticator
pub mod Webauthn
pub mod Windows
pub mod Cli
pub mod Tests
