-- ===== src/Cli/Secrets/Kept.antt =====
-- What the commands of cmd/secrets leave alone in the store that they are given.
use hmacsecret.Base.{
  ℕ, ◌≡◌, Bool, ◌||◌, Bytes, bytes_eq, codes, Option, Exec, arith, refl, Bool-cases, inl, inr,
}
use hmacsecret.Store.Credentials.{CredentialStore}
use hmacsecret.Sqlite.Engine.{background}
use hmacsecret.Devices.{Platform, Libfido2}
use hmacsecret.Authenticator.{Methods}
use hmacsecret.Authenticator.Inputs.{ClientData}
use hmacsecret.Service.{Config, State}
use hmacsecret.Service
use hmacsecret.Service.Held.{IsHeld, create_held, derive_held, delete_held, has_held, list_held}
use hmacsecret.Cli.Machine.{Machine, draw}
use hmacsecret.Cli.Secrets.{devices, show_secret, create, derive, delete, has, list, command}

module _ {W : Type 0} (platform : Platform) (bus : Libfido2 W) (lib : Methods W bus.Handle)
    (marshal : ClientData → Option Bytes) (open_enclave : lib.Enclave → Option Bytes)
    (read_password : Exec W ℕ Bytes) {S A : Type 0} (store : CredentialStore S) (exclude : Bool)
    (config : Config) (f : S → A) (held : IsHeld store f) where
  abbrev ours : Service.Devices (Machine W)
  ours = devices platform bus lib marshal open_enclave read_password exclude

  show_secret_kept :
      (alias : Bytes) (secret : Option lib.Enclave) (s : State S (Machine W))
      → (show_secret platform bus lib marshal open_enclave read_password store exclude config alias
          secret s).1.store
        ≡ s.store
  show_secret_kept alias secret s = ground arith

  create_kept :
      (alias : Bytes) (s : State S (Machine W))
      → f
          (create platform bus lib marshal open_enclave read_password store exclude config alias
            s).1.store
        ≡ f s.store
  unfolding create
  create_kept alias s =
      let drawn : State S (Machine W) = record s { world = (draw s.world).1 } in
      ground (
        arith,
        create_held store ours config f held background alias (s.world.random s.world.drawn) drawn,
      )

  derive_kept :
      (alias : Bytes) (s : State S (Machine W))
      → f
          (derive platform bus lib marshal open_enclave read_password store exclude config alias
            s).1.store
        ≡ f s.store
  unfolding derive
  derive_kept alias s = ground (arith, derive_held store ours config f held background alias s)

  delete_kept :
      (alias : Bytes) (s : State S (Machine W))
      → f
          (delete platform bus lib marshal open_enclave read_password store exclude config alias
            s).1.store
        ≡ f s.store
  unfolding delete
  delete_kept alias s = ground (arith, delete_held store ours config f held background alias s)

  has_kept :
      (alias : Bytes) (s : State S (Machine W))
      → f
          (has platform bus lib marshal open_enclave read_password store exclude config alias
            s).1.store
        ≡ f s.store
  unfolding has
  has_kept alias s = ground (arith, has_held store ours config f held background alias s)

  list_kept :
      (s : State S (Machine W))
      → f (list platform bus lib marshal open_enclave read_password store exclude config s).1.store
        ≡ f s.store
  unfolding list
  list_kept s = ground (arith, list_held store ours config f held background s)

  -- A command leaves alone what the calls of the store leave alone.
  pub command_kept :
      (cmd alias : Bytes) (s : State S (Machine W))
      → f
          (command platform bus lib marshal open_enclave read_password store exclude config cmd
            alias s).1.store
        ≡ f s.store
  unfolding command
  command_kept cmd alias s = elim (Bool-cases (bytes_eq cmd (codes "create"))) [
    | inl same ↦ rw same (create_kept alias s)
    | inr other ↦
        rw other (elim (Bool-cases (bytes_eq cmd (codes "derive") || bytes_eq cmd (codes "get"))) [
          | inl same ↦ rw same (derive_kept alias s)
          | inr other ↦
              rw other
                (elim (Bool-cases (bytes_eq cmd (codes "delete") || bytes_eq cmd (codes "rm"))) [
                  | inl same ↦ rw same (delete_kept alias s)
                  | inr other ↦ rw other (elim (Bool-cases (bytes_eq cmd (codes "has"))) [
                    | inl same ↦ rw same (has_kept alias s)
                    | inr other ↦ rw other (elim (Bool-cases (bytes_eq cmd (codes "list"))) [
                      | inl same ↦ rw same (list_kept s)
                      | inr other ↦ rw other refl
                    ])
                  ])
                ])
        ])
  ]
