-- ===== src/Cli/Secrets/Served.antt =====
-- Two runs of cmd/secrets over one store, whatever the backend: `create` of an alias, then `derive` of it.
use hmacsecret.Base.{
  ℕ, ◌≡◌, Bool, Bytes, List, [], ◌∷◌, codes, trim, Option, some, Result, ok, err, Exec, arith, refl,
  sym, ap, ◌∙◌, inl, inr,
}
use hmacsecret.Base.Fallible.{Result-cases}
use hmacsecret.Store.{Error, Context, Record, empty}
use hmacsecret.Store.Credentials.{CredentialStore, IsCredentialStore}
use hmacsecret.Types.{DeviceInfo}
use hmacsecret.Devices.{Platform, Libfido2}
use hmacsecret.Authenticator.{Methods, AssertionOpts}
use hmacsecret.Authenticator.Inputs.{ClientData}
use hmacsecret.Service.{Config, State, new}
use hmacsecret.Sqlite.Engine.{background}
use hmacsecret.Cli.Machine.{Machine}
use hmacsecret.Cli.Secrets.{
  Flags, Backend, CliError, not_opened, Outcome, Opened, default_pin_provider, backend_of, create,
  derive, command, options, db_path, alias_of,
}
use hmacsecret.Cli.Secrets.Again.{report, derive-create_again}

-- `New` never refuses these options.
new-options : (flags : Flags) → (config : Config) × (new (options flags) ≡ ok config)
unfolding new
new-options flags = elim (Result-cases (new (options flags))) [
  | inl (config, h) ↦ (config, h)
  | inr (e, h) ↦ absurd (ground arith)
]

module _ {W : Type 0} (platform : Platform) (bus : Libfido2 W) (lib : Methods W bus.Handle)
    (marshal : ClientData → Option Bytes) (open_enclave : lib.Enclave → Option Bytes)
    (read_password : Exec W ℕ Bytes) {S : Type 0} (store : CredentialStore S) where
  -- A command on an open store and a world.
  abbrev pub command_on :
      Flags
      → Config
      → Bytes
      → Bytes
      → S
      → W
      → Machine W
      → Result CliError (Unit {0}) × State S (Machine W)
  command_on flags config cmd alias s world m =
      command platform bus lib marshal open_enclave read_password store flags.no_windows_webauthn
        config cmd alias (record { store = s; world = record m { world = world } })

  command-create :
      (flags : Flags) (config : Config) (alias : Bytes) (s : State S (Machine W))
      → command platform bus lib marshal open_enclave read_password store flags.no_windows_webauthn
          config
          (codes "create")
          alias
          s
        ≡ create platform bus lib marshal open_enclave read_password store flags.no_windows_webauthn
            config alias s
  unfolding command
  command-create flags config alias s = refl

  command-derive :
      (flags : Flags) (config : Config) (alias : Bytes) (s : State S (Machine W))
      → command platform bus lib marshal open_enclave read_password store flags.no_windows_webauthn
          config
          (codes "derive")
          alias
          s
        ≡ derive platform bus lib marshal open_enclave read_password store flags.no_windows_webauthn
            config alias s
  unfolding command
  command-derive flags config alias s = refl

  module _ {P Q : Type 0} (as_opened : S → Opened P Q) (backend : Backend)
      (open_at : W → Bytes → Result Error S) (make_parent : Bytes → W → W)
      (go : Flags → List Bytes → Machine W → Outcome P Q W) where
    abbrev pub made_world : Flags → Machine W → W
    made_world flags m = make_parent (db_path platform flags) m.world

    -- A run opens this store, runs its command on it and closes it.
    pub record IsOver : Type 0 where
      pub runs :
          (flags : Flags) (cmd : Bytes) (rest : List Bytes) (m : Machine W) (s : S)
          (config : Config)
          → backend_of flags.backend ≡ backend
          → open_at (made_world flags m) (db_path platform flags) ≡ ok s
          → new (options flags) ≡ ok config
          → go flags (cmd ∷ rest) m ≡ (
              let (r, t) = command_on flags config cmd (alias_of rest) s (made_world flags m) m in
              record {
                result = r;
                machine = t.world;
                used = as_opened t.store;
                closed = as_opened (store.close t.store).1;
                answer = some (store.close t.store).0;
              })
      pub fails :
          (flags : Flags) (cmd : Bytes) (rest : List Bytes) (m : Machine W) (e : Error)
          → backend_of flags.backend ≡ backend
          → open_at (made_world flags m) (db_path platform flags) ≡ err e
          → (go flags (cmd ∷ rest) m).result ≡ err (not_opened e)
      pub apart : (s t : S) → as_opened s ≡ as_opened t → s ≡ t

    -- A run that ended well: the store that it opened, and what its command made of it.
    record IsServed (flags : Flags) (cmd alias : Bytes) (m : Machine W) (o : Outcome P Q W)
        : Type 0 where
      config : Config
      made : new (options flags) ≡ ok config
      s : S
      opened : open_at (made_world flags m) (db_path platform flags) ≡ ok s
      after : State S (Machine W)
      ran : command_on flags config cmd alias s (made_world flags m) m ≡ (ok tt, after)
      machine : o.machine ≡ after.world
      used : o.used ≡ as_opened after.store

    go-IsServed :
        (over : IsOver) (flags : Flags) (cmd : Bytes) (rest : List Bytes) (m : Machine W)
        → backend_of flags.backend ≡ backend
        → (go flags (cmd ∷ rest) m).result ≡ ok tt
        → IsServed flags cmd (alias_of rest) m (go flags (cmd ∷ rest) m)
    go-IsServed over flags cmd rest m same done =
        elim (Result-cases (open_at (made_world flags m) (db_path platform flags))) [
          | inr (e, h) ↦ absurd (cc (over.fails flags cmd rest m e same h, done))
          | inl (s, h) ↦
              let (config, made) = new-options flags in
              let ran = command_on flags config cmd (alias_of rest) s (made_world flags m) m in
              let whole = over.runs flags cmd rest m s config same h made in
              record {
                config = config;
                made = made;
                s = s;
                opened = h;
                after = ran.1;
                ran = ap (λ r. (r, ran.1)) (sym (ap (λ o. o.result) whole) ∙ done);
                machine = ap (λ o. o.machine) whole;
                used = ap (λ o. o.used) whole;
              }
        ]

    -- Over a store that keeps its contract, the two runs print one secret.
    pub served_again :
        {Keeps : Record → Type 0} {Lives : Context → Type 0}
        (law : IsCredentialStore store Keeps Lives) (over : IsOver)
        (prf : Bytes → List Bytes → Bytes → Bool → Bytes) (no_pin : Bool) (flags : Flags)
        (config : Config) (alias alias' : Bytes) (m u : Machine W) (t : S)
        → backend_of flags.backend ≡ backend
        → new (options flags) ≡ ok config
        → ((rec : Record) → rec.rp_id ≡ config.rp_id → Keeps rec)
        → Lives background
        → ((h : bus.Handle) (rp_id challenge : Bytes) (ids : List Bytes) (pin : Bytes)
              (o : AssertionOpts lib.Extension lib.OptionValue) (w : W) (e : lib.Enclave)
            → (lib.assertion h rp_id challenge ids pin o w).0 ≡ ok (some e)
            → open_enclave e ≡ some (prf rp_id ids o.hmac_salt (empty pin)))
        → ((dev : DeviceInfo) (m : Machine W) (pin : Bytes)
            → (default_pin_provider platform read_password dev m).0 ≡ ok pin
            → empty pin ≡ no_pin)
        → m.stdout ≡ []
        → u.stdout ≡ []
        → (go flags (codes "create" ∷ alias ∷ []) m).result ≡ ok tt
        → (go flags (codes "create" ∷ alias ∷ []) m).used ≡ as_opened t
        → ((s : S) → open_at (made_world flags u) (db_path platform flags) ≡ ok s → s ≡ t)
        → trim alias' ≡ trim alias
        → (go flags (codes "derive" ∷ alias' ∷ []) u).result ≡ ok tt
        → (secret : Bytes) × ((go flags (codes "create" ∷ alias ∷ []) m).machine.stdout
            ≡ report alias secret)
          × ((go flags (codes "derive" ∷ alias' ∷ []) u).machine.stdout ≡ report alias' secret)
    served_again law over prf no_pin flags config alias alias' m u t over_it made keeps live det
          pins fresh fresh' done left kept same done' =
        let c = go-IsServed over flags (codes "create") (alias ∷ []) m over_it done in
        let q = go-IsServed over flags (codes "derive") (alias' ∷ []) u over_it done' in
        let config_c : c.config ≡ config = ground (arith, c.made, made) in
        let config_q : q.config ≡ config = ground (arith, q.made, made) in
        let before : State S (Machine W) = record {
          store = c.s;
          world = record m { world = made_world flags m };
        } in
        let before' : State S (Machine W) = record {
          store = q.s;
          world = record u { world = made_world flags u };
        } in
        let ran =
          sym (command-create flags config alias before)
          ∙ (ap (λ k. command_on flags k (codes "create") alias c.s (made_world flags m) m)
                (sym config_c)
              ∙ c.ran) in
        let ran' =
          sym (command-derive flags config alias' before')
          ∙ (ap (λ k. command_on flags k (codes "derive") alias' q.s (made_world flags u) u)
                (sym config_q)
              ∙ q.ran) in
        let stored : c.after.store ≡ t = over.apart c.after.store t (sym c.used ∙ left) in
        let (secret, shown, shown') =
          derive-create_again platform bus lib marshal open_enclave read_password store
            flags.no_windows_webauthn config law prf no_pin alias alias' before c.after before'
            q.after keeps live det pins fresh fresh' ran ran' (kept q.s q.opened ∙ sym stored)
            same in
        (secret, ap (λ w. w.stdout) c.machine ∙ shown, ap (λ w. w.stdout) q.machine ∙ shown')
