-- ===== src/Cli/Secrets/Again.antt =====
-- cmd/secrets run twice: `create` of an alias, then `derive` of it.
use hmacsecret.Base.{
  ℕ, suc, ◌≡◌, Bool, true, Bytes, List, [], ◌∷◌, ◌++◌, codes, trim, Option, some, ok, Exec, arith,
  refl, sym, ap, ◌∙◌, Option-cases, Bool-cases, inl, inr,
}
use hmacsecret.Base.Fallible.{Result-cases}
use hmacsecret.Store.{Context, Record, empty}
use hmacsecret.Store.Credentials.{CredentialStore, IsCredentialStore}
use hmacsecret.Types.{DeviceInfo, DeriveOptions}
use hmacsecret.Devices.{Platform, windows, other, Libfido2, Device}
use hmacsecret.Authenticator.{Methods, AssertionOpts, device_of}
use hmacsecret.Authenticator
use hmacsecret.Authenticator.Inputs.{ClientData, encode_hex}
use hmacsecret.Authenticator.Derive.{assertion_opts, derive_inv}
use hmacsecret.Sqlite.Engine.{background}
use hmacsecret.Service.{Config, State, Operation}
use hmacsecret.Service
use hmacsecret.Service.Quiet.{IsQuiet, create_quiet, derive_quiet}
use hmacsecret.Service.Reproduce.{create_derive_inv}
use hmacsecret.Cli.Machine.{Machine, newline, write_enclave_hex}
use hmacsecret.Cli.Terminal.{select, provide, provide_windows}
use hmacsecret.Cli.Secrets.{default_pin_provider, devices, create, derive, show_secret}

-- The two lines of standard output.
abbrev pub report : Bytes → Bytes → Bytes
report alias secret =
    ((codes "alias=" ++ (alias ++ newline)) ++ codes "hmac_secret=") ++ secret ++ newline

module _ {W : Type 0} (platform : Platform) (bus : Libfido2 W) (lib : Methods W bus.Handle)
    (marshal : ClientData → Option Bytes) (open_enclave : lib.Enclave → Option Bytes)
    (read_password : Exec W ℕ Bytes) where
  select_quiet :
      (auto_single : Bool) (l : List DeviceInfo) (m : Machine W)
      → (select auto_single l m).1.stdout ≡ m.stdout
  unfolding select
  select_quiet auto_single [] m = refl
  select_quiet auto_single (d ∷ l) m = ground arith

  provide_quiet :
      (p : Platform) (d : DeviceInfo) (m : Machine W)
      → (default_pin_provider p read_password d m).1.stdout ≡ m.stdout
  unfolding provide provide_windows
  provide_quiet windows d m = refl
  provide_quiet other d m = ground arith

  -- Nothing that the service calls writes to standard output.
  devices-IsQuiet :
      (exclude : Bool)
      → IsQuiet
          (devices platform bus lib marshal open_enclave read_password exclude)
          (λ m. m.stdout)
  devices-IsQuiet exclude = record {
    devices = λ m. refl;
    select = λ ctx l m. select_quiet true l m;
    provide = λ ctx op d m. provide_quiet platform d m;
    open_path = λ path m. ground arith;
    create = λ auth o m. ground arith;
    derive = λ auth o m. ground arith;
  }

  -- The secret that the authenticator returned, opened.
  derived_bytes :
      (prf : Bytes → List Bytes → Bytes → Bool → Bytes) (exclude : Bool)
      (auth : Option (Device (Option bus.Handle))) (o : DeriveOptions) (m : Machine W)
      (e : lib.Enclave)
      → ((h : bus.Handle) (rp_id challenge : Bytes) (ids : List Bytes) (pin : Bytes)
            (o : AssertionOpts lib.Extension lib.OptionValue) (w : W) (e : lib.Enclave)
          → (lib.assertion h rp_id challenge ids pin o w).0 ≡ ok (some e)
          → open_enclave e ≡ some (prf rp_id ids o.hmac_salt (empty pin)))
      → ((devices platform bus lib marshal open_enclave read_password exclude).derive auth o m).0
        ≡ ok (some e)
      → open_enclave e ≡ some (prf (trim o.rp_id) (o.credential_id ∷ []) o.salt (empty o.pin))
  unfolding Authenticator.derive
  derived_bytes prf exclude auth o m e det asked = elim (Result-cases (device_of auth)) [
    | inr (x, h) ↦ absurd (ground arith)
    | inl (h, handle) ↦
        let random = m.random m.drawn in
        let made = Authenticator.derive lib marshal auth o random m.world in
        elim (Result-cases made.0) [
          | inr (x, hx) ↦ absurd (ground arith)
          | inl (x, hx) ↦
              let (d, sized, given) =
                derive_inv lib marshal auth h o random m.world made.1 x handle
                  (ap (λ r. (r, made.1)) hx) in
              let same : e ≡ d.e = ground (arith, d.made) in
              ap open_enclave same
              ∙ det h (trim o.rp_id) d.challenge (o.credential_id ∷ []) o.pin
                  (assertion_opts lib marshal o d.client_data_json) d.before d.e d.asked
        ]
  ]

  module _ {S : Type 0} (store : CredentialStore S) (exclude : Bool) (config : Config) where
    -- A command that printed a secret.
    record IsShown (alias : Bytes) (x : Option lib.Enclave) (s s' : State S (Machine W))
        : Type 0 where
      e : lib.Enclave
      bytes : Bytes
      sealed : x ≡ some e
      opened : open_enclave e ≡ some bytes
      same_store : s'.store ≡ s.store
      shown : s.world.stdout ≡ [] → s'.world.stdout ≡ report alias (encode_hex bytes)

    show_secret_inv :
        (alias : Bytes) (x : Option lib.Enclave) (s s' : State S (Machine W))
        → show_secret platform bus lib marshal open_enclave read_password store exclude config alias
            x s
          ≡ (ok tt, s')
        → IsShown alias x s s'
    unfolding write_enclave_hex
    show_secret_inv alias x s s' go = elim (Option-cases x) [
      | inl nothing ↦ absurd (ground arith)
      | inr (e, sealed) ↦ elim (Option-cases (open_enclave e)) [
        | inl shut ↦ absurd (ground arith)
        | inr (bytes, opened) ↦ elim (Bool-cases s.world.broken) [
          | inl broken ↦ absurd (ground arith)
          | inr whole ↦ record {
            e = e;
            bytes = bytes;
            sealed = sealed;
            opened = opened;
            same_store = ground arith;
            shown = λ fresh. ground arith;
          }
        ]
      ]
    ]

    -- A `create` that ended well, and a `derive`.
    record IsCreated (alias : Bytes) (s s' : State S (Machine W)) : Type 0 where
      before : State S (Machine W)
      random : Option Bytes
      x : Option lib.Enclave
      after : State S (Machine W)
      made :
          Service.create store
            (devices platform bus lib marshal open_enclave read_password exclude)
            config
            background
            alias
            random
            before
          ≡ (ok x, after)
      printed : IsShown alias x after s'
      quiet : after.world.stdout ≡ s.world.stdout

    create_inv :
        (alias : Bytes) (s s' : State S (Machine W))
        → create platform bus lib marshal open_enclave read_password store exclude config alias s
          ≡ (ok tt, s')
        → IsCreated alias s s'
    unfolding create
    create_inv alias s s' go =
        let dev = devices platform bus lib marshal open_enclave read_password exclude in
        let random = s.world.random s.world.drawn in
        let before : State S (Machine W) = record s {
          world = record (s.world) { drawn = suc s.world.drawn };
        } in
        let made = Service.create store dev config background alias random before in
        elim (Bool-cases (empty alias)) [
          | inl missing ↦ absurd (ground arith)
          | inr given ↦ elim (Result-cases made.0) [
            | inr (e, h) ↦ absurd (ground arith)
            | inl (x, h) ↦ record {
              before = before;
              random = random;
              x = x;
              after = made.1;
              made = ap (λ r. (r, made.1)) h;
              printed = show_secret_inv alias x made.1 s' (ground arith);
              quiet =
                  create_quiet store dev config (λ m. m.stdout) (devices-IsQuiet exclude) background
                    alias random before;
            }
          ]
        ]

    record IsDerived (alias : Bytes) (s s' : State S (Machine W)) : Type 0 where
      x : Option lib.Enclave
      after : State S (Machine W)
      made :
          Service.derive store
            (devices platform bus lib marshal open_enclave read_password exclude)
            config
            background
            alias
            s
          ≡ (ok x, after)
      printed : IsShown alias x after s'
      quiet : after.world.stdout ≡ s.world.stdout

    derive_shown :
        (alias : Bytes) (s s' : State S (Machine W))
        → derive platform bus lib marshal open_enclave read_password store exclude config alias s
          ≡ (ok tt, s')
        → IsDerived alias s s'
    unfolding derive
    derive_shown alias s s' go =
        let dev = devices platform bus lib marshal open_enclave read_password exclude in
        let made = Service.derive store dev config background alias s in
        elim (Bool-cases (empty alias)) [
          | inl missing ↦ absurd (ground arith)
          | inr given ↦ elim (Result-cases made.0) [
            | inr (e, h) ↦ absurd (ground arith)
            | inl (x, h) ↦ record {
              x = x;
              after = made.1;
              made = ap (λ r. (r, made.1)) h;
              printed = show_secret_inv alias x made.1 s' (ground arith);
              quiet =
                  derive_quiet store dev config (λ m. m.stdout) (devices-IsQuiet exclude) background
                    alias s;
            }
          ]
        ]

    -- `create` of an alias and then `derive` of it print one secret.
    pub derive-create_again :
        {Keeps : Record → Type 0} {Lives : Context → Type 0}
        (law : IsCredentialStore store Keeps Lives)
        (prf : Bytes → List Bytes → Bytes → Bool → Bytes) (no_pin : Bool) (alias alias' : Bytes)
        (s s' u u' : State S (Machine W))
        → ((rec : Record) → rec.rp_id ≡ config.rp_id → Keeps rec)
        → Lives background
        → ((h : bus.Handle) (rp_id challenge : Bytes) (ids : List Bytes) (pin : Bytes)
              (o : AssertionOpts lib.Extension lib.OptionValue) (w : W) (e : lib.Enclave)
            → (lib.assertion h rp_id challenge ids pin o w).0 ≡ ok (some e)
            → open_enclave e ≡ some (prf rp_id ids o.hmac_salt (empty pin)))
        → ((d : DeviceInfo) (m : Machine W) (pin : Bytes)
            → (default_pin_provider platform read_password d m).0 ≡ ok pin
            → empty pin ≡ no_pin)
        → s.world.stdout ≡ []
        → u.world.stdout ≡ []
        → create platform bus lib marshal open_enclave read_password store exclude config alias s
          ≡ (ok tt, s')
        → derive platform bus lib marshal open_enclave read_password store exclude config alias' u
          ≡ (ok tt, u')
        → u.store ≡ s'.store
        → trim alias' ≡ trim alias
        → (secret : Bytes) × (s'.world.stdout ≡ report alias secret)
          × (u'.world.stdout ≡ report alias' secret)
    derive-create_again law prf no_pin alias alias' s s' u u' keeps live det pins fresh fresh' go
          go' kept same =
        let dev = devices platform bus lib marshal open_enclave read_password exclude in
        let c = create_inv alias s s' go in
        let d = derive_shown alias' u u' go' in
        let a =
          create_derive_inv store dev config law background background alias alias' c.random c.x d.x
            c.before c.after u d.after keeps live same c.made (kept ∙ c.printed.same_store)
            d.made in
        let value : Bytes → Bytes =
          λ pin. prf (trim a.rec.rp_id) (a.rec.credential_id ∷ []) a.rec.salt (empty pin) in
        let got : some c.printed.bytes ≡ some (value a.pin) =
          sym c.printed.opened
          ∙ derived_bytes prf exclude a.auth (Service.derive_options a.rec a.pin) a.world
              c.printed.e det (a.asked ∙ ap ok c.printed.sealed) in
        let got' : some d.printed.bytes ≡ some (value a.pin') =
          sym d.printed.opened
          ∙ derived_bytes prf exclude a.auth' (Service.derive_options a.rec a.pin') a.world'
              d.printed.e det (a.asked' ∙ ap ok d.printed.sealed) in
        let pin_same : empty a.pin' ≡ empty a.pin =
          pins a.provided'.info a.provided'.world a.pin' a.provided'.gave
          ∙ sym (pins a.provided.info a.provided.world a.pin a.provided.gave) in
        let bytes_same : d.printed.bytes ≡ c.printed.bytes = ground (arith, got, got', pin_same) in
        (
          encode_hex c.printed.bytes,
          c.printed.shown (c.quiet ∙ fresh),
          d.printed.shown (d.quiet ∙ fresh') ∙ ap (λ b. report alias' (encode_hex b)) bytes_same,
        )
