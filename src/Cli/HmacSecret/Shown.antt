-- ===== src/Cli/HmacSecret/Shown.antt =====
-- What cmd/hmac-secret prints, and of which calls.
use hmacsecret.Base.{
  ℕ, suc, ◌≡◌, Bool, true, false, Bytes, [], ◌++◌, trim, AreBytes, Option, some, ok, Exec, arith,
  refl, sym, ap, subst, inl, inr, Bool-cases, Option-cases,
}
use hmacsecret.Base.Fallible.{Result-cases}
use hmacsecret.Store.{empty}
use hmacsecret.Types.{DeviceInfo, Secret}
use hmacsecret.Devices.{Platform, Libfido2, Device, get_elem?, list_devices, open_device}
use hmacsecret.Authenticator.{
  Methods, RelyingParty, User, MakeCredentialOpts, Attestation, device_of, create_credential,
  derive,
}
use hmacsecret.Authenticator.Inputs.{
  ClientData, decode_hex, encode_hex, parse_salt, needs_terminal_pin,
}
use hmacsecret.Authenticator.Salts.{decode_hex-AreBytes}
use hmacsecret.Authenticator.Register.{create_credential-AreBytes}
use hmacsecret.Cli.HmacSecret.Report.{report}
use hmacsecret.Cli.Machine.{Machine, write_enclave_hex}
use hmacsecret.Cli.Terminal.{describe_all, read_terminal_pin}
use hmacsecret.Cli.HmacSecret.{
  Flags, index_of, ask_pin, create_options, derive_options, find_credential, derive_and_print, run,
}

module _ {W : Type 0} (platform : Platform) (bus : Libfido2 W) (lib : Methods W bus.Handle)
    (marshal : ClientData → Option Bytes) (open_enclave : lib.Enclave → Option Bytes)
    (read_password : Exec W ℕ Bytes) where
  find_credential_quiet :
      (dev : Option (Device (Option bus.Handle))) (flags : Flags) (pin : Bytes) (m : Machine W)
      → ((find_credential platform bus lib marshal open_enclave read_password dev flags pin
            m).1.stdout
          ≡ m.stdout)
        × ((find_credential platform bus lib marshal open_enclave read_password dev flags pin
              m).1.broken
            ≡ m.broken)
        × ((find_credential platform bus lib marshal open_enclave read_password dev flags pin
              m).1.random
            ≡ m.random)
  unfolding find_credential
  find_credential_quiet dev flags pin m = ground arith

  find_credential_reused :
      (dev : Option (Device (Option bus.Handle))) (flags : Flags) (pin id : Bytes) (m : Machine W)
      → empty (trim flags.credential_id) ≡ false
      → (find_credential platform bus lib marshal open_enclave read_password dev flags pin m).0
        ≡ ok id
      → decode_hex (trim flags.credential_id) ≡ some id
  unfolding find_credential
  find_credential_reused dev flags pin id m given h = ground arith

  find_credential-AreBytes :
      (dev : Option (Device (Option bus.Handle))) (flags : Flags) (pin id : Bytes) (m : Machine W)
      → ((h : bus.Handle) (challenge : Bytes) (rp : RelyingParty) (user : User) (pin : Bytes)
            (o : MakeCredentialOpts lib.Extension lib.OptionValue) (w : W) (a : Attestation)
          → (lib.make_credential h challenge rp user lib.es256 pin o w).0 ≡ ok a
          → AreBytes a.credential_id)
      → (find_credential platform bus lib marshal open_enclave read_password dev flags pin m).0
        ≡ ok id
      → AreBytes id
  unfolding find_credential
  find_credential-AreBytes dev flags pin id m bytes h =
      elim (Bool-cases (empty (trim flags.credential_id))) [
        | inr given ↦
            decode_hex-AreBytes (trim flags.credential_id) id
              (find_credential_reused dev flags pin id m given h)
        | inl none_given ↦
            let made =
              create_credential lib marshal dev (create_options flags pin) (m.random m.drawn)
                (m.random (suc m.drawn)) m.world in
            elim (Result-cases made.0) [
              | inr (e, hm) ↦ absurd (ground arith)
              | inl (c, hm) ↦ subst AreBytes {x = c.id} {y = id} (ground arith) (
                  create_credential-AreBytes lib marshal dev (create_options flags pin)
                    (m.random m.drawn) (m.random (suc m.drawn)) m.world made.1 c bytes
                    (ap (λ r. (r, made.1)) hm))
            ]
      ]

  -- A `derive_and_print` that ended well: its call of `derive`, and what it printed of the secret.
  pub record IsShown (dev : Option (Device (Option bus.Handle))) (flags : Flags) (pin : Bytes)
      (m m' : Machine W) : Type 0 where
    pub id : Bytes
    pub salt : Bytes
    pub id-AreBytes :
        ((h : bus.Handle) (challenge : Bytes) (rp : RelyingParty) (user : User) (pin : Bytes)
            (o : MakeCredentialOpts lib.Extension lib.OptionValue) (w : W) (a : Attestation)
          → (lib.make_credential h challenge rp user lib.es256 pin o w).0 ≡ ok a
          → AreBytes a.credential_id)
        → AreBytes id
    pub reused :
        empty (trim flags.credential_id) ≡ false → decode_hex (trim flags.credential_id) ≡ some id
    pub generated : Bool
    pub draws : ℕ
    pub parsed : parse_salt (trim flags.salt) (m.random draws) ≡ ok (salt, generated)
    pub random : Option Bytes
    pub before : W
    pub x : Secret lib.Enclave
    pub after : W
    pub derived :
        derive lib marshal dev (derive_options flags id salt pin) random before ≡ (ok x, after)
    pub e : lib.Enclave
    pub bytes : Bytes
    pub sealed : x.hmac_secret ≡ some e
    pub opened : open_enclave e ≡ some bytes
    pub shown :
        m.stdout ≡ []
        → m'.stdout ≡ report (encode_hex x.credential_id) (encode_hex x.salt) (encode_hex bytes)

  pub derive_and_print_inv :
      (dev : Option (Device (Option bus.Handle))) (flags : Flags) (pin : Bytes) (m m' : Machine W)
      → derive_and_print platform bus lib marshal open_enclave read_password dev flags pin m
        ≡ (ok tt, m')
      → IsShown dev flags pin m m'
  unfolding derive_and_print write_enclave_hex
  derive_and_print_inv dev flags pin m m' run =
      let found =
        find_credential platform bus lib marshal open_enclave read_password dev flags pin m in
      let (same_out, same_broken, same_random) = find_credential_quiet dev flags pin m in
      let random_salt : Option Bytes = found.1.random found.1.drawn in
      elim (Result-cases found.0) [
        | inr (e, h) ↦ absurd (ground arith)
        | inl (id, h) ↦ elim (Result-cases (parse_salt (trim flags.salt) random_salt)) [
          | inr (e, hs) ↦ absurd (ground arith)
          | inl ((salt, generated), hs) ↦
              let random : Option Bytes = found.1.random (suc found.1.drawn) in
              let got =
                derive lib marshal dev (derive_options flags id salt pin) random found.1.world in
              elim (Result-cases got.0) [
                | inr (e, hd) ↦ absurd (ground arith)
                | inl (x, hd) ↦ elim (Option-cases x.hmac_secret) [
                  | inl nothing ↦ absurd (ground arith)
                  | inr (e, sealed) ↦ elim (Option-cases (open_enclave e)) [
                    | inl shut ↦ absurd (ground arith)
                    | inr (bytes, opened) ↦ elim (Bool-cases m.broken) [
                      | inl broken ↦ absurd (ground arith)
                      | inr whole ↦ record {
                        id = id;
                        salt = salt;
                        id-AreBytes = λ bytes. find_credential-AreBytes dev flags pin id m bytes h;
                        reused = λ given. find_credential_reused dev flags pin id m given h;
                        generated = generated;
                        draws = found.1.drawn;
                        parsed = rw (sym (ap (λ f. f found.1.drawn) same_random)) hs;
                        random = random;
                        before = found.1.world;
                        x = x;
                        after = got.1;
                        derived = ap (λ r. (r, got.1)) hd;
                        e = e;
                        bytes = bytes;
                        sealed = sealed;
                        opened = opened;
                        shown = λ fresh. ground arith;
                      }
                    ]
                  ]
                ]
              ]
        ]
      ]

  ask_pin_quiet :
      (index : ℕ) (info : DeviceInfo) (m : Machine W)
      → ((ask_pin platform bus lib marshal open_enclave read_password index info m).1.stdout
          ≡ m.stdout)
        × ((ask_pin platform bus lib marshal open_enclave read_password index info m).1.random
            ≡ m.random)
  unfolding read_terminal_pin
  ask_pin_quiet index info m = ground arith

  ask_pin_entered :
      (index : ℕ) (info : DeviceInfo) (m : Machine W) (pin : Bytes)
      → needs_terminal_pin platform info.path ≡ true
      → (ask_pin platform bus lib marshal open_enclave read_password index info m).0 ≡ ok pin
      → (read_password m.world).0 ≡ ok pin
  unfolding read_terminal_pin
  ask_pin_entered index info m pin needs h = elim (Result-cases (read_password m.world).0) [
    | inr (e, hr) ↦ absurd (ground arith)
    | inl (p, hr) ↦ ground arith
  ]

  -- A `run` that did not only list the devices came to `derive_and_print` with an open device, and had
  -- printed nothing to standard output.
  pub record IsRun (flags : Flags) (m m' : Machine W) : Type 0 where
    pub dev : Option (Device (Option bus.Handle))
    pub handle : bus.Handle
    pub opened : device_of dev ≡ ok handle
    pub pin : Bytes
    pub at : W
    pub entered :
        ((path : Bytes) → needs_terminal_pin platform path ≡ true) → (read_password at).0 ≡ ok pin
    pub before : Machine W
    pub quiet : before.stdout ≡ m.stdout
    pub same_random : before.random ≡ m.random
    pub rest :
        derive_and_print platform bus lib marshal open_enclave read_password dev flags pin before
        ≡ (ok tt, m')

  pub run_inv :
      (flags : Flags) (m m' : Machine W)
      → flags.list ≡ false
      → run platform bus lib marshal open_enclave read_password flags m ≡ (ok tt, m')
      → IsRun flags m m'
  unfolding run
  run_inv flags m m' derives go = elim (Result-cases (index_of flags.device)) [
    | inr (e, h) ↦ absurd (ground arith)
    | inl (index, h) ↦
        let listed = list_devices platform bus flags.no_windows_webauthn m.world in
        elim (Result-cases listed.0) [
          | inr (e, hl) ↦ absurd (ground arith)
          | inl (devices, hl) ↦ elim (Option-cases (get_elem? devices index)) [
            | inl beyond ↦ absurd (ground arith)
            | inr (info, hi) ↦
                let m1 : Machine W = record m {
                  world = listed.1;
                  stderr = m.stderr ++ describe_all devices;
                } in
                let asked =
                  ask_pin platform bus lib marshal open_enclave read_password index info m1 in
                elim (Result-cases asked.0) [
                  | inr (e, hp) ↦ absurd (ground arith)
                  | inl (pin, hp) ↦
                      let dev = open_device platform bus info.path asked.1.world in
                      elim (Result-cases dev.0) [
                        | inr (e, ho) ↦ absurd (ground arith)
                        | inl (d, ho) ↦ record {
                          dev = some (record { path = d.path; device = some d.device });
                          handle = d.device;
                          opened = refl;
                          pin = pin;
                          at = listed.1;
                          entered = λ needs. ask_pin_entered index info m1 pin (needs info.path) hp;
                          before = record asked.1 { world = dev.1 };
                          quiet = (ask_pin_quiet index info m1).0;
                          same_random = (ask_pin_quiet index info m1).1;
                          rest = ground arith;
                        }
                      ]
                ]
          ]
        ]
  ]
