-- ===== src/Cli/HmacSecret/Again.antt =====
-- The end of cmd/hmac-secret: its printed credential and salt give the same secret again.
use hmacsecret.Base.{
  ℕ, ◌≡◌, Bool, true, false, Bytes, List, [], ◌∷◌, trim, length, AreBytes, Option, some, Result, ok,
  Exec, arith, refl, sym, ap, ◌∙◌,
}
use hmacsecret.Store.{empty}
use hmacsecret.Types.{DeviceError}
use hmacsecret.Devices.{Platform, Libfido2}
use hmacsecret.Authenticator.{
  Methods, RelyingParty, User, MakeCredentialOpts, AssertionOpts, Attestation,
}
use hmacsecret.Authenticator.Inputs.{
  ClientData, decode_hex, encode_hex, parse_salt, needs_terminal_pin,
}
use hmacsecret.Authenticator.Salts.{
  parse_salt-AreBytes, parse_salt-encode_hex, decode_hex-encode_hex,
}
use hmacsecret.Authenticator.Derive.{assertion_opts, derive_inv}
use hmacsecret.Cli.Machine.{Machine}
use hmacsecret.Cli.HmacSecret.{Flags, derive_options, run}
use hmacsecret.Cli.HmacSecret.Report.{report, OneLine, encode_hex-OneLine, report_injective}
use hmacsecret.Cli.HmacSecret.Shown.{derive_and_print_inv, run_inv}

some-injective : {A : Type 0} {x y : A} → some x ≡ some y → x ≡ y
some-injective h = ground arith

empty-encode_hex : (s : Bytes) → empty s ≡ false → empty (encode_hex s) ≡ false
empty-encode_hex [] h = h
empty-encode_hex (b ∷ s) h = refl

same_first :
    {A B : Type 0} (r : Result DeviceError (A × B)) (x y : A) (b c : B)
    → r ≡ ok (x, b)
    → r ≡ ok (y, c)
    → x ≡ y
same_first r x y b c h h' = ground arith

module _ {W : Type 0} (platform : Platform) (bus : Libfido2 W) (lib : Methods W bus.Handle)
    (marshal : ClientData → Option Bytes) (open_enclave : lib.Enclave → Option Bytes)
    (read_password : Exec W ℕ Bytes) (prf : Bytes → List Bytes → Bytes → Bool → Bytes)
    (no_pin : Bool) where
  abbrev MakesBytes : Type 0
  MakesBytes =
      (h : bus.Handle) (challenge : Bytes) (rp : RelyingParty) (user : User) (pin : Bytes)
      (o : MakeCredentialOpts lib.Extension lib.OptionValue) (w : W) (a : Attestation)
      → (lib.make_credential h challenge rp user lib.es256 pin o w).0 ≡ ok a
      → AreBytes a.credential_id

  abbrev IsPrf : Type 0
  IsPrf =
      (h : bus.Handle) (rp_id challenge : Bytes) (ids : List Bytes) (pin : Bytes)
      (o : AssertionOpts lib.Extension lib.OptionValue) (w : W) (e : lib.Enclave)
      → (lib.assertion h rp_id challenge ids pin o w).0 ≡ ok (some e)
      → open_enclave e ≡ some (prf rp_id ids o.hmac_salt (empty pin))

  -- What a `run` over such a device printed.
  record IsPrinted (flags : Flags) (m' : Machine W) : Type 0 where
    id : Bytes
    salt : Bytes
    lines :
        m'.stdout
        ≡ report
            (encode_hex id)
            (encode_hex salt)
            (encode_hex (prf (trim flags.rp_id) (id ∷ []) salt no_pin))
    id-AreBytes : AreBytes id
    id_given : empty id ≡ false
    salt-AreBytes : AreBytes salt
    salt_sized : length salt ≡ 32
    reused :
        empty (trim flags.credential_id) ≡ false → decode_hex (trim flags.credential_id) ≡ some id
    generated : Bool
    random : Option Bytes
    parsed : parse_salt (trim flags.salt) random ≡ ok (salt, generated)

  run-IsPrinted :
      (flags : Flags) (m m' : Machine W)
      → MakesBytes
      → IsPrf
      → ((path : Bytes) → needs_terminal_pin platform path ≡ true)
      → ((w : W) (pin : Bytes) → (read_password w).0 ≡ ok pin → empty pin ≡ no_pin)
      → ((n : ℕ) (b : Bytes) → m.random n ≡ some b → AreBytes b)
      → flags.list ≡ false
      → m.stdout ≡ []
      → run platform bus lib marshal open_enclave read_password flags m ≡ (ok tt, m')
      → IsPrinted flags m'
  run-IsPrinted flags m m' makes det needs pins draws derives fresh go =
      let r = run_inv platform bus lib marshal open_enclave read_password flags m m' derives go in
      let x =
        derive_and_print_inv platform bus lib marshal open_enclave read_password r.dev flags r.pin
          r.before m' r.rest in
      let opts = derive_options flags x.id x.salt r.pin in
      let (d, sized, given) =
        derive_inv lib marshal r.dev r.handle opts x.random x.before x.after x.x r.opened
          x.derived in
      let same_pin = pins r.at r.pin (r.entered needs) in
      let is_prf =
        det r.handle (trim flags.rp_id) d.challenge (x.id ∷ []) r.pin
          (assertion_opts lib marshal opts d.client_data_json) d.before d.e d.asked in
      let same_e : d.e ≡ x.e = some-injective (sym (ap (λ s. s.hmac_secret) d.made) ∙ x.sealed) in
      let same_bytes : x.bytes ≡ prf (trim flags.rp_id) (x.id ∷ []) x.salt no_pin = some-injective (
        sym x.opened
        ∙ (ap open_enclave (sym same_e)
            ∙ (is_prf ∙ ap (λ p. some (prf (trim flags.rp_id) (x.id ∷ []) x.salt p)) same_pin))) in
      record {
        id = x.id;
        salt = x.salt;
        lines =
            x.shown (r.quiet ∙ fresh)
            ∙ (ap
                  (λ s.
                    report (encode_hex s.credential_id) (encode_hex s.salt) (encode_hex x.bytes))
                  d.made
                ∙ ap (λ b. report (encode_hex x.id) (encode_hex x.salt) (encode_hex b)) same_bytes);
        id-AreBytes = x.id-AreBytes makes;
        id_given = given;
        salt-AreBytes =
            parse_salt-AreBytes (trim flags.salt) x.salt x.generated (r.before.random x.draws)
              (λ b h. draws x.draws b (sym (ap (λ f. f x.draws) r.same_random) ∙ h)) x.parsed;
        salt_sized = sized;
        reused = x.reused;
        generated = x.generated;
        random = r.before.random x.draws;
        parsed = x.parsed;
      }

  -- The three lines that a run over a fresh standard output printed, given back to a later run by its flags,
  -- are printed again.
  run-IsPrinted_again :
      (flags flags' : Flags) (m' u' : Machine W)
      → (p : IsPrinted flags m') → (q : IsPrinted flags' u') → trim flags'.rp_id ≡ trim flags.rp_id
      → trim flags'.credential_id ≡ encode_hex p.id
      → trim flags'.salt ≡ encode_hex p.salt
      → u'.stdout ≡ m'.stdout
  run-IsPrinted_again flags flags' m' u' p q same_rp same_id same_salt =
      let id_q : q.id ≡ p.id = some-injective (
        sym (q.reused (ap empty same_id ∙ empty-encode_hex p.id p.id_given))
        ∙ (ap decode_hex same_id ∙ decode_hex-encode_hex p.id p.id-AreBytes)) in
      let salt_q : q.salt ≡ p.salt =
        same_first (parse_salt (trim flags'.salt) q.random) q.salt p.salt q.generated false q.parsed
          (ap (λ v. parse_salt v q.random) same_salt
            ∙ parse_salt-encode_hex p.salt q.random p.salt-AreBytes p.salt_sized) in
      q.lines ∙ (rw (id_q, salt_q, same_rp) (sym p.lines))

  -- Where each path needs a PIN at the terminal, the PIN is empty always or never, random bytes
  -- and credential ids are bytes, and the authenticator's secret depends on relying party,
  -- credential, salt and on whether a PIN was given: when a run without `-list` onto an empty
  -- standard output ends well and prints a credential id, a salt and a secret, each on its line,
  -- a later such run that is given that id, that salt and the same relying party prints the same
  -- three lines whenever it ends well.
  pub run_again :
      (flags flags' : Flags) (m m' u u' : Machine W) (id salt secret : Bytes)
      → ((h : bus.Handle) (challenge : Bytes) (rp : RelyingParty) (user : User) (pin : Bytes)
            (o : MakeCredentialOpts lib.Extension lib.OptionValue) (w : W) (a : Attestation)
          → (lib.make_credential h challenge rp user lib.es256 pin o w).0 ≡ ok a
          → AreBytes a.credential_id)
      → ((h : bus.Handle) (rp_id challenge : Bytes) (ids : List Bytes) (pin : Bytes)
            (o : AssertionOpts lib.Extension lib.OptionValue) (w : W) (e : lib.Enclave)
          → (lib.assertion h rp_id challenge ids pin o w).0 ≡ ok (some e)
          → open_enclave e ≡ some (prf rp_id ids o.hmac_salt (empty pin)))
      → ((path : Bytes) → needs_terminal_pin platform path ≡ true)
      → ((w : W) (pin : Bytes) → (read_password w).0 ≡ ok pin → empty pin ≡ no_pin)
      → ((n : ℕ) (b : Bytes) → m.random n ≡ some b → AreBytes b)
      → ((n : ℕ) (b : Bytes) → u.random n ≡ some b → AreBytes b)
      → flags.list ≡ false
      → flags'.list ≡ false
      → m.stdout ≡ []
      → u.stdout ≡ []
      → run platform bus lib marshal open_enclave read_password flags m ≡ (ok tt, m')
      → run platform bus lib marshal open_enclave read_password flags' u ≡ (ok tt, u')
      → m'.stdout ≡ report id salt secret
      → OneLine id
      → OneLine salt
      → OneLine secret
      → trim flags'.rp_id ≡ trim flags.rp_id
      → trim flags'.credential_id ≡ id
      → trim flags'.salt ≡ salt
      → u'.stdout ≡ report id salt secret
  run_again flags flags' m m' u u' id salt secret makes det needs pins draws draws' derives derives'
        fresh fresh' go go' lines hi hs hx same_rp same_id same_salt =
      let p = run-IsPrinted flags m m' makes det needs pins draws derives fresh go in
      let q = run-IsPrinted flags' u u' makes det needs pins draws' derives' fresh' go' in
      let (id_p, salt_p, secret_p) =
        report_injective id (encode_hex p.id) salt (encode_hex p.salt) secret
          (encode_hex (prf (trim flags.rp_id) (p.id ∷ []) p.salt no_pin)) hi
          (encode_hex-OneLine p.id) hs (encode_hex-OneLine p.salt) hx
          (encode_hex-OneLine (prf (trim flags.rp_id) (p.id ∷ []) p.salt no_pin))
          (sym lines ∙ p.lines) in
      run-IsPrinted_again flags flags' m' u' p q same_rp (same_id ∙ id_p) (same_salt ∙ salt_p)
      ∙ lines
