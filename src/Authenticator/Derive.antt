-- ===== src/Authenticator/Derive.antt =====
-- Theorems on `Derive` of lib/hmacsecret/hmacsecret.go.
use hmacsecret.Base.{
  ◌≡◌, ◌≢◌, Bool, true, false, not, ◌&&◌, Bytes, [], ◌∷◌, length, ◌==◌, codes, trim, Option, none,
  some, Result, ok, err, Exec, pure, lift, fail_if, arith, refl, sym, ◌∙◌, Option-cases, Bool-cases,
  inl, inr,
}
use hmacsecret.Base.Fallible.{Result-cases}
use hmacsecret.Base.Stateful.{◌>>=◌, ◌>>◌}
use hmacsecret.Store.{empty}
use hmacsecret.Types.{DeviceError, invalid_argument, not_fido2, unnamed, DeriveOptions, Secret}
use hmacsecret.Devices.{Device}
use hmacsecret.Authenticator.{
  Methods, AssertionOpts, call, device_of, is_fido2, user_presence_option, given_or, derive,
  sealed_secret,
}
use hmacsecret.Authenticator.Inputs.{ClientData, validate_salt, or_unnamed, make_client_data_json}

-- What `Derive` asks of its arguments.
abbrev pub is_request : {H : Type 0} → Option (Device (Option H)) → DeriveOptions → Bool
is_request d opts =
    elim (device_of d) [ ok h ↦ true | err e ↦ false ]
    && not (empty (trim opts.rp_id))
    && not (empty opts.credential_id)
    && (length opts.salt == 32)

device_of_fails :
    {H : Type 0} (d : Option (Device (Option H))) (e : DeviceError)
    → device_of d ≡ err e
    → e ≡ invalid_argument
device_of_fails none e h = ground arith
device_of_fails (some d) e h = ground arith

module _ {W H : Type 0} (lib : Methods W H) (marshal : ClientData → Option Bytes) where
  abbrev pub assertion_opts : DeriveOptions → Bytes → AssertionOpts lib.Extension lib.OptionValue
  assertion_opts opts client_data_json = record {
    extensions = lib.hmac_secret_extension ∷ [];
    up = user_presence_option lib marshal opts;
    hmac_salt = opts.salt;
    client_data_json = client_data_json;
  }

  -- `derive` from the handle's check on.
  abbrev ask : H → DeriveOptions → Option Bytes → Exec W DeviceError (Secret lib.Enclave)
  ask h opts random = do
    supported ← call lib marshal (lib.is_fido2 h)
    lift (fail_if (not supported) not_fido2)
    challenge ← lift (or_unnamed random)
    client_data_json ← lift (
        given_or opts.client_data_json
          (make_client_data_json marshal (codes "webauthn.get") challenge (trim opts.rp_id)))
    hmac_secret ← call lib marshal (
        lib.assertion h (trim opts.rp_id) challenge (opts.credential_id ∷ []) opts.pin
          (assertion_opts opts client_data_json))
    e ← lift (sealed_secret lib marshal hmac_secret)
    pure (record { credential_id = opts.credential_id; salt = opts.salt; hmac_secret = some e })

  derive-ask :
      (d : Option (Device (Option H))) (h : H) (opts : DeriveOptions) (random : Option Bytes)
      (w : W)
      → device_of d ≡ ok h
      → is_request d opts ≡ true
      → derive lib marshal d opts random w ≡ ask h opts random w
  unfolding derive validate_salt is_fido2
  derive-ask d h opts random w handle asks = elim (Bool-cases (empty (trim opts.rp_id))) [
    | inl missing ↦ absurd (ground arith)
    | inr named ↦ elim (Bool-cases (empty opts.credential_id)) [
      | inl missing ↦ absurd (ground arith)
      | inr given ↦ elim (Bool-cases (length opts.salt == 32)) [
        | inr bad ↦ absurd (ground arith)
        | inl sized ↦ rw (handle, named, given, sized) refl
      ]
    ]
  ]

  derive_unasked :
      (d : Option (Device (Option H))) (opts : DeriveOptions) (random : Option Bytes) (w : W)
      → is_request d opts ≡ false
      → derive lib marshal d opts random w ≡ (err invalid_argument, w)
  unfolding derive validate_salt
  derive_unasked d opts random w asks = elim (Result-cases (device_of d)) [
    | inr (e, h) ↦ rw (h, device_of_fails d e h) refl
    | inl (h, e) ↦ elim (Bool-cases (empty (trim opts.rp_id))) [
      | inl missing ↦ rw (e, missing) refl
      | inr named ↦ elim (Bool-cases (empty opts.credential_id)) [
        | inl missing ↦ rw (e, named, missing) refl
        | inr given ↦ elim (Bool-cases (length opts.salt == 32)) [
          | inl sized ↦ absurd (ground arith)
          | inr bad ↦ rw (e, named, given, bad) refl
        ]
      ]
    ]
  ]

  -- What a `derive` that returned a secret asked of the device.
  pub record IsDerived (h : H) (opts : DeriveOptions) (x : Secret lib.Enclave) : Type 0 where
    pub e : lib.Enclave
    pub challenge : Bytes
    pub client_data_json : Bytes
    pub before : W
    pub asked :
        (lib.assertion h
          (trim opts.rp_id)
          challenge
          (opts.credential_id ∷ [])
          opts.pin
          (assertion_opts opts client_data_json)
          before).0
        ≡ ok (some e)
    pub made :
        x ≡ record { credential_id = opts.credential_id; salt = opts.salt; hmac_secret = some e }

  ask_inv :
      (h : H) (opts : DeriveOptions) (random : Option Bytes) (w w' : W) (x : Secret lib.Enclave)
      → ask h opts random w ≡ (ok x, w')
      → IsDerived h opts x
  ask_inv h opts random w w' x run = elim (Result-cases (lib.is_fido2 h w).0) [
    | inr (n, e) ↦ absurd (ground arith)
    | inl (false, e) ↦ absurd (ground arith)
    | inl (true, e) ↦ elim (Option-cases random) [
      | inl failed ↦ absurd (ground arith)
      | inr (challenge, drawn) ↦
          let w1 : W = (lib.is_fido2 h w).1 in
          let json : Result DeviceError Bytes =
            given_or opts.client_data_json
              (make_client_data_json marshal (codes "webauthn.get") challenge (trim opts.rp_id)) in
          elim (Result-cases json) [
            | inr (n, ej) ↦ absurd (ground arith)
            | inl (j, ej) ↦
                let answered =
                  lib.assertion h (trim opts.rp_id) challenge (opts.credential_id ∷ []) opts.pin
                    (assertion_opts opts j) w1 in
                elim (Result-cases answered.0) [
                  | inr (n, ea) ↦ absurd (ground arith)
                  | inl (none, ea) ↦ absurd (ground arith)
                  | inl (some sealed, ea) ↦ elim (Bool-cases (lib.size sealed == 0)) [
                    | inl nothing ↦ absurd (ground arith)
                    | inr filled ↦ record {
                      e = sealed;
                      challenge = challenge;
                      client_data_json = j;
                      before = w1;
                      asked = ea;
                      made = ground arith;
                    }
                  ]
                ]
          ]
    ]
  ]

  client_fails :
      (value operation challenge rp_id : Bytes) (e : DeviceError)
      → given_or value (make_client_data_json marshal operation challenge rp_id) ≡ err e
      → e ≡ unnamed
  unfolding make_client_data_json
  client_fails value operation challenge rp_id e h = ground arith

  ask_names_no_argument :
      (h : H) (opts : DeriveOptions) (random : Option Bytes) (w : W)
      → (ask h opts random w).0 ≢ err invalid_argument
  ask_names_no_argument h opts random w run = elim (Result-cases (lib.is_fido2 h w).0) [
    | inr (n, e) ↦ ground arith
    | inl (false, e) ↦ ground arith
    | inl (true, e) ↦ elim (Option-cases random) [
      | inl failed ↦ ground arith
      | inr (challenge, drawn) ↦
          let json : Result DeviceError Bytes =
            given_or opts.client_data_json
              (make_client_data_json marshal (codes "webauthn.get") challenge (trim opts.rp_id)) in
          elim (Result-cases json) [
            | inr (n, ej) ↦ ground (
              arith,
              client_fails opts.client_data_json (codes "webauthn.get") challenge (trim opts.rp_id)
                  n ej,
            )
            | inl (j, ej) ↦
                let answered =
                  lib.assertion h (trim opts.rp_id) challenge (opts.credential_id ∷ []) opts.pin
                    (assertion_opts opts j) (lib.is_fido2 h w).1 in
                elim (Result-cases answered.0) [
                  | inr (n, ea) ↦ ground arith
                  | inl (none, ea) ↦ ground arith
                  | inl (some sealed, ea) ↦ ground arith
                ]
          ]
    ]
  ]

  -- Without a handle, a relying party, a credential or a salt of 32 bytes, `derive` refuses its arguments
  -- and leaves the device alone; with all of them it never answers that an argument is invalid.
  pub derive_refuses :
      (d : Option (Device (Option H))) (opts : DeriveOptions) (random : Option Bytes) (w : W)
      → (is_request d opts ≡ false → derive lib marshal d opts random w ≡ (err invalid_argument, w))
        × (is_request d opts ≡ true → (derive lib marshal d opts random w).0 ≢ err invalid_argument)
  derive_refuses d opts random w = (
    derive_unasked d opts random w,
    λ asks run. elim (Result-cases (device_of d)) [
      | inr (e, h) ↦ ground arith
      | inl (h, e) ↦
          ask_names_no_argument h opts random w (rw (sym (derive-ask d h opts random w e asks)) run)
    ],
  )

  pub derive_inv :
      (d : Option (Device (Option H))) (h : H) (opts : DeriveOptions) (random : Option Bytes)
      (w w' : W) (x : Secret lib.Enclave)
      → device_of d ≡ ok h
      → derive lib marshal d opts random w ≡ (ok x, w')
      → IsDerived h opts x × (length opts.salt ≡ 32) × (empty opts.credential_id ≡ false)
  derive_inv d h opts random w w' x handle run = elim (Bool-cases (is_request d opts)) [
    | inr lacks ↦ absurd (ground (arith, derive_unasked d opts random w lacks))
    | inl asks ↦ (
      ask_inv h opts random w w' x (sym (derive-ask d h opts random w handle asks) ∙ run),
      ground arith,
      ground arith,
    )
  ]
