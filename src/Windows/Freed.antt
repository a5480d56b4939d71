-- ===== src/Windows/Freed.antt =====
-- Theorems on the memory of webauthn.dll over the calls of the Windows broker.
use hmacsecret.Base.{
  ℕ, false, Bytes, [], codes, trim, Option, some, Result, arith, Option-cases, Bool-cases, inl, inr,
}
use hmacsecret.Base.Fallible.{Result-cases}
use hmacsecret.Store.{empty}
use hmacsecret.Types.{DeviceError, DeriveOptions, CreateOptions}
use hmacsecret.Encrypted.Crypto.{Crypto}
use hmacsecret.Base.Decimal.{pos}
use hmacsecret.Devices.{Device}
use hmacsecret.Authenticator.{or_else, given_or, device_of}
use hmacsecret.Authenticator.Inputs.{ClientData, or_unnamed, validate_salt, make_client_data_json}
use hmacsecret.Webauthn.Native.{Dll}
use hmacsecret.Webauthn.Calls.{Api, State}
use hmacsecret.Webauthn.MakeCredential.{MakeCredentialRequest}
use hmacsecret.Webauthn.GetAssertion.{GetAssertionRequest}
use hmacsecret.Webauthn.Freed.{IsBalanced, make_credential-IsBalanced, get_assertion-IsBalanced}
use hmacsecret.Windows.{create_credential, derive, create_and_derive}

module _ {W : Type 0} (dll : Dll W) (text : ℕ → Bytes) (marshal : ClientData → Option Bytes) where
  create_credential-IsBalanced :
      (d : Option (Device (Option Api))) (opts : CreateOptions) (ru rc : Option Bytes)
      (s : State W dll.Ptr)
      → IsBalanced s.calls
      → IsBalanced (create_credential dll text marshal d opts ru rc s).1.calls
  unfolding create_credential
  create_credential-IsBalanced d opts ru rc s b =
      let user : Result DeviceError Bytes = given_or opts.user_id (or_unnamed ru) in
      elim (Result-cases (device_of d)) [
        | inr (e, h) ↦ rw h b
        | inl (a, h) ↦ elim (Bool-cases (empty (trim opts.rp_id))) [
          | inl nameless ↦ rw (h, nameless) b
          | inr named ↦ elim (Result-cases user) [
            | inr (e, hu) ↦ rw (h, named, hu) b
            | inl (id, hu) ↦ elim (Option-cases rc) [
              | inl failed ↦ rw (h, named, hu, failed) b
              | inr (challenge, drawn) ↦
                  let json : Result DeviceError Bytes = given_or opts.client_data_json (
                    make_client_data_json marshal (codes "webauthn.create") challenge
                      (trim opts.rp_id)) in
                  elim (Result-cases json) [
                    | inr (e, hj) ↦ rw (h, named, hu, drawn, hj) b
                    | inl (j, hj) ↦
                        let user_name : Bytes =
                          or_else (trim opts.user_name) (codes "hmac-secret") in
                        let request : MakeCredentialRequest = record {
                          rp_id = trim opts.rp_id;
                          rp_name = or_else (trim opts.rp_name) (codes "hmacsecret");
                          user_id = id;
                          user_name = user_name;
                          user_display_name = or_else (trim opts.user_display_name) user_name;
                          client_data_json = j;
                          timeout = pos 0;
                        } in
                        let freed = make_credential-IsBalanced dll text (some a) request s b in
                        ground (arith, freed)
                  ]
            ]
          ]
        ]
      ]

  derive-IsBalanced :
      (c : Crypto) (d : Option (Device (Option Api))) (opts : DeriveOptions) (rg : Option Bytes)
      (s : State W dll.Ptr)
      → IsBalanced s.calls
      → IsBalanced (derive dll text marshal c d opts rg s).1.calls
  unfolding derive validate_salt
  derive-IsBalanced c d opts rg s b =
      let json : Bytes → Result DeviceError Bytes = λ challenge.
        given_or opts.client_data_json
          (make_client_data_json marshal (codes "webauthn.get") challenge (trim opts.rp_id)) in
      elim (Result-cases (device_of d)) [
        | inr (e, h) ↦ rw h b
        | inl (a, h) ↦ elim (Option-cases rg) [
          | inl failed ↦ ground arith
          | inr (challenge, drawn) ↦ elim (Result-cases (json challenge)) [
            | inr (e, hj) ↦ ground arith
            | inl (j, hj) ↦
                let request : GetAssertionRequest = record {
                  rp_id = trim opts.rp_id;
                  credential_id = opts.credential_id;
                  salt = opts.salt;
                  client_data_json = j;
                  timeout = pos 0;
                } in
                ground (arith, get_assertion-IsBalanced dll text c (some a) request s b)
          ]
        ]
      ]

  -- Where the results that webauthn.dll handed over were freed, each once and by its own procedure, they
  -- still are after `create_and_derive`, however it ends.
  pub create_and_derive-IsBalanced :
      (c : Crypto) (d : Option (Device (Option Api))) (create : CreateOptions) (salt pin : Bytes)
      (ru rc rs rg : Option Bytes) (s : State W dll.Ptr)
      → IsBalanced s.calls
      → IsBalanced (create_and_derive dll text marshal c d create salt pin ru rc rs rg s).1.calls
  unfolding create_and_derive
  create_and_derive-IsBalanced c d create salt pin ru rc rs rg s b =
      let made = create_credential dll text marshal d (record create { pin = pin }) ru rc s in
      let freed = create_credential-IsBalanced d (record create { pin = pin }) ru rc s b in
      elim (Result-cases made.0) [
        | inr (e, h) ↦ ground (arith, freed)
        | inl (cred, h) ↦ elim (Result-cases (given_or salt (or_unnamed rs))) [
          | inr (e, hs) ↦ ground (arith, freed)
          | inl (salt', hs) ↦
              let request : DeriveOptions = record {
                rp_id = create.rp_id;
                credential_id = cred.id;
                salt = salt';
                pin = pin;
                user_presence = false;
                user_presence_set = false;
                client_data_json = [];
              } in
              ground (arith, derive-IsBalanced c d request rg made.1 freed)
        ]
      ]
