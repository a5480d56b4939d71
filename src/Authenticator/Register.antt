-- ===== src/Authenticator/Register.antt =====
-- Theorems on `CreateCredential` of lib/hmacsecret/hmacsecret.go.
use hmacsecret.Base.{
  ◌≡◌, Bytes, [], ◌∷◌, AreBytes, codes, trim, Option, ok, arith, subst, inl, inr, Option-cases,
}
use hmacsecret.Base.Fallible.{Result-cases}
use hmacsecret.Types.{CreateOptions, Credential}
use hmacsecret.Devices.{Device}
use hmacsecret.Authenticator.{
  Methods, RelyingParty, User, MakeCredentialOpts, Attestation, device_of, is_fido2, or_else,
  given_or, create_credential,
}
use hmacsecret.Authenticator.Inputs.{ClientData, or_unnamed, make_client_data_json}

module _ {W H : Type 0} (lib : Methods W H) (marshal : ClientData → Option Bytes) where
  -- The id of a registered credential is the attestation's.
  pub create_credential-AreBytes :
      (d : Option (Device (Option H))) (opts : CreateOptions)
      (random_user random_challenge : Option Bytes) (w w' : W) (c : Credential)
      → ((h : H) (challenge : Bytes) (rp : RelyingParty) (user : User) (pin : Bytes)
            (o : MakeCredentialOpts lib.Extension lib.OptionValue) (w : W) (a : Attestation)
          → (lib.make_credential h challenge rp user lib.es256 pin o w).0 ≡ ok a
          → AreBytes a.credential_id)
      → create_credential lib marshal d opts random_user random_challenge w ≡ (ok c, w')
      → AreBytes c.id
  unfolding create_credential is_fido2
  create_credential-AreBytes d opts ru rc w w' c bytes run = elim (Result-cases (device_of d)) [
    | inr (e, h) ↦ absurd (ground arith)
    | inl (h, eh) ↦ elim (Result-cases (lib.is_fido2 h w).0) [
      | inr (e, hf) ↦ absurd (ground arith)
      | inl (fido, hf) ↦ elim (Result-cases (given_or opts.user_id (or_unnamed ru))) [
        | inr (e, hu) ↦ absurd (ground arith)
        | inl (user, hu) ↦ elim (Option-cases rc) [
          | inl failed ↦ absurd (ground arith)
          | inr (challenge, hc) ↦
              let rp_id : Bytes = trim opts.rp_id in
              let name : Bytes = or_else (trim opts.user_name) (codes "hmac-secret") in
              elim (Result-cases (
                given_or opts.client_data_json
                  (make_client_data_json marshal (codes "webauthn.create") challenge rp_id))) [
                    | inr (e, hj) ↦ absurd (ground arith)
                    | inl (j, hj) ↦
                        let rp : RelyingParty = record {
                          id = rp_id;
                          name = or_else (trim opts.rp_name) (codes "hmacsecret");
                        } in
                        let who : User = record {
                          id = user;
                          name = name;
                          display_name = or_else (trim opts.user_display_name) name;
                        } in
                        let o : MakeCredentialOpts lib.Extension lib.OptionValue = record {
                          extensions = lib.hmac_secret_extension ∷ [];
                          rk = lib.option_false;
                          client_data_json = j;
                        } in
                        let w1 : W = (lib.is_fido2 h w).1 in
                        let made = lib.make_credential h challenge rp who lib.es256 opts.pin o w1 in
                        elim (Result-cases made.0) [
                          | inr (e, hm) ↦ absurd (ground arith)
                          | inl (a, hm) ↦
                              subst AreBytes {x = a.credential_id} {y = c.id} (ground arith)
                                (bytes h challenge rp who opts.pin o w1 a hm)
                        ]
                  ]
        ]
      ]
    ]
  ]
