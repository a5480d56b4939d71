-- ===== src/Windows/Broker.antt =====
-- Theorems on the broker of Windows as a device, over what internal/webauthn returns.
use hmacsecret.Base.{
  ℕ, ◌≡◌, false, Bytes, length, codes, trim, Option, some, Result, ok, arith, ap, Option-cases, inl,
  inr,
}
use hmacsecret.Base.Fallible.{Result-cases}
use hmacsecret.Store.{empty}
use hmacsecret.Types.{DeviceError, DeriveOptions, Secret}
use hmacsecret.Encrypted.Crypto.{Crypto, IsCrypto}
use hmacsecret.Base.Decimal.{pos}
use hmacsecret.Devices.{Device}
use hmacsecret.Authenticator.{given_or, device_of}
use hmacsecret.Authenticator.Inputs.{ClientData, validate_salt, make_client_data_json}
use hmacsecret.Webauthn.Native.{Dll}
use hmacsecret.Webauthn.Calls.{Api, State}
use hmacsecret.Webauthn.GetAssertion.{GetAssertionRequest, get_assertion}
use hmacsecret.Webauthn.Bounds.{get_assertion_bounds}
use hmacsecret.Windows.{derive}

module _ {W : Type 0} (dll : Dll W) (text : ℕ → Bytes) (marshal : ClientData → Option Bytes) where
  -- Over memguard's contract, and where the DLL's memory holds as many bytes as its answer says: a secret
  -- that `derive` returns is an enclave of 32 bytes for the salt of 32 bytes and the credential of the
  -- options, which are not empty.
  pub derive_whole :
      (c : Crypto) (laws : IsCrypto c) (d : Option (Device (Option Api))) (opts : DeriveOptions)
      (random : Option Bytes) (s t : State W dll.Ptr) (x : Secret c.Enclave)
      → ((p : dll.Ptr) (n : ℕ) (w : W) → length (dll.bytes_at p n w) ≡ n)
      → derive dll text marshal c d opts random s ≡ (ok x, t)
      → ((e : c.Enclave) × (x.hmac_secret ≡ some e) × (c.size e ≡ 32))
        × (x.salt ≡ opts.salt)
        × (length x.salt ≡ 32)
        × (x.credential_id ≡ opts.credential_id)
        × (empty x.credential_id ≡ false)
  unfolding derive validate_salt
  derive_whole c laws d opts random s t x sized run = elim (Result-cases (device_of d)) [
    | inr (e, h) ↦ absurd (ground arith)
    | inl (a, h) ↦ elim (Option-cases random) [
      | inl failed ↦ absurd (ground arith)
      | inr (challenge, drawn) ↦
          let json : Result DeviceError Bytes =
            given_or opts.client_data_json
              (make_client_data_json marshal (codes "webauthn.get") challenge (trim opts.rp_id)) in
          elim (Result-cases json) [
            | inr (e, ej) ↦ absurd (ground arith)
            | inl (j, ej) ↦
                let request : GetAssertionRequest = record {
                  rp_id = trim opts.rp_id;
                  credential_id = opts.credential_id;
                  salt = opts.salt;
                  client_data_json = j;
                  timeout = pos 0;
                } in
                let got = get_assertion dll text c (some a) request s in
                elim (Result-cases got.0) [
                  | inr (e, eg) ↦ absurd (ground arith)
                  | inl (answer, eg) ↦
                      let (same, small, (e, filled, n)) =
                        get_assertion_bounds dll text c laws (some a) request s got.1 answer sized
                          (ap (λ r. (r, got.1)) eg) in
                      (
                        (e, ground (arith, filled, n), n),
                        ground arith,
                        ground arith,
                        ground arith,
                        ground arith,
                      )
                ]
          ]
    ]
  ]
