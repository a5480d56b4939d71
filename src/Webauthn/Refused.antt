-- ===== src/Webauthn/Refused.antt =====
-- Theorems on the requests that internal/webauthn refuses before it calls webauthn.dll.
use hmacsecret.Base.{
  ℕ, ◌%◌, ◌^◌, ◌≡◌, Bool, true, false, not, ◌&&◌, Bytes, ◌∷◌, length, ltb, leb, ◌==◌, some, err,
  arith, if◌then◌else◌,
}
use hmacsecret.Store.{empty}
use hmacsecret.Base.Decimal.{ℤ, pos, negsuc}
use hmacsecret.Encrypted.Crypto.{Crypto}
use hmacsecret.Webauthn.Native.{Dll, WebauthnError, unsupported, invalid_input}
use hmacsecret.Webauthn.Calls.{Api, State, called_version, version, timeout_milliseconds}
use hmacsecret.Webauthn.MakeCredential.{MakeCredentialRequest, request_attestation, make_credential}
use hmacsecret.Webauthn.GetAssertion.{GetAssertionRequest, request_assertion, get_assertion}

-- At most 2^32 - 1 milliseconds, in nanoseconds.
abbrev pub is_timeout : ℤ → Bool
is_timeout (pos n) = leb n 4294967295000000
is_timeout (negsuc n) = true

abbrev pub is_creation : MakeCredentialRequest → Bool
is_creation r =
    not (empty r.rp_id)
    && leb 1 (length r.user_id)
    && leb (length r.user_id) 64
    && not (empty r.user_name)
    && not (empty r.client_data_json)
    && is_timeout r.timeout

abbrev pub is_derivation : GetAssertionRequest → Bool
is_derivation r =
    not (empty r.rp_id)
    && not (empty r.credential_id)
    && (length r.salt == 32)
    && not (empty r.client_data_json)
    && is_timeout r.timeout

module _ {W : Type 0} (dll : Dll W) (text : ℕ → Bytes) where
  -- The answer to a request that lacks something, by the API's version.
  abbrev pub refusal : W → WebauthnError
  refusal w = if ltb ((dll.get_api_version w).0 % 2 ^ 32) 6 then unsupported else invalid_input

  make_credential_refuses :
      (a : Api) (request : MakeCredentialRequest) (s : State W dll.Ptr)
      → a.has_version ≡ true
      → a.has_make_credential ≡ true
      → is_creation request ≡ false
      → ((make_credential dll text (some a) request s).0 ≡ err (refusal s.world))
        × ((make_credential dll text (some a) request s).1.calls ≡ called_version ∷ s.calls)
  unfolding make_credential request_attestation version timeout_milliseconds
  make_credential_refuses a request s has makes lacks = ground arith

  get_assertion_refuses :
      (c : Crypto) (a : Api) (request : GetAssertionRequest) (s : State W dll.Ptr)
      → a.has_version ≡ true
      → a.has_get_assertion ≡ true
      → is_derivation request ≡ false
      → ((get_assertion dll text c (some a) request s).0 ≡ err (refusal s.world))
        × ((get_assertion dll text c (some a) request s).1.calls ≡ called_version ∷ s.calls)
  unfolding get_assertion request_assertion version timeout_milliseconds
  get_assertion_refuses c a request s has asks lacks = ground arith

  -- On an API with its procedures, a request that lacks an argument or has one out of range asks the DLL for
  -- its version and makes no other call of it. It is refused as invalid input, and by a version before
  -- 6 as not supported.
  pub requests_refused :
      (c : Crypto) (a : Api) (made : MakeCredentialRequest) (asked : GetAssertionRequest)
      (s : State W dll.Ptr)
      → a.has_version ≡ true
      → a.has_make_credential ≡ true
      → a.has_get_assertion ≡ true
      → is_creation made ≡ false
      → is_derivation asked ≡ false
      → ((make_credential dll text (some a) made s).0 ≡ err (refusal s.world))
        × ((make_credential dll text (some a) made s).1.calls ≡ called_version ∷ s.calls)
        × ((get_assertion dll text c (some a) asked s).0 ≡ err (refusal s.world))
        × ((get_assertion dll text c (some a) asked s).1.calls ≡ called_version ∷ s.calls)
  requests_refused c a made asked s has makes asks no_creation no_derivation =
      let (e, calls) = make_credential_refuses a made s has makes no_creation in
      let (e', calls') = get_assertion_refuses c a asked s has asks no_derivation in
      (e, calls, e', calls')
