-- ===== src/Tests/Webauthn.antt =====
-- A webauthn.dll that answers at once; what it hands over is a byte repeated.
use hmacsecret.Base.{
  ℕ, zero, suc, ◌≤◌, ◌≡◌, true, Bytes, [], ◌∷◌, length, codes, none, some, ok, err, arith, refl,
}
use hmacsecret.Base.Decimal.{pos}
use hmacsecret.Webauthn.Native.{
  Dll, max_result_bytes, failed, copy_result_bytes, seal_result_bytes, enabled_in,
}
use hmacsecret.Webauthn.Calls.{
  State, called_version, called_make_credential, freed_attestation, loaded, timeout_milliseconds,
  version, result_pointer,
}
use hmacsecret.Webauthn.MakeCredential.{
  MakeCredentialRequest, MakeCredentialResult, hmac_secret_extension_enabled, read_attestation,
  request_attestation, make_credential,
}
use hmacsecret.Webauthn.GetAssertion.{
  GetAssertionRequest, GetAssertionResult, read_assertion, request_assertion, get_assertion,
}
use hmacsecret.Webauthn.Bounds.{get_assertion_bounds}
use hmacsecret.Webauthn.Refused.{refusal, requests_refused}
use hmacsecret.Tests.Toys.{toy, toy-IsCrypto}

abbrev pub fill : ℕ → Bytes
fill zero = []
fill (suc n) = 7 ∷ fill n

pub length-fill : (n : ℕ) → length (fill n) ≡ n
length-fill zero = refl
length-fill (suc n) = rw (length-fill n) (omega arith)

abbrev pub windows : Dll (Unit {0})
windows = record {
  Ptr = Unit;
  Wide = Bytes;
  utf16_ptr = λ s. some s;
  load = λ w. (true, w);
  find = λ name w. (true, w);
  get_foreground_window = λ w. (1, w);
  get_api_version = λ w. (9, w);
  make_credential = λ window rp user parameter client options w. ((0, some tt), w);
  get_assertion = λ window rp client options w. ((0, some tt), w);
  free_credential_attestation = λ p w. w;
  free_assertion = λ p w. w;
  bytes_at = λ p n w. fill n;
  text_at = λ p w. codes "hmac-secret";
  int32_at = λ p w. 1;
  extensions_at = λ p n w. record { identifier = some tt; value_size = 4; value = some tt } ∷ [];
  attestation_at = λ p w. record {
    version = 4;
    authenticator_data_length = 1;
    authenticator_data = some tt;
    credential_id_length = 2;
    credential_id = some tt;
    extensions = record { count = 1; extensions = some tt };
    prf_enabled = 0;
  };
  assertion_at = λ p w. record {
    version = 3;
    authenticator_data_length = 1;
    authenticator_data = some tt;
    credential_id_length = 0;
    credential_id = none;
    hmac_secret = some tt;
  };
  secret_at = λ p w. record { first_length = 32; first = some tt };
}

abbrev pub by_code : ℕ → Bytes
by_code h = []

abbrev creation : MakeCredentialRequest
creation = record {
  rp_id = codes "rp";
  rp_name = [];
  user_id = 1 ∷ [];
  user_name = codes "user";
  user_display_name = [];
  client_data_json = codes "{}";
  timeout = pos 0;
}

abbrev derivation : GetAssertionRequest
derivation = record {
  rp_id = codes "rp";
  credential_id = fill 2;
  salt = fill 32;
  client_data_json = codes "{}";
  timeout = pos 5000000;
}

abbrev pub idle : State (Unit {0}) (Unit {0})
idle = record { world = tt; calls = [] }

-- What the requests compute with.
unfoldable pub runs : ℕ
unfolding failed copy_result_bytes seal_result_bytes enabled_in timeout_milliseconds version
    result_pointer hmac_secret_extension_enabled read_attestation request_attestation
    make_credential read_assertion request_assertion get_assertion
runs = 0

abbrev created : MakeCredentialResult
created = record { credential_id = fill 2; authenticator_data = fill 1; prf_enabled = true }

abbrev after : State (Unit {0}) (Unit {0})
after = record {
  world = tt;
  calls = freed_attestation tt ∷ called_make_credential 0 (some tt) ∷ called_version ∷ [];
}

makes :
    make_credential windows by_code (some (loaded windows by_code)) creation idle
    ≡ (ok created, after)
unfolding runs
makes = refl

abbrev derived : GetAssertionResult Bytes
derived = record {
  credential_id = fill 2;
  authenticator_data = fill 1;
  hmac_secret = some (fill 32);
}

abbrev answered : State (Unit {0}) (Unit {0})
answered =
    (get_assertion windows by_code (toy []) (some (loaded windows by_code)) derivation idle).1

derives :
    get_assertion windows by_code (toy []) (some (loaded windows by_code)) derivation idle
    ≡ (ok derived, answered)
unfolding runs
derives = refl

get_assertion_bounds_example :
    (derived.credential_id ≡ derivation.credential_id)
    × (length derived.authenticator_data ≤ max_result_bytes)
    × ((e : Bytes) × (derived.hmac_secret ≡ some e) × (length e ≡ 32))
get_assertion_bounds_example =
    get_assertion_bounds windows by_code (toy []) (toy-IsCrypto []) (some (loaded windows by_code))
      derivation idle answered derived (λ p n w. length-fill n) derives

abbrev nameless : MakeCredentialRequest
nameless = record creation { user_name = [] }

abbrev unsalted : GetAssertionRequest
unsalted = record derivation { salt = [] }

requests_refused_example :
    ((make_credential windows by_code (some (loaded windows by_code)) nameless idle).0
      ≡ err (refusal windows by_code tt))
    × ((make_credential windows by_code (some (loaded windows by_code)) nameless idle).1.calls
        ≡ called_version ∷ [])
    × ((get_assertion windows by_code (toy []) (some (loaded windows by_code)) unsalted idle).0
        ≡ err (refusal windows by_code tt))
    × ((get_assertion windows by_code
          (toy [])
          (some (loaded windows by_code))
          unsalted
          idle).1.calls
        ≡ called_version ∷ [])
requests_refused_example =
    requests_refused windows by_code (toy []) (loaded windows by_code) nameless unsalted idle refl
      refl refl refl refl
