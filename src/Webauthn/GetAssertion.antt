-- ===== src/Webauthn/GetAssertion.antt =====
-- internal/webauthn/assertion_windows.go: the request for a secret.
use hmacsecret.Base.{
  ℕ, ◌%◌, ◌^◌, false, not, ◌&&◌, Bytes, [], ◌++◌, length, ltb, ◌==◌, bytes_eq, codes, Option, none,
  some, Result, ok, err, fail_if, Exec, lift, if◌then◌else◌,
}
use hmacsecret.Base.Stateful.{◌>>=◌, ◌>>◌}
use hmacsecret.Store.{empty}
use hmacsecret.Base.Decimal.{ℤ}
use hmacsecret.Encrypted.Crypto.{Crypto}
use hmacsecret.Webauthn.Types.{
  api_version_prf, hmac_secret_length, cross_platform, user_verification_any,
  hmac_secret_values_flag,
}
use hmacsecret.Webauthn.Native.{
  Dll, WebauthnError, unavailable, unsupported, invalid_input, prf_disabled, unnamed, byte_pointer,
  copy_result_bytes, seal_result_bytes,
}
use hmacsecret.Webauthn.Calls.{
  Api, State, freed_assertion, timeout_milliseconds, or_value, reading, freeing, utf16_pointer,
  foreground_window, version, call_get_assertion, result_pointer,
}

pub record GetAssertionRequest : Type 0 where
  pub rp_id : Bytes
  pub credential_id : Bytes
  pub salt : Bytes
  pub client_data_json : Bytes
  pub timeout : ℤ

pub record GetAssertionResult (E : Type 0) : Type 0 where
  pub credential_id : Bytes
  pub authenticator_data : Bytes
  pub hmac_secret : Option E

module _ {W : Type 0} (dll : Dll W) (text : ℕ → Bytes) where
  -- What is read of an assertion before it is freed.
  unfoldable pub read_assertion :
      (c : Crypto)
      → GetAssertionRequest
      → dll.Ptr
      → W
      → Result WebauthnError (GetAssertionResult c.Enclave)
  unfolding copy_result_bytes seal_result_bytes
  read_assertion c request p w =
      let assertion = dll.assertion_at p w in
      elim (if ltb assertion.version 3 then none else assertion.hmac_secret) [
        | none ↦ err prf_disabled
        | some secret_ptr ↦
            elim (copy_result_bytes dll assertion.credential_id assertion.credential_id_length w) [
              | err e ↦ err e
              | ok credential_id ↦
                  if not (empty credential_id) && not (bytes_eq credential_id request.credential_id)
                  then err unnamed
                  else elim (copy_result_bytes dll assertion.authenticator_data
                      assertion.authenticator_data_length w) [
                        | err e ↦ err e
                        | ok authenticator_data ↦
                            let secret_salt = dll.secret_at secret_ptr w in
                            if not (secret_salt.first_length == hmac_secret_length)
                            then err unnamed
                            else elim (seal_result_bytes dll c secret_salt.first
                                secret_salt.first_length w) [
                                  | err e ↦ err e
                                  | ok secret ↦ ok (record {
                                    credential_id =
                                        or_value credential_id ([] ++ request.credential_id);
                                    authenticator_data = authenticator_data;
                                    hmac_secret = secret;
                                  })
                                ]
                      ]
            ]
      ]

  -- `GetAssertion` up to the assertion that it will free.
  unfoldable pub request_assertion :
      Option Api → GetAssertionRequest → Exec (State W dll.Ptr) WebauthnError dll.Ptr
  unfolding version timeout_milliseconds result_pointer
  request_assertion a request = do
    lift (fail_if (not (elim a [ none ↦ false | some api ↦ api.has_get_assertion ])) unavailable)
    v ← version dll text a
    lift (fail_if (ltb v api_version_prf) unsupported)
    lift (fail_if (empty request.rp_id) invalid_input)
    lift (fail_if (empty request.credential_id) invalid_input)
    lift (fail_if (not (length request.salt == hmac_secret_length)) invalid_input)
    lift (fail_if (empty request.client_data_json) invalid_input)
    milliseconds ← lift (timeout_milliseconds request.timeout)
    rp_id_ptr ← lift (utf16_pointer dll text request.rp_id)
    public_key_ptr ← lift (utf16_pointer dll text (codes "public-key"))
    sha256_ptr ← lift (utf16_pointer dll text (codes "SHA-256"))
    window ← foreground_window dll text
    answer ←
        call_get_assertion dll text window rp_id_ptr
          (record {
            version = 1;
            json_length = length request.client_data_json % 2 ^ 32;
            json = byte_pointer request.client_data_json;
            hash_algorithm = sha256_ptr;
          })
          (record {
            version = 6;
            timeout_milliseconds = milliseconds;
            credential = record {
              version = 1;
              id_length = length request.credential_id % 2 ^ 32;
              id = byte_pointer request.credential_id;
              credential_type = public_key_ptr;
            };
            authenticator_attachment = cross_platform;
            user_verification_requirement = user_verification_any;
            flags = hmac_secret_values_flag;
            global_salt = record {
              first_length = length request.salt % 2 ^ 32;
              first = byte_pointer request.salt;
            };
          })
    lift (result_pointer dll text (codes "WebAuthNAuthenticatorGetAssertion") answer)

  unfoldable pub get_assertion :
      (c : Crypto)
      → Option Api
      → GetAssertionRequest
      → Exec (State W dll.Ptr) WebauthnError (GetAssertionResult c.Enclave)
  unfolding request_assertion read_assertion
  get_assertion c a request = do
    assertion ← request_assertion a request
    freeing dll text (freed_assertion assertion) (dll.free_assertion assertion)
        (reading dll text (read_assertion c request assertion))
