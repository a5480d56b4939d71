-- ===== src/Webauthn/MakeCredential.antt =====
-- internal/webauthn/credential_windows.go: the request for a new credential.
use hmacsecret.Base.{
  ℕ, ◌%◌, ◌^◌, Bool, true, false, not, ◌&&◌, ◌||◌, Bytes, length, leb, ltb, ◌==◌, codes, Option,
  none, some, Result, ok, err, fail_if, Exec, lift, if◌then◌else◌,
}
use hmacsecret.Base.Stateful.{◌>>=◌, ◌>>◌}
use hmacsecret.Store.{empty}
use hmacsecret.Base.Decimal.{ℤ}
use hmacsecret.Webauthn.Types.{
  Extensions, api_version_prf, cross_platform, user_verification_any, attestation_direct,
  cose_algorithm_es256,
}
use hmacsecret.Webauthn.Native.{
  Dll, WebauthnError, unavailable, unsupported, invalid_input, prf_disabled, unnamed, byte_pointer,
  copy_result_bytes, enabled_in,
}
use hmacsecret.Webauthn.Calls.{
  Api, State, freed_attestation, timeout_milliseconds, or_value, reading, freeing, utf16_pointer,
  foreground_window, version, call_make_credential, result_pointer,
}

pub record MakeCredentialRequest : Type 0 where
  pub rp_id : Bytes
  pub rp_name : Bytes
  pub user_id : Bytes
  pub user_name : Bytes
  pub user_display_name : Bytes
  pub client_data_json : Bytes
  pub timeout : ℤ

pub record MakeCredentialResult : Type 0 where
  pub credential_id : Bytes
  pub authenticator_data : Bytes
  pub prf_enabled : Bool

module _ {W : Type 0} (dll : Dll W) (text : ℕ → Bytes) where
  unfoldable pub hmac_secret_extension_enabled : Extensions dll.Ptr → W → Bool
  unfolding enabled_in
  hmac_secret_extension_enabled extensions w =
      if extensions.count == 0 || ltb 64 extensions.count
      then false
      else elim extensions.extensions [
        | none ↦ false
        | some p ↦ enabled_in dll (dll.extensions_at p extensions.count w) w
      ]

  -- What is read of an attestation before it is freed.
  unfoldable pub read_attestation : dll.Ptr → W → Result WebauthnError MakeCredentialResult
  unfolding copy_result_bytes hmac_secret_extension_enabled
  read_attestation p w =
      let attestation = dll.attestation_at p w in
      elim (copy_result_bytes dll attestation.credential_id attestation.credential_id_length w) [
        | err e ↦ err e
        | ok credential_id ↦
            if empty credential_id
            then err unnamed
            else elim (copy_result_bytes dll attestation.authenticator_data
                attestation.authenticator_data_length w) [
                  | err e ↦ err e
                  | ok authenticator_data ↦
                      if (leb 5 attestation.version && not (attestation.prf_enabled == 0))
                        || hmac_secret_extension_enabled attestation.extensions w
                      then ok (record {
                        credential_id = credential_id;
                        authenticator_data = authenticator_data;
                        prf_enabled = true;
                      })
                      else err prf_disabled
                ]
      ]

  -- `MakeCredential` up to the attestation that it will free.
  unfoldable pub request_attestation :
      Option Api → MakeCredentialRequest → Exec (State W dll.Ptr) WebauthnError dll.Ptr
  unfolding version timeout_milliseconds result_pointer
  request_attestation a request = do
    lift (fail_if (not (elim a [ none ↦ false | some api ↦ api.has_make_credential ])) unavailable)
    v ← version dll text a
    lift (fail_if (ltb v api_version_prf) unsupported)
    lift (fail_if (empty request.rp_id) invalid_input)
    lift (fail_if (length request.user_id == 0 || ltb 64 (length request.user_id)) invalid_input)
    lift (fail_if (empty request.user_name) invalid_input)
    lift (fail_if (empty request.client_data_json) invalid_input)
    let rp_name = or_value request.rp_name request.rp_id
    let display_name = or_value request.user_display_name request.user_name
    milliseconds ← lift (timeout_milliseconds request.timeout)
    rp_id_ptr ← lift (utf16_pointer dll text request.rp_id)
    rp_name_ptr ← lift (utf16_pointer dll text rp_name)
    user_name_ptr ← lift (utf16_pointer dll text request.user_name)
    display_name_ptr ← lift (utf16_pointer dll text display_name)
    public_key_ptr ← lift (utf16_pointer dll text (codes "public-key"))
    sha256_ptr ← lift (utf16_pointer dll text (codes "SHA-256"))
    hmac_secret_ptr ← lift (utf16_pointer dll text (codes "hmac-secret"))
    window ← foreground_window dll text
    answer ←
        call_make_credential dll text window
          (record { version = 1; id = rp_id_ptr; name = rp_name_ptr })
          (record {
            version = 1;
            id_length = length request.user_id % 2 ^ 32;
            id = byte_pointer request.user_id;
            name = user_name_ptr;
            display_name = display_name_ptr;
          })
          (record {
            version = 1;
            credential_type = public_key_ptr;
            algorithm = cose_algorithm_es256;
          })
          (record {
            version = 1;
            json_length = length request.client_data_json % 2 ^ 32;
            json = byte_pointer request.client_data_json;
            hash_algorithm = sha256_ptr;
          })
          (record {
            version = 6;
            timeout_milliseconds = milliseconds;
            extension = record { identifier = hmac_secret_ptr; value_size = 4; value = 1 };
            authenticator_attachment = cross_platform;
            require_resident_key = 0;
            user_verification_requirement = user_verification_any;
            attestation_conveyance_preference = attestation_direct;
            enable_prf = 1;
          })
    lift (result_pointer dll text (codes "WebAuthNAuthenticatorMakeCredential") answer)

  unfoldable pub make_credential :
      Option Api → MakeCredentialRequest → Exec (State W dll.Ptr) WebauthnError MakeCredentialResult
  unfolding request_attestation read_attestation
  make_credential a request = do
    attestation ← request_attestation a request
    freeing dll text (freed_attestation attestation) (dll.free_credential_attestation attestation)
        (reading dll text (read_attestation attestation))
