-- ===== src/Webauthn/Native.antt =====
-- internal/webauthn/dll_windows.go, error_windows.go and memory_windows.go: the procedures of webauthn.dll,
-- the errors, and the copies out of memory of the DLL.
use hmacsecret.Base.{
  ℕ, ◌^◌, Bool, true, false, not, ◌&&◌, ◌||◌, Bytes, List, [], ◌∷◌, take, leb, ltb, ◌==◌, bytes_eq,
  codes, Option, none, some, Result, ok, err, if◌then◌else◌,
}
use hmacsecret.Encrypted.Crypto.{Crypto}
use hmacsecret.Webauthn.Types.{
  RpEntityInformation, UserEntityInformation, ClientData, CoseCredentialParameter,
  MakeCredentialOptions, GetAssertionOptions, CredentialAttestation, Assertion, AnsweredSecret,
  Extension, nte_invalid_parameter, nte_not_supported, nte_device_not_found, nte_user_cancelled,
  nte_not_found, hresult_cancelled,
}

-- webauthn.dll and the calls of Windows that go with it, over a world `W`. A procedure answers with its
-- result and, for the two requests, with the pointer that it wrote. The reads are of memory that the
-- DLL handed over, as it is in a world.
pub record Dll (W : Type 0) : Type 1 where
  pub Ptr : Type 0
  pub Wide : Type 0
  -- `windows.UTF16PtrFromString`
  pub utf16_ptr : Bytes → Option Wide
  -- Whether the DLL loads, and whether it has the procedure of a name.
  pub load : W → Bool × W
  pub find : Bytes → W → Bool × W
  pub get_foreground_window : W → ℕ × W
  pub get_api_version : W → ℕ × W
  pub make_credential :
      ℕ
      → RpEntityInformation Wide
      → UserEntityInformation Wide
      → CoseCredentialParameter Wide
      → ClientData Wide
      → MakeCredentialOptions Wide
      → W
      → (ℕ × Option Ptr) × W
  pub get_assertion :
      ℕ → Wide → ClientData Wide → GetAssertionOptions Wide → W → (ℕ × Option Ptr) × W
  pub free_credential_attestation : Ptr → W → W
  pub free_assertion : Ptr → W → W
  pub bytes_at : Ptr → ℕ → W → Bytes
  pub text_at : Ptr → W → Bytes
  pub int32_at : Ptr → W → ℕ
  pub extensions_at : Ptr → ℕ → W → List (Extension Ptr)
  pub attestation_at : Ptr → W → CredentialAttestation Ptr
  pub assertion_at : Ptr → W → Assertion Ptr
  pub secret_at : Ptr → W → AnsweredSecret Ptr

-- The sentinels; a failed call with its operation, its HRESULT and its name; and an error that wraps
-- none of these.
pub data WebauthnError : Type 0 where
  unavailable unsupported invalid_input not_found user_canceled prf_disabled : WebauthnError
  call_error : Bytes → ℕ → Bytes → WebauthnError
  unnamed : WebauthnError

-- `int32(h) < 0`, of a `uint32`
unfoldable pub failed : ℕ → Bool
failed h = leb (2 ^ 31) h

-- `CallError.Unwrap`
unfoldable pub unwrap : ℕ → Option WebauthnError
unwrap h =
    if h == nte_not_supported
    then some unsupported
    else if h == nte_invalid_parameter
    then some invalid_input
    else if h == nte_device_not_found || h == nte_not_found
    then some not_found
    else if h == nte_user_cancelled || h == hresult_cancelled
    then some user_canceled
    else none

-- The sentinel that `errors.Is` finds.
abbrev pub cause : WebauthnError → WebauthnError
cause (call_error operation h name) = elim (unwrap h) [
  | none ↦ call_error operation h name
  | some e ↦ e
]
cause e = e

-- Any other HRESULT is named by its own text, which `text` writes.
unfoldable pub error_name : (ℕ → Bytes) → ℕ → Bytes
error_name text h =
    if h == 0
    then codes "Success"
    else if h == nte_invalid_parameter
    then codes "NotSupportedError"
    else if h == nte_not_supported
    then codes "ConstraintError"
    else if h == nte_device_not_found
        || h == nte_not_found
        || h == nte_user_cancelled
        || h == hresult_cancelled
    then codes "NotAllowedError"
    else text h

abbrev pub max_result_bytes : ℕ
max_result_bytes = 2 ^ 20

abbrev pub byte_pointer : Bytes → Option Bytes
byte_pointer [] = none
byte_pointer (b ∷ value) = some (b ∷ value)

module _ {W : Type 0} (dll : Dll W) where
  -- `size` bytes behind the pointer, in the world of the call.
  unfoldable pub copy_result_bytes : Option dll.Ptr → ℕ → W → Result WebauthnError Bytes
  copy_result_bytes ptr size w = if size == 0 then ok [] else elim ptr [
    | none ↦ err unnamed
    | some p ↦ if ltb max_result_bytes size then err unnamed else ok (dll.bytes_at p size w)
  ]

  -- The buffer's `Copy` stops at its size.
  unfoldable pub seal_result_bytes :
      (c : Crypto) → Option dll.Ptr → ℕ → W → Result WebauthnError (Option c.Enclave)
  seal_result_bytes c ptr size w = if size == 0 then ok none else elim ptr [
    | none ↦ err unnamed
    | some p ↦
        if ltb max_result_bytes size
        then err unnamed
        else ok (c.seal_buffer (take (c.new_buffer size) (dll.bytes_at p size w)))
  ]

  -- The loop over the extensions of an attestation.
  unfoldable pub enabled_in : List (Extension dll.Ptr) → W → Bool
  enabled_in [] w = false
  enabled_in (extension ∷ extensions) w =
      let rest = enabled_in extensions w in
      elim extension.identifier [
        | none ↦ rest
        | some p ↦ elim (bytes_eq (dll.text_at p w) (codes "hmac-secret")) [
          | false ↦ rest
          | true ↦ elim extension.value [
            | none ↦ false
            | some v ↦ not (ltb extension.value_size 4) && not (dll.int32_at v w == 0)
          ]
        ]
      ]
