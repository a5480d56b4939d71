-- ===== src/Webauthn/Freed.antt =====
-- Theorems on the memory that webauthn.dll hands over to internal/webauthn: who frees it.
use hmacsecret.Base.{ℕ, ◌≡◌, Bytes, List, [], ◌∷◌, Option, none, some, arith, if◌then◌else◌}
use hmacsecret.Encrypted.Crypto.{Crypto}
use hmacsecret.Webauthn.Native.{Dll, failed}
use hmacsecret.Webauthn.Calls.{
  Api, State, Call, called_version, called_make_credential, called_get_assertion, freed_attestation,
  freed_assertion, version, result_pointer,
}
use hmacsecret.Webauthn.MakeCredential.{MakeCredentialRequest, request_attestation, make_credential}
use hmacsecret.Webauthn.GetAssertion.{GetAssertionRequest, request_assertion, get_assertion}

module _ {P : Type 0} where
  -- The results that a request handed over: the pointer of an answer that is no failure.
  abbrev given : ℕ → Option P → List P → List P
  given h none rest = rest
  given h (some p) rest = if failed h then rest else p ∷ rest

  abbrev pub handed_attestations : List (Call P) → List P
  handed_attestations [] = []
  handed_attestations (called_make_credential h p ∷ calls) = given h p (handed_attestations calls)
  handed_attestations (called_version ∷ calls) = handed_attestations calls
  handed_attestations (called_get_assertion h p ∷ calls) = handed_attestations calls
  handed_attestations (freed_attestation p ∷ calls) = handed_attestations calls
  handed_attestations (freed_assertion p ∷ calls) = handed_attestations calls

  abbrev pub freed_attestations : List (Call P) → List P
  freed_attestations [] = []
  freed_attestations (freed_attestation p ∷ calls) = p ∷ freed_attestations calls
  freed_attestations (called_version ∷ calls) = freed_attestations calls
  freed_attestations (called_make_credential h p ∷ calls) = freed_attestations calls
  freed_attestations (called_get_assertion h p ∷ calls) = freed_attestations calls
  freed_attestations (freed_assertion p ∷ calls) = freed_attestations calls

  abbrev pub handed_assertions : List (Call P) → List P
  handed_assertions [] = []
  handed_assertions (called_get_assertion h p ∷ calls) = given h p (handed_assertions calls)
  handed_assertions (called_version ∷ calls) = handed_assertions calls
  handed_assertions (called_make_credential h p ∷ calls) = handed_assertions calls
  handed_assertions (freed_attestation p ∷ calls) = handed_assertions calls
  handed_assertions (freed_assertion p ∷ calls) = handed_assertions calls

  abbrev pub freed_assertions : List (Call P) → List P
  freed_assertions [] = []
  freed_assertions (freed_assertion p ∷ calls) = p ∷ freed_assertions calls
  freed_assertions (called_version ∷ calls) = freed_assertions calls
  freed_assertions (called_make_credential h p ∷ calls) = freed_assertions calls
  freed_assertions (called_get_assertion h p ∷ calls) = freed_assertions calls
  freed_assertions (freed_attestation p ∷ calls) = freed_assertions calls

  -- What was handed over is what was freed, in the same order and with the procedure for it.
  abbrev pub IsBalanced : List (Call P) → Type 0
  IsBalanced calls =
      (freed_attestations calls ≡ handed_attestations calls)
      × (freed_assertions calls ≡ handed_assertions calls)

module _ {W : Type 0} (dll : Dll W) (text : ℕ → Bytes) where
  pub make_credential-IsBalanced :
      (a : Option Api) (request : MakeCredentialRequest) (s : State W dll.Ptr)
      → IsBalanced s.calls
      → IsBalanced (make_credential dll text a request s).1.calls
  unfolding make_credential request_attestation version result_pointer failed
  make_credential-IsBalanced a request s b = ground arith

  pub get_assertion-IsBalanced :
      (c : Crypto) (a : Option Api) (request : GetAssertionRequest) (s : State W dll.Ptr)
      → IsBalanced s.calls
      → IsBalanced (get_assertion dll text c a request s).1.calls
  unfolding get_assertion request_assertion version result_pointer failed
  get_assertion-IsBalanced c a request s b = ground arith

  -- Where the results that the DLL handed over were freed, each once and by its own procedure, they still
  -- are after either request, however it ends. A result counts as handed over where the HRESULT is no
  -- failure and the pointer is not nil.
  pub requests-IsBalanced :
      (c : Crypto) (a : Option Api) (made : MakeCredentialRequest) (asked : GetAssertionRequest)
      (s : State W dll.Ptr)
      → IsBalanced s.calls
      → IsBalanced (make_credential dll text a made s).1.calls
        × IsBalanced (get_assertion dll text c a asked s).1.calls
  requests-IsBalanced c a made asked s b =
      (make_credential-IsBalanced a made s b, get_assertion-IsBalanced c a asked s b)
