-- ===== src/Webauthn.antt =====
-- internal/webauthn: the requests to webauthn.dll of Windows.
pub mod Types
pub mod Native
pub mod Calls
pub mod MakeCredential
pub mod GetAssertion
pub mod Freed
pub mod Bounds
pub mod Refused
