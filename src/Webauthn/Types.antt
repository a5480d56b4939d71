-- ===== src/Webauthn/Types.antt =====
-- internal/webauthn/types_windows.go and constants_windows.go: the structures that go into webauthn.dll and
-- those that it answers with, and the requests. An input structure that the source points to stands in
-- place of the pointer; `V` are UTF-16 texts. A field that the source leaves zero is left out. `P` are
-- pointers into memory of the DLL, `none` is nil.
use hmacsecret.Base.{ℕ, Bytes, Option}

pub record RpEntityInformation (V : Type 0) : Type 0 where
  pub version : ℕ
  pub id : V
  pub name : V

pub record UserEntityInformation (V : Type 0) : Type 0 where
  pub version : ℕ
  pub id_length : ℕ
  pub id : Option Bytes
  pub name : V
  pub display_name : V

pub record ClientData (V : Type 0) : Type 0 where
  pub version : ℕ
  pub json_length : ℕ
  pub json : Option Bytes
  pub hash_algorithm : V

-- `algorithm` is the COSE number below zero, without its sign.
pub record CoseCredentialParameter (V : Type 0) : Type 0 where
  pub version : ℕ
  pub credential_type : V
  pub algorithm : ℕ

-- A credential of the list that is allowed to answer.
pub record Credential (V : Type 0) : Type 0 where
  pub version : ℕ
  pub id_length : ℕ
  pub id : Option Bytes
  pub credential_type : V

-- An extension of a request, whose value is an `int32`.
pub record RequestExtension (V : Type 0) : Type 0 where
  pub identifier : V
  pub value_size : ℕ
  pub value : ℕ

pub record HmacSecretSalt : Type 0 where
  pub first_length : ℕ
  pub first : Option Bytes

pub record MakeCredentialOptions (V : Type 0) : Type 0 where
  pub version : ℕ
  pub timeout_milliseconds : ℕ
  pub extension : RequestExtension V
  pub authenticator_attachment : ℕ
  pub require_resident_key : ℕ
  pub user_verification_requirement : ℕ
  pub attestation_conveyance_preference : ℕ
  pub enable_prf : ℕ

pub record GetAssertionOptions (V : Type 0) : Type 0 where
  pub version : ℕ
  pub timeout_milliseconds : ℕ
  pub credential : Credential V
  pub authenticator_attachment : ℕ
  pub user_verification_requirement : ℕ
  pub flags : ℕ
  pub global_salt : HmacSecretSalt

-- The fields of the answers that the source reads.
pub record Extensions (P : Type 0) : Type 0 where
  pub count : ℕ
  pub extensions : Option P

pub record Extension (P : Type 0) : Type 0 where
  pub identifier : Option P
  pub value_size : ℕ
  pub value : Option P

pub record CredentialAttestation (P : Type 0) : Type 0 where
  pub version : ℕ
  pub authenticator_data_length : ℕ
  pub authenticator_data : Option P
  pub credential_id_length : ℕ
  pub credential_id : Option P
  pub extensions : Extensions P
  pub prf_enabled : ℕ

pub record Assertion (P : Type 0) : Type 0 where
  pub version : ℕ
  pub authenticator_data_length : ℕ
  pub authenticator_data : Option P
  pub credential_id_length : ℕ
  pub credential_id : Option P
  pub hmac_secret : Option P

-- The `HMACSecretSalt` of an answer, which holds the secret.
pub record AnsweredSecret (P : Type 0) : Type 0 where
  pub first_length : ℕ
  pub first : Option P

abbrev pub api_version_prf : ℕ
api_version_prf = 6

abbrev pub hmac_secret_length : ℕ
hmac_secret_length = 32

abbrev pub cross_platform : ℕ
cross_platform = 2

abbrev pub user_verification_any : ℕ
user_verification_any = 0

abbrev pub attestation_direct : ℕ
attestation_direct = 3

abbrev pub cose_algorithm_es256 : ℕ
cose_algorithm_es256 = 7

abbrev pub hmac_secret_values_flag : ℕ
hmac_secret_values_flag = 0x00100000

abbrev pub nte_invalid_parameter : ℕ
nte_invalid_parameter = 0x80090027

abbrev pub nte_not_supported : ℕ
nte_not_supported = 0x80090029

abbrev pub nte_device_not_found : ℕ
nte_device_not_found = 0x80090035

abbrev pub nte_user_cancelled : ℕ
nte_user_cancelled = 0x80090036

abbrev pub nte_not_found : ℕ
nte_not_found = 0x80090011

abbrev pub hresult_cancelled : ℕ
hresult_cancelled = 0x800704c7
