-- ===== src/Authenticator/Inputs.antt =====
-- lib/hmacsecret/salt.go, clientdata.go and the check of pin.go: salts and client data. Random bytes are
-- arguments, `none` where the source fails.
use hmacsecret.Base.{
  ℕ, ◌+◌, ◌-◌, ◌*◌, ◌/◌, ◌%◌, Bool, true, false, not, ◌&&◌, ◌||◌, Bytes, [], ◌∷◌, ◌++◌, length, leb,
  ltb, ◌==◌, codes, Option, none, some, Result, ok, err, fail_if, if◌then◌else◌,
}
use hmacsecret.Store.{empty, salt_size}
use hmacsecret.Types.{DeviceError, unnamed}
use hmacsecret.Devices.{Platform, is_windows_hello}

-- The struct that `MakeClientDataJSON` marshals.
pub record ClientData : Type 0 where
  pub operation : Bytes
  pub challenge : Bytes
  pub origin : Bytes
  pub cross_origin : Bool

-- The value of a hexadecimal digit, of either case.
abbrev pub from_hex : ℕ → Option ℕ
from_hex c =
    if leb 0x30 c && leb c 0x39
    then some (c - 0x30)
    else if leb 0x61 c && leb c 0x66
    then some (c - 0x57)
    else if leb 0x41 c && leb c 0x46
    then some (c - 0x37)
    else none

abbrev hex_pair : Option ℕ → Option ℕ → Option Bytes → Option Bytes
hex_pair (some high) (some low) (some rest) = some ((high * 16 + low) ∷ rest)
hex_pair high low rest = none

-- `hex.DecodeString`
unfoldable pub decode_hex : Bytes → Option Bytes
decode_hex [] = some []
decode_hex (c ∷ []) = none
decode_hex (c ∷ d ∷ s) = hex_pair (from_hex c) (from_hex d) (decode_hex s)

-- `hex.EncodeToString`, in lower case.
abbrev pub digit : ℕ → ℕ
digit n = if ltb n 10 then 0x30 + n else 0x57 + n

abbrev pub encode_hex : Bytes → Bytes
encode_hex [] = []
encode_hex (b ∷ s) = digit (b / 16) ∷ digit (b % 16) ∷ encode_hex s

-- A letter of the URL-safe base64 alphabet.
unfoldable pub letter : ℕ → ℕ
letter i =
    if ltb i 26
    then 65 + i
    else if ltb i 52
    then 71 + i
    else if ltb i 62
    then i - 4
    else if i == 62
    then 45
    else 95

-- `base64.RawURLEncoding.EncodeToString`
unfoldable pub encode_base64 : Bytes → Bytes
unfolding letter
encode_base64 [] = []
encode_base64 (a ∷ []) = letter (a / 4) ∷ letter (a % 4 * 16) ∷ []
encode_base64 (a ∷ b ∷ []) =
    letter (a / 4) ∷ letter (a % 4 * 16 + b / 16) ∷ letter (b % 16 * 4) ∷ []
encode_base64 (a ∷ b ∷ c ∷ s) =
    letter (a / 4)
    ∷ letter (a % 4 * 16 + b / 16)
    ∷ letter (b % 16 * 4 + c / 64)
    ∷ letter (c % 64)
    ∷ encode_base64 s

abbrev pub or_unnamed : Option Bytes → Result DeviceError Bytes
or_unnamed none = err unnamed
or_unnamed (some b) = ok b

unfoldable pub validate_salt : Bytes → Result DeviceError (Unit {0})
validate_salt salt = fail_if (not (length salt == salt_size)) unnamed

-- The salt, and whether it was generated.
unfoldable pub parse_salt : Bytes → Option Bytes → Result DeviceError (Bytes × Bool)
unfolding decode_hex
parse_salt value random =
    if empty value
    then elim random [ none ↦ err unnamed | some result ↦ ok (result, true) ]
    else elim (decode_hex value) [
      | none ↦ err unnamed
      | some result ↦ if not (length result == salt_size) then err unnamed else ok (result, false)
    ]

unfoldable pub needs_terminal_pin : Platform → Bytes → Bool
needs_terminal_pin platform path = not (is_windows_hello platform path)

-- `marshal` is `json.Marshal` of the struct.
unfoldable pub make_client_data_json :
    (ClientData → Option Bytes) → Bytes → Bytes → Bytes → Result DeviceError Bytes
unfolding encode_base64
make_client_data_json marshal operation challenge rp_id =
    if empty operation || empty challenge || empty rp_id
    then err unnamed
    else or_unnamed (
        marshal (record {
          operation = operation;
          challenge = encode_base64 challenge;
          origin = codes "https://" ++ rp_id;
          cross_origin = false;
        }))
