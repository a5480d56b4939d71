-- ===== src/Tests/Wire.antt =====
-- The byte formats at concrete records.
use hmacsecret.Base.{◌≡◌, [], ◌∷◌, codes, ok, refl, arith}
use hmacsecret.Store.{Record}
use hmacsecret.Encrypted.Wire.{
  record_aad, header_aad, encode_record, decode_record, append_uint16, append_length_prefixed,
}
use hmacsecret.Encrypted.Wire.Payload.{
  decode_record-encode_record, encode_record-decode_record, payload,
}
use hmacsecret.Encrypted.Wire.Aad.{
  record_aad_injective, header_aad_injective, header_aad-ne-record_aad,
}
use hmacsecret.Encrypted.Store.{zero_header}

abbrev login : Record
login = record {
  alias = codes "login";
  credential_id = 5 ∷ 6 ∷ [];
  salt = 1 ∷ 2 ∷ 3 ∷ [];
  rp_id = codes "rp.example";
}

login_encoded : encode_record login ≡ ok (payload login)
unfolding encode_record append_uint16 append_length_prefixed
login_encoded = refl

decode_record-encode_record_example : decode_record (codes "login") (payload login) ≡ ok login
decode_record-encode_record_example =
    decode_record-encode_record login (payload login) (omega arith) login_encoded

encode_record-decode_record_example :
    (encode_record login ≡ ok (payload login)) × (login.alias ≡ codes "login")
encode_record-decode_record_example =
    encode_record-decode_record (codes "login") (payload login) login (omega arith)
      decode_record-encode_record_example

record_aad_injective_example :
    (zero_header.store_id ≡ zero_header.store_id) × (codes "login" ≡ codes "login")
record_aad_injective_example =
    record_aad_injective zero_header zero_header (codes "login") (codes "login") (omega arith)
      (omega arith) (omega arith) (omega arith) refl

header_aad_injective_example :
    (zero_header.version ≡ zero_header.version)
    × (zero_header.revision ≡ zero_header.revision)
    × (zero_header.store_id ≡ zero_header.store_id)
    × (zero_header.kek ≡ zero_header.kek)
header_aad_injective_example =
    header_aad_injective zero_header zero_header (omega arith) (omega arith) refl

header_aad-ne-record_aad_example :
    ¬ (header_aad zero_header ≡ record_aad zero_header (codes "login"))
header_aad-ne-record_aad_example = header_aad-ne-record_aad zero_header zero_header (codes "login")
