-- ===== src/Encrypted/Wire.antt =====
-- The byte formats of pkg/store/encrypted/encrypted.go: the record's payload and the data that is
-- authenticated with the wrapped key and with each record.
pub mod Fields
pub mod Payload
pub mod Aad
use hmacsecret.Base.{
  ℕ, ◌+◌, ◌*◌, ◌/◌, ◌%◌, ◌^◌, Bool, not, ◌||◌, Bytes, List, [], ◌∷◌, ◌++◌, length, take, drop, ltb,
  ◌==◌, codes, be16, be32, be64, read_be16, read_be32, Result, ok, err, fail_if, if◌then◌else◌,
}
use hmacsecret.Base.Fallible.{◌>>=◌, ◌>>◌}
use hmacsecret.Store.{Error, Record, EncryptionHeader, invalid_record, unsupported_format}

abbrev pub format_version : ℕ
format_version = 1

abbrev pub max_payload_field : ℕ
max_payload_field = 2 ^ 20

abbrev pub header_aad_prefix : Bytes
header_aad_prefix = codes "hmacsecret/encrypted-store/dek/v1"

abbrev pub record_aad_prefix : Bytes
record_aad_prefix = codes "hmacsecret/encrypted-store/record/v1"

unfoldable pub append_uint16 : Bytes → ℕ → Bytes
append_uint16 dst value = dst ++ be16 value

unfoldable pub append_uint64 : Bytes → ℕ → Bytes
append_uint64 dst value = dst ++ be64 value

-- `uint32(len(value))` keeps the low 32 bits.
unfoldable pub append_length_prefixed : Bytes → Bytes → Bytes
append_length_prefixed dst value = (dst ++ be32 (length value % 2 ^ 32)) ++ value

unfoldable pub header_aad : EncryptionHeader → Bytes
header_aad header =
    let out = append_length_prefixed [] header_aad_prefix in
    let out = append_uint16 out header.version in
    let out = append_uint64 out header.revision in
    let out = append_length_prefixed out header.store_id in
    let out = append_length_prefixed out header.kek.credential_id in
    let out = append_length_prefixed out header.kek.salt in
    append_length_prefixed out header.kek.rp_id

unfoldable pub record_aad : EncryptionHeader → Bytes → Bytes
record_aad header alias =
    let out = append_length_prefixed [] record_aad_prefix in
    let out = append_uint16 out format_version in
    let out = append_length_prefixed out header.store_id in append_length_prefixed out alias

unfoldable pub encode_record : Record → Result Error Bytes
encode_record rec =
    if ltb max_payload_field (length rec.credential_id) || ltb max_payload_field (length rec.rp_id)
    then err invalid_record
    else (let out = append_uint16 [] format_version in
        let out = append_length_prefixed out rec.credential_id in
        let out = append_length_prefixed out rec.salt in ok (append_length_prefixed out rec.rp_id))

-- A `payloadReader` is the data that it has left. `len(r.data) < 2` is the catch-all.
unfoldable pub read_uint16 : Bytes → Result Error (ℕ × Bytes)
read_uint16 (a ∷ b ∷ rest) = ok (read_be16 a b, rest)
read_uint16 _ = err invalid_record

unfoldable pub read_bytes : Bytes → Result Error (Bytes × Bytes)
read_bytes (a ∷ b ∷ c ∷ d ∷ rest) =
    let size = read_be32 a b c d in
    if ltb max_payload_field size || ltb (length rest) size
    then err invalid_record
    else ok (take size rest, drop size rest)
read_bytes _ = err invalid_record

unfoldable pub decode_record : Bytes → Bytes → Result Error Record
decode_record alias data0 = do
  (version, data1) ← read_uint16 data0
  fail_if (not (version == format_version)) unsupported_format
  (credential_id, data2) ← read_bytes data1
  (salt, data3) ← read_bytes data2
  (rp_id, data4) ← read_bytes data3
  fail_if (not (length data4 == 0)) invalid_record
  ok (record { alias = alias; credential_id = credential_id; salt = salt; rp_id = rp_id })
