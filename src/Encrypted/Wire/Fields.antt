-- ===== src/Encrypted/Wire/Fields.antt =====
-- Lemmas on length-prefixed fields, as `appendLengthPrefixed` writes them and `payloadReader.bytes`
-- reads them (pkg/store/encrypted/encrypted.go).
use hmacsecret.Base.{
  ◌+◌, ◌%◌, ◌^◌, ◌≤◌, ◌<◌, Bytes, ◌++◌, length, length-append, take-append, drop-append,
  append_split, be32, be32_injective, read_be32-be32, ok, ◌≡◌, refl, arith,
}
use mathlib.Core.List.{append_assoc}
use hmacsecret.Encrypted.Wire.{append_length_prefixed, read_bytes, max_payload_field}

-- What one field looks like on the wire.
abbrev pub field : Bytes → Bytes
field value = be32 (length value % 2 ^ 32) ++ value

pub append_length_prefixed-append :
    (dst value : Bytes) → append_length_prefixed dst value ≡ dst ++ field value
unfolding append_length_prefixed
append_length_prefixed-append dst value = append_assoc dst (be32 (length value % 2 ^ 32)) value

pub length-append_length_prefixed :
    (dst value : Bytes) → length (append_length_prefixed dst value) ≡ length dst + 4 + length value
unfolding append_length_prefixed
length-append_length_prefixed dst value = omega (
  arith,
  length-append (dst ++ be32 (length value % 2 ^ 32)) value,
  length-append dst (be32 (length value % 2 ^ 32)),
)

-- The reader returns the field that was written, and leaves what follows it.
pub read_bytes-field :
    (value rest : Bytes)
    → length value ≤ max_payload_field
    → read_bytes (field value ++ rest) ≡ ok (value, rest)
unfolding read_bytes
read_bytes-field value rest h = ground (
  arith,
  read_be32-be32 (length value),
  take-append value rest,
  drop-append value rest,
  length-append value rest,
)

-- Equal fields with what follows them are equal fields, followed by the same.
pub field_split :
    (v w : Bytes) {r s : Bytes}
    → length v < 2 ^ 32
    → length w < 2 ^ 32
    → field v ++ r ≡ field w ++ s
    → (v ≡ w) × (r ≡ s)
field_split v w {r} {s} hv hw e =
    let (prefix, tails) =
      append_split (be32 (length v % 2 ^ 32)) (be32 (length w % 2 ^ 32)) {r = v ++ r} {s = w ++ s}
        refl e in
    append_split v w {r = r} {s = s}
      (omega (
        arith,
        be32_injective (length v % 2 ^ 32) (length w % 2 ^ 32) (omega arith) (omega arith) prefix,
      ))
      tails
