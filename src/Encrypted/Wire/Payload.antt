-- ===== src/Encrypted/Wire/Payload.antt =====
-- Theorems on `encodeRecord` and `decodeRecord` of pkg/store/encrypted/encrypted.go: the payload.
use hmacsecret.Base.{
  ℕ, ◌+◌, ◌*◌, ◌^◌, ◌≤◌, ◌<◌, Bytes, [], ◌∷◌, ◌++◌, length, be16, AreBytes, ok, ◌≡◌, refl, arith,
  ap, ◌∙◌, inl, inr, zero, suc, drop, take, read_be32, length-take, take-append-drop,
}
use hmacsecret.Base.Fallible.{Result-cases}
use hmacsecret.Store.{Record}
use hmacsecret.Encrypted.Wire.{
  append_uint16, append_length_prefixed, encode_record, decode_record, read_bytes, read_uint16,
  max_payload_field,
}
use hmacsecret.Encrypted.Wire.Fields.{
  field, append_length_prefixed-append, length-append_length_prefixed, read_bytes-field,
}
use mathlib.Core.List.{append_assoc, append-nil}

-- The sizes that `encode_record` and the reader accept.
pub record IsEncodable (rec : Record) : Type 0 where
  pub credential_id : length rec.credential_id ≤ max_payload_field
  pub salt : length rec.salt ≤ max_payload_field
  pub rp_id : length rec.rp_id ≤ max_payload_field

-- What a payload holds, in order.
abbrev pub payload : Record → Bytes
payload rec = be16 1 ++ (field rec.credential_id ++ (field rec.salt ++ field rec.rp_id))

pub encode_record-payload : (rec : Record) → IsEncodable rec → encode_record rec ≡ ok (payload rec)
unfolding encode_record append_uint16
encode_record-payload rec h = simp (append_length_prefixed-append, append_assoc) (ground arith)

encode_record_fits :
    (rec : Record) (body : Bytes)
    → encode_record rec ≡ ok body
    → (length rec.credential_id ≤ max_payload_field) × (length rec.rp_id ≤ max_payload_field)
unfolding encode_record
encode_record_fits rec body e = ground arith

read_uint16-be16 : (rest : Bytes) → read_uint16 (be16 1 ++ rest) ≡ ok (1, rest)
unfolding read_uint16
read_uint16-be16 rest = refl

decode_record-payload :
    (rec : Record) → IsEncodable rec → decode_record rec.alias (payload rec) ≡ ok rec
unfolding decode_record
decode_record-payload rec h = rw (
  read_uint16-be16,
  read_bytes-field rec.credential_id _ h.credential_id,
  read_bytes-field rec.salt _ h.salt,
  rw append-nil at (read_bytes-field rec.rp_id [] h.rp_id),
)

-- A payload that was encoded is decoded to the same record, under the record's alias, if its salt is
-- within the field limit, which encoding does not check.
pub decode_record-encode_record :
    (rec : Record) (body : Bytes)
    → length rec.salt ≤ max_payload_field
    → encode_record rec ≡ ok body
    → decode_record rec.alias body ≡ ok rec
decode_record-encode_record rec body h e =
    let (hc, hr) = encode_record_fits rec body e in
    let fits : IsEncodable rec = record { credential_id = hc; salt = h; rp_id = hr } in
    let same : body ≡ payload rec = cc (encode_record-payload rec fits) in
    rw same (decode_record-payload rec fits)

AreBytes-drop : (n : ℕ) (body : Bytes) → AreBytes body → AreBytes (drop n body)
AreBytes-drop zero body h = h
AreBytes-drop (suc n) [] h = h
AreBytes-drop (suc n) (b ∷ body) h = AreBytes-drop n body h.1

-- A read gives back what it took: the bytes were the field and the rest.
read_bytes_inv :
    (body value rest : Bytes)
    → AreBytes body
    → read_bytes body ≡ ok (value, rest)
    → (body ≡ field value ++ rest) × AreBytes rest × (length value ≤ max_payload_field)
unfolding read_bytes
read_bytes_inv (a ∷ b ∷ c ∷ d ∷ body) value rest h e =
    let size : ℕ = read_be32 a b c d in
    let kept : size ≤ length body = ground arith in
    let small : size ≤ max_payload_field = ground arith in
    let front : value ≡ take size body = ground arith in
    let back : rest ≡ drop size body = ground arith in
    let wide : length value ≡ size = rw front (length-take size body kept) in
    let whole : value ++ rest ≡ body = rw (front, back) (take-append-drop size body) in
    (ground arith, rw back (AreBytes-drop size body h.1.1.1.1), omega arith)
read_bytes_inv _ value rest h e = cc

read_uint16_inv :
    (body rest : Bytes) (v : ℕ)
    → AreBytes body
    → read_uint16 body ≡ ok (v, rest)
    → v < 2 ^ 16 × (body ≡ be16 v ++ rest) × AreBytes rest
unfolding read_uint16
read_uint16_inv (a ∷ b ∷ body) rest v h e = ground arith
read_uint16_inv _ rest v h e = cc

-- The reads that a decoding made, one after the other.
record IsDecoding (body : Bytes) (rec : Record) : Type 0 where
  after1 : Bytes
  after2 : Bytes
  after3 : Bytes
  version : read_uint16 body ≡ ok (1, after1)
  credential_id : read_bytes after1 ≡ ok (rec.credential_id, after2)
  salt : read_bytes after2 ≡ ok (rec.salt, after3)
  rp_id : read_bytes after3 ≡ ok (rec.rp_id, [])

decode_record_inv :
    (alias body : Bytes) (rec : Record)
    → decode_record alias body ≡ ok rec
    → (rec.alias ≡ alias) × IsDecoding body rec
unfolding decode_record
decode_record_inv alias body rec e = elim (Result-cases (read_uint16 body)) [
  | inr (x, e1) ↦ absurd (cc (e, e1))
  | inl ((v, d1), e1) ↦ elim (Result-cases (read_bytes d1)) [
    | inr (x, e2) ↦ absurd (ground arith)
    | inl ((c, d2), e2) ↦ elim (Result-cases (read_bytes d2)) [
      | inr (x, e3) ↦ absurd (ground arith)
      | inl ((s, d3), e3) ↦ elim (Result-cases (read_bytes d3)) [
        | inr (x, e4) ↦ absurd (ground arith)
        | inl ((r, d4), e4) ↦ (
          ground arith,
          record {
            after1 = d1;
            after2 = d2;
            after3 = d3;
            version = ground arith;
            credential_id = ground arith;
            salt = ground arith;
            rp_id = ground arith;
          },
        )
      ]
    ]
  ]
]

-- A list of bytes that decodes to a record is the encoding of that record, and the record has the alias
-- that was asked for.
pub encode_record-decode_record :
    (alias body : Bytes) (rec : Record)
    → AreBytes body
    → decode_record alias body ≡ ok rec
    → (encode_record rec ≡ ok body) × (rec.alias ≡ alias)
encode_record-decode_record alias body rec h e =
    let (same, d) = decode_record_inv alias body rec e in
    let (_, b0, h1) = read_uint16_inv body d.after1 1 h d.version in
    let (b1, h2, fits1) = read_bytes_inv d.after1 rec.credential_id d.after2 h1 d.credential_id in
    let (b2, h3, fits2) = read_bytes_inv d.after2 rec.salt d.after3 h2 d.salt in
    let (b3, _, fits3) = read_bytes_inv d.after3 rec.rp_id [] h3 d.rp_id in
    let fits : IsEncodable rec = record { credential_id = fits1; salt = fits2; rp_id = fits3 } in
    let whole : payload rec ≡ body = rw (b0, b1, b2, b3, append-nil) refl in
    (encode_record-payload rec fits ∙ ap ok whole, same)

-- A payload is no longer than its fields, their prefixes and the version.
pub length-encode_record :
    (rec : Record) (body : Bytes)
    → encode_record rec ≡ ok body
    → length body ≤ 14 + 2 * max_payload_field + length rec.salt
unfolding encode_record append_uint16
length-encode_record rec body e =
    let (hc, hr) = encode_record_fits rec body e in
    let same : append_length_prefixed
          (append_length_prefixed (append_length_prefixed (be16 1) rec.credential_id) rec.salt)
          rec.rp_id
        ≡ body =
      ground arith in
    omega (
      arith,
      ap (λ (t : Bytes). length t) same,
      length-append_length_prefixed
          (append_length_prefixed (append_length_prefixed (be16 1) rec.credential_id) rec.salt)
          rec.rp_id,
      length-append_length_prefixed (append_length_prefixed (be16 1) rec.credential_id) rec.salt,
      length-append_length_prefixed (be16 1) rec.credential_id,
    )
