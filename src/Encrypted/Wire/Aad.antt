-- ===== src/Encrypted/Wire/Aad.antt =====
-- Theorems on `headerAAD` and `recordAAD` of pkg/store/encrypted/encrypted.go: the authenticated data.
use hmacsecret.Base.{
  ◌^◌, ◌<◌, Bytes, [], ◌++◌, length, be16, be32, be64, be16_injective, be64_injective,
  be32_injective, append_split, ◌≡◌, refl, arith, sym, ◌∙◌,
}
use hmacsecret.Store.{EncryptionHeader}
use hmacsecret.Encrypted.Wire.{
  header_aad, record_aad, append_uint16, append_uint64, header_aad_prefix, record_aad_prefix,
  format_version,
}
use hmacsecret.Encrypted.Wire.Fields.{field, append_length_prefixed-append, field_split}
use mathlib.Core.List.{append_assoc, append-nil}

-- Every length fits the 32 bits of its prefix.
pub record FitsPrefixes (h : EncryptionHeader) : Type 0 where
  pub version : h.version < 2 ^ 16
  pub revision : h.revision < 2 ^ 64
  pub store_id : length h.store_id < 2 ^ 32
  pub credential_id : length h.kek.credential_id < 2 ^ 32
  pub salt : length h.kek.salt < 2 ^ 32
  pub rp_id : length h.kek.rp_id < 2 ^ 32

record_aad-fields :
    (h : EncryptionHeader) (alias : Bytes)
    → record_aad h alias
      ≡ field record_aad_prefix
        ++ (be16 format_version ++ (field h.store_id ++ (field alias ++ [])))
unfolding record_aad append_uint16
record_aad-fields h alias = simp (append_length_prefixed-append, append_assoc, append-nil)

-- Records with the same authenticated data are of the same store and under the same alias, if the
-- lengths of store ids and aliases fit their prefixes.
pub record_aad_injective :
    (h k : EncryptionHeader) (a b : Bytes)
    → length h.store_id < 2 ^ 32
    → length k.store_id < 2 ^ 32
    → length a < 2 ^ 32
    → length b < 2 ^ 32
    → record_aad h a ≡ record_aad k b
    → (h.store_id ≡ k.store_id) × (a ≡ b)
record_aad_injective h k a b hh hk ha hb e =
    let whole = sym (record_aad-fields h a) ∙ e ∙ record_aad-fields k b in
    let (_, t0) = append_split (field record_aad_prefix) (field record_aad_prefix) refl whole in
    let (_, t1) = append_split (be16 format_version) (be16 format_version) refl t0 in
    let (same_store, t2) = field_split h.store_id k.store_id hh hk t1 in
    let (same_alias, _) = field_split a b ha hb t2 in (same_store, same_alias)

header_aad-fields :
    (h : EncryptionHeader)
    → header_aad h
      ≡ field header_aad_prefix
        ++ (be16 h.version
            ++ (be64 h.revision
                ++ (field h.store_id
                    ++ (field h.kek.credential_id
                        ++ (field h.kek.salt ++ (field h.kek.rp_id ++ []))))))
unfolding header_aad append_uint16 append_uint64
header_aad-fields h = simp (append_length_prefixed-append, append_assoc, append-nil)

-- Headers with the same authenticated data agree in all but the wrapped key, if their numbers fit their
-- widths and the lengths of their fields fit their prefixes.
pub header_aad_injective :
    (h k : EncryptionHeader)
    → FitsPrefixes h
    → FitsPrefixes k
    → header_aad h ≡ header_aad k
    → (h.version ≡ k.version)
      × (h.revision ≡ k.revision)
      × (h.store_id ≡ k.store_id)
      × (h.kek ≡ k.kek)
header_aad_injective h k fh fk e =
    let whole = sym (header_aad-fields h) ∙ e ∙ header_aad-fields k in
    let (_, t0) = append_split (field header_aad_prefix) (field header_aad_prefix) refl whole in
    let (v, t1) = append_split (be16 h.version) (be16 k.version) refl t0 in
    let (r, t2) = append_split (be64 h.revision) (be64 k.revision) refl t1 in
    let (s, t3) = field_split h.store_id k.store_id fh.store_id fk.store_id t2 in
    let (c, t4) =
      field_split h.kek.credential_id k.kek.credential_id fh.credential_id fk.credential_id t3 in
    let (sa, t5) = field_split h.kek.salt k.kek.salt fh.salt fk.salt t4 in
    let (rp, _) = field_split h.kek.rp_id k.kek.rp_id fh.rp_id fk.rp_id t5 in
    (
      be16_injective h.version k.version fh.version fk.version v,
      be64_injective h.revision k.revision fh.revision fk.revision r,
      s,
      λ i. record { credential_id = c i; salt = sa i; rp_id = rp i },
    )

-- The wrapped key's data and a record's data never agree.
pub header_aad-ne-record_aad :
    (h k : EncryptionHeader) (a : Bytes) → ¬ (header_aad h ≡ record_aad k a)
header_aad-ne-record_aad h k a e =
    let whole = sym (header_aad-fields h) ∙ e ∙ record_aad-fields k a in
    let (prefix, _) = append_split (be32 33) (be32 36) refl whole in
    absurd (omega (arith, be32_injective 33 36 (omega arith) (omega arith) prefix))
