-- ===== src/Tests/Listing.antt =====
-- The scan of a database that is a list of keys and values.
use hmacsecret.Base.{
  ◌≡◌, Bool, true, false, ◌&&◌, Bytes, List, [], ◌∷◌, AreBytes, bytes_eq, bytes_eq_iff, ltb, codes,
  trim, Option, none, some, ok, arith, refl, Bool-cases, inl, inr, if◌then◌else◌, subst, sym, ap,
  ◌∙◌,
}
use hmacsecret.Store.{Context, validate_alias}
use hmacsecret.Store.Backend.{IsAlias}
use hmacsecret.Pebble.{list_envelopes, has_envelope, is_found}
use hmacsecret.Pebble.Engine.{Db}
use hmacsecret.Pebble.Keys.{
  has_prefix, prefix_upper_bound, upper_bound_loop, byte_at, cut_up, collect, envelope_key,
  encryption_header_key,
}
use hmacsecret.Pebble.Prefix.{bytes_lt, within}
use hmacsecret.Pebble.Listing.{elem, AllWithin, IsScan, list_envelopes-has_envelope}
use hmacsecret.Tests.Pebble.{text}

abbrev Rows : Type 0
Rows = List (Bytes × Bytes)

abbrev find : Bytes → Rows → Option Bytes
find k [] = none
find k ((j, v) ∷ d) = if bytes_eq j k then some v else find k d

abbrev are_bytes : Bytes → Bool
are_bytes [] = true
are_bytes (x ∷ k) = ltb x 256 && are_bytes k

abbrev keys : Option Bytes → Option Bytes → Rows → List Bytes
keys lower upper [] = []
keys lower upper ((k, v) ∷ d) =
    let rest = keys lower upper d in if are_bytes k && within lower upper k then k ∷ rest else rest

abbrev rows : Db Rows
rows = record {
  get = λ k d. ok (find k d);
  set = λ k v d. (ok tt, (k, v) ∷ d);
  delete = λ k d. (ok tt, d);
  scan = λ lower upper d. ok (keys lower upper d);
  close = λ d. ok tt;
}

are_bytes-AreBytes : (k : Bytes) → are_bytes k ≡ true → AreBytes k
are_bytes-AreBytes [] h = tt
are_bytes-AreBytes (x ∷ k) h = (ground arith, are_bytes-AreBytes k (ground arith))

AreBytes-are_bytes : (k : Bytes) → AreBytes k → are_bytes k ≡ true
AreBytes-are_bytes [] h = refl
AreBytes-are_bytes (x ∷ k) h = ground (arith, AreBytes-are_bytes k h.1)

keys-AllWithin :
    (lower upper : Option Bytes) (d : Rows) → AllWithin lower upper (keys lower upper d)
keys-AllWithin lower upper [] = tt
keys-AllWithin lower upper ((k, v) ∷ d) = elim (Bool-cases (are_bytes k && within lower upper k)) [
  | inl inside ↦
      rw inside (are_bytes-AreBytes k (ground arith), ground arith, keys-AllWithin lower upper d)
  | inr outside ↦ rw outside (keys-AllWithin lower upper d)
]

elem-keys :
    (lower upper : Option Bytes) (d : Rows) (k : Bytes)
    → AreBytes k
    → within lower upper k ≡ true
    → elem k (keys lower upper d) ≡ is_found (find k d)
elem-keys lower upper [] k h w = refl
elem-keys lower upper ((j, v) ∷ d) k h w = elim (Bool-cases (bytes_eq j k)) [
  | inl same ↦
      let there : (are_bytes j && within lower upper j) ≡ true =
        subst (λ x. (are_bytes x && within lower upper x) ≡ true) (sym ((bytes_eq_iff j k).0 same))
          (ground (arith, AreBytes-are_bytes k h)) in
      rw (there, same)
  | inr other ↦ elim (Bool-cases (are_bytes j && within lower upper j)) [
    | inl there ↦ rw (there, other) (elem-keys lower upper d k h w)
    | inr away ↦ rw (away, other) (elem-keys lower upper d k h w)
  ]
]

rows-IsScan : IsScan rows
rows-IsScan = record {
  inside = λ lower upper d found e.
      subst (λ l. AllWithin lower upper l) (cc) (keys-AllWithin lower upper d);
  complete = λ lower upper d found k r e g h w.
      let made : keys lower upper d ≡ found = cc in
      let got : find k d ≡ r = cc in
      ap (elem k) (sym made) ∙ elem-keys lower upper d k h w ∙ ap is_found got;
}

abbrev live : Context
live i = false

-- The header, one envelope and one record of the plain store.
abbrev mixed : Option Rows
mixed =
    some
      ((encryption_header_key, []) ∷ (envelope_key (codes "login"), []) ∷ (codes "mail", []) ∷ [])

login-IsAlias : IsAlias (codes "login")
unfolding trim
login-IsAlias = record { trimmed = refl; filled = refl }

listed : list_envelopes rows text live mixed ≡ (ok (codes "login" ∷ []), mixed)
unfolding list_envelopes prefix_upper_bound upper_bound_loop byte_at cut_up collect has_prefix
    bytes_lt
listed = refl

asked : has_envelope rows text live (codes "login") mixed ≡ (ok true, mixed)
unfolding has_envelope trim validate_alias
asked = refl

list_envelopes-has_envelope_example : elem (codes "login") (codes "login" ∷ []) ≡ true
list_envelopes-has_envelope_example =
    list_envelopes-has_envelope rows text rows-IsScan live live (codes "login") (codes "login" ∷ [])
      true mixed login-IsAlias (omega arith) listed asked
