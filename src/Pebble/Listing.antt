-- ===== src/Pebble/Listing.antt =====
-- `ListEnvelopes` and `HasEnvelope` of pkg/store/pebble/pebble.go.
use hmacsecret.Base.{
  ◌≡◌, Bool, true, false, ◌||◌, Bytes, List, [], ◌∷◌, ◌++◌, length, drop, AreBytes, bytes_eq,
  Option, none, some, ok, arith, refl, sym, ap, ◌∙◌, inl, inr,
}
use hmacsecret.Base.Fallible.{Result-cases}
use hmacsecret.Store.{Context, validate_alias}
use hmacsecret.Store.Backend.{IsAlias}
use hmacsecret.Pebble.{list_envelopes, has_envelope, is_found}
use hmacsecret.Pebble.Engine.{Db, Codecs}
use hmacsecret.Pebble.Keys.{has_prefix, prefix_upper_bound, envelope_prefix, envelope_key, collect}
use hmacsecret.Pebble.Prefix.{within, has_prefix-within}

abbrev pub elem : Bytes → List Bytes → Bool
elem k [] = false
elem k (x ∷ keys) = bytes_eq x k || elem k keys

-- Keys of a scan: lists of bytes between its bounds.
abbrev pub AllWithin : Option Bytes → Option Bytes → List Bytes → Type 0
AllWithin lower upper [] = Unit
AllWithin lower upper (k ∷ keys) =
    AreBytes k × (within lower upper k ≡ true) × AllWithin lower upper keys

-- An iterator that met no error ran over the keys between its bounds that have a value.
pub record IsScan {D : Type 0} (db : Db D) : Type 0 where
  pub inside :
      (lower upper : Option Bytes) (d : D) (keys : List Bytes)
      → db.scan lower upper d ≡ ok keys
      → AllWithin lower upper keys
  pub complete :
      (lower upper : Option Bytes) (d : D) (keys : List Bytes) (k : Bytes) (r : Option Bytes)
      → db.scan lower upper d ≡ ok keys
      → db.get k d ≡ ok r
      → AreBytes k
      → within lower upper k ≡ true
      → elem k keys ≡ is_found r

has_prefix-append : (p k : Bytes) → has_prefix p (p ++ k) ≡ true
unfolding has_prefix
has_prefix-append [] k = refl
has_prefix-append (x ∷ p) k = ground (arith, has_prefix-append p k)

-- A key with the prefix is the prefix and what is behind it.
has_prefix-drop : (p k : Bytes) → has_prefix p k ≡ true → k ≡ p ++ drop (length p) k
unfolding has_prefix
has_prefix-drop [] k h = refl
has_prefix-drop (x ∷ p) [] h = absurd (ground arith)
has_prefix-drop (x ∷ p) (y ∷ k) h =
    (let one : x ≡ y = ground arith in
      let rest : has_prefix p k ≡ true = ground arith in cc (one, has_prefix-drop p k rest))

AreBytes-append : (xs ys : Bytes) → AreBytes xs → AreBytes ys → AreBytes (xs ++ ys)
AreBytes-append [] ys hx hy = hy
AreBytes-append (x ∷ xs) ys hx hy = (hx.0, AreBytes-append xs ys hx.1 hy)

bytes_eq-append : (p k l : Bytes) → bytes_eq (p ++ k) (p ++ l) ≡ bytes_eq k l
bytes_eq-append [] k l = refl
bytes_eq-append (x ∷ p) k l = ground (arith, bytes_eq-append p k l)

-- The keys are the prefixed ones, so the loop runs to its end.
elem-collect :
    (alias : Bytes) (keys : List Bytes)
    → AllWithin (some envelope_prefix) (prefix_upper_bound envelope_prefix) keys
    → elem alias (collect keys) ≡ elem (envelope_key alias) keys
unfolding collect
elem-collect alias [] h = refl
elem-collect alias (k ∷ keys) (bytes, inside, rest) =
    let prefixed : has_prefix envelope_prefix k ≡ true =
      has_prefix-within envelope_prefix k bytes ∙ inside in
    let whole = has_prefix-drop envelope_prefix k prefixed in
    let same : bytes_eq k (envelope_key alias) ≡ bytes_eq (drop (length envelope_prefix) k) alias =
      ap (λ x. bytes_eq x (envelope_key alias)) whole
      ∙ bytes_eq-append envelope_prefix (drop (length envelope_prefix) k) alias in
    rw (prefixed, same)
      (ap (λ b. bytes_eq (drop (length envelope_prefix) k) alias || b)
        (elem-collect alias keys rest))

module _ {D : Type 0} (db : Db D) (json : Codecs) (law : IsScan db) where
  -- If iterators run over the keys between their bounds: where `list_envelopes` returns aliases and
  -- `has_envelope` answers for an alias of bytes that is trimmed and not blank, on the same store, the
  -- answer says whether the alias is among them.
  pub list_envelopes-has_envelope :
      (ctx ctx' : Context) (alias : Bytes) (aliases : List Bytes) (answer : Bool) (s : Option D)
      → IsAlias alias
      → AreBytes alias
      → list_envelopes db json ctx s ≡ (ok aliases, s)
      → has_envelope db json ctx' alias s ≡ (ok answer, s)
      → elem alias aliases ≡ answer
  unfolding list_envelopes has_envelope validate_alias
  list_envelopes-has_envelope ctx ctx' alias aliases answer none ia bytes listed asked =
      absurd (ground arith)
  list_envelopes-has_envelope ctx ctx' alias aliases answer (some d) ia bytes listed asked =
      elim (Result-cases (db.scan (some envelope_prefix) (prefix_upper_bound envelope_prefix) d)) [
        | inr (x, h) ↦ absurd (ground (arith, ia.trimmed, ia.filled))
        | inl (keys, h) ↦ elim (Result-cases (db.get (envelope_key alias) d)) [
          | inr (x, g) ↦ absurd (ground (arith, ia.trimmed, ia.filled))
          | inl (r, g) ↦
              let listed_all : collect keys ≡ aliases = ground (arith, h) in
              let answered : is_found r ≡ answer = ground (arith, ia.trimmed, ia.filled, g) in
              let inside =
                law.inside (some envelope_prefix) (prefix_upper_bound envelope_prefix) d keys h in
              let key_bytes = AreBytes-append envelope_prefix alias (omega arith) bytes in
              let lies =
                sym (has_prefix-within envelope_prefix (envelope_key alias) key_bytes)
                ∙ has_prefix-append envelope_prefix alias in
              ap (elem alias) (sym listed_all)
              ∙ elem-collect alias keys inside
              ∙ law.complete (some envelope_prefix) (prefix_upper_bound envelope_prefix) d keys
                  (envelope_key alias) r h g key_bytes lies
              ∙ answered
        ]
      ]
