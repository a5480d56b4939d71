-- ===== src/Authenticator/Salts.antt =====
-- Theorems on `ParseSalt` and `validateSalt` of lib/hmacsecret/salt.go.
use hmacsecret.Base.{
  ℕ, ◌+◌, ◌*◌, ◌/◌, ◌%◌, ◌<◌, ◌≡◌, Bool, false, Bytes, [], ◌∷◌, length, AreBytes, Option, some, ok,
  arith, refl, ap, subst, Option-cases, Bool-cases, inl, inr,
}
use hmacsecret.Store.{empty}
use hmacsecret.Authenticator.Inputs.{
  digit, encode_hex, from_hex, decode_hex, parse_salt, validate_salt,
}

from_hex-digit : (n : ℕ) → n < 16 → from_hex (digit n) ≡ some n
from_hex-digit n h = ground arith

pub decode_hex-encode_hex : (s : Bytes) → AreBytes s → decode_hex (encode_hex s) ≡ some s
unfolding decode_hex
decode_hex-encode_hex [] h = refl
decode_hex-encode_hex (b ∷ s) (hb, hs) =
    rw
      (
        from_hex-digit (b / 16) (omega arith),
        from_hex-digit (b % 16) (omega arith),
        decode_hex-encode_hex s hs,
      )
      (ap (λ x. some (x ∷ s)) (omega arith))

pub encode_hex_nonempty : (s : Bytes) → length s ≡ 32 → empty (encode_hex s) ≡ false
encode_hex_nonempty [] h = absurd (omega arith)
encode_hex_nonempty (b ∷ s) h = refl

from_hex-lt : (c n : ℕ) → from_hex c ≡ some n → n < 16
from_hex-lt c n h = ground arith

pub decode_hex-AreBytes : (v s : Bytes) → decode_hex v ≡ some s → AreBytes s
unfolding decode_hex
decode_hex-AreBytes [] s h = subst AreBytes {x = []} {y = s} (ground arith) tt
decode_hex-AreBytes (c ∷ []) s h = absurd (ground arith)
decode_hex-AreBytes (c ∷ d ∷ v) s h = elim (Option-cases (from_hex c)) [
  | inl no_digit ↦ absurd (ground arith)
  | inr (high, eh) ↦ elim (Option-cases (from_hex d)) [
    | inl no_digit ↦ absurd (ground arith)
    | inr (low, el) ↦ elim (Option-cases (decode_hex v)) [
      | inl bad ↦ absurd (ground arith)
      | inr (rest, er) ↦ subst AreBytes {x = (high * 16 + low) ∷ rest} {y = s} (ground arith) (
        omega (arith, from_hex-lt c high eh, from_hex-lt d low el),
        decode_hex-AreBytes v rest er,
      )
    ]
  ]
]

-- The hexadecimal text of 32 bytes is read back as these bytes, and as a salt that was not generated.
pub parse_salt-encode_hex :
    (salt : Bytes) (random : Option Bytes)
    → AreBytes salt
    → length salt ≡ 32
    → parse_salt (encode_hex salt) random ≡ ok (salt, false)
unfolding parse_salt
parse_salt-encode_hex salt random bytes sized =
    rw (encode_hex_nonempty salt sized, decode_hex-encode_hex salt bytes, sized) refl

-- Where the source of randomness gives 32 bytes or fails: a salt that `parse_salt` returned passes
-- `validate_salt`, and it is generated exactly where no text was given.
pub validate_salt-parse_salt :
    (value salt : Bytes) (generated : Bool) (random : Option Bytes)
    → ((b : Bytes) → random ≡ some b → length b ≡ 32)
    → parse_salt value random ≡ ok (salt, generated)
    → (validate_salt salt ≡ ok tt) × (generated ≡ empty value)
unfolding parse_salt validate_salt
validate_salt-parse_salt value salt generated random drawn h = elim (Bool-cases (empty value)) [
  | inl none_given ↦ elim (Option-cases random) [
    | inl failed ↦ absurd (ground arith)
    | inr (b, e) ↦ ground (arith, drawn b e)
  ]
  | inr given ↦ elim (Option-cases (decode_hex value)) [
    | inl failed ↦ absurd (ground arith)
    | inr (b, e) ↦ ground arith
  ]
]

-- A salt that was drawn or read is a list of bytes.
pub parse_salt-AreBytes :
    (value salt : Bytes) (generated : Bool) (random : Option Bytes)
    → ((b : Bytes) → random ≡ some b → AreBytes b)
    → parse_salt value random ≡ ok (salt, generated)
    → AreBytes salt
unfolding parse_salt
parse_salt-AreBytes value salt generated random drawn h = elim (Bool-cases (empty value)) [
  | inl none_given ↦ elim (Option-cases random) [
    | inl failed ↦ absurd (ground arith)
    | inr (b, e) ↦ subst AreBytes {x = b} {y = salt} (ground arith) (drawn b e)
  ]
  | inr given ↦ elim (Option-cases (decode_hex value)) [
    | inl failed ↦ absurd (ground arith)
    | inr (b, e) ↦ subst AreBytes {x = b} {y = salt} (ground arith) (decode_hex-AreBytes value b e)
  ]
]
