-- ===== src/Authenticator/ClientJson.antt =====
-- Theorems on `MakeClientDataJSON` of lib/hmacsecret/clientdata.go.
use hmacsecret.Base.{
  ℕ, ◌+◌, ◌-◌, ◌*◌, ◌/◌, ◌%◌, ◌<◌, ◌≡◌, false, ◌||◌, Bytes, [], ◌∷◌, ◌++◌, ltb, ◌==◌, AreBytes,
  codes, Option, some, ok, if◌then◌else◌, arith, refl, ap, Option-cases, Bool-cases, inl, inr,
}
use hmacsecret.Store.{empty}
use hmacsecret.Authenticator.Inputs.{ClientData, letter, encode_base64, make_client_data_json}

-- The value of a letter, and what four letters stand for.
abbrev letter_value : ℕ → ℕ
letter_value c =
    if c == 45
    then 62
    else if c == 95
    then 63
    else if ltb c 58
    then c + 4
    else if ltb c 91
    then c - 65
    else c - 71

abbrev first : ℕ → ℕ → ℕ
first p q = letter_value p * 4 + letter_value q / 16

abbrev second : ℕ → ℕ → ℕ
second q r = letter_value q % 16 * 16 + letter_value r / 4

abbrev third : ℕ → ℕ → ℕ
third r t = letter_value r % 4 * 64 + letter_value t

-- The text that base64 letters stand for.
abbrev pub decode_base64 : Bytes → Bytes
decode_base64 [] = []
decode_base64 (p ∷ []) = []
decode_base64 (p ∷ q ∷ []) = first p q ∷ []
decode_base64 (p ∷ q ∷ r ∷ []) = first p q ∷ second q r ∷ []
decode_base64 (p ∷ q ∷ r ∷ t ∷ s) = first p q ∷ second q r ∷ third r t ∷ decode_base64 s

abbrev pub AreAscii : Bytes → Type 0
AreAscii [] = Unit
AreAscii (c ∷ s) = (c < 128) × AreAscii s

letter_value-letter : (i : ℕ) → i < 64 → letter_value (letter i) ≡ i
unfolding letter
letter_value-letter i h = ground arith

letter_ascii : (i : ℕ) → letter i < 128
unfolding letter
letter_ascii i = ground arith

first-letter : (a i : ℕ) → a < 256 → i < 16 → first (letter (a / 4)) (letter (a % 4 * 16 + i)) ≡ a
first-letter a i ha hi =
    rw
      (
        letter_value-letter (a / 4) (omega arith),
        letter_value-letter (a % 4 * 16 + i) (omega arith),
      )
      (omega arith)

second-letter :
    (j b i : ℕ)
    → j < 4
    → b < 256
    → i < 4
    → second (letter (j * 16 + b / 16)) (letter (b % 16 * 4 + i)) ≡ b
second-letter j b i hj hb hi =
    rw
      (
        letter_value-letter (j * 16 + b / 16) (omega arith),
        letter_value-letter (b % 16 * 4 + i) (omega arith),
      )
      (omega arith)

third-letter : (j c : ℕ) → j < 16 → c < 256 → third (letter (j * 4 + c / 64)) (letter (c % 64)) ≡ c
third-letter j c hj hc =
    rw
      (
        letter_value-letter (j * 4 + c / 64) (omega arith),
        letter_value-letter (c % 64) (omega arith),
      )
      (omega arith)

decode_base64-encode_base64 : (s : Bytes) → AreBytes s → decode_base64 (encode_base64 s) ≡ s
unfolding encode_base64
decode_base64-encode_base64 [] h = refl
decode_base64-encode_base64 (a ∷ []) (ha, h) =
    rw (letter_value-letter (a / 4) (omega arith), letter_value-letter (a % 4 * 16) (omega arith))
      (ap (λ x. x ∷ []) (omega arith))
decode_base64-encode_base64 (a ∷ b ∷ []) (ha, (hb, h)) =
    rw (first-letter a (b / 16) ha (omega arith)) (
      rw
        (
          letter_value-letter (a % 4 * 16 + b / 16) (omega arith),
          letter_value-letter (b % 16 * 4) (omega arith),
        )
        (ap (λ x. a ∷ x ∷ []) (omega arith)))
decode_base64-encode_base64 (a ∷ b ∷ c ∷ s) (ha, (hb, (hc, h))) =
    rw
      (
        first-letter a (b / 16) ha (omega arith),
        second-letter (a % 4) b (c / 64) (omega arith) hb (omega arith),
        third-letter (b % 16) c (omega arith) hc,
        decode_base64-encode_base64 s h,
      )
      refl

encode_base64-AreAscii : (s : Bytes) → AreAscii (encode_base64 s)
unfolding encode_base64
encode_base64-AreAscii [] = tt
encode_base64-AreAscii (a ∷ []) = (letter_ascii (a / 4), (letter_ascii (a % 4 * 16), tt))
encode_base64-AreAscii (a ∷ b ∷ []) =
    (letter_ascii (a / 4), (letter_ascii (a % 4 * 16 + b / 16), (letter_ascii (b % 16 * 4), tt)))
encode_base64-AreAscii (a ∷ b ∷ c ∷ s) = (
  letter_ascii (a / 4),
  (
    letter_ascii (a % 4 * 16 + b / 16),
    (letter_ascii (b % 16 * 4 + c / 64), (letter_ascii (c % 64), encode_base64-AreAscii s)),
  ),
)

AreAscii-append : (s t : Bytes) → AreAscii s → AreAscii t → AreAscii (s ++ t)
AreAscii-append [] t hs ht = ht
AreAscii-append (c ∷ s) t (hc, hs) ht = (hc, AreAscii-append s t hs ht)

scheme-AreAscii : AreAscii (codes "https://")
scheme-AreAscii = ground arith

-- What the made client data is read back as.
pub record IsRead (unmarshal : Bytes → Option ClientData) (operation challenge rp_id json : Bytes)
    : Type 0 where
  pub data_read : ClientData
  pub read : unmarshal json ≡ some data_read
  pub named : data_read.operation ≡ operation
  pub challenged : decode_base64 data_read.challenge ≡ challenge
  pub from : data_read.origin ≡ codes "https://" ++ rp_id
  pub same_origin : data_read.cross_origin ≡ false

-- Where a JSON decoder reads back each struct that was encoded and has ASCII strings: client data that was
-- made is read back with the operation and the origin of the relying party, which are ASCII, and with
-- the challenge, which is a list of bytes. None of the three is empty.
pub make_client_data_json_lem :
    (marshal : ClientData → Option Bytes) (unmarshal : Bytes → Option ClientData)
    (operation challenge rp_id json : Bytes)
    → ((x : ClientData) (b : Bytes)
        → AreAscii x.operation
        → AreAscii x.challenge
        → AreAscii x.origin
        → marshal x ≡ some b
        → unmarshal b ≡ some x)
    → AreAscii operation
    → AreBytes challenge
    → AreAscii rp_id
    → make_client_data_json marshal operation challenge rp_id ≡ ok json
    → IsRead unmarshal operation challenge rp_id json
      × (empty operation ≡ false)
      × (empty challenge ≡ false)
      × (empty rp_id ≡ false)
unfolding make_client_data_json
make_client_data_json_lem marshal unmarshal operation challenge rp_id json law ho hc hr made =
    let x : ClientData = record {
      operation = operation;
      challenge = encode_base64 challenge;
      origin = codes "https://" ++ rp_id;
      cross_origin = false;
    } in
    elim (Bool-cases (empty operation || empty challenge || empty rp_id)) [
      | inl missing ↦ absurd (ground arith)
      | inr given ↦ elim (Option-cases (marshal x)) [
        | inl failed ↦ absurd (ground arith)
        | inr (b, e) ↦ (
          record {
            data_read = x;
            read = ground (
              arith,
              e,
              law x b ho (encode_base64-AreAscii challenge)
                  (AreAscii-append (codes "https://") rp_id scheme-AreAscii hr) e,
            );
            named = refl;
            challenged = decode_base64-encode_base64 challenge hc;
            from = refl;
            same_origin = refl;
          },
          ground arith,
          ground arith,
          ground arith,
        )
      ]
    ]
