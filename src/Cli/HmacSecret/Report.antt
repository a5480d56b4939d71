-- ===== src/Cli/HmacSecret/Report.antt =====
-- The three lines that cmd/hmac-secret prints, and what they tell.
use hmacsecret.Base.{ℕ, ◌≡◌, false, Bytes, [], ◌∷◌, ◌++◌, codes, ◌==◌, ◌/◌, ◌%◌, arith, sym, ◌∙◌}
use mathlib.Core.List.{append_assoc}
use hmacsecret.Authenticator.Inputs.{digit, encode_hex}
use hmacsecret.Cli.Machine.{newline}

-- The three lines of standard output.
abbrev pub report : Bytes → Bytes → Bytes → Bytes
report id salt secret =
    ((((codes "credential_id=" ++ (id ++ newline)) ++ (codes "salt=" ++ (salt ++ newline)))
        ++ codes "hmac_secret=")
      ++ secret)
    ++ newline

-- A text of one line.
abbrev pub OneLine : Bytes → Type 0
OneLine [] = Unit
OneLine (c ∷ s) = ((c == 10) ≡ false) × OneLine s

-- Two texts whose first lines end alike have the same first line.
pub first_line :
    (a b r s : Bytes) → OneLine a → OneLine b → a ++ (10 ∷ r) ≡ b ++ (10 ∷ s) → (a ≡ b) × (r ≡ s)
first_line [] [] r s ha hb h = ground arith
first_line [] (d ∷ b) r s ha hb h = absurd (ground arith)
first_line (c ∷ a) [] r s ha hb h = absurd (ground arith)
first_line (c ∷ a) (d ∷ b) r s ha hb h = ground (arith, first_line a b r s ha.1 hb.1)

digit-ne-newline : (n : ℕ) → (digit n == 10) ≡ false
digit-ne-newline n = ground arith

pub encode_hex-OneLine : (s : Bytes) → OneLine (encode_hex s)
encode_hex-OneLine [] = tt
encode_hex-OneLine (b ∷ s) =
    (digit-ne-newline (b / 16), (digit-ne-newline (b % 16), encode_hex-OneLine s))

append_cancel_left : (p a b : Bytes) → p ++ a ≡ p ++ b → a ≡ b
append_cancel_left [] a b h = h
append_cancel_left (c ∷ p) a b h = append_cancel_left p a b (ground arith)

report_lines :
    (id salt secret : Bytes)
    → report id salt secret
      ≡ codes "credential_id="
        ++ (id
            ++ (10
                ∷ (codes "salt="
                    ++ (salt ++ (10 ∷ (codes "hmac_secret=" ++ (secret ++ newline)))))))
report_lines id salt secret = simp append_assoc

pub report_injective :
    (id id' salt salt' secret secret' : Bytes)
    → OneLine id
    → OneLine id'
    → OneLine salt
    → OneLine salt'
    → OneLine secret
    → OneLine secret'
    → report id salt secret ≡ report id' salt' secret'
    → (id ≡ id') × (salt ≡ salt') × (secret ≡ secret')
report_injective id id' salt salt' secret secret' hi hi' hs hs' hx hx' h =
    let tail : Bytes → Bytes = λ x. codes "hmac_secret=" ++ (x ++ newline) in
    let rest : Bytes → Bytes → Bytes = λ s x. codes "salt=" ++ (s ++ (10 ∷ tail x)) in
    let whole = sym (report_lines id salt secret) ∙ (h ∙ report_lines id' salt' secret') in
    let (same_id, h1) = first_line id id' (rest salt secret) (rest salt' secret') hi hi' (
      append_cancel_left (codes "credential_id=") (id ++ (10 ∷ rest salt secret))
        (id' ++ (10 ∷ rest salt' secret')) whole) in
    let (same_salt, h2) = first_line salt salt' (tail secret) (tail secret') hs hs' (
      append_cancel_left (codes "salt=") (salt ++ (10 ∷ tail secret)) (salt' ++ (10 ∷ tail secret'))
        h1) in
    let (same_secret, h3) =
      first_line secret secret' [] [] hx hx'
        (append_cancel_left (codes "hmac_secret=") (secret ++ newline) (secret' ++ newline) h2) in
    (same_id, same_salt, same_secret)
