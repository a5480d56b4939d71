-- ===== src/Base/Text.antt =====
-- `strings.TrimSpace` over the bytes of a UTF-8 string: white runes are cut at both ends. A white
-- rune has one byte (tab to carriage return, space), two (U+0085, U+00A0) or three (U+1680, U+2000 to
-- U+200A, U+2028, U+2029, U+202F, U+205F, U+3000). A byte that starts no rune is not white.
use Prim.Native.Nat.{ℕ, zero, suc, ◌≤◌, ◌<◌}
use mathlib.Core.Path.{◌≡◌, refl, sym, ap, subst, ◌∙◌}
use mathlib.Core.Bool.{Bool, ◌&&◌, ◌||◌}
use mathlib.Core.Logic.{inl, inr}
use mathlib.Core.Option.{Option, none, some}
use mathlib.Core.List.{[], ◌∷◌, ◌++◌, reverse, reverse-append, reverse-reverse, append_assoc}
use native.Mathlib.Omega.{arith}
use hmacsecret.Base.Tests.{leb, ◌==◌, if◌then◌else◌, Bool-cases, Option-cases}
use hmacsecret.Base.Lists.{length, length-reverse}
use hmacsecret.Base.Binary.{Bytes, codes}

white1 : ℕ → Bool
white1 a = leb 9 a && leb a 13 || a == 32

white2 : ℕ → ℕ → Bool
white2 a b = a == 0xc2 && (b == 0x85 || b == 0xa0)

white3 : ℕ → ℕ → ℕ → Bool
white3 a b c =
    a == 0xe1 && b == 0x9a && c == 0x80
    || a == 0xe2 && b == 0x80 && (leb 0x80 c && leb c 0x8a || c == 0xa8 || c == 0xa9 || c == 0xaf)
    || a == 0xe2 && b == 0x81 && c == 0x9f
    || a == 0xe3 && b == 0x80 && c == 0x80

-- What follows one white rune at the front, for a reading of two and of three bytes.
module _ (two : ℕ → ℕ → Bool) (three : ℕ → ℕ → ℕ → Bool) where
  cut3 : ℕ → ℕ → Bytes → Option Bytes
  cut3 a b [] = none
  cut3 a b (c ∷ r) = if three a b c then some r else none

  cut2 : ℕ → Bytes → Option Bytes
  cut2 a [] = none
  cut2 a (b ∷ r) = if two a b then some r else cut3 a b r

  cut : Bytes → Option Bytes
  unfolding cut2 cut3
  cut [] = none
  cut (a ∷ r) = if white1 a then some r else cut2 a r

  -- Cuts white runes until there is none; as many rounds as there are bytes are enough.
  strip : ℕ → Bytes → Bytes
  strip zero s = s
  strip (suc n) s = elim (cut s) [ none ↦ s | some r ↦ strip n r ]

  cut-append : (s r q : Bytes) → cut s ≡ some r → cut (s ++ q) ≡ some (r ++ q)
  unfolding cut
  cut-append [] r q h = cc
  cut-append (a ∷ []) r q h = ground arith
  cut-append (a ∷ b ∷ []) r q h = ground arith
  cut-append (a ∷ b ∷ c ∷ s) r q h = ground arith

  cut_shorter : (s r : Bytes) → cut s ≡ some r → length r < length s
  unfolding cut
  cut_shorter [] r h = cc
  cut_shorter (a ∷ []) r h = ground arith
  cut_shorter (a ∷ b ∷ []) r h = ground arith
  cut_shorter (a ∷ b ∷ c ∷ s) r h = ground arith

  cut_suffix : (s r : Bytes) → cut s ≡ some r → (p : Bytes) × (s ≡ p ++ r)
  unfolding cut
  cut_suffix [] r h = cc
  cut_suffix (a ∷ []) r h = (a ∷ [], ground arith)
  cut_suffix (a ∷ b ∷ []) r h = elim (Bool-cases (white1 a)) [
    | inl one ↦ (a ∷ [], ground arith)
    | inr one ↦ (a ∷ b ∷ [], ground arith)
  ]
  cut_suffix (a ∷ b ∷ c ∷ s) r h = elim (Bool-cases (white1 a)) [
    | inl one ↦ (a ∷ [], ground arith)
    | inr one ↦ elim (Bool-cases (two a b)) [
      | inl both ↦ (a ∷ b ∷ [], ground arith)
      | inr both ↦ (a ∷ b ∷ c ∷ [], ground arith)
    ]
  ]

  -- Nothing white is left at the front of a stripped text.
  cut-strip : (n : ℕ) (s : Bytes) → length s ≤ n → cut (strip n s) ≡ none
  unfolding strip
  cut-strip zero [] h = unfold cut in refl
  cut-strip zero (a ∷ s) h = absurd (omega arith)
  cut-strip (suc n) s h = elim (Option-cases (cut s)) [
    | inl e ↦ rw (e, strip) e
    | inr (r, e) ↦ rw (e, strip) (cut-strip n r (omega (arith, cut_shorter s r e)))
  ]

  strip_id : (n : ℕ) (s : Bytes) → cut s ≡ none → strip n s ≡ s
  unfolding strip
  strip_id zero s h = refl
  strip_id (suc n) s h = rw (h, strip)

  strip_suffix : (n : ℕ) (s : Bytes) → (p : Bytes) × (s ≡ p ++ strip n s)
  unfolding strip
  strip_suffix zero s = ([], refl)
  strip_suffix (suc n) s = elim (Option-cases (cut s)) [
    | inl e ↦ ([], rw (e, strip))
    | inr (r, e) ↦
        let (p, ep) = cut_suffix s r e in
        let (q, eq) = strip_suffix n r in
        (p ++ q, rw (e, strip) (ep ∙ ap (λ t. p ++ t) eq ∙ sym (append_assoc p q (strip n r))))
  ]

  cut_prefix : (s q : Bytes) → cut (s ++ q) ≡ none → cut s ≡ none
  cut_prefix s q h = elim (Option-cases (cut s)) [
    | inl e ↦ e
    | inr (r, e) ↦ cc (cut-append s r q e)
  ]

abbrev front_strip : ℕ → Bytes → Bytes
front_strip = strip white2 white3

abbrev back_strip : ℕ → Bytes → Bytes
back_strip = strip (λ b a. white2 a b) (λ c b a. white3 a b c)

-- `TrimFunc` cuts the front first.
trim_left : Bytes → Bytes
unfolding strip cut white1 white2 white3
trim_left s = front_strip (length s) s

trim_right : Bytes → Bytes
unfolding strip cut white1 white2 white3
trim_right s = reverse (back_strip (length s) (reverse s))

unfoldable pub trim : Bytes → Bytes
unfolding trim_left trim_right
trim s = trim_right (trim_left s)

trim_right-prefix : (s : Bytes) → (q : Bytes) × (s ≡ trim_right s ++ q)
unfolding trim_right
trim_right-prefix s =
    let (p, e) = strip_suffix (λ b a. white2 a b) (λ c b a. white3 a b c) (length s) (reverse s) in
    (
      reverse p,
      sym (reverse-reverse s) ∙ ap reverse e ∙ reverse-append p (back_strip (length s) (reverse s)),
    )

trim_right_idem : (s : Bytes) → trim_right (trim_right s) ≡ trim_right s
unfolding trim_right
trim_right_idem s =
    let w : Bytes = back_strip (length s) (reverse s) in
    ap reverse {x = back_strip (length (reverse w)) (reverse (reverse w))} {y = w} (
      rw (reverse-reverse w) (
        strip_id (λ b a. white2 a b) (λ c b a. white3 a b c) (length (reverse w)) w
          (cut-strip (λ b a. white2 a b) (λ c b a. white3 a b c) (length s) (reverse s)
            (omega (arith, length-reverse s)))))

trim_left-trim : (s : Bytes) → trim_left (trim s) ≡ trim s
trim_left-trim s =
    let (q, e) = trim_right-prefix (trim_left s) in
    unfold trim trim_left in
    strip_id white2 white3 (length (trim s)) (trim s) (
      cut_prefix white2 white3 (trim s) q (
        unfold trim in
        subst (λ t. cut white2 white3 t ≡ none) e
          (cut-strip white2 white3 (length s) s (omega arith))))

trim_lem : (s : Bytes) → trim s ≡ trim_right (trim_left s)
unfolding trim
trim_lem s = refl

-- A trimmed text is left as it is.
pub trim_idem : (s : Bytes) → trim (trim s) ≡ trim s
trim_idem s =
    trim_lem (trim s)
    ∙ ap trim_right (trim_left-trim s ∙ trim_lem s)
    ∙ trim_right_idem (trim_left s)
    ∙ sym (trim_lem s)

-- A text of ASCII characters that are neither white nor control codes.
abbrev pub AreGraphic : Bytes → Type 0
AreGraphic [] = Unit
AreGraphic (c ∷ s) = ((0x20 < c) × (c < 0x80)) × AreGraphic s

AreGraphic-append : (s t : Bytes) → AreGraphic s → AreGraphic t → AreGraphic (s ++ t)
AreGraphic-append [] t hs ht = ht
AreGraphic-append (c ∷ s) t (hc, hs) ht = (hc, AreGraphic-append s t hs ht)

AreGraphic-reverse : (s : Bytes) → AreGraphic s → AreGraphic (reverse s)
AreGraphic-reverse [] h = h
AreGraphic-reverse (c ∷ s) (hc, hs) =
    subst AreGraphic (sym (reverse-append (c ∷ []) s))
      (AreGraphic-append (reverse s) (c ∷ []) (AreGraphic-reverse s hs) (hc, tt))

cut_front_graphic : (a : ℕ) (s : Bytes) → a < 0x80 → 0x20 < a → cut white2 white3 (a ∷ s) ≡ none
unfolding cut cut2 cut3 white1 white2 white3
cut_front_graphic a [] h k = ground arith
cut_front_graphic a (b ∷ []) h k = ground arith
cut_front_graphic a (b ∷ c ∷ s) h k = ground arith

cut_back-AreGraphic :
    (s : Bytes) → AreGraphic s → cut (λ b a. white2 a b) (λ c b a. white3 a b c) s ≡ none
unfolding cut cut2 cut3 white1 white2 white3
cut_back-AreGraphic [] h = refl
cut_back-AreGraphic (a ∷ []) h = ground arith
cut_back-AreGraphic (a ∷ b ∷ []) h = ground arith
cut_back-AreGraphic (a ∷ b ∷ c ∷ s) h = ground arith

trim_right_line :
    (c : ℕ) (s : Bytes) → AreGraphic (c ∷ s) → trim_right (c ∷ (s ++ (10 ∷ []))) ≡ c ∷ s
unfolding trim_right
trim_right_line c s h =
    let cut_newline : back_strip (length (c ∷ (s ++ (10 ∷ [])))) (10 ∷ reverse (c ∷ s))
        ≡ reverse (c ∷ s) =
      unfold strip in
      unfold cut in
      unfold white1 in
      strip_id (λ b a. white2 a b) (λ c b a. white3 a b c) (length (s ++ (10 ∷ [])))
        (reverse (c ∷ s)) (cut_back-AreGraphic (reverse (c ∷ s)) (AreGraphic-reverse (c ∷ s) h)) in
    ap (λ t. reverse (back_strip (length (c ∷ (s ++ (10 ∷ [])))) t))
      (reverse-append (c ∷ s) (10 ∷ []))
    ∙ (ap reverse cut_newline ∙ reverse-reverse (c ∷ s))

-- `trim` cuts the end of a line and no more.
pub trim_line : (c : ℕ) (s : Bytes) → AreGraphic (c ∷ s) → trim ((c ∷ s) ++ (10 ∷ [])) ≡ c ∷ s
trim_line c s h =
    let line : Bytes = c ∷ (s ++ (10 ∷ [])) in
    let front : trim_left line ≡ line =
      unfold trim_left in
      strip_id white2 white3 (length line) line
        (cut_front_graphic c (s ++ (10 ∷ [])) h.0.1 h.0.0) in
    trim_lem line ∙ ap trim_right front ∙ trim_right_line c s h

trim_both_ends : trim (codes " \t key 1\n") ≡ codes "key 1"
unfolding trim
trim_both_ends = refl

-- U+00A0 and U+2003 are cut; a lone 0xA0 is not.
trim_wide : trim (0xc2 ∷ 0xa0 ∷ 0x61 ∷ 0xa0 ∷ 0xe2 ∷ 0x80 ∷ 0x83 ∷ []) ≡ 0x61 ∷ 0xa0 ∷ []
unfolding trim
trim_wide = refl
