-- ===== src/Sqlite/Unique.antt =====
-- `strings.Contains(strings.ToLower(message), "unique")` in `Put` of pkg/store/sqlite/sqlite.go: which
-- messages of the driver it takes for a violated constraint.
use hmacsecret.Base.{
  ◌+◌, ◌≡◌, true, ◌&&◌, Bytes, [], ◌∷◌, ◌++◌, leb, codes, arith, refl, sym, ap, subst,
  if◌then◌else◌, inl, inr, Bool-cases,
}
use hmacsecret.Authenticator.ClientJson.{AreAscii}
use hmacsecret.Pebble.Keys.{has_prefix}
use hmacsecret.Sqlite.{to_lower, contains, says_unique}

-- ASCII text in lower case.
abbrev pub lowered : Bytes → Bytes
lowered [] = []
lowered (c ∷ s) = (if leb 0x41 c && leb c 0x5a then c + 32 else c) ∷ lowered s

-- `part` occurs in the text, whatever the case of its letters.
pub record Mentions (part s : Bytes) : Type 0 where
  pub before : Bytes
  pub word : Bytes
  pub after : Bytes
  pub split : s ≡ before ++ (word ++ after)
  pub spelled : lowered word ≡ part

to_lower-AreAscii : (s : Bytes) → AreAscii s → to_lower s ≡ lowered s
unfolding to_lower
to_lower-AreAscii [] h = refl
to_lower-AreAscii (c ∷ s) (hc, hs) = ground (arith, to_lower-AreAscii s hs)

-- A text that begins with `part` in lower case.
begins :
    (part s : Bytes)
    → has_prefix part (lowered s) ≡ true
    → (word : Bytes) × (after : Bytes) × (s ≡ word ++ after) × (lowered word ≡ part)
unfolding has_prefix
begins [] s h = ([], s, refl, refl)
begins (l ∷ part) [] h = absurd (ground arith)
begins (l ∷ part) (c ∷ s) h =
    let (word, after, split, spelled) = begins part s (ground arith) in
    (c ∷ word, after, ap (λ t. c ∷ t) split, ground (arith, spelled))

contains-Mentions : (part s : Bytes) → contains (lowered s) part ≡ true → Mentions part s
unfolding contains
contains-Mentions part [] h =
    let (word, after, split, spelled) = begins part [] h in
    record { before = []; word = word; after = after; split = split; spelled = spelled }
contains-Mentions part (c ∷ s) h = elim (Bool-cases (has_prefix part (lowered (c ∷ s)))) [
  | inl here ↦
      let (word, after, split, spelled) = begins part (c ∷ s) here in
      record { before = []; word = word; after = after; split = split; spelled = spelled }
  | inr later ↦
      let m = contains-Mentions part s (ground arith) in
      record {
        before = c ∷ m.before;
        word = m.word;
        after = m.after;
        split = ap (λ t. c ∷ t) m.split;
        spelled = m.spelled;
      }
]

has_prefix-lowered :
    (word after : Bytes) → has_prefix (lowered word) (lowered (word ++ after)) ≡ true
unfolding has_prefix
has_prefix-lowered [] after = refl
has_prefix-lowered (c ∷ word) after = ground (arith, has_prefix-lowered word after)

contains-has_prefix : (part s : Bytes) → has_prefix part s ≡ true → contains s part ≡ true
unfolding contains
contains-has_prefix part [] h = h
contains-has_prefix part (c ∷ s) h = ground arith

contains-lowered :
    (before word after : Bytes)
    → contains (lowered (before ++ (word ++ after))) (lowered word) ≡ true
unfolding contains
contains-lowered [] word after =
    contains-has_prefix (lowered word) (lowered (word ++ after)) (has_prefix-lowered word after)
contains-lowered (c ∷ before) word after = ground (arith, contains-lowered before word after)

-- `Put` takes an ASCII message for a violated constraint where it mentions "unique" in any case, and no other.
pub says_unique-Mentions :
    (s : Bytes) → AreAscii s → says_unique s ≡ true → Mentions (codes "unique") s
unfolding says_unique
says_unique-Mentions s ascii h =
    contains-Mentions (codes "unique") s (rw (sym (to_lower-AreAscii s ascii)) h)

pub Mentions-says_unique :
    (s : Bytes) → AreAscii s → Mentions (codes "unique") s → says_unique s ≡ true
unfolding says_unique
Mentions-says_unique s ascii m = rw (to_lower-AreAscii s ascii) (
    subst (λ t. contains (lowered t) (codes "unique") ≡ true) (sym m.split)
      (subst (λ part. contains (lowered (m.before ++ (m.word ++ m.after))) part ≡ true) m.spelled
        (contains-lowered m.before m.word m.after)))
