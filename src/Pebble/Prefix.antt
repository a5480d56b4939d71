-- ===== src/Pebble/Prefix.antt =====
-- Theorems on `prefixUpperBound` of pkg/store/pebble/pebble.go: the keys that a scan finds below it.
use hmacsecret.Base.{
  ℕ, zero, suc, ◌+◌, ◌<◌, ◌≡◌, Bool, true, false, not, ◌&&◌, Bytes, [], ◌∷◌, length, AreBytes, ltb,
  ◌==◌, Option, none, some, arith, refl, sym, ap, ◌∙◌, Bool-cases, inl, inr, if◌then◌else◌,
}
use hmacsecret.Pebble.Keys.{has_prefix, byte_at, upper_bound_loop, prefix_upper_bound}

-- `bytes.Compare(k, l) < 0`, the order of keys in a Pebble database.
unfoldable pub bytes_lt : Bytes → Bytes → Bool
bytes_lt k [] = false
bytes_lt [] (y ∷ l) = true
bytes_lt (x ∷ k) (y ∷ l) = if x == y then bytes_lt k l else ltb x y

-- Whether a key lies between an iterator's bounds: the lower one is its first key, and the upper one
-- follows its last.
abbrev pub below : Option Bytes → Bytes → Bool
below none k = true
below (some upper) k = bytes_lt k upper

abbrev pub within : Option Bytes → Option Bytes → Bytes → Bool
within none upper k = below upper k
within (some lower) upper k = not (bytes_lt k lower) && below upper k

-- The bound by recursion on the prefix.
abbrev raise : ℕ → Option Bytes → Option Bytes
raise x (some upper) = some (x ∷ upper)
raise x none = if not (x == 0xff) then some ((x + 1) ∷ []) else none

upper_bound_loop-cons :
    (i x : ℕ) (xs : Bytes) → upper_bound_loop (suc i) (x ∷ xs) ≡ raise x (upper_bound_loop i xs)
unfolding upper_bound_loop
upper_bound_loop-cons zero x xs = refl
upper_bound_loop-cons (suc i) x xs = elim (Bool-cases (byte_at i xs == 0xff)) [
  | inl top ↦ ground (arith, upper_bound_loop-cons i x xs)
  | inr free ↦ ground arith
]

within-cons :
    (x y : ℕ) (xs k : Bytes) (upper : Option Bytes)
    → y < 256
    → has_prefix xs k ≡ within (some xs) upper k
    → has_prefix (x ∷ xs) (y ∷ k) ≡ within (some (x ∷ xs)) (raise x upper) (y ∷ k)
unfolding has_prefix bytes_lt
within-cons x y xs k none hy ih = ground arith
within-cons x y xs k (some upper) hy ih = ground arith

loop_within :
    (p k : Bytes) → AreBytes k → has_prefix p k ≡ within (some p) (upper_bound_loop (length p) p) k
unfolding has_prefix bytes_lt upper_bound_loop
loop_within [] k h = refl
loop_within (x ∷ p) [] h = refl
loop_within (x ∷ p) (y ∷ k) h =
    within-cons x y p k (upper_bound_loop (length p) p) h.0 (loop_within p k h.1)
    ∙ ap (λ u. within (some (x ∷ p)) u (y ∷ k)) (sym (upper_bound_loop-cons (length p) x p))

-- The keys from a prefix up to `prefixUpperBound` of it are the keys with that prefix, for any prefix
-- and every key that is a list of bytes.
pub has_prefix-within :
    (p k : Bytes) → AreBytes k → has_prefix p k ≡ within (some p) (prefix_upper_bound p) k
unfolding prefix_upper_bound
has_prefix-within p k h = loop_within p k h
