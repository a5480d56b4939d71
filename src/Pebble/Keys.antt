-- ===== src/Pebble/Keys.antt =====
-- The keys of pkg/store/pebble/pebble.go: what names the header and the envelopes in the database, and
-- how a scan finds the envelopes.
use hmacsecret.Base.{
  ℕ, zero, suc, ◌+◌, Bool, true, false, not, Bytes, List, [], ◌∷◌, ◌++◌, length, drop, ◌==◌, codes,
  Option, none, some, if◌then◌else◌,
}

-- The byte 0 keeps both names out of the aliases that a terminal can name.
abbrev pub encryption_header_key : Bytes
encryption_header_key = 0 ∷ codes "hmacsecret/header"

abbrev pub envelope_prefix : Bytes
envelope_prefix = 0 ∷ codes "hmacsecret/record/"

-- `append(key, alias...)` on the prefix
abbrev pub envelope_key : Bytes → Bytes
envelope_key alias = ([] ++ envelope_prefix) ++ alias

-- `bytes.HasPrefix(key, prefix)`
unfoldable pub has_prefix : Bytes → Bytes → Bool
has_prefix [] key = true
has_prefix (p ∷ prefix) [] = false
has_prefix (p ∷ prefix) (k ∷ key) = if p == k then has_prefix prefix key else false

-- One byte counted up and what follows it dropped: `upper[i]++; return upper[:i+1]`
unfoldable pub cut_up : ℕ → Bytes → Bytes
cut_up i [] = []
cut_up zero (x ∷ upper) = ((x + 1) ∷ [])
cut_up (suc i) (x ∷ upper) = x ∷ cut_up i upper

unfoldable pub byte_at : ℕ → Bytes → ℕ
byte_at i [] = 0
byte_at zero (x ∷ upper) = x
byte_at (suc i) (x ∷ upper) = byte_at i upper

-- The loop from the last byte down, over the count of bytes left.
unfoldable pub upper_bound_loop : ℕ → Bytes → Option Bytes
unfolding byte_at cut_up
upper_bound_loop zero upper = none
upper_bound_loop (suc i) upper =
    let rest = upper_bound_loop i upper in
    if not (byte_at i upper == 0xff) then some (cut_up i upper) else rest

unfoldable pub prefix_upper_bound : Bytes → Option Bytes
unfolding upper_bound_loop
prefix_upper_bound prefix = upper_bound_loop (length prefix) ([] ++ prefix)

-- The loop of `ListEnvelopes` over the iterator's keys; it stops at the first foreign one.
unfoldable pub collect : List Bytes → List Bytes
unfolding has_prefix
collect [] = []
collect (key ∷ keys) =
    let rest = collect keys in
    if has_prefix envelope_prefix key then drop (length envelope_prefix) key ∷ rest else []
