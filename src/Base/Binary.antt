-- ===== src/Base/Binary.antt =====
-- Go's `[]byte` and `string`: both are lists of bytes. `encoding/binary`'s big-endian writers and
-- readers, with `uintN(v)` conversions written as remainders.
use Prim.Native.Nat.{ℕ, ◌+◌, ◌*◌, ◌/◌, ◌%◌, ◌^◌, ◌<◌}
use Prim.Native.Char.{code}
use Prim.Native.String.{String}
use mathlib.Core.Path.{◌≡◌}
use mathlib.Core.Logic.{◌↔◌}
use mathlib.Core.Bool.{Bool, true, false, ◌&&◌}
use mathlib.Core.List.{List, [], ◌∷◌, ◌++◌}
use native.Mathlib.Omega.{arith}
use hmacsecret.Base.Tests.{◌==◌, ==_iff}

abbrev pub Bytes : Type 0
Bytes = List ℕ

abbrev pub IsByte : ℕ → Type 0
IsByte b = b < 256

abbrev pub AreBytes : Bytes → Type 0
AreBytes [] = Unit
AreBytes (b ∷ r) = IsByte b × AreBytes r

-- The bytes of an ASCII literal.
abbrev pub codes : String → Bytes
codes String.[] = []
codes (String.◌∷◌ c s) = code c ∷ codes s

-- `==` on strings, `bytes.Equal`
abbrev pub bytes_eq : Bytes → Bytes → Bool
bytes_eq [] [] = true
bytes_eq (a ∷ x) (b ∷ y) = a == b && bytes_eq x y
bytes_eq _ _ = false

pub bytes_eq_iff : (x y : Bytes) → (bytes_eq x y ≡ true) ↔ (x ≡ y)
bytes_eq_iff [] [] = ground arith
bytes_eq_iff [] (b ∷ y) = ground arith
bytes_eq_iff (a ∷ x) [] = ground arith
bytes_eq_iff (a ∷ x) (b ∷ y) = ground (arith, ==_iff a b, bytes_eq_iff x y)

abbrev pub be16 : ℕ → Bytes
be16 v = (v / 2 ^ 8 % 256) ∷ (v % 256) ∷ []

abbrev pub be32 : ℕ → Bytes
be32 v = (v / 2 ^ 24 % 256) ∷ (v / 2 ^ 16 % 256) ∷ (v / 2 ^ 8 % 256) ∷ (v % 256) ∷ []

abbrev pub be64 : ℕ → Bytes
be64 v = be32 (v / 2 ^ 32) ++ be32 v

abbrev pub read_be16 : ℕ → ℕ → ℕ
read_be16 a b = a * 2 ^ 8 + b

abbrev pub read_be32 : ℕ → ℕ → ℕ → ℕ → ℕ
read_be32 a b c d = a * 2 ^ 24 + b * 2 ^ 16 + c * 2 ^ 8 + d

pub read_be16-be16 : (v : ℕ) → v < 2 ^ 16 → read_be16 (v / 2 ^ 8 % 256) (v % 256) ≡ v
read_be16-be16 v h = omega arith

pub read_be32-be32 :
    (v : ℕ)
    → v < 2 ^ 32
    → read_be32 (v / 2 ^ 24 % 256) (v / 2 ^ 16 % 256) (v / 2 ^ 8 % 256) (v % 256) ≡ v
read_be32-be32 v h = omega arith

pub be16_injective : (v w : ℕ) → v < 2 ^ 16 → w < 2 ^ 16 → be16 v ≡ be16 w → v ≡ w
be16_injective v w hv hw e = ground arith

pub be32_injective : (v w : ℕ) → v < 2 ^ 32 → w < 2 ^ 32 → be32 v ≡ be32 w → v ≡ w
be32_injective v w hv hw e = ground arith

pub be64_injective : (v w : ℕ) → v < 2 ^ 64 → w < 2 ^ 64 → be64 v ≡ be64 w → v ≡ w
be64_injective v w hv hw e = ground arith
