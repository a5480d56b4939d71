-- ===== src/Base/Decimal.antt =====
-- Decimal numbers as `%d` of fmt writes them and `strconv.Atoi` reads them, where an `int` has 64 bits.
use Prim.Native.Nat.{ℕ, zero, suc, ◌+◌, ◌-◌, ◌*◌, ◌/◌, ◌%◌, ◌^◌, ◌≤◌, ◌<◌}
use mathlib.Core.Path.{◌≡◌, refl, subst}
use mathlib.Core.Logic.{inl, inr}
use mathlib.Core.Bool.{◌&&◌}
use mathlib.Core.Option.{Option, none, some}
use mathlib.Core.List.{[], ◌∷◌}
use native.Mathlib.Omega.{arith}
use hmacsecret.Base.Tests.{leb, ltb, ◌==◌, if◌then◌else◌, Bool-cases}
use hmacsecret.Base.Binary.{Bytes}
use hmacsecret.Base.Text.{AreGraphic}

-- Go's `int`: `negsuc n` is -(n + 1).
pub data ℤ : Type 0 where
  pos negsuc : ℕ → ℤ

-- The digits of `n` before `rest`; a number below the fuel needs no more of it.
digits : ℕ → ℕ → Bytes → Bytes
digits zero n rest = rest
digits (suc fuel) n rest =
    let more = digits fuel (n / 10) ((0x30 + n % 10) ∷ rest) in
    if ltb n 10 then (0x30 + n) ∷ rest else more

unfoldable pub format_decimal : ℕ → Bytes
unfolding digits
format_decimal n = digits (n + 1) n []

-- The number that the digits stand for, behind those that stand for `n`.
unfoldable pub digits_value : ℕ → Bytes → Option ℕ
digits_value n [] = some n
digits_value n (c ∷ s) =
    let rest = digits_value (n * 10 + (c - 0x30)) s in
    if leb 0x30 c && leb c 0x39 then rest else none

-- A number that an `int` holds, of either sign.
abbrev pub as_pos : Option ℕ → Option ℤ
as_pos none = none
as_pos (some n) = if ltb n (2 ^ 63) then some (pos n) else none

abbrev pub as_neg : Option ℕ → Option ℤ
as_neg none = none
as_neg (some zero) = some (pos 0)
as_neg (some (suc n)) = if ltb n (2 ^ 63) then some (negsuc n) else none

abbrev pub unsigned : Bytes → Option ℕ
unsigned [] = none
unsigned (c ∷ s) = digits_value 0 (c ∷ s)

unfoldable pub atoi : Bytes → Option ℤ
unfolding digits_value
atoi [] = none
atoi (c ∷ s) =
    if c == 0x2d
    then as_neg (unsigned s)
    else if c == 0x2b
    then as_pos (unsigned s)
    else as_pos (unsigned (c ∷ s))

digits_value-digits :
    (fuel n : ℕ) (rest : Bytes)
    → n < fuel
    → digits_value 0 (digits fuel n rest) ≡ digits_value n rest
unfolding digits digits_value
digits_value-digits zero n rest h = absurd (omega arith)
digits_value-digits (suc fuel) n rest h =
    ground (arith, digits_value-digits fuel (n / 10) ((0x30 + n % 10) ∷ rest))

-- The first character is a digit.
digits_first :
    (fuel n : ℕ) (rest : Bytes)
    → n < fuel
    → (c : ℕ) × (s : Bytes) × (digits fuel n rest ≡ c ∷ s) × (0x30 ≤ c) × (c ≤ 0x39)
unfolding digits
digits_first zero n rest h = absurd (omega arith)
digits_first (suc fuel) n rest h = elim (Bool-cases (ltb n 10)) [
  | inl one ↦ (0x30 + n, rest, rw one refl, ground arith, ground arith)
  | inr more ↦
      let (c, s, e, low, high) =
        digits_first fuel (n / 10) ((0x30 + n % 10) ∷ rest) (ground arith) in
      (c, s, rw more e, low, high)
]

pub atoi-format_decimal : (n : ℕ) → n < 2 ^ 63 → atoi (format_decimal n) ≡ some (pos n)
unfolding atoi format_decimal
atoi-format_decimal n h =
    let (c, s, e, low, high) = digits_first (n + 1) n [] (omega arith) in
    let read : digits_value 0 (c ∷ s) ≡ some n =
      subst (λ t. digits_value 0 t ≡ some n) e (digits_value-digits (n + 1) n [] (omega arith)) in
    rw e (ground (arith, read))

digits-AreGraphic :
    (fuel n : ℕ) (rest : Bytes) → n < fuel → AreGraphic rest → AreGraphic (digits fuel n rest)
unfolding digits
digits-AreGraphic zero n rest h hr = absurd (omega arith)
digits-AreGraphic (suc fuel) n rest h hr = elim (Bool-cases (ltb n 10)) [
  | inl one ↦ rw one ((ground arith, ground arith), hr)
  | inr more ↦ rw more (
      digits-AreGraphic fuel (n / 10) ((0x30 + n % 10) ∷ rest) (ground arith)
        ((omega arith, omega arith), hr))
]

-- A number is written in at least one character, all of them graphic.
pub format_decimal-AreGraphic :
    (n : ℕ) → (c : ℕ) × (s : Bytes) × (format_decimal n ≡ c ∷ s) × AreGraphic (c ∷ s)
unfolding format_decimal
format_decimal-AreGraphic n =
    let (c, s, e, low, high) = digits_first (n + 1) n [] (omega arith) in
    (c, s, e, subst AreGraphic e (digits-AreGraphic (n + 1) n [] (omega arith) tt))
