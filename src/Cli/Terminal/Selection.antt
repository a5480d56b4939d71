-- ===== src/Cli/Terminal/Selection.antt =====
-- Theorems on `Selector.Select` of pkg/device/cli/cli.go.
use hmacsecret.Base.{
  ℕ, zero, suc, ◌^◌, ◌<◌, ◌≡◌, Bool, true, false, ◌&&◌, Bytes, List, [], ◌∷◌, ◌++◌, length, ◌==◌,
  trim, trim_line, AreGraphic, some, ok, arith, refl, ap, ◌∙◌, inl, inr, Bool-cases,
}
use hmacsecret.Base.Decimal.{
  pos, atoi, format_decimal, format_decimal-AreGraphic, atoi-format_decimal,
}
use hmacsecret.Store.{empty}
use hmacsecret.Types.{DeviceInfo}
use hmacsecret.Devices.{Platform, Libfido2, get_elem?, list_devices}
use hmacsecret.Devices.Discovery.{list_devices_order}
use hmacsecret.Cli.Machine.{Machine}
use hmacsecret.Cli.Terminal.{read_string, chosen, select}

read_string-AreGraphic :
    (s rest : Bytes) → AreGraphic s → read_string (s ++ (10 ∷ rest)) ≡ some (s ++ (10 ∷ []))
unfolding read_string
read_string-AreGraphic [] rest h = refl
read_string-AreGraphic (c ∷ s) rest (hc, hs) = rw (read_string-AreGraphic s rest hs) (ground arith)

chosen-atoi :
    (j : ℕ) (line : Bytes) (first d : DeviceInfo) (devices : List DeviceInfo)
    → empty line ≡ false
    → atoi line ≡ some (pos j)
    → get_elem? devices j ≡ some d
    → chosen line first devices ≡ ok d
unfolding chosen
chosen-atoi j line first d devices given number h = rw (given, number, h) refl

chosen-format_decimal :
    (j : ℕ) (line : Bytes) (first d : DeviceInfo) (devices : List DeviceInfo)
    → j < 2 ^ 63
    → line ≡ format_decimal j
    → get_elem? devices j ≡ some d
    → chosen line first devices ≡ ok d
chosen-format_decimal j line first d devices small e h =
    let (c, s, digits, graphic) = format_decimal-AreGraphic j in
    chosen-atoi j line first d devices (ap empty (e ∙ digits))
      (ap atoi e ∙ atoi-format_decimal j small) h

only_first :
    (first d : DeviceInfo) (devices : List DeviceInfo) (j : ℕ)
    → (length (first ∷ devices) == 1) ≡ true
    → get_elem? (first ∷ devices) j ≡ some d
    → first ≡ d
only_first first d [] zero alone h = ground arith
only_first first d [] (suc j) alone h = absurd (ground arith)
only_first first d (x ∷ devices) j alone h = absurd (ground arith)

-- The line that the user ends after a number is that number's text.
line_read :
    (j : ℕ) (rest : Bytes)
    → (line : Bytes) × (read_string (format_decimal j ++ (10 ∷ rest)) ≡ some line)
      × (trim line ≡ format_decimal j)
line_read j rest =
    let (c, s, digits, graphic) = format_decimal-AreGraphic j in
    (
      format_decimal j ++ (10 ∷ []),
      rw digits (read_string-AreGraphic (c ∷ s) rest graphic),
      rw digits (trim_line c s graphic),
    )

module _ {W : Type 0} where
  select-chosen :
      (auto_single : Bool) (devices : List DeviceInfo) (d : DeviceInfo) (j : ℕ) (rest : Bytes)
      (m : Machine W)
      → get_elem? devices j ≡ some d
      → j < 2 ^ 63
      → m.stdin ≡ format_decimal j ++ (10 ∷ rest)
      → (select auto_single devices m).0 ≡ ok d
  unfolding select
  select-chosen auto_single [] d j rest m h small typed = absurd (ground arith)
  select-chosen auto_single (first ∷ devices) d j rest m h small typed =
      let (line, read, text) = line_read j rest in
      let same = chosen-format_decimal j (trim line) first d (first ∷ devices) small text h in
      elim (Bool-cases (auto_single && (length (first ∷ devices) == 1))) [
        | inl alone ↦ rw alone (ap ok (only_first first d devices j (ground arith) h))
        | inr asked ↦ rw (asked, typed, read) same
      ]

  -- The devices are those that discovery lists. Within the range of an `int`, when the user
  -- answers with the index that a device is shown under and ends the line, `select` returns that
  -- device, also where it is alone and nothing is asked.
  pub select_printed :
      (platform : Platform) (bus : Libfido2 W) (exclude auto_single : Bool) (w w' : W)
      (devices : List DeviceInfo) (d : DeviceInfo) (j : ℕ) (rest : Bytes) (m : Machine W)
      → list_devices platform bus exclude w ≡ (ok devices, w')
      → get_elem? devices j ≡ some d
      → j < 2 ^ 63
      → m.stdin ≡ format_decimal d.index ++ (10 ∷ rest)
      → (select auto_single devices m).0 ≡ ok d
  select_printed platform bus exclude auto_single w w' devices d j rest m listed h small typed =
      let shown = (list_devices_order platform bus exclude w w' devices listed).0 j d h in
      select-chosen auto_single devices d j rest m h small
        (typed ∙ ap (λ i. format_decimal i ++ (10 ∷ rest)) shown)
