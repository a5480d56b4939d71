-- ===== src/Devices.antt =====
-- lib/hmacsecret/device.go, platform_windows.go and platform_nonwindows.go: the discovery of devices and
-- their opening. go-libfido2 is a parameter that acts on a world of its own; its errors are numbers.
pub mod Order
pub mod Discovery
use hmacsecret.Base.{
  ℕ, zero, suc, ◌+◌, Bool, true, false, not, ◌&&◌, ◌||◌, Bytes, List, [], ◌∷◌, ◌++◌, length, take,
  drop, leb, ltb, ◌==◌, bytes_eq, codes, trim, Option, none, some, Result, ok, err, fail_if, Exec,
  pure, lift, if◌then◌else◌, map_err,
}
use hmacsecret.Base.Stateful.{◌>>=◌, ◌>>◌}
use hmacsecret.Base.Decimal.{ℤ, pos, negsuc}
use hmacsecret.Store.{empty}
use hmacsecret.Types.{
  DeviceInfo, DeviceError, invalid_argument, no_device, no_selectable_device, device_search,
  open_failed,
}

-- The two builds that have a `platform_*.go` file.
pub data Platform : Type 0 where
  windows other : Platform

-- `DeviceLocations` and `NewDevice` of go-libfido2.
pub record Libfido2 (W : Type 0) : Type 1 where
  pub Location : Type 0
  pub Handle : Type 0
  pub path : Location → Bytes
  pub product : Location → Bytes
  pub manufacturer : Location → Bytes
  pub product_id : Location → ℕ
  pub vendor_id : Location → ℕ
  pub device_locations : Exec W ℕ (List Location)
  pub new_device : Bytes → Exec W ℕ Handle

pub record Device (H : Type 0) : Type 0 where
  pub path : Bytes
  pub device : H

-- The letters of a path as `strings.EqualFold` compares them with ASCII text: A to Z are a to z, and
-- the rune U+017F is an s. (The rune U+212A is a k, which the text compared with does not have.)
unfoldable pub fold : Bytes → Bytes
fold [] = []
fold (c ∷ s) =
    let rest = fold s in
    if leb 0x41 c && leb c 0x5a
    then (c + 32) ∷ rest
    else if c == 0xc5 && bytes_eq (take 1 s) (0xbf ∷ [])
    then 0x73 ∷ drop 1 rest
    else c ∷ rest

unfoldable pub is_windows_hello : Platform → Bytes → Bool
unfolding fold trim
is_windows_hello other path = false
is_windows_hello windows path = bytes_eq (fold (trim path)) (codes "windows://hello")

unfoldable pub platform_location_allowed : Platform → Bytes → Bool → Bool
unfolding is_windows_hello
platform_location_allowed other path exclude = true
platform_location_allowed windows path exclude = not (is_windows_hello windows path && exclude)

-- The loop that prefers the broker: the position of the first one.
unfoldable pub find_hello : ℕ → List DeviceInfo → Option ℕ
find_hello i [] = none
find_hello i (d ∷ out) =
    let rest = find_hello (suc i) out in if d.windows_hello then some i else rest

-- `hello := out[i]; copy(out[1:i+1], out[0:i]); out[0] = hello`
abbrev pub to_front : ℕ → List DeviceInfo → List DeviceInfo
to_front i out = elim (drop i out) [ [] ↦ out | hello ∷ rest ↦ hello ∷ (take i out ++ rest) ]

unfoldable pub prefer_hello : List DeviceInfo → List DeviceInfo
unfolding find_hello
prefer_hello out = elim (find_hello 0 out) [ none ↦ out | some i ↦ to_front i out ]

-- `for i := range out { out[i].Index = i }`
unfoldable pub reindex : ℕ → List DeviceInfo → List DeviceInfo
reindex i [] = []
reindex i (d ∷ out) = record d { index = i } ∷ reindex (suc i) out

-- `out[i]` within bounds
abbrev pub get_elem? {ℓ} : {A : Type ℓ} → List A → ℕ → Option A
get_elem? [] i = none
get_elem? (x ∷ xs) zero = some x
get_elem? (x ∷ xs) (suc i) = get_elem? xs i

abbrev pub device_at : List DeviceInfo → ℤ → Result DeviceError DeviceInfo
device_at devices (negsuc i) = err invalid_argument
device_at devices (pos i) = elim (get_elem? devices i) [
  | none ↦ err invalid_argument
  | some d ↦ ok d
]

module _ {W : Type 0} (platform : Platform) (lib : Libfido2 W) where
  abbrev pub info : ℕ → lib.Location → DeviceInfo
  info index location = record {
    index = index;
    path = lib.path location;
    product = lib.product location;
    manufacturer = lib.manufacturer location;
    product_id = lib.product_id location;
    vendor_id = lib.vendor_id location;
    windows_hello = is_windows_hello platform (lib.path location);
  }

  -- The loop over the locations, from the count of devices that are already out.
  unfoldable pub selectable : Bool → ℕ → List lib.Location → List DeviceInfo
  selectable exclude n [] = []
  selectable exclude n (location ∷ locations) =
      let allowed = platform_location_allowed platform (lib.path location) exclude in
      let rest = selectable exclude (if allowed then suc n else n) locations in
      if allowed then info n location ∷ rest else rest

  unfoldable pub list_devices : Bool → Exec W DeviceError (List DeviceInfo)
  list_devices exclude = do
    locations ← λ w. let (r, w') = lib.device_locations w in (map_err (λ e. device_search) r, w')
    lift (fail_if (length locations == 0) no_device)
    let out = selectable exclude 0 locations
    lift (fail_if (length out == 0) no_selectable_device)
    pure (reindex 0 (prefer_hello out))

  unfoldable pub open_device : Bytes → Exec W DeviceError (Device lib.Handle)
  open_device path = do
    lift (fail_if (empty path) invalid_argument)
    dev ← λ w. let (r, w') = lib.new_device path w in (map_err (λ e. open_failed) r, w')
    pure (record { path = path; device = dev })

  unfoldable pub open_index : ℤ → Bool → Exec W DeviceError (Device lib.Handle)
  unfolding open_device
  open_index index exclude = do
    devices ← list_devices exclude
    d ← lift (device_at devices index)
    open_device d.path
