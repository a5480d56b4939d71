-- ===== src/Devices/Discovery.antt =====
-- Theorems on `ListDevices` and `OpenIndex` of lib/hmacsecret/device.go.
use hmacsecret.Base.{
  ℕ, suc, ◌+◌, ◌≡◌, Bool, Bytes, List, [], ◌∷◌, length, bytes_eq, some, ok, arith, refl, ap, ◌∙◌,
  sym, Option-cases, Bool-cases, inl, inr, if◌then◌else◌, ◌==◌,
}
use hmacsecret.Base.Fallible.{Result-cases}
use hmacsecret.Store.{empty}
use hmacsecret.Devices.Order.{
  count_path, count_path-reindex, get_elem-reindex, prefer_hello-count, HelloFirst,
  prefer_hello-HelloFirst, reindex-HelloFirst,
}
use hmacsecret.Types.{DeviceInfo}
use hmacsecret.Base.Decimal.{ℤ, pos, negsuc}
use hmacsecret.Devices.{
  Platform, Libfido2, Device, platform_location_allowed, prefer_hello, reindex, get_elem?,
  selectable, list_devices, open_device, device_at, open_index,
}

pair_eq : {A : Type 0} {B : Type 0} {x : A × B} {a : A} {b : B} → x.0 ≡ a → x.1 ≡ b → x ≡ (a, b)
pair_eq {x = x} {a = a} h k = ap (λ t. (t, x.1)) h ∙ ap (λ t. (a, t)) k

module _ {W : Type 0} (platform : Platform) (lib : Libfido2 W) where
  -- How often a path occurs among the locations that the platform and the options let through.
  abbrev pub count_allowed : Bool → Bytes → List lib.Location → ℕ
  count_allowed exclude p [] = 0
  count_allowed exclude p (location ∷ locations) =
      let rest = count_allowed exclude p locations in
      if platform_location_allowed platform (lib.path location) exclude
      then (if bytes_eq (lib.path location) p then 1 else 0) + rest
      else rest

  count_path-selectable :
      (exclude : Bool) (p : Bytes) (n : ℕ) (locations : List lib.Location)
      → count_path p (selectable platform lib exclude n locations)
        ≡ count_allowed exclude p locations
  unfolding selectable
  count_path-selectable exclude p n [] = refl
  count_path-selectable exclude p n (location ∷ locations) =
      elim (Bool-cases (platform_location_allowed platform (lib.path location) exclude)) [
        | inl let_in ↦ ground (arith, count_path-selectable exclude p (suc n) locations)
        | inr left_out ↦ ground (arith, count_path-selectable exclude p n locations)
      ]

  -- What a `ListDevices` that returned has made of the locations it got.
  record IsListed (exclude : Bool) (w w' : W) (devices : List DeviceInfo) : Type 0 where
    locations : List lib.Location
    got : lib.device_locations w ≡ (ok locations, w')
    made : devices ≡ reindex 0 (prefer_hello (selectable platform lib exclude 0 locations))

  list_devices_inv :
      (exclude : Bool) (w w' : W) (devices : List DeviceInfo)
      → list_devices platform lib exclude w ≡ (ok devices, w')
      → IsListed exclude w w' devices
  unfolding list_devices
  list_devices_inv exclude w w' devices e = elim (Result-cases (lib.device_locations w).0) [
    | inr (x, h) ↦ absurd (ground arith)
    | inl (locations, h) ↦ elim (Bool-cases (length locations == 0)) [
      | inl none_found ↦ absurd (ground arith)
      | inr found ↦ elim (Bool-cases (length (selectable platform lib exclude 0 locations) == 0)) [
        | inl none_left ↦ absurd (ground arith)
        | inr left ↦ record {
          locations = locations;
          got = pair_eq h (ground arith);
          made = ground arith;
        }
      ]
    ]
  ]

  -- Where `ListDevices` returns devices, each has its position as its index, the Windows broker comes
  -- first if it is among them, and each path occurs as often as among the locations that the platform
  -- and the options let through.
  pub list_devices_order :
      (exclude : Bool) (w w' : W) (devices : List DeviceInfo)
      → list_devices platform lib exclude w ≡ (ok devices, w')
      → ((j : ℕ) (d : DeviceInfo) → get_elem? devices j ≡ some d → d.index ≡ j)
        × HelloFirst devices
        × ((locations : List lib.Location) × (lib.device_locations w ≡ (ok locations, w'))
            × ((p : Bytes) → count_path p devices ≡ count_allowed exclude p locations))
  list_devices_order exclude w w' devices e =
      let l = list_devices_inv exclude w w' devices e in
      let out = selectable platform lib exclude 0 l.locations in
      rw l.made (
        (λ j d at.
            let (x, _, same) = get_elem-reindex 0 j (prefer_hello out) d at in
            ap (λ t. t.index) same ∙ omega arith),
        reindex-HelloFirst 0 (prefer_hello out) (prefer_hello-HelloFirst out),
        (
          l.locations,
          l.got,
          λ p.
              count_path-reindex p 0 (prefer_hello out)
              ∙ prefer_hello-count p out
              ∙ count_path-selectable exclude p 0 l.locations,
        ),
      )

  device_at_inv :
      (devices : List DeviceInfo) (index : ℤ) (d : DeviceInfo)
      → device_at devices index ≡ ok d
      → (i : ℕ) × (index ≡ pos i) × (get_elem? devices i ≡ some d)
  device_at_inv devices (negsuc i) d e = absurd (ground arith)
  device_at_inv devices (pos i) d e = elim (Option-cases (get_elem? devices i)) [
    | inl h ↦ absurd (ground arith)
    | inr (x, h) ↦ (i, refl, ground arith)
  ]

  open_device_inv :
      (path : Bytes) (w w' : W) (dev : Device lib.Handle)
      → open_device platform lib path w ≡ (ok dev, w')
      → (dev.path ≡ path) × (lib.new_device path w ≡ (ok dev.device, w'))
  unfolding open_device
  open_device_inv path w w' dev e = elim (Bool-cases (empty path)) [
    | inl blank ↦ absurd (ground arith)
    | inr filled ↦ elim (Result-cases (lib.new_device path w).0) [
      | inr (x, h) ↦ absurd (ground arith)
      | inl (handle, h) ↦ (ground arith, pair_eq (ground arith) (ground arith))
    ]
  ]

  -- An `OpenIndex` that returned a device has opened the path of the listed device with that index.
  pub open_index_lem :
      (index : ℤ) (exclude : Bool) (w w' : W) (dev : Device lib.Handle)
      → open_index platform lib index exclude w ≡ (ok dev, w')
      → (devices : List DeviceInfo) × (d : DeviceInfo) × (w1 : W) × (list_devices platform lib
            exclude w
          ≡ (ok devices, w1))
        × (index ≡ pos d.index)
        × (get_elem? devices d.index ≡ some d)
        × (dev.path ≡ d.path)
        × (lib.new_device d.path w1 ≡ (ok dev.device, w'))
  unfolding open_index open_device
  open_index_lem index exclude w w' dev e =
      elim (Result-cases (list_devices platform lib exclude w).0) [
        | inr (x, h) ↦ absurd (ground arith)
        | inl (devices, h) ↦
            let w1 : W = (list_devices platform lib exclude w).1 in
            let listed = list_devices_order exclude w w1 devices (pair_eq h refl) in
            elim (Result-cases (device_at devices index)) [
              | inr (x, g) ↦ absurd (ground arith)
              | inl (d, g) ↦
                  let (i, same, at) = device_at_inv devices index d g in
                  let place : d.index ≡ i = listed.0 i d at in
                  let (path, opened) = open_device_inv d.path w1 w' dev (ground arith) in
                  (
                    devices,
                    d,
                    w1,
                    pair_eq h refl,
                    same ∙ ap pos (sym place),
                    ap (λ n. get_elem? devices n) place ∙ at,
                    path,
                    opened,
                  )
            ]
      ]
