-- ===== src/Tests/Devices.antt =====
-- Discovery of a key and of the Windows broker behind it.
use hmacsecret.Base.{ℕ, ◌≡◌, Bool, true, false, Bytes, List, [], ◌∷◌, codes, trim, some, ok, refl}
use hmacsecret.Types.{DeviceInfo}
use hmacsecret.Base.Decimal.{pos}
use hmacsecret.Devices.{
  windows, Libfido2, is_windows_hello, platform_location_allowed, fold, find_hello, prefer_hello,
  reindex, get_elem?, selectable, list_devices, open_device, open_index,
}
use hmacsecret.Devices.Order.{HelloFirst, count_path}
use hmacsecret.Devices.Discovery.{count_allowed, list_devices_order, open_index_lem}

abbrev pub bus_of : (W : Type 0) → Libfido2 W
bus_of W = record {
  Location = Bytes;
  Handle = Bytes;
  path = λ l. l;
  product = λ l. [];
  manufacturer = λ l. [];
  product_id = λ l. 0;
  vendor_id = λ l. 0;
  device_locations = λ w. (ok (codes "usb1" ∷ codes "Windows://Hello" ∷ []), w);
  new_device = λ path w. (ok path, w);
}

abbrev pub bus : Libfido2 (Unit {0})
bus = bus_of (Unit {0})

-- What discovery computes with.
runs : ℕ
unfolding is_windows_hello platform_location_allowed fold find_hello prefer_hello reindex selectable
    list_devices open_device open_index trim
runs = 0

abbrev pub device : ℕ → Bytes → Bool → DeviceInfo
device index path hello = record {
  index = index;
  path = path;
  product = [];
  manufacturer = [];
  product_id = 0;
  vendor_id = 0;
  windows_hello = hello;
}

abbrev pub found : List DeviceInfo
found = device 0 (codes "Windows://Hello") true ∷ device 1 (codes "usb1") false ∷ []

pub listed : list_devices windows bus false tt ≡ (ok found, tt)
unfolding runs
listed = refl

list_devices_order_example :
    ((j : ℕ) (d : DeviceInfo) → get_elem? found j ≡ some d → d.index ≡ j)
    × HelloFirst found
    × ((locations : List Bytes) × (bus.device_locations tt ≡ (ok locations, tt))
        × ((p : Bytes) → count_path p found ≡ count_allowed windows bus false p locations))
list_devices_order_example = list_devices_order windows bus false tt tt found listed

opened :
    open_index windows bus (pos 1) false tt
    ≡ (ok (record { path = codes "usb1"; device = codes "usb1" }), tt)
unfolding runs
opened = refl

open_index_lem_example :
    (devices : List DeviceInfo) × (d : DeviceInfo) × (w1 : Unit {0}) × (list_devices windows bus
        false tt
      ≡ (ok devices, w1))
    × (pos 1 ≡ pos d.index)
    × (get_elem? devices d.index ≡ some d)
    × (codes "usb1" ≡ d.path)
    × (bus.new_device d.path w1 ≡ (ok (codes "usb1"), tt))
open_index_lem_example =
    open_index_lem windows bus (pos 1) false tt tt
      (record { path = codes "usb1"; device = codes "usb1" }) opened
