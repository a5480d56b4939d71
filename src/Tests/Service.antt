-- ===== src/Tests/Service.antt =====
-- The alias API over a store of one record and a device that answers at once.
use hmacsecret.Base.{
  ◌≡◌, Bool, true, false, Bytes, [], ◌∷◌, ◌++◌, bytes_eq, bytes_eq_iff, codes, trim, Option, none,
  some, Result, ok, err, arith, refl, if◌then◌else◌,
}
use hmacsecret.Store.{Error, Record, Context, not_found, validate_alias}
use hmacsecret.Store.Credentials.{CredentialStore, IsCredentialStore, PassesTwice}
use hmacsecret.Service.{
  create_options, derive_options, derive_failed, Devices, Config, State, open_selected, create,
  derive,
}
use hmacsecret.Types.{DeviceInfo, foreign, DeriveOptions}
use hmacsecret.Service.Reproduce.{create_retry}

abbrev slot_get : Bytes → Option Record → Result Error Record
slot_get a none = err not_found
slot_get a (some r) = if bytes_eq r.alias a then ok r else err not_found

abbrev slot_has : Bytes → Option Record → Bool
slot_has a none = false
slot_has a (some r) = bytes_eq r.alias a

abbrev slot : CredentialStore (Option Record)
slot = record {
  put = λ ctx r s. (ok tt, some r);
  get = λ ctx a s. (slot_get a s, s);
  delete = λ ctx a s. (ok tt, none);
  has = λ ctx a s. (ok (slot_has a s), s);
  list = λ ctx s. (ok [], s);
  close = λ s. (ok tt, s);
}

slot-IsCredentialStore : IsCredentialStore slot (λ r. Unit) PassesTwice
slot-IsCredentialStore = record {
  get-put = λ ctx ctx' rec s keeps alias live h. ground (arith, bytes_eq_iff rec.alias rec.alias);
}

abbrev key : DeviceInfo
key = record {
  index = 0;
  path = codes "/dev/hidraw0";
  product = codes "key";
  manufacturer = codes "maker";
  product_id = 1;
  vendor_id = 2;
  windows_hello = false;
}

abbrev pub secret_of : Bytes → Bytes → Bytes → Bytes
secret_of rp_id id salt = rp_id ++ (id ++ salt)

-- The world says whether the device derives.
abbrev pub device : Devices Bool
device = record {
  Auth = Bytes;
  Secret = Bytes;
  devices = λ w. (ok (key ∷ []), w);
  select = λ ctx ds w. (ok key, w);
  provide = λ ctx op d w. (ok [], w);
  open_path = λ path w. (ok path, w);
  create = λ a o w. (ok (9 ∷ []), w);
  derive =
      λ a o w. ((if w then ok (secret_of o.rp_id o.credential_id o.salt) else err (foreign 7)), w);
}

abbrev settings : Config
settings = record { rp_id = codes "rp"; rp_name = codes "rp"; user_name = codes "user" }

abbrev pub live : Context
live i = false

abbrev ready : State (Option Record) Bool
ready = record { store = none; world = true }

abbrev mute : State (Option Record) Bool
mute = record { store = none; world = false }

abbrev random : Option Bytes
random = some (1 ∷ 2 ∷ [])

abbrev login_secret : Bytes
login_secret = secret_of (codes "rp") (9 ∷ []) (1 ∷ 2 ∷ [])

abbrev made : State (Option Record) Bool
made = (create slot device settings live (codes " login") random ready).1

create_ok : create slot device settings live (codes " login") random ready ≡ (ok login_secret, made)
unfolding create open_selected trim validate_alias
create_ok = refl

derive_ok : derive slot device settings live (codes "login") made ≡ (ok login_secret, made)
unfolding create derive open_selected trim validate_alias
derive_ok = refl

pub derives :
    (auth : Bytes) (o : DeriveOptions) (w : Bool) (z : Bytes)
    → (device.derive auth o w).0 ≡ ok z
    → z ≡ secret_of o.rp_id o.credential_id o.salt
derives auth o true z h = ground arith
derives auth o false z h = ground arith

abbrev kept : State (Option Record) Bool
kept = (create slot device settings live (codes " login") random mute).1

create_failed :
    create slot device settings live (codes " login") random mute
    ≡ (err (derive_failed (foreign 7)), kept)
unfolding create open_selected trim validate_alias
create_failed = refl

create_retry_example :
    (rec : Record) × (auth : Bytes) × (pin : Bytes) × (before : Bool) × (after : Bool) × (slot.get
        live
        (trim (codes " login"))
        kept.store
      ≡ (ok rec, kept.store))
    × (rec.alias ≡ trim (codes " login"))
    × (rec.rp_id ≡ settings.rp_id)
    × (random ≡ some rec.salt)
    × (device.create auth (create_options settings pin) before ≡ (ok rec.credential_id, after))
    × ((device.derive auth (derive_options rec pin) after).0 ≡ err (foreign 7))
create_retry_example =
    create_retry slot device settings slot-IsCredentialStore live live (codes " login") random
      (foreign 7) mute kept (λ r e. tt) (refl, refl) create_failed
