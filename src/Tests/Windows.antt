-- ===== src/Tests/Windows.antt =====
-- The Windows broker over a webauthn.dll that answers at once.
use hmacsecret.Base.{◌≡◌, false, Bytes, [], ◌∷◌, length, codes, trim, Option, some, ok, refl}
use hmacsecret.Store.{empty}
use hmacsecret.Types.{CreateOptions, DeriveOptions, Secret}
use hmacsecret.Devices.{Device}
use hmacsecret.Authenticator.Inputs.{
  ClientData, letter, encode_base64, validate_salt, make_client_data_json,
}
use hmacsecret.Webauthn.Calls.{Api, State, loaded}
use hmacsecret.Webauthn.Freed.{IsBalanced}
use hmacsecret.Windows.{derive, create_and_derive}
use hmacsecret.Windows.Broker.{derive_whole}
use hmacsecret.Windows.Freed.{create_and_derive-IsBalanced}
use hmacsecret.Tests.Toys.{toy, toy-IsCrypto}
use hmacsecret.Tests.Webauthn.{fill, length-fill, windows, by_code, idle, runs}

abbrev short : ClientData → Option Bytes
short x = some (codes "{}")

abbrev broker : Option (Device (Option Api))
broker = some (record { path = codes "windows://hello"; device = some (loaded windows by_code) })

abbrev options : DeriveOptions
options = record {
  rp_id = codes "rp";
  credential_id = 5 ∷ [];
  salt = fill 32;
  pin = [];
  user_presence = false;
  user_presence_set = false;
  client_data_json = [];
}

abbrev answered : State (Unit {0}) (Unit {0})
answered = (derive windows by_code short (toy []) broker options (some (fill 32)) idle).1

abbrev whole : Secret Bytes
whole = record { credential_id = 5 ∷ []; salt = fill 32; hmac_secret = some (fill 32) }

derives :
    derive windows by_code short (toy []) broker options (some (fill 32)) idle
    ≡ (ok whole, answered)
unfolding runs derive validate_salt make_client_data_json letter encode_base64 trim
derives = refl

derive_whole_example :
    ((e : Bytes) × (whole.hmac_secret ≡ some e) × (length e ≡ 32))
    × (whole.salt ≡ options.salt)
    × (length whole.salt ≡ 32)
    × (whole.credential_id ≡ options.credential_id)
    × (empty whole.credential_id ≡ false)
derive_whole_example =
    derive_whole windows by_code short (toy []) (toy-IsCrypto []) broker options (some (fill 32))
      idle answered whole (λ p n w. length-fill n) derives

abbrev creates : CreateOptions
creates = record {
  rp_id = codes "rp";
  rp_name = [];
  user_name = [];
  user_display_name = [];
  user_id = [];
  pin = [];
  client_data_json = [];
}

create_and_derive-IsBalanced_example :
    IsBalanced
      (create_and_derive windows by_code short
        (toy [])
        broker
        creates
        []
        []
        (some (fill 32))
        (some (fill 32))
        (some (fill 32))
        (some (fill 32))
        idle).1.calls
create_and_derive-IsBalanced_example =
    create_and_derive-IsBalanced windows by_code short (toy []) broker creates [] []
      (some (fill 32)) (some (fill 32)) (some (fill 32)) (some (fill 32)) idle (refl, refl)
