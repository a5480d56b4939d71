-- ===== src/Tests/OnPebble.antt =====
-- The alias API over the Pebble store, with a device that answers at once.
use hmacsecret.Base.{
  ◌≡◌, Bool, true, Bytes, [], ◌∷◌, codes, trim, Option, some, ok, arith, refl, subst,
}
use hmacsecret.Store.{validate_alias, validate_record}
use hmacsecret.Encrypted.Store.{zero_header}
use hmacsecret.Pebble
use hmacsecret.Pebble.Engine.{Codecs, StoredRecord, RoundTrips}
use hmacsecret.Service.{Options, Config, State, new, open_selected, create, derive}
use hmacsecret.Service.OnPebble.{pebble_store}
use hmacsecret.Tests.Authenticator.{put_text, get_text, get_text-put_text}
use hmacsecret.Tests.Pebble.{Table, table, salt, start}
use hmacsecret.Tests.Service.{device, secret_of, live}

-- The credential's id and the salt of a record of the relying party `rp`.
abbrev read_body : Bytes → Option StoredRecord
read_body b =
    let (id, rest) = get_text b in
    some (record { credential_id = id; salt = rest; rp_id = codes "rp" })

abbrev pub both : Codecs
both = record {
  record_codec = record {
    marshal = λ r. some (put_text r.credential_id r.salt);
    unmarshal = read_body;
  };
  header_codec = record { marshal = λ h. some []; unmarshal = λ b. some zero_header };
  blob_codec = record { marshal = λ h. some []; unmarshal = λ b. some zero_header.wrapped_dek };
}

read_body-put_text :
    (r : StoredRecord) → r.rp_id ≡ codes "rp" → read_body (put_text r.credential_id r.salt) ≡ some r
read_body-put_text r h = rw (get_text-put_text r.credential_id r.salt) (ground (arith, h))

pub carries : (r : StoredRecord) → r.rp_id ≡ codes "rp" → RoundTrips both.record_codec r
carries r h = record {
  returns =
      λ body e. subst (λ b. read_body b ≡ some r) (ground (arith, e)) (read_body-put_text r h);
}

abbrev options : Options
options = record {
  has_store = true;
  has_select = true;
  has_pin = true;
  rp_id = codes " rp";
  rp_name = [];
  user_name = [];
}

abbrev pub config : Config
config = record {
  rp_id = codes "rp";
  rp_name = codes "hmacsecret";
  user_name = codes "hmac-secret";
}

abbrev ready : State (Option Table) Bool
ready = record { store = start; world = true }

abbrev secret : Bytes
secret = secret_of (codes "rp") (9 ∷ []) salt

abbrev stored : State (Option Table) Bool
stored = (create (pebble_store table both) device config live (codes " login") (some salt) ready).1

new_ok : new options ≡ ok config
unfolding new trim
new_ok = refl

create_ok :
    create (pebble_store table both) device config live (codes " login") (some salt) ready
    ≡ (ok secret, stored)
unfolding create open_selected trim validate_alias validate_record Pebble.put Pebble.has
create_ok = refl

derive_ok :
    derive (pebble_store table both) device config live (codes "login") stored ≡ (ok secret, stored)
unfolding create derive open_selected trim validate_alias validate_record Pebble.put Pebble.has
    Pebble.get
derive_ok = refl
