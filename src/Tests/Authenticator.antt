-- ===== src/Tests/Authenticator.antt =====
-- A key that answers at once, its client data written as plain text, and the salts of its callers.
use hmacsecret.Base.{
  ℕ, zero, suc, ◌≡◌, ◌≢◌, Bool, true, false, Bytes, List, [], ◌∷◌, ◌++◌, length, codes, trim,
  Option, some, ok, err, arith, refl, subst, if◌then◌else◌, AreBytes,
}
use hmacsecret.Store.{empty}
use hmacsecret.Types.{invalid_argument, CreateOptions, DeriveOptions, Secret}
use hmacsecret.Devices.{Device}
use hmacsecret.Authenticator.{
  Methods, AssertionOpts, is_fido2, create_credential, derive, create_and_derive,
}
use hmacsecret.Authenticator.Inputs.{
  ClientData, letter, encode_base64, make_client_data_json, validate_salt,
}
use hmacsecret.Authenticator.ClientJson.{IsRead, AreAscii, make_client_data_json_lem}
use hmacsecret.Authenticator.Derive.{is_request, derive_refuses}
use hmacsecret.Authenticator.Reproduce.{revealed, derive-create_and_derive}

abbrev pub bytes32 : ℕ → Bytes
bytes32 b =
    b ∷ 1 ∷ 2 ∷ 3 ∷ 4 ∷ 5 ∷ 6 ∷ 7 ∷ 8 ∷ 9 ∷ 10 ∷ 11 ∷ 12 ∷ 13 ∷ 14 ∷ 15 ∷ 16 ∷ 17 ∷ 18 ∷ 19 ∷ 20
    ∷ 21 ∷ 22 ∷ 23 ∷ 24 ∷ 25 ∷ 26 ∷ 27 ∷ 28 ∷ 29 ∷ 30 ∷ 255 ∷ []

-- The secret's bytes are the relying party, the credential and the salt.
abbrev pub joined : Bytes → List Bytes → Bytes → Bool → Bytes
joined rp_id [] salt no_pin = rp_id ++ salt
joined rp_id (id ∷ ids) salt no_pin = rp_id ++ (id ++ salt)

abbrev pub key_of : (W : Type 0) → Methods W Bytes
key_of W = record {
  Enclave = Bytes;
  size = length;
  Algorithm = Unit;
  es256 = tt;
  Extension = Unit;
  hmac_secret_extension = tt;
  OptionValue = Bool;
  option_true = true;
  option_false = false;
  is_fido2 = λ h w. (ok true, w);
  make_credential =
      λ h challenge rp user alg pin o w. (ok (record { credential_id = 9 ∷ []; pub_key = [] }), w);
  assertion = λ h rp_id challenge ids pin o w. (ok (some (joined rp_id ids o.hmac_salt false)), w);
}

abbrev pub key : Methods (Unit {0}) Bytes
key = key_of (Unit {0})

-- Each text as its characters behind a 1, up to a 0.
abbrev pub put_text : Bytes → Bytes → Bytes
put_text [] rest = zero ∷ rest
put_text (c ∷ s) rest = suc zero ∷ c ∷ put_text s rest

abbrev pub get_text : Bytes → Bytes × Bytes
get_text [] = ([], [])
get_text (zero ∷ rest) = ([], rest)
get_text (suc n ∷ []) = ([], [])
get_text (suc n ∷ c ∷ s) = let (text, rest) = get_text s in (c ∷ text, rest)

pub get_text-put_text : (s rest : Bytes) → get_text (put_text s rest) ≡ (s, rest)
get_text-put_text [] rest = refl
get_text-put_text (c ∷ s) rest = rw (get_text-put_text s rest) refl

abbrev is_set : Bytes → Bool
is_set [] = false
is_set (c ∷ s) = true

abbrev pub plain : ClientData → Option Bytes
plain x = some (
    put_text x.operation
      (put_text x.challenge (put_text x.origin (if x.cross_origin then 1 ∷ [] else []))))

abbrev read_plain : Bytes → Option ClientData
read_plain b =
    let (operation, r1) = get_text b in
    let (challenge, r2) = get_text r1 in
    let (origin, r3) = get_text r2 in
    some (record {
      operation = operation;
      challenge = challenge;
      origin = origin;
      cross_origin = is_set r3;
    })

is_set_lem : (b : Bool) → is_set (if b then 1 ∷ [] else []) ≡ b
is_set_lem true = refl
is_set_lem false = refl

abbrev written : ClientData → Bytes
written x =
    put_text x.operation
      (put_text x.challenge (put_text x.origin (if x.cross_origin then 1 ∷ [] else [])))

read_written : (x : ClientData) → read_plain (written x) ≡ some x
read_written x =
    let bit : Bytes = if x.cross_origin then 1 ∷ [] else [] in
    rw
      (
        get_text-put_text x.operation (put_text x.challenge (put_text x.origin bit)),
        get_text-put_text x.challenge (put_text x.origin bit),
        get_text-put_text x.origin bit,
        is_set_lem x.cross_origin,
      )
      refl

read_plain-plain : (x : ClientData) (b : Bytes) → plain x ≡ some b → read_plain b ≡ some x
read_plain-plain x b h = subst (λ t. read_plain t ≡ some x) (ground (arith, h)) (read_written x)

abbrev open_key : Option (Device (Option Bytes))
open_key = some (record { path = codes "usb1"; device = some (codes "usb1") })

abbrev creates : CreateOptions
creates = record {
  rp_id = codes " rp";
  rp_name = [];
  user_name = [];
  user_display_name = [];
  user_id = [];
  pin = [];
  client_data_json = [];
}

abbrev derives : Bytes → Bytes → DeriveOptions
derives id salt = record {
  rp_id = codes "rp";
  credential_id = id;
  salt = salt;
  pin = [];
  user_presence = true;
  user_presence_set = true;
  client_data_json = [];
}

abbrev secret : Secret Bytes
secret = record {
  credential_id = 9 ∷ [];
  salt = bytes32 7;
  hmac_secret = some (codes "rp" ++ (9 ∷ bytes32 7));
}

-- What the calls compute with.
runs : ℕ
unfolding trim letter encode_base64 make_client_data_json validate_salt is_fido2 create_credential
    derive create_and_derive
runs = 0

made :
    create_and_derive key plain open_key creates [] []
      (some (bytes32 1))
      (some (bytes32 2))
      (some (bytes32 7))
      (some (bytes32 3))
      tt
    ≡ (ok secret, tt)
unfolding runs
made = refl

again :
    derive key plain open_key (derives (9 ∷ []) (bytes32 7)) (some (bytes32 4)) tt ≡ (ok secret, tt)
unfolding runs
again = refl

pub prf_of :
    {W : Type 0} (h : Bytes) (rp_id challenge : Bytes) (ids : List Bytes) (pin : Bytes)
    (o : AssertionOpts Unit Bool) (w : W) (e : Bytes)
    → ((key_of W).assertion h rp_id challenge ids pin o w).0 ≡ ok (some e)
    → e ≡ joined rp_id ids o.hmac_salt (empty pin)
prf_of h rp_id challenge [] pin o w e run = ground arith
prf_of h rp_id challenge (id ∷ ids) pin o w e run = ground arith

derive-create_and_derive_example :
    (revealed (λ e. e) secret ≡ revealed (λ e. e) secret)
    × (secret.credential_id ≡ secret.credential_id)
    × (secret.salt ≡ secret.salt)
    × (length secret.salt ≡ 32)
    × ((empty [] ≡ false) → secret.salt ≡ [])
unfolding trim
derive-create_and_derive_example =
    derive-create_and_derive key plain (λ e. e) (λ h. joined) open_key (codes "usb1") creates [] []
      (some (bytes32 1)) (some (bytes32 2)) (some (bytes32 7)) (some (bytes32 3)) (some (bytes32 4))
      (derives (9 ∷ []) (bytes32 7)) tt tt tt tt secret secret prf_of refl made refl refl refl refl
      again

derive_refuses_example :
    (is_request open_key (derives [] (bytes32 7)) ≡ false
      → derive key plain open_key (derives [] (bytes32 7)) (some (bytes32 4)) tt
        ≡ (err invalid_argument, tt))
    × (is_request open_key (derives [] (bytes32 7)) ≡ true
        → (derive key plain open_key (derives [] (bytes32 7)) (some (bytes32 4)) tt).0
          ≢ err invalid_argument)
derive_refuses_example =
    derive_refuses key plain open_key (derives [] (bytes32 7)) (some (bytes32 4)) tt

bytes32-AreBytes : AreBytes (bytes32 7)
bytes32-AreBytes = ground arith

operation-AreAscii : AreAscii (codes "webauthn.get")
operation-AreAscii = ground arith

challenge-AreBytes : AreBytes (1 ∷ 2 ∷ [])
challenge-AreBytes = ground arith

rp-AreAscii : AreAscii (codes "rp")
rp-AreAscii = ground arith

abbrev client : Bytes
client = put_text (codes "webauthn.get") (put_text (codes "AQI") (put_text (codes "https://rp") []))

client_made :
    make_client_data_json plain (codes "webauthn.get") (1 ∷ 2 ∷ []) (codes "rp") ≡ ok client
unfolding runs
client_made = refl

make_client_data_json_lem_example :
    IsRead read_plain (codes "webauthn.get") (1 ∷ 2 ∷ []) (codes "rp") client
    × (empty (codes "webauthn.get") ≡ false)
    × (empty (1 ∷ 2 ∷ []) ≡ false)
    × (empty (codes "rp") ≡ false)
make_client_data_json_lem_example =
    make_client_data_json_lem plain read_plain (codes "webauthn.get") (1 ∷ 2 ∷ []) (codes "rp")
      client (λ x b ho hc hr h. read_plain-plain x b h) operation-AreAscii challenge-AreBytes
      rp-AreAscii client_made
