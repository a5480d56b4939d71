-- ===== src/Tests/Pebble.antt =====
-- The Pebble store over a database in memory.
use hmacsecret.Base.{
  ◌≡◌, ◌≢◌, true, false, Bytes, [], ◌∷◌, bytes_eq, bytes_eq_iff, codes, trim, Option, none, some,
  ok, err, arith, refl, if◌then◌else◌,
}
use hmacsecret.Store.{Record, Context, exists, not_found, validate_record, validate_alias}
use hmacsecret.Store.Backend.{IsBackend}
use hmacsecret.Encrypted.Store.{zero_header}
use hmacsecret.Pebble.Engine.{Db, IsDb, Codecs, RoundTrips}
use hmacsecret.Pebble.{backend, put, get, delete, has}
use hmacsecret.Pebble.Envelopes.{view, backend-IsBackend}
use hmacsecret.Pebble.Credentials.{
  trim_record, stored_record, put_stores, put_keeps_others, delete_removes,
}

abbrev pub Table : Type 0
Table = Bytes → Option Bytes

abbrev pub write : Bytes → Option Bytes → Table → Table
write k v d j = if bytes_eq k j then v else d j

abbrev pub table : Db Table
table = record {
  get = λ k d. ok (d k);
  set = λ k v d. (ok tt, write k (some v) d);
  delete = λ k d. (ok tt, write k none d);
  scan = λ lower upper d. ok [];
  close = λ d. ok tt;
}

pub table-IsDb : IsDb table
table-IsDb = record { get-set = λ k j v d h. ground arith; get-delete = λ k j d h. ground arith }

abbrev pub salt : Bytes
salt =
    1 ∷ 2 ∷ 3 ∷ 4 ∷ 5 ∷ 6 ∷ 7 ∷ 8 ∷ 1 ∷ 2 ∷ 3 ∷ 4 ∷ 5 ∷ 6 ∷ 7 ∷ 8 ∷ 1 ∷ 2 ∷ 3 ∷ 4 ∷ 5 ∷ 6 ∷ 7 ∷ 8
    ∷ 1 ∷ 2 ∷ 3 ∷ 4 ∷ 5 ∷ 6 ∷ 7 ∷ 8 ∷ []

-- An encoding of the credential's id alone, which carries records of one salt and one relying party.
abbrev pub text : Codecs
text = record {
  record_codec = record {
    marshal = λ r. some r.credential_id;
    unmarshal = λ b. some (record { credential_id = b; salt = salt; rp_id = codes "rp" });
  };
  header_codec = record { marshal = λ h. some []; unmarshal = λ b. some zero_header };
  blob_codec = record { marshal = λ h. some []; unmarshal = λ b. some zero_header.wrapped_dek };
}

abbrev live : Context
live i = false

abbrev pub login : Record
login = record { alias = codes " login"; credential_id = 5 ∷ []; salt = salt; rp_id = codes "rp " }

abbrev pub start : Option Table
start = some (λ k. none)

abbrev filled : Option Table
filled = (put table text live login start).1

login_carried : RoundTrips text.record_codec (stored_record login)
unfolding trim
login_carried = record { returns = λ body e. ground arith }

put_ok : put table text live login start ≡ (ok tt, filled)
unfolding put trim validate_record
put_ok = refl

put_stores_example :
    (get table text live (codes "login") filled ≡ (ok (trim_record login), filled))
    × (has table text live (codes "login") filled ≡ (ok true, filled))
    × (put table text live login filled ≡ (err exists, filled))
unfolding trim validate_record
put_stores_example =
    put_stores table text table-IsDb live live login login (codes "login") start filled
      login_carried refl refl refl refl put_ok

pub login-ne-mail : codes "login" ≢ codes "mail"
login-ne-mail e = ground (arith, bytes_eq_iff (codes "login") (codes "mail"))

put_keeps_others_example :
    ((get table text live (codes "mail") filled).0 ≡ (get table text live (codes "mail") start).0)
    × ((has table text live (codes "mail") filled).0 ≡ (has table text live (codes "mail") start).0)
unfolding trim
put_keeps_others_example =
    put_keeps_others table text table-IsDb live live login (codes "mail") start filled login-ne-mail
      put_ok

abbrev emptied : Option Table
emptied = (delete table text live (codes "login") filled).1

delete_ok : delete table text live (codes "login") filled ≡ (ok tt, emptied)
unfolding put delete trim validate_record validate_alias
delete_ok = refl

delete_removes_example :
    (get table text live (codes "login ") emptied ≡ (err not_found, emptied))
    × (has table text live (codes "login ") emptied ≡ (ok false, emptied))
    × (delete table text live (codes "login ") emptied ≡ (err not_found, emptied))
unfolding trim
delete_removes_example =
    delete_removes table text table-IsDb live live (codes "login") (codes "login ") filled emptied
      refl refl delete_ok

backend-IsBackend_example : IsBackend (backend table text) (view table text)
backend-IsBackend_example = backend-IsBackend table text table-IsDb
