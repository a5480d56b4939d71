-- ===== src/Service/OnPebble.antt =====
-- The alias API of pkg/secrets over the store of pkg/store/pebble.
use hmacsecret.Base.{
  ◌≡◌, false, Bytes, trim, trim_idem, codes, Option, none, some, ok, arith, refl, ap, ◌∙◌,
  Bool-cases, inl, inr,
}
use hmacsecret.Store.{Context, Record, empty}
use hmacsecret.Store.Credentials.{CredentialStore, IsCredentialStore, PassesTwice}
use hmacsecret.Pebble
use hmacsecret.Pebble.Engine.{Db, IsDb, Codecs, StoredRecord, RoundTrips}
use hmacsecret.Pebble.Credentials.{trim_record, stored_record, put_inv, put_stores}
use hmacsecret.Service.{Devices, Options, Config, State, or_default, new, create, derive}
use hmacsecret.Service.Held.{IsHeld, is_held}
use hmacsecret.Service.Reproduce.{derive-create}
use hmacsecret.Types.{DeriveOptions}

-- A relying party as `New` leaves it has no white runes at its ends.
trim-or_default :
    (value : Bytes)
    → trim (or_default (trim value) (codes "hmac-secret.example"))
      ≡ or_default (trim value) (codes "hmac-secret.example")
unfolding trim
trim-or_default value = elim (Bool-cases (empty (trim value))) [
  | inl nothing ↦ rw nothing refl
  | inr given ↦ rw given (trim_idem value)
]

pub new-rp_id :
    (opts : Options) (config : Config) → new opts ≡ ok config → trim config.rp_id ≡ config.rp_id
unfolding new
new-rp_id opts config h =
    let set : config.rp_id ≡ or_default (trim opts.rp_id) (codes "hmac-secret.example") =
      ground arith in
    rw set (trim-or_default opts.rp_id)

module _ {D : Type 0} (db : Db D) (json : Codecs) where
  abbrev pub pebble_store : CredentialStore (Option D)
  pebble_store = record {
    put = Pebble.put db json;
    get = Pebble.get db json;
    delete = Pebble.delete db json;
    has = Pebble.has db json;
    list = Pebble.list db json;
    close = Pebble.close db json;
  }

  -- No call but `close` drops the database.
  pub pebble_store-IsHeld : IsHeld pebble_store is_held
  unfolding Pebble.put Pebble.get Pebble.delete Pebble.has Pebble.list
  pebble_store-IsHeld = record {
    put = λ ctx rec s. elim s [ none ↦ ground arith | some d ↦ ground arith ];
    get = λ ctx alias s. elim s [ none ↦ ground arith | some d ↦ ground arith ];
    delete = λ ctx alias s. elim s [ none ↦ ground arith | some d ↦ ground arith ];
    has = λ ctx alias s. elim s [ none ↦ ground arith | some d ↦ ground arith ];
    list = λ ctx s. elim s [ none ↦ ground arith | some d ↦ ground arith ];
  }

  -- A record that JSON carries, of a trimmed relying party.
  pub record IsKept (rec : Record) : Type 0 where
    pub carried : RoundTrips json.record_codec (stored_record rec)
    pub trimmed : trim rec.rp_id ≡ rec.rp_id

  pub pebble_store-IsCredentialStore : IsDb db → IsCredentialStore pebble_store IsKept PassesTwice
  pebble_store-IsCredentialStore law = record {
    get-put = λ ctx ctx' rec s keeps alias live h.
        let s' : Option D = (Pebble.put db json ctx rec s).1 in
        let run : Pebble.put db json ctx rec s ≡ (ok tt, s') = ap (λ r. (r, s')) h in
        let valid = (put_inv db json ctx rec s s' run).valid in
        let same : trim_record rec ≡ rec =
          λ i. record rec { alias = alias.trimmed i; rp_id = keeps.trimmed i } in
        (put_stores db json law ctx ctx' rec rec rec.alias s s' keeps.carried live.0 refl refl valid
          run).0
        ∙ ap (λ r. (ok r, s')) same;
  }

  pub bound-IsKept :
      (opts : Options) (config : Config) (rec : Record)
      → new opts ≡ ok config
      → ((r : StoredRecord) → r.rp_id ≡ config.rp_id → RoundTrips json.record_codec r)
      → rec.rp_id ≡ config.rp_id
      → IsKept rec
  bound-IsKept opts config rec made carries bound =
      let trimmed : trim config.rp_id ≡ config.rp_id = new-rp_id opts config made in
      record {
        carried = carries (stored_record rec) (ap trim bound ∙ trimmed);
        trimmed = rw bound trimmed;
      }

  -- The alias API as `new` configures it, over a Pebble database that reads back its writes, with JSON that
  -- carries the records of the configured relying party, and where the authenticator's secret depends
  -- on relying party, credential and salt alone: `derive` of the alias, on the database as `create`
  -- left it and under a live context, returns the secret that `create` returned, whenever both return
  -- one.
  pub pebble_derive-create :
      {W : Type 0} (law : IsDb db) (dev : Devices W) (opts : Options) (config : Config)
      (ctx ctx' : Context) (raw raw' : Bytes) (random : Option Bytes) (x y : dev.Secret)
      (prf : Bytes → Bytes → Bytes → dev.Secret) (s s' u u' : State (Option D) W)
      → new opts ≡ ok config
      → ((r : StoredRecord) → r.rp_id ≡ config.rp_id → RoundTrips json.record_codec r)
      → ((auth : dev.Auth) (o : DeriveOptions) (w : W) (z : dev.Secret)
          → (dev.derive auth o w).0 ≡ ok z
          → z ≡ prf o.rp_id o.credential_id o.salt)
      → ctx' 0 ≡ false
      → ctx' 1 ≡ false
      → trim raw' ≡ trim raw
      → create pebble_store dev config ctx raw random s ≡ (ok x, s')
      → u.store ≡ s'.store
      → derive pebble_store dev config ctx' raw' u ≡ (ok y, u')
      → y ≡ x
  pebble_derive-create law dev opts config ctx ctx' raw raw' random x y prf s s' u u' made carries
        det c0 c1 same run kept again =
      derive-create pebble_store dev config (pebble_store-IsCredentialStore law) ctx ctx' raw raw'
        random x y prf s s' u u' (λ rec. bound-IsKept opts config rec made carries) det (c0, c1)
        same run kept again
