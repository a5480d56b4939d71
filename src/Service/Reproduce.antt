-- ===== src/Service/Reproduce.antt =====
-- Theorems on `Create` and `Derive` of pkg/secrets/secrets.go, one after the other.
use hmacsecret.Base.{◌≡◌, Bytes, trim, Option, some, Result, ok, err, arith, refl, sym, ◌∙◌, ap}
use hmacsecret.Store.{Context, Record}
use hmacsecret.Store.Backend.{IsAlias, later}
use hmacsecret.Store.Credentials.{CredentialStore, IsCredentialStore}
use hmacsecret.Service.{
  ServiceError, Devices, create_options, derive_options, Config, State, derive_failed, create,
  derive,
}
use hmacsecret.Types.{DeviceError, DeriveOptions}
use hmacsecret.Service.Asked.{IsProvided, IsStored, create_inv, derive_inv, named-IsAlias}

module _ {S W : Type 0} (store : CredentialStore S) (dev : Devices W) (config : Config) where
  -- The record is there after `create` came past `put`.
  stored_record :
      {Keeps : Record → Type 0} {Lives : Context → Type 0}
      (law : IsCredentialStore store Keeps Lives) (ctx ctx' : Context) (raw : Bytes)
      (random : Option Bytes) (r : Result ServiceError dev.Secret) (s' : State S W)
      → ((rec : Record) → rec.rp_id ≡ config.rp_id → Keeps rec)
      → Lives ctx'
      → (h : IsStored store dev config ctx raw random r s')
      → store.get ctx' (trim raw) s'.store ≡ (ok h.rec, s'.store)
  stored_record law ctx ctx' raw random r s' keeps live h =
      let alias : IsAlias (trim raw) = named-IsAlias raw h.valid in
      rw (h.stored, sym h.named)
        (law.get-put (later 5 ctx) ctx' h.rec h.before (keeps h.rec h.bound) (rw h.named alias) live
          h.accepted)

  -- Over a store that keeps its contract and such records: after a `create` that could not derive, the
  -- store returns to a live context, under the trimmed alias, the record of that alias, of the
  -- configured relying party, of the salt that was drawn and of the id of the credential that the
  -- authenticator had just made; and it was for this record that the authenticator refused the secret.
  pub create_retry :
      {Keeps : Record → Type 0} {Lives : Context → Type 0}
      (law : IsCredentialStore store Keeps Lives) (ctx ctx' : Context) (raw : Bytes)
      (random : Option Bytes) (e : DeviceError) (s s' : State S W)
      → ((rec : Record) → rec.rp_id ≡ config.rp_id → Keeps rec)
      → Lives ctx'
      → create store dev config ctx raw random s ≡ (err (derive_failed e), s')
      → (rec : Record) × (auth : dev.Auth) × (pin : Bytes) × (before : W) × (made : W) × (store.get
            ctx'
            (trim raw)
            s'.store
          ≡ (ok rec, s'.store))
        × (rec.alias ≡ trim raw)
        × (rec.rp_id ≡ config.rp_id)
        × (random ≡ some rec.salt)
        × (dev.create auth (create_options config pin) before ≡ (ok rec.credential_id, made))
        × ((dev.derive auth (derive_options rec pin) made).0 ≡ err e)
  create_retry law ctx ctx' raw random e s s' keeps live failed =
      let h = create_inv store dev config ctx raw random s s' (err (derive_failed e)) failed refl in
      (
        h.rec,
        h.auth,
        h.pin,
        h.creating,
        h.world,
        stored_record law ctx ctx' raw random (err (derive_failed e)) s' keeps live h,
        h.named,
        h.bound,
        h.drawn,
        h.made,
        h.denied e refl,
      )

  -- A `create` and a later `derive` of its alias asked the authenticator for the secret of one record.
  pub record IsAsked (x y : dev.Secret) : Type 0 where
    pub rec : Record
    pub auth : dev.Auth
    pub auth' : dev.Auth
    pub pin : Bytes
    pub pin' : Bytes
    pub provided : IsProvided store dev config pin
    pub provided' : IsProvided store dev config pin'
    pub world : W
    pub world' : W
    pub asked : (dev.derive auth (derive_options rec pin) world).0 ≡ ok x
    pub asked' : (dev.derive auth' (derive_options rec pin') world').0 ≡ ok y

  pub create_derive_inv :
      {Keeps : Record → Type 0} {Lives : Context → Type 0}
      (law : IsCredentialStore store Keeps Lives) (ctx ctx' : Context) (raw raw' : Bytes)
      (random : Option Bytes) (x y : dev.Secret) (s s' u u' : State S W)
      → ((rec : Record) → rec.rp_id ≡ config.rp_id → Keeps rec)
      → Lives ctx'
      → trim raw' ≡ trim raw
      → create store dev config ctx raw random s ≡ (ok x, s')
      → u.store ≡ s'.store
      → derive store dev config ctx' raw' u ≡ (ok y, u')
      → IsAsked x y
  create_derive_inv law ctx ctx' raw raw' random x y s s' u u' keeps live same made kept again =
      let h = create_inv store dev config ctx raw random s s' (ok x) made refl in
      let got = stored_record law ctx ctx' raw random (ok x) s' keeps live h in
      let d = derive_inv store dev config ctx' raw' u u' y again in
      let found : d.rec ≡ h.rec =
        ground (arith, d.found, got, ap (λ t. store.get ctx' t) same, kept, same) in
      record {
        rec = h.rec;
        auth = h.auth;
        auth' = d.auth;
        pin = h.pin;
        pin' = d.pin;
        provided = h.provided;
        provided' = d.provided;
        world = h.world;
        world' = d.world;
        asked = h.asked x refl;
        asked' =
            ap (λ rec. (dev.derive d.auth (derive_options rec d.pin) d.world).0) (sym found)
            ∙ d.asked;
      }

  -- Over a store that keeps its contract and such records, and where the authenticator's secret depends
  -- on relying party, credential and salt alone: `derive` of the alias, on the store as `create` left it
  -- and under a live context, returns the secret that `create` returned, whenever both return one.
  pub derive-create :
      {Keeps : Record → Type 0} {Lives : Context → Type 0}
      (law : IsCredentialStore store Keeps Lives) (ctx ctx' : Context) (raw raw' : Bytes)
      (random : Option Bytes) (x y : dev.Secret) (prf : Bytes → Bytes → Bytes → dev.Secret)
      (s s' u u' : State S W)
      → ((rec : Record) → rec.rp_id ≡ config.rp_id → Keeps rec)
      → ((auth : dev.Auth) (o : DeriveOptions) (w : W) (z : dev.Secret)
          → (dev.derive auth o w).0 ≡ ok z
          → z ≡ prf o.rp_id o.credential_id o.salt)
      → Lives ctx'
      → trim raw' ≡ trim raw
      → create store dev config ctx raw random s ≡ (ok x, s')
      → u.store ≡ s'.store
      → derive store dev config ctx' raw' u ≡ (ok y, u')
      → y ≡ x
  derive-create law ctx ctx' raw raw' random x y prf s s' u u' keeps det live same made kept again =
      let a =
        create_derive_inv law ctx ctx' raw raw' random x y s s' u u' keeps live same made kept
          again in
      det a.auth' (derive_options a.rec a.pin') a.world' y a.asked'
      ∙ sym (det a.auth (derive_options a.rec a.pin) a.world x a.asked)
