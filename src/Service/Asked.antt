-- ===== src/Service/Asked.antt =====
-- What `Create` and `Derive` of pkg/secrets/secrets.go called when they came past the store.
use hmacsecret.Base.{
  ◌≡◌, Bool, true, false, Bytes, [], ◌++◌, trim, trim_idem, Option, some, Result, ok, err, arith,
  refl, sym, ap, subst, Option-cases, inl, inr,
}
use hmacsecret.Base.Fallible.{Result-cases}
use hmacsecret.Store.{Error, Context, Record, validate_alias}
use hmacsecret.Store.Backend.{IsAlias, later}
use hmacsecret.Store.Credentials.{CredentialStore}
use hmacsecret.Service.{
  ServiceError, Operation, Devices, create_options, derive_options, Config, State, op_create,
  op_derive, derive_failed, open_selected, create, derive, on_store, on_world, or_exists,
  create_failed,
}
use hmacsecret.Base.{Exec}
use hmacsecret.Types.{DeviceInfo, DeviceError}
use hmacsecret.Base.Stateful.{◌>>=◌, ◌>>◌}

-- The outcomes of `create` behind its call of the store's `put`.
abbrev pub past_put {ℓ} : {A : Type ℓ} → Result ServiceError A → Bool
past_put (ok x) = true
past_put (err (derive_failed e)) = true
past_put (err e) = false

pub named-IsAlias : (raw : Bytes) → validate_alias (trim raw) ≡ ok tt → IsAlias (trim raw)
unfolding validate_alias
named-IsAlias raw h = record { trimmed = trim_idem raw; filled = ground arith }

module _ {S W : Type 0} (store : CredentialStore S) (dev : Devices W) (config : Config) where
  -- A PIN that the provider gave for some device.
  pub record IsProvided (pin : Bytes) : Type 0 where
    pub ctx : Context
    pub op : Operation
    pub info : DeviceInfo
    pub world : W
    pub gave : (dev.provide ctx op info world).0 ≡ ok pin

  open_selected-IsProvided :
      (ctx : Context) (op : Operation) (s : State S W) (auth : dev.Auth) (pin : Bytes)
      → (open_selected store dev config ctx op s).0 ≡ ok (auth, pin)
      → IsProvided pin
  unfolding open_selected
  open_selected-IsProvided ctx op s auth pin e =
      let listed = dev.devices s.world in
      elim (Result-cases listed.0) [
        | inr (x, h) ↦ absurd (ground arith)
        | inl (devices, h) ↦
            let chosen = dev.select (later 1 ctx) devices listed.1 in
            elim (Result-cases chosen.0) [
              | inr (x, hs) ↦ absurd (ground arith)
              | inl (info, hs) ↦
                  let given = dev.provide (later 2 ctx) op info chosen.1 in
                  elim (Result-cases given.0) [
                    | inr (x, hp) ↦ absurd (ground arith)
                    | inl (p, hp) ↦ elim (Result-cases (dev.open_path info.path given.1).0) [
                      | inr (x, ho) ↦ absurd (ground arith)
                      | inl (a, ho) ↦ record {
                        ctx = later 2 ctx;
                        op = op;
                        info = info;
                        world = chosen.1;
                        gave = ground arith;
                      }
                    ]
                  ]
            ]
      ]

  -- A `create` that came past `put`: the record that it stored, and its request.
  pub record IsStored (ctx : Context) (raw : Bytes) (random : Option Bytes)
      (r : Result ServiceError dev.Secret) (s' : State S W) : Type 0 where
    pub rec : Record
    pub drawn : random ≡ some rec.salt
    pub before : S
    pub named : rec.alias ≡ trim raw
    pub valid : validate_alias (trim raw) ≡ ok tt
    pub bound : rec.rp_id ≡ config.rp_id
    pub accepted : (store.put (later 5 ctx) rec before).0 ≡ ok tt
    pub stored : s'.store ≡ (store.put (later 5 ctx) rec before).1
    pub auth : dev.Auth
    pub pin : Bytes
    pub provided : IsProvided pin
    pub world : W
    pub creating : W
    pub made : dev.create auth (create_options config pin) creating ≡ (ok rec.credential_id, world)
    pub asked :
        (x : dev.Secret) → r ≡ ok x → (dev.derive auth (derive_options rec pin) world).0 ≡ ok x
    pub denied :
        (e : DeviceError)
        → r ≡ err (derive_failed e)
        → (dev.derive auth (derive_options rec pin) world).0 ≡ err e

  -- `create` from the open authenticator on.
  abbrev pub make :
      Context → Bytes → Bytes → dev.Auth → Bytes → Exec (State S W) ServiceError dev.Secret
  make ctx alias salt auth pin = do
    id ← on_world create_failed (dev.create auth (create_options config pin))
    let rec : Record = record {
      alias = alias;
      credential_id = [] ++ id;
      salt = [] ++ salt;
      rp_id = config.rp_id;
    }
    on_store or_exists (store.put (later 5 ctx) rec)
    on_world derive_failed (dev.derive auth (derive_options rec pin))

  made_inv :
      (ctx : Context) (raw salt : Bytes) (auth : dev.Auth) (pin : Bytes) (s s' : State S W)
      (r : Result ServiceError dev.Secret)
      → validate_alias (trim raw) ≡ ok tt
      → make ctx (trim raw) salt auth pin s ≡ (r, s')
      → past_put r ≡ true
      → IsProvided pin
      → IsStored ctx raw (some salt) r s'
  made_inv ctx raw salt auth pin s s' r valid e past provided =
      let made = dev.create auth (create_options config pin) s.world in
      elim (Result-cases made.0) [
        | inr (x, h) ↦ absurd (ground arith)
        | inl (id, h) ↦
            let rec : Record = record {
              alias = trim raw;
              credential_id = id;
              salt = salt;
              rp_id = config.rp_id;
            } in
            elim (Result-cases (store.put (later 5 ctx) rec s.store).0) [
              | inr (Error.exists, hp) ↦ absurd (ground arith)
              | inr (x, hp) ↦ absurd (ground arith)
              | inl (u, hp) ↦ record {
                rec = rec;
                drawn = refl;
                before = s.store;
                named = refl;
                valid = valid;
                bound = refl;
                accepted = hp;
                stored = ground arith;
                auth = auth;
                pin = pin;
                provided = provided;
                world = made.1;
                creating = s.world;
                made = ap (λ q. (q, made.1)) h;
                asked = λ x he. ground arith;
                denied = λ x he. ground arith;
              }
            ]
      ]

  -- No error of `open_selected` is one of deriving.
  open_selected-before :
      (ctx : Context) (s : State S W) (x : ServiceError)
      → (open_selected store dev config (later 2 ctx) op_create s).0 ≡ err x
      → past_put {A = dev.Secret} (err x) ≡ false
  unfolding open_selected
  open_selected-before ctx s x e = ground arith

  pub create_inv :
      (ctx : Context) (raw : Bytes) (random : Option Bytes) (s s' : State S W)
      (r : Result ServiceError dev.Secret)
      → create store dev config ctx raw random s ≡ (r, s')
      → past_put r ≡ true
      → IsStored ctx raw random r s'
  unfolding create
  create_inv ctx raw random s s' r e past =
      let alias = trim raw in
      let s1 : State S W = record s { store = (store.has ctx alias s.store).1 } in
      let opened = open_selected store dev config (later 2 ctx) op_create s1 in
      elim (Result-cases (validate_alias alias)) [
        | inr (x, h) ↦ absurd (ground arith)
        | inl (u, valid) ↦ elim (Result-cases (store.has ctx alias s.store).0) [
          | inr (x, h) ↦ absurd (ground arith)
          | inl (true, h) ↦ absurd (ground arith)
          | inl (false, h) ↦ elim (Option-cases random) [
            | inl drawn ↦ absurd (ground arith)
            | inr (salt, drawn) ↦ elim (Result-cases opened.0) [
              | inr (x, ho) ↦ absurd (ground (arith, open_selected-before ctx s1 x ho))
              | inl ((auth, pin), ho) ↦
                  subst (λ q. IsStored ctx raw q r s') (sym drawn)
                    (made_inv ctx raw salt auth pin opened.1 s' r valid (ground arith) past
                      (open_selected-IsProvided (later 2 ctx) op_create s1 auth pin ho))
            ]
          ]
        ]
      ]

  -- What `derive` asked of the authenticator when it returns a secret.
  pub record IsDerived (ctx : Context) (raw : Bytes) (s : State S W) (y : dev.Secret) : Type 0 where
    pub rec : Record
    pub auth : dev.Auth
    pub pin : Bytes
    pub provided : IsProvided pin
    pub world : W
    pub found : (store.get ctx (trim raw) s.store).0 ≡ ok rec
    pub asked : (dev.derive auth (derive_options rec pin) world).0 ≡ ok y

  pub derive_inv :
      (ctx : Context) (raw : Bytes) (s s' : State S W) (y : dev.Secret)
      → derive store dev config ctx raw s ≡ (ok y, s')
      → IsDerived ctx raw s y
  unfolding derive
  derive_inv ctx raw s s' y e =
      let alias = trim raw in
      let s1 : State S W = record s { store = (store.get ctx alias s.store).1 } in
      let opened = open_selected store dev config (later 2 ctx) op_derive s1 in
      elim (Result-cases (store.get ctx alias s.store).0) [
        | inr (Error.not_found, h) ↦ absurd (ground arith)
        | inr (x, h) ↦ absurd (ground arith)
        | inl (rec, h) ↦ elim (Result-cases opened.0) [
          | inr (x, ho) ↦ absurd (ground arith)
          | inl ((auth, pin), ho) ↦ record {
            rec = rec;
            auth = auth;
            pin = pin;
            provided = open_selected-IsProvided (later 2 ctx) op_derive s1 auth pin ho;
            world = opened.1.world;
            found = h;
            asked = ground arith;
          }
        ]
      ]
