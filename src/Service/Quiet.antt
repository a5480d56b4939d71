-- ===== src/Service/Quiet.antt =====
-- What the alias API of pkg/secrets leaves alone in the world where each of the calls injected into it does.
use hmacsecret.Base.{
  ◌≡◌, List, true, false, Bytes, trim, length, ◌==◌, Option, arith, ◌∙◌, Option-cases, Bool-cases,
  inl, inr,
}
use hmacsecret.Base.Fallible.{Result-cases}
use hmacsecret.Types.{DeviceInfo, CreateOptions, DeriveOptions}
use hmacsecret.Store.{Error, Context, Record, validate_alias, empty}
use hmacsecret.Store.Backend.{later}
use hmacsecret.Store.Credentials.{CredentialStore}
use hmacsecret.Service.{
  Devices, Config, State, Operation, op_create, op_derive, create_options, derive_options,
  open_selected, create, derive,
}
use hmacsecret.Service.Asked.{make}

-- `f` reads from the world what none of the calls changes.
pub record IsQuiet {W A : Type 0} (dev : Devices W) (f : W → A) : Type 0 where
  pub devices : (w : W) → f (dev.devices w).1 ≡ f w
  pub select : (ctx : Context) (l : List DeviceInfo) (w : W) → f (dev.select ctx l w).1 ≡ f w
  pub provide :
      (ctx : Context) (op : Operation) (d : DeviceInfo) (w : W) → f (dev.provide ctx op d w).1 ≡ f w
  pub open_path : (path : Bytes) (w : W) → f (dev.open_path path w).1 ≡ f w
  pub create : (auth : dev.Auth) (o : CreateOptions) (w : W) → f (dev.create auth o w).1 ≡ f w
  pub derive : (auth : dev.Auth) (o : DeriveOptions) (w : W) → f (dev.derive auth o w).1 ≡ f w

module _ {S W A : Type 0} (store : CredentialStore S) (dev : Devices W) (config : Config)
    (f : W → A) (quiet : IsQuiet dev f) where
  open_selected_quiet :
      (ctx : Context) (op : Operation) (s : State S W)
      → f (open_selected store dev config ctx op s).1.world ≡ f s.world
  unfolding open_selected
  open_selected_quiet ctx op s = elim (Bool-cases (ctx 0)) [
    | inl canceled ↦ ground arith
    | inr live ↦
        let listed = dev.devices s.world in
        elim (Result-cases listed.0) [
          | inr (x, h) ↦ ground (arith, quiet.devices s.world)
          | inl (devices, h) ↦ elim (Bool-cases (length devices == 0)) [
            | inl none_found ↦ ground (arith, quiet.devices s.world)
            | inr found ↦
                let chosen = dev.select (later 1 ctx) devices listed.1 in
                let up_to = quiet.select (later 1 ctx) devices listed.1 ∙ quiet.devices s.world in
                elim (Result-cases chosen.0) [
                  | inr (x, hs) ↦ ground (arith, up_to)
                  | inl (info, hs) ↦ elim (Bool-cases (empty (trim info.path))) [
                    | inl nameless ↦ ground (arith, up_to)
                    | inr named ↦
                        let given = dev.provide (later 2 ctx) op info chosen.1 in
                        let asked = quiet.provide (later 2 ctx) op info chosen.1 ∙ up_to in
                        elim (Result-cases given.0) [
                          | inr (x, hp) ↦ ground (arith, asked)
                          | inl (p, hp) ↦ elim (Result-cases (dev.open_path info.path given.1).0) [
                            | inr (x, ho) ↦
                                ground (arith, quiet.open_path info.path given.1 ∙ asked)
                            | inl (a, ho) ↦
                                ground (arith, quiet.open_path info.path given.1 ∙ asked)
                          ]
                        ]
                  ]
                ]
          ]
        ]
  ]

  pub derive_quiet :
      (ctx : Context) (raw : Bytes) (s : State S W)
      → f (derive store dev config ctx raw s).1.world ≡ f s.world
  unfolding derive
  derive_quiet ctx raw s =
      let alias = trim raw in
      let s1 : State S W = record s { store = (store.get ctx alias s.store).1 } in
      let opened = open_selected store dev config (later 2 ctx) op_derive s1 in
      let up_to = open_selected_quiet (later 2 ctx) op_derive s1 in
      elim (Result-cases (validate_alias alias)) [
        | inr (x, h) ↦ ground arith
        | inl (u, valid) ↦ elim (Result-cases (store.get ctx alias s.store).0) [
          | inr (Error.not_found, h) ↦ ground arith
          | inr (x, h) ↦ ground arith
          | inl (rec, h) ↦ elim (Result-cases opened.0) [
            | inr (x, ho) ↦ ground (arith, up_to)
            | inl ((auth, pin), ho) ↦
                ground (arith, quiet.derive auth (derive_options rec pin) opened.1.world, up_to)
          ]
        ]
      ]

  make_quiet :
      (ctx : Context) (alias salt : Bytes) (auth : dev.Auth) (pin : Bytes) (s : State S W)
      → f (make store dev config ctx alias salt auth pin s).1.world ≡ f s.world
  make_quiet ctx alias salt auth pin s =
      let made = dev.create auth (create_options config pin) s.world in
      let up_to = quiet.create auth (create_options config pin) s.world in
      elim (Result-cases made.0) [
        | inr (x, h) ↦ ground (arith, up_to)
        | inl (id, h) ↦
            let rec : Record = record {
              alias = alias;
              credential_id = id;
              salt = salt;
              rp_id = config.rp_id;
            } in
            elim (Result-cases (store.put (later 5 ctx) rec s.store).0) [
              | inr (x, hp) ↦ ground (arith, up_to)
              | inl (u, hp) ↦
                  ground (arith, up_to, quiet.derive auth (derive_options rec pin) made.1)
            ]
      ]

  pub create_quiet :
      (ctx : Context) (raw : Bytes) (random : Option Bytes) (s : State S W)
      → f (create store dev config ctx raw random s).1.world ≡ f s.world
  unfolding create
  create_quiet ctx raw random s =
      let alias = trim raw in
      let s1 : State S W = record s { store = (store.has ctx alias s.store).1 } in
      let opened = open_selected store dev config (later 2 ctx) op_create s1 in
      let up_to = open_selected_quiet (later 2 ctx) op_create s1 in
      elim (Result-cases (validate_alias alias)) [
        | inr (x, h) ↦ ground arith
        | inl (u, valid) ↦ elim (Result-cases (store.has ctx alias s.store).0) [
          | inr (x, h) ↦ ground arith
          | inl (true, h) ↦ ground arith
          | inl (false, h) ↦ elim (Option-cases random) [
            | inl drawn ↦ ground arith
            | inr (salt, drawn) ↦ elim (Result-cases opened.0) [
              | inr (x, ho) ↦ ground (arith, up_to)
              | inl ((auth, pin), ho) ↦
                  ground (arith, up_to, make_quiet ctx alias salt auth pin opened.1)
            ]
          ]
        ]
      ]
