-- ===== src/Service/Held.antt =====
-- What the alias API of pkg/secrets leaves alone in its store where each of the store's calls does.
use hmacsecret.Base.{
  ◌≡◌, Bool, true, false, Bytes, trim, Option, none, some, arith, ap, Option-cases, inl, inr,
}
use hmacsecret.Base.Fallible.{Result-cases}
use hmacsecret.Store.{Error, Context, Record, validate_alias}
use hmacsecret.Store.Backend.{later}
use hmacsecret.Store.Credentials.{CredentialStore}
use hmacsecret.Service.{
  Devices, Config, State, Operation, op_create, op_derive, create_options, open_selected, create,
  derive, delete, has, list,
}
use hmacsecret.Service.Asked.{make}

-- A handle whose database is not nil.
abbrev pub is_held : {D : Type 0} → Option D → Bool
is_held none = false
is_held (some d) = true

-- `f` reads from the store what none of its calls but `close` changes.
pub record IsHeld {S A : Type 0} (store : CredentialStore S) (f : S → A) : Type 0 where
  pub put : (ctx : Context) (rec : Record) (s : S) → f (store.put ctx rec s).1 ≡ f s
  pub get : (ctx : Context) (alias : Bytes) (s : S) → f (store.get ctx alias s).1 ≡ f s
  pub delete : (ctx : Context) (alias : Bytes) (s : S) → f (store.delete ctx alias s).1 ≡ f s
  pub has : (ctx : Context) (alias : Bytes) (s : S) → f (store.has ctx alias s).1 ≡ f s
  pub list : (ctx : Context) (s : S) → f (store.list ctx s).1 ≡ f s

module _ {S W A : Type 0} (store : CredentialStore S) (dev : Devices W) (config : Config)
    (f : S → A) (held : IsHeld store f) where
  open_selected_held :
      (ctx : Context) (op : Operation) (s : State S W)
      → (open_selected store dev config ctx op s).1.store ≡ s.store
  unfolding open_selected
  open_selected_held ctx op s = ground arith

  make_held :
      (ctx : Context) (alias salt : Bytes) (auth : dev.Auth) (pin : Bytes) (s : State S W)
      → f (make store dev config ctx alias salt auth pin s).1.store ≡ f s.store
  make_held ctx alias salt auth pin s =
      let made = dev.create auth (create_options config pin) s.world in
      elim (Result-cases made.0) [
        | inr (x, h) ↦ ground arith
        | inl (id, h) ↦
            let rec : Record = record {
              alias = alias;
              credential_id = id;
              salt = salt;
              rp_id = config.rp_id;
            } in
            let kept = held.put (later 5 ctx) rec s.store in
            elim (Result-cases (store.put (later 5 ctx) rec s.store).0) [
              | inr (x, hp) ↦ ground (arith, kept)
              | inl (u, hp) ↦ ground (arith, kept)
            ]
      ]

  pub create_held :
      (ctx : Context) (raw : Bytes) (random : Option Bytes) (s : State S W)
      → f (create store dev config ctx raw random s).1.store ≡ f s.store
  unfolding create
  create_held ctx raw random s =
      let alias = trim raw in
      let s1 : State S W = record s { store = (store.has ctx alias s.store).1 } in
      let opened = open_selected store dev config (later 2 ctx) op_create s1 in
      let up_to = open_selected_held (later 2 ctx) op_create s1 in
      let kept = held.has ctx alias s.store in
      elim (Result-cases (validate_alias alias)) [
        | inr (x, h) ↦ ground arith
        | inl (u, valid) ↦ elim (Result-cases (store.has ctx alias s.store).0) [
          | inr (x, h) ↦ ground (arith, kept)
          | inl (true, h) ↦ ground (arith, kept)
          | inl (false, h) ↦ elim (Option-cases random) [
            | inl drawn ↦ ground (arith, kept)
            | inr (salt, drawn) ↦ elim (Result-cases opened.0) [
              | inr (x, ho) ↦ ground (arith, up_to, kept)
              | inl ((auth, pin), ho) ↦
                  ground (arith, ap f up_to, kept, make_held ctx alias salt auth pin opened.1)
            ]
          ]
        ]
      ]

  pub derive_held :
      (ctx : Context) (raw : Bytes) (s : State S W)
      → f (derive store dev config ctx raw s).1.store ≡ f s.store
  unfolding derive
  derive_held ctx raw s =
      let alias = trim raw in
      let s1 : State S W = record s { store = (store.get ctx alias s.store).1 } in
      let opened = open_selected store dev config (later 2 ctx) op_derive s1 in
      let up_to = open_selected_held (later 2 ctx) op_derive s1 in
      let kept = held.get ctx alias s.store in
      elim (Result-cases (validate_alias alias)) [
        | inr (x, h) ↦ ground arith
        | inl (u, valid) ↦ elim (Result-cases (store.get ctx alias s.store).0) [
          | inr (Error.not_found, h) ↦ ground (arith, kept)
          | inr (x, h) ↦ ground (arith, kept)
          | inl (rec, h) ↦ elim (Result-cases opened.0) [
            | inr (x, ho) ↦ ground (arith, ap f up_to, kept)
            | inl ((auth, pin), ho) ↦ ground (arith, ap f up_to, kept)
          ]
        ]
      ]

  pub delete_held :
      (ctx : Context) (raw : Bytes) (s : State S W)
      → f (delete store dev config ctx raw s).1.store ≡ f s.store
  unfolding delete
  delete_held ctx raw s = ground (arith, held.delete ctx (trim raw) s.store)

  pub has_held :
      (ctx : Context) (raw : Bytes) (s : State S W)
      → f (has store dev config ctx raw s).1.store ≡ f s.store
  unfolding has
  has_held ctx raw s = ground (arith, held.has ctx (trim raw) s.store)

  pub list_held :
      (ctx : Context) (s : State S W) → f (list store dev config ctx s).1.store ≡ f s.store
  unfolding list
  list_held ctx s = ground (arith, held.list ctx s.store)
