-- ===== src/Store/Credentials.antt =====
-- The interface `Store` of lib/store/store.go, and what its clients rely on.
use hmacsecret.Base.{◌≡◌, Bool, false, Bytes, List, ok, Exec}
use hmacsecret.Store.{Error, Context, Record}
use hmacsecret.Store.Backend.{IsAlias}

module _ (S : Type 0) where
  pub record CredentialStore : Type 0 where
    pub put : Context → Record → Exec S Error (Unit {0})
    pub get : Context → Bytes → Exec S Error Record
    pub delete : Context → Bytes → Exec S Error (Unit {0})
    pub has : Context → Bytes → Exec S Error Bool
    pub list : Context → Exec S Error (List Bytes)
    pub close : Exec S Error (Unit {0})

-- A record as `put` stores it under a trimmed alias is what `get` returns afterwards to a context that
-- `Lives`. `Keeps` says that the store's encoding carries a record.
pub record IsCredentialStore {S : Type 0} (store : CredentialStore S) (Keeps : Record → Type 0)
    (Lives : Context → Type 0) : Type 0 where
  pub get-put :
      (ctx ctx' : Context) (rec : Record) (s : S)
      → Keeps rec
      → IsAlias rec.alias
      → Lives ctx'
      → (store.put ctx rec s).0 ≡ ok tt
      → store.get ctx' rec.alias (store.put ctx rec s).1 ≡ (ok rec, (store.put ctx rec s).1)

-- A context whose first two checks pass.
abbrev pub PassesTwice : Context → Type 0
PassesTwice ctx = (ctx 0 ≡ false) × (ctx 1 ≡ false)
