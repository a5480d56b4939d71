-- ===== src/Service/OnSqlite.antt =====
-- The store of pkg/store/sqlite as the store of the alias API of pkg/secrets.
use hmacsecret.Base.{◌≡◌, trim, Option, none, some, ok, arith, refl, ap, ◌∙◌}
use hmacsecret.Store.{Record}
use hmacsecret.Store.Credentials.{CredentialStore, IsCredentialStore}
use hmacsecret.Sqlite
use hmacsecret.Sqlite.Engine.{Sql, IsSql, IsLive}
use hmacsecret.Sqlite.Credentials.{sqlite_put_reads}
use hmacsecret.Service.Held.{IsHeld, is_held}
use hmacsecret.Pebble.Engine.{Codecs}
use hmacsecret.Pebble.Credentials.{trim_record}

module _ {D : Type 0} (sql : Sql D) (json : Codecs) where
  abbrev pub sqlite_store : CredentialStore (Option D)
  sqlite_store = record {
    put = Sqlite.put sql json;
    get = Sqlite.get sql json;
    delete = Sqlite.delete sql json;
    has = Sqlite.has sql json;
    list = Sqlite.list sql json;
    close = Sqlite.close sql json;
  }

  -- No call but `close` drops the database.
  pub sqlite_store-IsHeld : IsHeld sqlite_store is_held
  unfolding Sqlite.put Sqlite.get Sqlite.delete Sqlite.has Sqlite.list
  sqlite_store-IsHeld = record {
    put = λ ctx rec s. elim s [ none ↦ ground arith | some d ↦ ground arith ];
    get = λ ctx alias s. elim s [ none ↦ ground arith | some d ↦ ground arith ];
    delete = λ ctx alias s. elim s [ none ↦ ground arith | some d ↦ ground arith ];
    has = λ ctx alias s. elim s [ none ↦ ground arith | some d ↦ ground arith ];
    list = λ ctx s. elim s [ none ↦ ground arith | some d ↦ ground arith ];
  }

  -- The store keeps a record of a trimmed relying party.
  abbrev pub IsTrimmed : Record → Type 0
  IsTrimmed rec = trim rec.rp_id ≡ rec.rp_id

  -- The SQLite store fills the contract of a credential store for live contexts.
  pub sqlite_store-IsCredentialStore : IsSql sql → IsCredentialStore sqlite_store IsTrimmed IsLive
  sqlite_store-IsCredentialStore law = record {
    get-put = λ ctx ctx' rec s trimmed alias live h.
        let s' : Option D = (Sqlite.put sql json ctx rec s).1 in
        let run : Sqlite.put sql json ctx rec s ≡ (ok tt, s') = ap (λ r. (r, s')) h in
        let same : trim_record rec ≡ rec =
          λ i. record rec { alias = alias.trimmed i; rp_id = trimmed i } in
        (sqlite_put_reads sql json law ctx ctx' rec rec.alias s s' live refl run).0
        ∙ ap (λ r. (ok r, s')) same;
  }
